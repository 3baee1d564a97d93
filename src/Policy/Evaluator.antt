-- ===== src/Policy/Evaluator.antt =====
-- mcps-policy/src/evaluator.rs: the evaluator of a deployment, which selects a profile, checks that the
-- artifact is the one that the request is bound to, and hands it to the profile.
pub mod Bound
use mcps.Prelude.{
  ℕ, Str, codes, str_eq, starts_with, drop, Option, none, some, List, Result, ok, err, ◌>>=◌, ◌>>◌,
  guard, ok_or, if◌then◌else◌,
}
use mcps.Prelude.Map.{Eq, Map, empty, insert}
use mcps.Core.Envelope.{AuthorizationBinding, opaque_bytes, authz_system_reference}
use mcps.Core.Resolver.{str_key_eq}
use mcps.Core.Crypto.{Externals}
use mcps.Core.Pipeline.{draft01_hash, draft02_binding}
use mcps.Policy.Error.{
  PolicyError, AuthorizationDecision, deny, hash_mismatch, profile_unsupported,
  binding_profile_required,
}
use mcps.Policy.Block.{extract_authorization_block, decoded_artifact}
use mcps.Policy.Profile.{AuthorizationProfile, AuthorizationReferenceResolver, Situation}

pub record PolicyEvaluator (Key : Type 0) : Type 0 where
  pub profiles : Map Str (AuthorizationProfile Key)
  pub reference_resolvers : Map Str (AuthorizationReferenceResolver Key)

module _ {Key : Type 0} where
  unfoldable pub new : PolicyEvaluator Key
  unfolding empty
  new = record { profiles = empty; reference_resolvers = empty }

  unfoldable pub register : PolicyEvaluator Key → AuthorizationProfile Key → PolicyEvaluator Key
  unfolding insert
  register p profile = record p { profiles = insert profile.profile_id profile p.profiles }

  unfoldable pub register_reference_resolver :
      PolicyEvaluator Key → AuthorizationReferenceResolver Key → PolicyEvaluator Key
  unfolding insert
  register_reference_resolver p r = record p {
    reference_resolvers = insert r.authorization_system_id r p.reference_resolvers;
  }

-- `expected.strip_prefix("sha256:").unwrap_or(expected)`.
unfoldable pub bare_digest : Str → Str
unfolding starts_with codes
bare_digest expected = if starts_with expected (codes "sha256:") then drop 7 expected else expected

module _ (x : Externals) (p : PolicyEvaluator x.VerificationKey)
    (s : Situation x.VerificationKey) where
  unfoldable pub evaluate_artifact_binding :
      (Str → Result PolicyError (Unit {0})) → Result PolicyError AuthorizationDecision
  evaluate_artifact_binding check_binding = do
    block ← extract_authorization_block s.request
    profile ← ok_or (p.profiles block.profile) profile_unsupported
    artifact_bytes ← decoded_artifact x block
    expected ← profile.expected_authorization_hash artifact_bytes
    check_binding expected
    ok (profile.authorize artifact_bytes s)

  unfoldable pub evaluate_inner : Result PolicyError AuthorizationDecision
  evaluate_inner = elim s.verified.authorization [
    | draft01_hash authorization_hash ↦
        evaluate_artifact_binding
          λ expected. guard (str_eq expected authorization_hash) hash_mismatch
    | draft02_binding (opaque_bytes digest_alg digest_value) ↦
        evaluate_artifact_binding
          λ expected. guard (str_eq (bare_digest expected) digest_value) hash_mismatch
    | draft02_binding (authz_system_reference system scheme value digest_alg digest_value) ↦ do
      resolver ← ok_or (p.reference_resolvers system) binding_profile_required
      ok (
          resolver.authorize_reference
            (authz_system_reference system scheme value digest_alg digest_value) s)
  ]

  unfoldable pub evaluate : AuthorizationDecision
  evaluate = elim evaluate_inner [ ok decision ↦ decision | err e ↦ deny e ]
