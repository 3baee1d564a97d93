-- ===== src/Policy/Reference.antt =====
-- mcps-policy/src/reference.rs: the reference profile, whose artifact is a grant that an issuer has
-- signed. `serde_json::from_value` at a grant and the equality of `serde_json::Value` are parameters.
pub mod Mint
pub mod Steps
pub mod Granted
pub mod Registered
pub mod Signature
mod Tests
use mcps.Prelude.{
  ℕ, Str, codes, str_eq, is_empty, ◌==◌, ◌&&◌, ◌||◌, Bool, true, false, not, Option, none, some,
  List, [], ◌∷◌, Result, ok, err, ◌>>=◌, ◌>>◌, guard, ok_or, map_err, if◌then◌else◌,
}
use mcps.Prelude.Int.{ℤ, ltb_ℤ}
use mcps.Core.Error.{invalid_signature}
use mcps.Core.Ids.{sig_alg_ed25519}
use mcps.Core.Json.{
  Value, Items, Members, string, array, object, no_items, item, no_members, member, get, get_member,
  as_str, as_object, remove_member, count_members,
}
use mcps.Core.Constraints.{FromValue, and_then_get}
use mcps.Core.Time.{parse_rfc3339_utc}
use mcps.Core.Resolver.{TrustResolver}
use mcps.Core.Crypto.{Externals, verify_ed25519_with, sha256_hash_id}
use mcps.Core.Canonical.{canonicalize_json_value}
use mcps.Core.Canonical.Parser.{canonicalize}
use mcps.Core.Signing.{put}
use mcps.Core.Pipeline.{VerifiedRequest}
use mcps.Policy.Error.{
  PolicyError, AuthorizationDecision, allow, deny, malformed, signature_invalid, signer_mismatch,
  subject_mismatch, audience_mismatch, expired, revoked, revocation_unavailable, scope_denied,
}
use mcps.Policy.Block.{and_then_str}
use mcps.Policy.Revocation.{RevocationStatus, RevocationUnavailable, not_revoked}
use mcps.Policy.Revocation
use mcps.Policy.Scope.{
  Grant, requested_method, requested_target, requested_arguments, any_grant, permits,
}
use mcps.Policy.Profile.{AuthorizationProfile, Situation}

abbrev pub reference_profile_id : Str
reference_profile_id = codes "se.syncom/mcps-authz-reference-v1"

pub record GrantSignature : Type 0 where
  pub alg : Str
  pub key_id : Str
  pub value : Str

pub record ReferenceGrant : Type 0 where
  pub issuer : Str
  pub grantee : Str
  pub subject : Str
  pub audience : Str
  pub grants : List Grant
  pub not_before : Str
  pub expires_at : Str
  pub revocation_id : Str
  pub signature : GrantSignature

pub record Libraries : Type 1 where
  pub externals : Externals
  pub grant_from_value : FromValue ReferenceGrant
  pub value_eq : Value → Value → Bool

unfoldable pub to_malformed : {E A : Type 0} → Result E A → Result PolicyError A
to_malformed r = map_err (λ _. malformed) r

unfoldable pub issuer_preimage : Value → Result PolicyError (List ℕ)
issuer_preimage artifact = do
  signature ← ok_or (get artifact (codes "signature")) malformed
  fields ← ok_or (as_object signature) malformed
  let stripped = object (remove_member (codes "value") fields)
  to_malformed (canonicalize_json_value (put artifact (codes "signature") stripped))

unfoldable pub verify_issuer_signature :
    (x : Externals)
    → Value
    → ReferenceGrant
    → TrustResolver x.VerificationKey
    → Result PolicyError (Unit {0})
verify_issuer_signature x artifact grant resolver = do
  guard (str_eq grant.signature.alg sig_alg_ed25519) signature_invalid
  preimage ← issuer_preimage artifact
  key ← map_err (λ _. signature_invalid) (resolver grant.issuer grant.signature.key_id)
  map_err (λ _. signature_invalid)
      (verify_ed25519_with x preimage grant.signature.value key invalid_signature)

unfoldable pub check_window : ReferenceGrant → ℤ → Result PolicyError (Unit {0})
check_window grant now_unix = do
  not_before ← to_malformed (parse_rfc3339_utc grant.not_before)
  expires_at ← to_malformed (parse_rfc3339_utc grant.expires_at)
  guard (not (ltb_ℤ now_unix not_before || ltb_ℤ expires_at now_unix)) expired

unfoldable pub check_revocation :
    Result RevocationUnavailable RevocationStatus → Result PolicyError (Unit {0})
check_revocation (ok not_revoked) = ok tt
check_revocation (ok Revocation.revoked) = err revoked
check_revocation (err unavailable) = err revocation_unavailable

unfoldable pub check_scope :
    (Value → Value → Bool) → ReferenceGrant → Value → Result PolicyError (Unit {0})
check_scope value_eq grant request = elim (requested_target request) [
  | none ↦ err scope_denied
  | some tool ↦
      guard
        (any_grant (permits value_eq (requested_method request) tool (requested_arguments request))
          grant.grants)
        scope_denied
]

unfoldable pub check_subjects : ReferenceGrant → VerifiedRequest → Result PolicyError (Unit {0})
check_subjects grant verified = do
  guard (str_eq grant.grantee verified.verified_signer) signer_mismatch
  guard (str_eq grant.subject verified.on_behalf_of) subject_mismatch
  guard (str_eq grant.audience verified.audience) audience_mismatch

module _ (l : Libraries) where
  -- The canonical artifact, and the grant that it holds.
  unfoldable pub read_grant : List ℕ → Result PolicyError (Value × ReferenceGrant)
  read_grant artifact_bytes = do
    canonical_artifact ← to_malformed (canonicalize artifact_bytes)
    artifact ← ok_or (l.externals.from_slice canonical_artifact) malformed
    grant ← to_malformed (l.grant_from_value artifact)
    ok (artifact, grant)

  unfoldable pub evaluate_inner :
      List ℕ → Situation l.externals.VerificationKey → Result PolicyError (Unit {0})
  evaluate_inner artifact_bytes s = do
    (artifact, grant) ← read_grant artifact_bytes
    verify_issuer_signature l.externals artifact grant s.resolver
    check_subjects grant s.verified
    check_window grant s.now_unix
    check_revocation (s.revocation grant.revocation_id)
    guard (not (any_grant (λ g. is_empty g.tool) grant.grants)) malformed
    check_scope l.value_eq grant s.request

  unfoldable pub authorize : List ℕ → Situation l.externals.VerificationKey → AuthorizationDecision
  authorize artifact_bytes s = elim (evaluate_inner artifact_bytes s) [
    | ok _ ↦ allow
    | err e ↦ deny e
  ]

  unfoldable pub expected_authorization_hash : List ℕ → Result PolicyError Str
  expected_authorization_hash artifact_bytes = do
    canon ← to_malformed (canonicalize artifact_bytes)
    ok (sha256_hash_id l.externals canon)

  abbrev pub reference_profile : AuthorizationProfile l.externals.VerificationKey
  reference_profile = record {
    profile_id = reference_profile_id;
    expected_authorization_hash = expected_authorization_hash;
    authorize = authorize;
  }
