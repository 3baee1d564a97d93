-- ===== src/Policy/Evaluator/Bound.antt =====
-- What it takes for the evaluator of mcps-policy/src/evaluator.rs to allow a request.
use mcps.Prelude.{
  ℕ, Str, str_eq, str_eq_iff, List, ◌≡◌, ◌⊎◌, ◌↔◌, inl, inr, refl, true, Bool, some, ok, arith,
  Result-cases, >>=-eq-ok, >>-eq-ok, ok_or, ok_or-eq-ok, guard, guard-eq-ok,
}
use mcps.Core.Envelope.{opaque_bytes, authz_system_reference}
use mcps.Core.Crypto.{Externals}
use mcps.Core.Pipeline.{VerifiedAuthorization, draft01_hash, draft02_binding}
use mcps.Policy.Error.{allow, hash_mismatch}
use mcps.Policy.Block.{AuthorizationBlock, extract_authorization_block, decoded_artifact}
use mcps.Policy.Profile.{AuthorizationProfile, AuthorizationReferenceResolver, Situation}
use mcps.Policy.Evaluator.{
  PolicyEvaluator, bare_digest, evaluate_artifact_binding, evaluate_inner, evaluate,
}

-- The hash that a profile computes of an artifact is the one that the verified request is bound to.
abbrev pub Binds : VerifiedAuthorization → Str → Type 0
Binds (draft01_hash authorization_hash) expected = expected ≡ authorization_hash
Binds (draft02_binding (opaque_bytes alg digest_value)) expected =
    bare_digest expected ≡ digest_value
Binds (draft02_binding (authz_system_reference system scheme value alg digest)) expected = ⊥

module _ (x : Externals) (p : PolicyEvaluator x.VerificationKey)
    (s : Situation x.VerificationKey) where
  -- A registered profile allows the artifact in the request, to which the request is bound.
  pub record ArtifactAllowed : Type 0 where
    pub block : AuthorizationBlock
    pub block_of : extract_authorization_block s.request ≡ ok block
    pub profile : AuthorizationProfile x.VerificationKey
    pub registered : p.profiles block.profile ≡ some profile
    pub artifact_bytes : List ℕ
    pub decoded : decoded_artifact x block ≡ ok artifact_bytes
    pub expected : Str
    pub hashed : profile.expected_authorization_hash artifact_bytes ≡ ok expected
    pub bound : Binds s.verified.authorization expected
    pub allowed : profile.authorize artifact_bytes s ≡ allow

  -- The resolver of the system that the request names allows its reference.
  pub record ReferenceAllowed : Type 0 where
    pub system : Str
    pub scheme : Str
    pub value : Str
    pub alg : Str
    pub digest : Str
    pub binding :
        s.verified.authorization
        ≡ draft02_binding (authz_system_reference system scheme value alg digest)
    pub resolver : AuthorizationReferenceResolver x.VerificationKey
    pub registered : p.reference_resolvers system ≡ some resolver
    pub allowed :
        resolver.authorize_reference (authz_system_reference system scheme value alg digest) s
        ≡ allow

  artifact_binding-allow :
      (test : Str → Bool)
      → ((expected : Str) → test expected ≡ true → Binds s.verified.authorization expected)
      → evaluate_artifact_binding x p s (λ expected. guard (test expected) hash_mismatch) ≡ ok allow
      → ArtifactAllowed
  unfolding evaluate_artifact_binding
  artifact_binding-allow test binds h =
      let (block, be, h1) = >>=-eq-ok (extract_authorization_block s.request) _ h in
      let (profile, re, h2) = >>=-eq-ok (ok_or (p.profiles block.profile) _) _ h1 in
      let (artifact_bytes, de, h3) = >>=-eq-ok (decoded_artifact x block) _ h2 in
      let (expected, ee, h4) =
        >>=-eq-ok (profile.expected_authorization_hash artifact_bytes) _ h3 in
      let (bound, h5) = >>-eq-ok (guard (test expected) hash_mismatch) _ h4 in
      record {
        block = block;
        block_of = be;
        profile = profile;
        registered = ok_or-eq-ok _ _ re;
        artifact_bytes = artifact_bytes;
        decoded = de;
        expected = expected;
        hashed = ee;
        bound = binds expected (guard-eq-ok _ _ bound);
        allowed = cc;
      }

  evaluate_inner-allow :
      (authorization : VerifiedAuthorization)
      → s.verified.authorization ≡ authorization
      → evaluate_inner x p s ≡ ok allow
      → ArtifactAllowed ⊎ ReferenceAllowed
  unfolding evaluate_inner
  evaluate_inner-allow (draft01_hash hash) e h = inl (
      artifact_binding-allow (λ expected. str_eq expected hash)
        (λ expected passed. rw e ((str_eq_iff _ _).0 passed)) (rw (e, evaluate_inner) at h))
  evaluate_inner-allow (draft02_binding (opaque_bytes alg digest)) e h = inl (
      artifact_binding-allow (λ expected. str_eq (bare_digest expected) digest)
        (λ expected passed. rw e ((str_eq_iff _ _).0 passed)) (rw (e, evaluate_inner) at h))
  evaluate_inner-allow (draft02_binding (authz_system_reference system scheme value alg digest)) e
        h =
      let h0 = rw (e, evaluate_inner) at h in
      let (resolver, re, h1) = >>=-eq-ok (ok_or (p.reference_resolvers system) _) _ h0 in
      inr (record {
        system = system;
        scheme = scheme;
        value = value;
        alg = alg;
        digest = digest;
        binding = e;
        resolver = resolver;
        registered = ok_or-eq-ok _ _ re;
        allowed = cc;
      })

  ArtifactAllowed-evaluate :
      (authorization : VerifiedAuthorization)
      → s.verified.authorization ≡ authorization
      → ArtifactAllowed
      → evaluate x p s ≡ allow
  unfolding evaluate evaluate_inner evaluate_artifact_binding
  ArtifactAllowed-evaluate (draft01_hash hash) e a =
      let bound : a.expected ≡ hash = rw e at a.bound in
      ground (
        arith,
        e,
        a.block_of,
        a.registered,
        a.decoded,
        a.hashed,
        a.allowed,
        (str_eq_iff a.expected hash).1 bound,
      )
  ArtifactAllowed-evaluate (draft02_binding (opaque_bytes alg digest)) e a =
      let bound : bare_digest a.expected ≡ digest = rw e at a.bound in
      ground (
        arith,
        e,
        a.block_of,
        a.registered,
        a.decoded,
        a.hashed,
        a.allowed,
        (str_eq_iff (bare_digest a.expected) digest).1 bound,
      )
  ArtifactAllowed-evaluate (draft02_binding (authz_system_reference sy sc v alg digest)) e a =
      absurd (rw e at a.bound)

  ReferenceAllowed-evaluate : ReferenceAllowed → evaluate x p s ≡ allow
  unfolding evaluate evaluate_inner
  ReferenceAllowed-evaluate r = ground (arith, r.binding, r.registered, r.allowed)

  -- The evaluator allows a request exactly when a registered profile allows the artifact in it, and
  -- the hash that the profile computes of the artifact is the one that the verified request is
  -- bound to, or when the resolver registered for the system that the verified request names allows
  -- its reference.
  pub evaluate_exact : (evaluate x p s ≡ allow) ↔ (ArtifactAllowed ⊎ ReferenceAllowed)
  unfolding evaluate
  evaluate_exact = (forward, backward)
    where
      forward : evaluate x p s ≡ allow → ArtifactAllowed ⊎ ReferenceAllowed
      forward h = elim (Result-cases (evaluate_inner x p s)) [
        | inl (decision, e) ↦ evaluate_inner-allow _ refl (ground (arith, e))
        | inr (error, e) ↦ absurd (ground (arith, e))
      ]

      backward : ArtifactAllowed ⊎ ReferenceAllowed → evaluate x p s ≡ allow
      backward (inl a) = ArtifactAllowed-evaluate _ refl a
      backward (inr r) = ReferenceAllowed-evaluate r
