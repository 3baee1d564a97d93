-- ===== src/Policy/Reference/Registered.antt =====
-- The evaluator of mcps-policy/src/evaluator.rs with the reference profile alone.
use mcps.Prelude.{
  ℕ, Str, str_eq, str_eq_iff, Bool-cases, List, ◌≡◌, ◌≢◌, inl, inr, some, ok, arith, ap, ◌∙◌,
}
use mcps.Prelude.Map.{empty, insert}
use mcps.Policy.Error.{allow}
use mcps.Policy.Profile.{AuthorizationProfile, AuthorizationReferenceResolver, Situation}
use mcps.Policy.Evaluator.{PolicyEvaluator, new, register, evaluate}
use mcps.Policy.Evaluator.Bound.{Binds, evaluate_exact}
use mcps.Policy.Reference.{
  Libraries, reference_profile, reference_profile_id, expected_authorization_hash, authorize,
}
use mcps.Policy.Reference.Granted.{Granted, authorize_exact}

module _ (l : Libraries) where
  abbrev pub deployment : PolicyEvaluator l.externals.VerificationKey
  deployment = register new (reference_profile l)

  registered_alone :
      (name : Str) (profile : AuthorizationProfile l.externals.VerificationKey)
      → deployment.profiles name ≡ some profile
      → (reference_profile_id ≡ name) × (reference_profile l ≡ profile)
  unfolding register new insert empty
  registered_alone name profile h = elim (Bool-cases (str_eq reference_profile_id name)) [
    | inl p ↦ ((str_eq_iff reference_profile_id name).0 p, ground (arith, p))
    | inr p ↦ absurd (ground (arith, p))
  ]

  no_resolver :
      (name : Str) (r : AuthorizationReferenceResolver l.externals.VerificationKey)
      → deployment.reference_resolvers name ≢ some r
  unfolding register new empty
  no_resolver name r h = cc

  -- A deployment that registers the reference profile alone allows a request only for an artifact
  -- that the profile grants, and whose canonical hash is the one that the verified request is bound
  -- to.
  pub evaluate-Granted :
      (s : Situation l.externals.VerificationKey)
      → evaluate l.externals deployment s ≡ allow
      → (artifact_bytes : List ℕ) × (expected : Str) × Granted l artifact_bytes s
        × (expected_authorization_hash l artifact_bytes ≡ ok expected)
        × Binds s.verified.authorization expected
  evaluate-Granted s h = elim ((evaluate_exact l.externals deployment s).0 h) [
    | inl a ↦
        let (_, same) = registered_alone a.block.profile a.profile a.registered in
        let allowed : authorize l a.artifact_bytes s ≡ allow =
          ap
            (λ (q : AuthorizationProfile l.externals.VerificationKey).
              q.authorize a.artifact_bytes s)
            same
          ∙ a.allowed in
        (
          a.artifact_bytes,
          a.expected,
          (authorize_exact l a.artifact_bytes s).0 allowed,
          ap
                (λ (q : AuthorizationProfile l.externals.VerificationKey).
                  q.expected_authorization_hash a.artifact_bytes)
                same
              ∙ a.hashed,
          a.bound,
        )
    | inr r ↦ absurd (no_resolver r.system r.resolver r.registered)
  ]
