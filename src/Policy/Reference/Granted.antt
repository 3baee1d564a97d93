-- ===== src/Policy/Reference/Granted.antt =====
-- The exact set of grants that the reference profile of mcps-policy/src/reference.rs allows.
use mcps.Prelude.{
  ℕ, Str, str_eq_iff, is_empty, List, ◌≡◌, ◌↔◌, true, false, not, some, Result-cases, inl, inr, ok,
  arith, >>=-eq-ok, >>-eq-ok, ok_or-eq-ok, guard-eq-ok, ok_or, guard, sym, ◌∙◌, ap,
}
use mcps.Core.Json.{Value}
use mcps.Core.Canonical.Parser.{canonicalize}
use mcps.Policy.Error.{allow, malformed}
use mcps.Policy.Revocation.{not_revoked}
use mcps.Policy.Profile.{Situation}
use mcps.Policy.Scope.{requested_method, requested_target, requested_arguments, any_grant, permits}
use mcps.Policy.Reference.{
  Libraries, ReferenceGrant, to_malformed, verify_issuer_signature, check_window, check_revocation,
  check_scope, check_subjects, read_grant, evaluate_inner, authorize,
}
use mcps.Policy.Reference.Steps.{
  InWindow, IssuerSigned, check_revocation-ok, check_scope-ok, check_subjects-ok,
  check_window-InWindow, to_malformed-ok, verify_issuer_signature-IssuerSigned,
}

pub record Granted (l : Libraries) (artifact_bytes : List ℕ)
    (s : Situation l.externals.VerificationKey) : Type 0 where
  pub canonical : List ℕ
  pub canonical_of : canonicalize artifact_bytes ≡ ok canonical
  pub artifact : Value
  pub artifact_of : l.externals.from_slice canonical ≡ some artifact
  pub grant : ReferenceGrant
  pub grant_of : l.grant_from_value artifact ≡ ok grant
  pub signed : IssuerSigned l.externals artifact grant s.resolver
  pub grantee : grant.grantee ≡ s.verified.verified_signer
  pub subject : grant.subject ≡ s.verified.on_behalf_of
  pub audience : grant.audience ≡ s.verified.audience
  pub window : InWindow grant s.now_unix
  pub in_force : s.revocation grant.revocation_id ≡ ok not_revoked
  pub no_blank_target : any_grant (λ g. is_empty g.tool) grant.grants ≡ false
  pub target : Str
  pub target_of : requested_target s.request ≡ some target
  pub covered :
      any_grant
        (permits l.value_eq (requested_method s.request) target (requested_arguments s.request))
        grant.grants
      ≡ true

module _ (l : Libraries) (artifact_bytes : List ℕ) where
  read_grant-ok :
      (artifact : Value) (grant : ReferenceGrant)
      → read_grant l artifact_bytes ≡ ok (artifact, grant)
      → (canonical : List ℕ) × (canonicalize artifact_bytes ≡ ok canonical)
        × (l.externals.from_slice canonical ≡ some artifact)
        × (l.grant_from_value artifact ≡ ok grant)
  unfolding read_grant
  read_grant-ok artifact grant h =
      let (canonical, ce, h1) = >>=-eq-ok (to_malformed (canonicalize artifact_bytes)) _ h in
      let (value, ve, h2) = >>=-eq-ok (ok_or (l.externals.from_slice canonical) _) _ h1 in
      let (found, fe, h3) = >>=-eq-ok (to_malformed (l.grant_from_value value)) _ h2 in
      let of_value : l.grant_from_value value ≡ ok found = to_malformed-ok _ fe in
      let same_value : value ≡ artifact = cc in
      let same_grant : found ≡ grant = cc in
      (
        canonical,
        to_malformed-ok _ ce,
        ok_or-eq-ok _ _ ve ∙ ap some same_value,
        ap l.grant_from_value (sym same_value) ∙ of_value ∙ ap ok same_grant,
      )

  module _ (s : Situation l.externals.VerificationKey) where
    evaluate_inner-Granted : evaluate_inner l artifact_bytes s ≡ ok tt → Granted l artifact_bytes s
    unfolding evaluate_inner
    evaluate_inner-Granted h =
        let ((artifact, grant), ge, h1) = >>=-eq-ok (read_grant l artifact_bytes) _ h in
        let (signed, h2) =
          >>-eq-ok (verify_issuer_signature l.externals artifact grant s.resolver) _ h1 in
        let (subjects, h3) = >>-eq-ok (check_subjects grant s.verified) _ h2 in
        let (window, h4) = >>-eq-ok (check_window grant s.now_unix) _ h3 in
        let (in_force, h5) = >>-eq-ok (check_revocation (s.revocation grant.revocation_id)) _ h4 in
        let (blank, h6) =
          >>-eq-ok (guard (not (any_grant (λ g. is_empty g.tool) grant.grants)) malformed) _ h5 in
        granted artifact grant ge signed subjects window in_force (guard-eq-ok _ _ blank) h6
      where
        granted :
            (artifact : Value) (grant : ReferenceGrant)
            → read_grant l artifact_bytes ≡ ok (artifact, grant)
            → verify_issuer_signature l.externals artifact grant s.resolver ≡ ok tt
            → check_subjects grant s.verified ≡ ok tt
            → check_window grant s.now_unix ≡ ok tt
            → check_revocation (s.revocation grant.revocation_id) ≡ ok tt
            → not (any_grant (λ g. is_empty g.tool) grant.grants) ≡ true
            → check_scope l.value_eq grant s.request ≡ ok tt
            → Granted l artifact_bytes s
        granted artifact grant ge signed subjects window in_force blank scope =
            let (canonical, ce, ve, fe) = read_grant-ok artifact grant ge in
            let (grantee, subject, audience) = check_subjects-ok grant s.verified subjects in
            let (target, te, covered) = check_scope-ok l.value_eq grant s.request scope in
            record {
              canonical = canonical;
              canonical_of = ce;
              artifact = artifact;
              artifact_of = ve;
              grant = grant;
              grant_of = fe;
              signed = (verify_issuer_signature-IssuerSigned _ _ _ _).0 signed;
              grantee = grantee;
              subject = subject;
              audience = audience;
              window = (check_window-InWindow _ _).0 window;
              in_force = check_revocation-ok _ in_force;
              no_blank_target = ground (arith, blank);
              target = target;
              target_of = te;
              covered = covered;
            }

    Granted-evaluate_inner : Granted l artifact_bytes s → evaluate_inner l artifact_bytes s ≡ ok tt
    unfolding evaluate_inner read_grant to_malformed check_subjects check_scope check_revocation
    Granted-evaluate_inner g =
        let signed = (verify_issuer_signature-IssuerSigned _ _ _ _).1 g.signed in
        let window = (check_window-InWindow _ _).1 g.window in
        ground (
          arith,
          g.canonical_of,
          g.artifact_of,
          g.grant_of,
          signed,
          window,
          g.in_force,
          g.no_blank_target,
          g.target_of,
          g.covered,
          str_eq_iff g.grant.grantee s.verified.verified_signer,
          str_eq_iff g.grant.subject s.verified.on_behalf_of,
          str_eq_iff g.grant.audience s.verified.audience,
        )

    -- The reference profile allows exactly the artifacts that have a canonical form, hold a grant
    -- signed by the key that the resolver gives for its issuer, name the signer, the principal and
    -- the audience of the verified request, are in their window without a skew and affirmatively
    -- not revoked, have no blank target, and grant the operation that the request asks for.
    pub authorize_exact : (authorize l artifact_bytes s ≡ allow) ↔ Granted l artifact_bytes s
    unfolding authorize
    authorize_exact = (forward, backward)
      where
        forward : authorize l artifact_bytes s ≡ allow → Granted l artifact_bytes s
        forward h = elim (Result-cases (evaluate_inner l artifact_bytes s)) [
          | inl (done, p) ↦ evaluate_inner-Granted p
          | inr (e, p) ↦ absurd (ground (arith, p))
        ]

        backward : Granted l artifact_bytes s → authorize l artifact_bytes s ≡ allow
        backward g = ground (arith, Granted-evaluate_inner g)
