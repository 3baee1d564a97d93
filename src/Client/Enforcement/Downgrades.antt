-- ===== src/Client/Enforcement/Downgrades.antt =====
-- When mcps-client-core/src/enforcement.rs accepts a response, and when it falls back to one without
-- evidence.
use mcps.Prelude.{
  ℕ, Str, str_eq_iff, List, Option, some, none, Result, ok, err, ◌≡◌, ◌↔◌, refl, >>=-eq-ok,
  >>=-eq-err, arith, >>-eq-ok, guard-eq-ok, subst, inl, inr, ◌⊎◌, ◌≢◌, ap, ◌∙◌, ok-injective, Bool,
  true, false,
}
use mcps.Core.Error.{McpsError, missing_envelope}
use mcps.Core.Resolver.{TrustResolver}
use mcps.Core.Crypto.{Externals}
use mcps.Core.Response.{VerifiedResponse, verify_response_draft02}
use mcps.Core.Response.Binding.{Answers, Carries02, verify_response_draft02-Answers}
use mcps.Core.Response.Unenveloped.{Unenveloped, verify_response_draft02-Unenveloped}
use mcps.Client.Response.{ResponseExpectation, check_server_signer, verify_signed_response}
use mcps.Client.Enforcement.{
  EnforcementMode, require_mcps, allow_legacy_explicit, AbsenceReason, plain_unsigned, absent,
  invalid, EnforcementDecision, accept_mcps, fall_back_to_legacy, classify_response_result, decide,
}

signer-expected :
    (pinned : Option Str) (signer expected : Str)
    → check_server_signer pinned signer ≡ ok tt
    → pinned ≡ some expected
    → signer ≡ expected
unfolding check_server_signer
signer-expected none signer expected h p = cc
signer-expected (some s) signer expected h p =
    let same : s ≡ expected = cc in
    subst (λ t. signer ≡ t) same ((str_eq_iff signer s).0 (guard-eq-ok _ _ h))

classify_cases :
    (e : McpsError)
    → ((e ≡ missing_envelope) × (classify_response_result (err e) ≡ absent plain_unsigned))
      ⊎ ((e ≢ missing_envelope) × (classify_response_result (err e) ≡ invalid e))
unfolding classify_response_result
classify_cases missing_envelope = inl (refl, refl)
classify_cases _ = inr ((λ h. cc), refl)

absent_not_accepted :
    (mode : EnforcementMode) (allowed : Bool) (reason : AbsenceReason)
    → decide mode allowed (absent reason) ≢ accept_mcps
unfolding decide
absent_not_accepted require_mcps allowed reason h = cc
absent_not_accepted allow_legacy_explicit true reason h = cc
absent_not_accepted allow_legacy_explicit false reason h = cc

absent_falls_back :
    (mode : EnforcementMode) (allowed : Bool) (reason reason' : AbsenceReason)
    → (decide mode allowed (absent reason) ≡ fall_back_to_legacy reason')
      ↔ ((mode ≡ allow_legacy_explicit) × (allowed ≡ true) × (reason' ≡ reason))
unfolding decide
absent_falls_back require_mcps allowed reason reason' = ((λ h. cc), (λ h. let p = h.0 in cc))
absent_falls_back allow_legacy_explicit true reason reason' =
    ((λ h. (refl, refl, cc)), (λ h. let p = h.2 in cc))
absent_falls_back allow_legacy_explicit false reason reason' = ((λ h. cc), (λ h. let p = h.1 in cc))

module _ (mode : EnforcementMode) (allowed : Bool) where
  accepted-ok :
      (r : Result McpsError VerifiedResponse)
      → decide mode allowed (classify_response_result r) ≡ accept_mcps
      → (v : VerifiedResponse) × (r ≡ ok v)
  unfolding decide classify_response_result
  accepted-ok (ok v) h = (v, refl)
  accepted-ok (err e) h = elim (classify_cases e) [
    | inl (p, c) ↦ absurd (absent_not_accepted mode allowed plain_unsigned (rw c at h))
    | inr (p, c) ↦ absurd (let k = rw c at h in cc)
  ]

  falls_back :
      (r : Result McpsError VerifiedResponse) (reason : AbsenceReason)
      → (decide mode allowed (classify_response_result r) ≡ fall_back_to_legacy reason) ↔ (
          (mode ≡ allow_legacy_explicit)
          × (allowed ≡ true)
          × (r ≡ err missing_envelope)
          × (reason ≡ plain_unsigned))
  unfolding decide classify_response_result
  falls_back (ok v) reason = ((λ h. cc), (λ h. let p = h.2 in cc))
  falls_back (err e) reason = elim (classify_cases e) [
    | inl (p, c) ↦
        let (to, from) = absent_falls_back mode allowed plain_unsigned reason in
        (
          (λ h. (let (m, a, q) = to (rw c at h) in (m, a, ap err p, q))),
          (λ h. rw c (from (h.0, h.1, h.3))),
        )
    | inr (p, c) ↦
        ((λ h. absurd (let k = rw c at h in cc)), (λ h. absurd (p (let same = h.2 in cc))))
  ]

  module _ (x : Externals) (resolver : TrustResolver x.VerificationKey) (raw : List ℕ)
      (expectation : ResponseExpectation) where
    abbrev decision : EnforcementDecision
    decision =
        decide mode allowed
          (classify_response_result (verify_signed_response x resolver raw expectation))

    -- A client accepts a response only when its verification gives a result, and the envelope of
    -- the response names the canonicalization id and the hash of the request that were expected,
    -- carries a signature that verifies over the preimage of the message under the key that the
    -- resolver gives for the server and the key id of the envelope, and names the server, the key
    -- id and the hash of that result; and the server is the expected one when one is expected.
    pub accepted-Answers :
        decision ≡ accept_mcps
        → (v : VerifiedResponse) × (verify_signed_response x resolver raw expectation ≡ ok v)
          × Answers x resolver
              (Carries02 x expectation.expected_canonicalization_id)
              raw
              expectation.expected_request_hash
              v
          × ((expected : Str)
              → expectation.expected_server_signer ≡ some expected
              → v.server_signer ≡ expected)
    unfolding verify_signed_response
    accepted-Answers h =
        let (v, accepted) = accepted-ok (verify_signed_response x resolver raw expectation) h in
        let (w, checked, h1) =
          >>=-eq-ok
            (verify_response_draft02 x resolver raw expectation.expected_request_hash
              expectation.expected_canonicalization_id)
            _ accepted in
        let (signer, h2) =
          >>-eq-ok (check_server_signer expectation.expected_server_signer w.server_signer) _ h1 in
        let same : w ≡ v = ok-injective h2 in
        (
          v,
          accepted,
          verify_response_draft02-Answers x resolver raw expectation.expected_request_hash v
              expectation.expected_canonicalization_id (checked ∙ λ i. ok (same i)),
          λ expected. signer-expected expectation.expected_server_signer v.server_signer expected (
              subst
                (λ r.
                  check_server_signer expectation.expected_server_signer r.server_signer ≡ ok tt)
                same signer),
        )

    signed-Unenveloped :
        (verify_signed_response x resolver raw expectation ≡ err missing_envelope)
        ↔ Unenveloped x resolver raw
    unfolding verify_signed_response check_server_signer
    signed-Unenveloped =
        let verdict =
          verify_response_draft02 x resolver raw expectation.expected_request_hash
            expectation.expected_canonicalization_id in
        let (to, from) =
          verify_response_draft02-Unenveloped x resolver raw expectation.expected_request_hash
            expectation.expected_canonicalization_id in
        (
          (λ h. elim (>>=-eq-err verdict _ h) [
            | inl fails ↦ to fails
            | inr (v, checked, h1) ↦ absurd (ground (arith, h1))
          ]),
          (λ u. let fails = from u in ground (arith, fails)),
        )

    -- A client falls back to a response without evidence exactly when its mode and the route allow
    -- that, and the response is a message with an id, no batch, in the domain of canonical JSON,
    -- that has nothing at the place of the envelope, or has there what reads as an envelope of a
    -- trusted server whose `signature` member is absent or no object; the reason is then that the
    -- response is unsigned. Other evidence that does not verify never leads there.
    pub decision_falls_back :
        (reason : AbsenceReason)
        → (decision ≡ fall_back_to_legacy reason) ↔ (
            (mode ≡ allow_legacy_explicit)
            × (allowed ≡ true)
            × Unenveloped x resolver raw
            × (reason ≡ plain_unsigned))
    decision_falls_back reason =
        let (to, from) = falls_back (verify_signed_response x resolver raw expectation) reason in
        (
          (λ h. (let (m, a, fails, same) = to h in (m, a, signed-Unenveloped.0 fails, same))),
          (λ (m, a, u, same). from (m, a, signed-Unenveloped.1 u, same)),
        )
