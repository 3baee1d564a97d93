-- ===== src/Core/Dispatch/Versions.antt =====
-- The dual verifier: one profile for each message, and no downgrade.
use mcps.Prelude.{
  ℕ, Str, codes, some, none, List, ◌≡◌, refl, ◌⊎◌, inl, inr, ok, err, >>=-eq-ok, >>-eq-ok, ok_or,
  arith, Result-cases, Bool-cases, str_eq, str_eq_iff, str_eq_refl, true, false,
}
use mcps.Prelude.Int.{ℤ}
use mcps.Core.Error.{canonicalization_failed, downgrade_forbidden}
use mcps.Core.Ids.{version_draft_01, version_draft_02}
use mcps.Core.Replay.{ReplayCache}
use mcps.Core.Resolver.{TrustResolver}
use mcps.Core.Json.{Value}
use mcps.Core.Envelope.{AuthorizationBinding}
use mcps.Core.Constraints.{reject_batch, reject_notification}
use mcps.Core.Crypto.{Externals}
use mcps.Core.Signing.{request_hash}
use mcps.Core.Pipeline.{
  VerificationConfig, VerifiedRequest, draft01_hash, draft02_binding, check_request,
  check_request_draft02, verified01, verified02, verify_request, verify_request_draft02,
}
use mcps.Core.Dispatch.{
  ExpectedVersionPolicy, draft02_only, admits, verify_request_dispatch, select_version,
  read_request_envelope_version,
}
use mcps.Core.Pipeline.Accepted.{admit-ok}

-- The evidence of draft-01, and that of draft-02.
pub data Profile (vr : VerifiedRequest) (version : Str) : Type 0 where
  draft01 :
      (hash : Str)
      → version ≡ version_draft_01
      → vr.authorization ≡ draft01_hash hash
      → vr.canonicalization_id ≡ none
      → Profile vr version
  draft02 :
      (binding : AuthorizationBinding) (id : Str)
      → version ≡ version_draft_02
      → vr.authorization ≡ draft02_binding binding
      → vr.canonicalization_id ≡ some id
      → Profile vr version

select_version-ok :
    (x : Externals) (policy : ExpectedVersionPolicy) (raw : List ℕ) (version : Str)
    → select_version x policy raw ≡ ok version
    → ((value : Value) × (x.from_slice raw ≡ some value)
        × (read_request_envelope_version value ≡ ok version))
      × ((version ≡ version_draft_01) ⊎ (version ≡ version_draft_02))
      × (admits policy version ≡ true)
unfolding select_version
select_version-ok x policy raw version h =
    let (value, parsed, h1) = >>=-eq-ok (ok_or (x.from_slice raw) canonicalization_failed) _ h in
    let (batch, h2) = >>-eq-ok (reject_batch value) _ h1 in
    let (notification, h3) = >>-eq-ok (reject_notification value) _ h2 in
    let (v, read, h4) = >>=-eq-ok (read_request_envelope_version value) _ h3 in
    (
      (value, ground arith, ground arith),
      ground (arith, str_eq_iff v version_draft_01, str_eq_iff v version_draft_02),
      ground arith,
    )

draft01_refused : admits draft02_only version_draft_01 ≡ false
unfolding admits str_eq codes
draft01_refused = refl

draft01_not_admitted : ¬ (admits draft02_only version_draft_01 ≡ true)
draft01_not_admitted h = cc draft01_refused

module _ (x : Externals) (resolver : TrustResolver x.VerificationKey) {S : Type 0}
    (cache : ReplayCache S) (config : VerificationConfig) (s : S) (raw : List ℕ) (now : ℤ)
    (vr : VerifiedRequest) where
  verify_request-draft01 :
      (verify_request x resolver cache config s raw now).0 ≡ ok vr
      → (hash : Str) × (vr.authorization ≡ draft01_hash hash) × (vr.canonicalization_id ≡ none)
  unfolding verify_request verified01
  verify_request-draft01 h = elim (Result-cases (check_request x resolver config raw now)) [
    | inr (e, p) ↦ absurd (ground (arith, p))
    | inl ((value, e), p) ↦
        let (_, _, _, finished, _) = admit-ok cache s _ _ _ _ _ vr (rw (p, verify_request) at h) in
        let (computed, _, built) = >>=-eq-ok (request_hash x value) _ finished in
        let same : verified01 e computed ≡ vr = cc in rw (← same) (e.authorization_hash, refl, refl)
  ]

  verify_request-draft02 :
      (verify_request_draft02 x resolver cache config s raw now).0 ≡ ok vr
      → (binding : AuthorizationBinding) × (id : Str) × (vr.authorization ≡ draft02_binding binding)
        × (vr.canonicalization_id ≡ some id)
  unfolding verify_request_draft02 verified02
  verify_request-draft02 h = elim (Result-cases (check_request_draft02 x resolver config raw now)) [
    | inr (e, p) ↦ absurd (ground (arith, p))
    | inl ((value, e), p) ↦
        let (_, _, _, finished, _) =
          admit-ok cache s _ _ _ _ _ vr (rw (p, verify_request_draft02) at h) in
        let (computed, _, built) = >>=-eq-ok (request_hash x value) _ finished in
        let same : verified02 e computed ≡ vr = cc in
        rw (← same) (e.authorization_binding, e.canonicalization_id, refl, refl)
  ]

  -- A request that the dispatcher accepts names in its own bytes a version that the policy admits,
  -- and carries the evidence of that version and of no other.
  pub dispatch-Profile :
      (policy : ExpectedVersionPolicy)
      → (verify_request_dispatch x resolver cache policy config s raw now).0 ≡ ok vr
      → (version : Str) × ((value : Value) × (x.from_slice raw ≡ some value)
          × (read_request_envelope_version value ≡ ok version))
        × (admits policy version ≡ true)
        × Profile vr version
  unfolding verify_request_dispatch
  dispatch-Profile policy h = elim (Result-cases (select_version x policy raw)) [
    | inr (e, p) ↦ absurd (ground (arith, p))
    | inl (version, p) ↦
        let (named, known, admitted) = select_version-ok x policy raw version p in
        elim (Bool-cases (str_eq version version_draft_01)) [
          | inl q ↦
              let (hash, a, i) =
                verify_request-draft01 (rw q at (rw (p, verify_request_dispatch) at h)) in
              (version, named, admitted, draft01 hash ((str_eq_iff _ _).0 q) a i)
          | inr q ↦
              let (b, id, a, i) =
                verify_request-draft02 (rw q at (rw (p, verify_request_dispatch) at h)) in
              (
                version,
                named,
                admitted,
                draft02 b id (ground (arith, known, str_eq_iff version version_draft_01)) a i,
              )
        ]
  ]

  -- Under the recommended policy only evidence of draft-02 is accepted.
  pub draft02_only-Profile :
      (verify_request_dispatch x resolver cache draft02_only config s raw now).0 ≡ ok vr
      → (binding : AuthorizationBinding) × (id : Str) × (vr.authorization ≡ draft02_binding binding)
        × (vr.canonicalization_id ≡ some id)
  draft02_only-Profile h =
      let (version, _, admitted, profile) = dispatch-Profile draft02_only h in
      only version admitted profile
    where
      only :
          (version : Str)
          → admits draft02_only version ≡ true
          → Profile vr version
          → (binding : AuthorizationBinding) × (id : Str) × (vr.authorization
              ≡ draft02_binding binding)
            × (vr.canonicalization_id ≡ some id)
      only version admitted (draft02 binding id _ a i) = (binding, id, a, i)
      only version admitted (draft01 hash old _ _) =
          absurd (draft01_not_admitted (rw old at admitted))

-- A message that names draft-01, and is neither a batch nor a notification, is refused as a
-- downgrade under the policy of draft-02 alone, and the replay cache stays as it was.
pub downgrade_refused :
    (x : Externals) (resolver : TrustResolver x.VerificationKey) {S : Type 0}
    (cache : ReplayCache S) (config : VerificationConfig) (s : S) (raw : List ℕ) (now : ℤ)
    (value : Value)
    → x.from_slice raw ≡ some value
    → reject_batch value ≡ ok tt
    → reject_notification value ≡ ok tt
    → read_request_envelope_version value ≡ ok version_draft_01
    → verify_request_dispatch x resolver cache draft02_only config s raw now
      ≡ (err downgrade_forbidden, s)
unfolding verify_request_dispatch select_version
downgrade_refused x resolver cache config s raw now value parsed batch notification named =
    rw (parsed, verify_request_dispatch, select_version)
      (rw (batch, notification, named)
        (ground (arith, str_eq_refl version_draft_01, draft01_refused)))
