-- ===== src/Core/Pipeline/Claims.antt =====
-- The claims that an accepted request returns are those of its bytes, and its triple is taken.

use mcps.Prelude.{
  ℕ, Str, List, ◌≡◌, inl, inr, Result, ok, ◌>>=◌, >>=-eq-ok, ok_or, arith, Result-cases, Bool-cases,
  str_eq, true, false, if◌then◌else◌,
}
use mcps.Prelude.Int.{ℤ}
use mcps.Core.Error.{McpsError, canonicalization_failed}
use mcps.Core.Ids.{version_draft_01}
use mcps.Core.Time.{parse_rfc3339_utc}
use mcps.Core.Replay.{InMemoryReplayCache, in_memory, check_and_insert, fresh}
use mcps.Core.Resolver.{TrustResolver}
use mcps.Core.Constraints.{extract_request_envelope, extract_draft02_request_envelope}
use mcps.Core.Crypto.{Externals}
use mcps.Core.Signing.{request_hash}
use mcps.Core.Pipeline.{
  VerificationConfig, VerifiedRequest, admit, check_request, check_request_draft02, verified01,
  verified02, verify_request, verify_request_draft02,
}
use mcps.Core.Dispatch.{ExpectedVersionPolicy, verify_request_dispatch, select_version}
use mcps.Core.Pipeline.Accepts.{check_request-Checked, check_request_draft02-Checked}
use mcps.Core.Pipeline.Accepted.{admit-ok}

-- The signer, the audience, the nonce and the expiry that a message claims, read as the profile of
-- `version` reads them.
abbrev pub Claims : Type 0
Claims = Str × Str × Str × Str

pub claims_of : Externals → Str → List ℕ → Result McpsError Claims
claims_of x version raw = do
  value ← ok_or (x.from_slice raw) canonicalization_failed
  let one = (do
    e ← extract_request_envelope x.request_from_value value
    ok (e.signer, e.audience, e.nonce, e.expires_at))
  let two = (do
    e ← extract_draft02_request_envelope x.draft02_request_from_value value
    ok (e.signer, e.audience, e.nonce, e.expires_at))
  if str_eq version version_draft_01 then one else two

abbrev pub claims : VerifiedRequest → Claims
claims vr = (vr.verified_signer, vr.audience, vr.nonce, vr.expires_at)

-- The policy decides whether a version is admitted, and not which one is read.
pub select_version_unique :
    (x : Externals) (p q : ExpectedVersionPolicy) (raw : List ℕ) (v w : Str)
    → select_version x p raw ≡ ok v
    → select_version x q raw ≡ ok w
    → v ≡ w
unfolding select_version
select_version_unique x p q raw v w h k = ground arith

module _ (x : Externals) (resolver : TrustResolver x.VerificationKey) (config : VerificationConfig)
    (c : InMemoryReplayCache) (raw : List ℕ) (now : ℤ) (vr : VerifiedRequest) where
  -- What an accepting run of step 12 did to the cache.
  abbrev pub Took : InMemoryReplayCache → Type 0
  Took c' =
      (t : ℤ) × (parse_rfc3339_utc vr.expires_at ≡ ok t)
      × ((check_and_insert c (vr.verified_signer, vr.audience, vr.nonce) t).0 ≡ ok fresh)
      × (c' ≡ (check_and_insert c (vr.verified_signer, vr.audience, vr.nonce) t).1)

  verify_request-claims :
      (version : Str)
      → str_eq version version_draft_01 ≡ true
      → (verify_request x resolver in_memory config c raw now).0 ≡ ok vr
      → (claims_of x version raw ≡ ok (claims vr))
        × Took (verify_request x resolver in_memory config c raw now).1
  unfolding verify_request verified01 claims_of
  verify_request-claims version one h =
      elim (Result-cases (check_request x resolver config raw now)) [
        | inr (e, p) ↦ absurd (ground (arith, p))
        | inl ((value, e), p) ↦
            let done : Result McpsError VerifiedRequest =
              request_hash x value >>= λ computed. ok (verified01 e computed) in
            let accepted : (admit in_memory c e.signer e.audience e.nonce e.expires_at done).0
                ≡ ok vr =
              rw (p, verify_request) at h in
            let (t, pt, unseen, finished, after) = admit-ok in_memory c _ _ _ _ done vr accepted in
            let (computed, hashed, built) = >>=-eq-ok (request_hash x value) _ finished in
            let (found, _, checked) = check_request-Checked x resolver config raw now value e p in
            let same : verified01 e computed ≡ vr = cc in
            rw (p, verify_request)
              (rw (← same) (ground (arith, checked.parsed, found, one), (t, pt, unseen, after)))
      ]

  verify_request_draft02-claims :
      (version : Str)
      → str_eq version version_draft_01 ≡ false
      → (verify_request_draft02 x resolver in_memory config c raw now).0 ≡ ok vr
      → (claims_of x version raw ≡ ok (claims vr))
        × Took (verify_request_draft02 x resolver in_memory config c raw now).1
  unfolding verify_request_draft02 verified02 claims_of
  verify_request_draft02-claims version two h =
      elim (Result-cases (check_request_draft02 x resolver config raw now)) [
        | inr (e, p) ↦ absurd (ground (arith, p))
        | inl ((value, e), p) ↦
            let done : Result McpsError VerifiedRequest =
              request_hash x value >>= λ computed. ok (verified02 e computed) in
            let accepted : (admit in_memory c e.signer e.audience e.nonce e.expires_at done).0
                ≡ ok vr =
              rw (p, verify_request_draft02) at h in
            let (t, pt, unseen, finished, after) = admit-ok in_memory c _ _ _ _ done vr accepted in
            let (computed, hashed, built) = >>=-eq-ok (request_hash x value) _ finished in
            let (found, checked) =
              check_request_draft02-Checked x resolver config raw now value e p in
            let same : verified02 e computed ≡ vr = cc in
            rw (p, verify_request_draft02)
              (rw (← same) (ground (arith, checked.parsed, found, two), (t, pt, unseen, after)))
      ]

  -- An accepted request claims what its bytes say, and its triple is taken.
  pub dispatch-claims :
      (policy : ExpectedVersionPolicy)
      → (verify_request_dispatch x resolver in_memory policy config c raw now).0 ≡ ok vr
      → ((version : Str) × (select_version x policy raw ≡ ok version)
          × (claims_of x version raw ≡ ok (claims vr)))
        × Took (verify_request_dispatch x resolver in_memory policy config c raw now).1
  unfolding verify_request_dispatch
  dispatch-claims policy h = elim (Result-cases (select_version x policy raw)) [
    | inr (e, p) ↦ absurd (ground (arith, p))
    | inl (version, p) ↦ elim (Bool-cases (str_eq version version_draft_01)) [
      | inl q ↦
          let (said, took) =
            verify_request-claims version q (rw q at (rw (p, verify_request_dispatch) at h)) in
          ((version, p, said), rw (p, verify_request_dispatch) (rw q took))
      | inr q ↦
          let (said, took) =
            verify_request_draft02-claims version q
              (rw q at (rw (p, verify_request_dispatch) at h)) in
          ((version, p, said), rw (p, verify_request_dispatch) (rw q took))
    ]
  ]
