-- ===== src/Core/Pipeline/Cache.antt =====
-- Step 12: what acceptance means for the replay cache, and who can change it.
use mcps.Prelude.{
  ℕ, some, List, ◌≡◌, refl, ◌⊎◌, inl, inr, Result, ok, err, arith, Result-cases, Bool-cases, str_eq,
  ap, ◌∙◌,
}
use mcps.Prelude.Int.{ℤ, ◌≤ℤ◌, saturating_add}
use mcps.Core.Error.{McpsError}
use mcps.Core.Time.{parse_rfc3339_utc}
use mcps.Core.Json.{Value}
use mcps.Core.Replay.{ReplayCache}
use mcps.Core.Resolver.{TrustResolver}
use mcps.Core.Ids.{version_draft_01}
use mcps.Core.Crypto.{Externals}
use mcps.Core.Signing.{signing_preimage, request}
use mcps.Core.Pipeline.{
  VerificationConfig, VerifiedRequest, check_request, check_request_draft02, verify_request,
  verify_request_draft02,
}
use mcps.Core.Dispatch.{ExpectedVersionPolicy, verify_request_dispatch, select_version}
use mcps.Core.Pipeline.Accepts.{
  EnvelopeView, view01, view02, Signed, check_request-Checked, check_request_draft02-Checked,
}
use mcps.Core.Envelope.{RequestEnvelope, Draft02RequestEnvelope}
use mcps.Core.Constraints.Reads.{
  RequestReads, Draft02RequestReads, request_reads, draft02_request_reads,
}
use mcps.Core.Pipeline.Accepted.{
  Accepted01, Accepted02, verify_request-Accepted, verify_request_draft02-Accepted,
}

module _ (x : Externals) (resolver : TrustResolver x.VerificationKey) {S : Type 0}
    (cache : ReplayCache S) (config : VerificationConfig) (s : S) (raw : List ℕ) (now : ℤ) where
  -- The dispatcher fails without a call, or is one of the two verifiers.
  pub dispatch_cases {ℓ} :
      (policy : ExpectedVersionPolicy) (P : Result McpsError VerifiedRequest × S → Type ℓ)
      → ((e : McpsError) → P (err e, s))
      → P (verify_request x resolver cache config s raw now)
      → P (verify_request_draft02 x resolver cache config s raw now)
      → P (verify_request_dispatch x resolver cache policy config s raw now)
  unfolding verify_request_dispatch
  dispatch_cases policy P failed one two = elim (Result-cases (select_version x policy raw)) [
    | inr (e, p) ↦ rw (p, verify_request_dispatch) (failed e)
    | inl (version, p) ↦ elim (Bool-cases (str_eq version version_draft_01)) [
      | inl q ↦ rw (p, verify_request_dispatch) (rw q one)
      | inr q ↦ rw (p, verify_request_dispatch) (rw q two)
    ]
  ]

  -- What acceptance means under any policy: the message is accepted as one of the two drafts.
  abbrev pub Authentic : VerifiedRequest → S → Type 0
  Authentic vr s' =
      (value : Value) × (Accepted01 x resolver cache config s raw now value vr s'
        ⊎ Accepted02 x resolver cache config s raw now value vr s')

  pub Authentic-live :
      (vr : VerifiedRequest) (s' : S)
      → Authentic vr s'
      → (expires : ℤ) × (parse_rfc3339_utc vr.expires_at ≡ ok expires)
        × (now ≤ℤ saturating_add expires config.max_clock_skew_secs)
  Authentic-live vr s' (value, inl (e, _, _, a)) =
      let w = a.checked.window in
      (w.expires, ap parse_rfc3339_utc a.reports.expires_at ∙ w.expires_of, w.live)
  Authentic-live vr s' (value, inr (e, _, a)) =
      let w = a.checked.window in
      (w.expires, ap parse_rfc3339_utc a.reports.expires_at ∙ w.expires_of, w.live)

  -- Whatever the policy, a request that the dispatcher accepts is authentic: its bytes parse as a
  -- message with an id, which is no batch, in the domain of canonical JSON; the signature that
  -- stands in its own envelope verifies over its preimage, under the key that the resolver gives
  -- for the signer and the key id of that envelope; its audience is the expected one and its window
  -- holds the clock; the cache has just taken the triple of the envelope as fresh, up to its
  -- expiry, and the state is the one that it left; and each field that is returned is that of the
  -- envelope, with the hash of the preimage.
  pub dispatch-Authentic :
      (policy : ExpectedVersionPolicy) (vr : VerifiedRequest)
      → (verify_request_dispatch x resolver cache policy config s raw now).0 ≡ ok vr
      → Authentic vr (verify_request_dispatch x resolver cache policy config s raw now).1
  dispatch-Authentic policy vr =
      dispatch_cases policy (λ r. r.0 ≡ ok vr → Authentic vr r.1) (λ e h. cc)
        (λ h.
          (let (value, a) = verify_request-Accepted x resolver cache config s raw now vr h in
            (value, inl a)))
        (λ h.
          (let (value, a) =
              verify_request_draft02-Accepted x resolver cache config s raw now vr h in
            (value, inr a)))

  -- The message carries an envelope of one of the drafts, whose own signature verifies over its
  -- preimage, under the key that the resolver gives for its signer.
  abbrev pub CarriesSignature : Type 0
  CarriesSignature =
      (value : Value) × (v : EnvelopeView) × (x.from_slice raw ≡ some value)
      × (((e : RequestEnvelope) × RequestReads x.request_from_value value e × (v ≡ view01 e))
          ⊎ ((e : Draft02RequestEnvelope) × Draft02RequestReads x.draft02_request_from_value value e
              × (v ≡ view02 e)))
      × (preimage : List ℕ) × (signing_preimage request value ≡ ok preimage)
      × Signed x resolver v.signer v.signature preimage

  verify_request_untouched :
      ((verify_request x resolver cache config s raw now).1 ≡ s) ⊎ CarriesSignature
  unfolding verify_request
  verify_request_untouched = elim (Result-cases (check_request x resolver config raw now)) [
    | inr (e, p) ↦ inl (ground (arith, p))
    | inl ((value, e), p) ↦
        let (found, _, c) = check_request-Checked x resolver config raw now value e p in
        inr (
          value,
          view01 e,
          c.parsed,
          inl (e, (request_reads _ value e).0 found, refl),
          c.preimage,
          c.preimage_of,
          c.signed,
        )
  ]

  verify_request_draft02_untouched :
      ((verify_request_draft02 x resolver cache config s raw now).1 ≡ s) ⊎ CarriesSignature
  unfolding verify_request_draft02
  verify_request_draft02_untouched =
      elim (Result-cases (check_request_draft02 x resolver config raw now)) [
        | inr (e, p) ↦ inl (ground (arith, p))
        | inl ((value, e), p) ↦
            let (found, c) = check_request_draft02-Checked x resolver config raw now value e p in
            inr (
              value,
              view02 e,
              c.parsed,
              inr (e, (draft02_request_reads _ value e).0 found, refl),
              c.preimage,
              c.preimage_of,
              c.signed,
            )
      ]

  -- The dispatcher leaves the replay cache as it was, or the message is one whose own envelope
  -- carries a signature that verifies over its preimage, under the key that the resolver gives for
  -- the signer and the key id of that envelope: garbage burns no nonce.
  pub dispatch_untouched :
      (policy : ExpectedVersionPolicy)
      → ((verify_request_dispatch x resolver cache policy config s raw now).1 ≡ s)
        ⊎ CarriesSignature
  dispatch_untouched policy =
      dispatch_cases policy (λ r. (r.1 ≡ s) ⊎ CarriesSignature) (λ e. inl refl)
        verify_request_untouched verify_request_draft02_untouched
