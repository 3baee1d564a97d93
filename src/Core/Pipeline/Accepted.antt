-- ===== src/Core/Pipeline/Accepted.antt =====
-- What an accepted request guarantees of step 12: the cache took its triple, and the evidence that is
-- returned is that of its envelope.
use mcps.Prelude.{
  ℕ, Str, List, ◌≡◌, refl, inl, inr, Result, ok, ◌>>=◌, >>=-eq-ok, arith, Result-cases, codes,
  starts_with, true, sym, ◌∙◌, ok-injective,
}
use mcps.Prelude.Int.{ℤ}
use mcps.Core.Error.{McpsError}
use mcps.Core.Time.{parse_rfc3339_utc}
use mcps.Core.Json.{Value}
use mcps.Core.Replay.{ReplayCache, ReplayCacheError, ReplayDecision, fresh}
use mcps.Core.Resolver.{TrustResolver}
use mcps.Core.Crypto.{Externals, sha256_hash_id}
use mcps.Core.Signing.{signing_preimage, request, request_hash}
use mcps.Core.Pipeline.{
  VerificationConfig, VerifiedRequest, admit, decide, check_request, check_request_draft02,
  verified01, verified02, verify_request, verify_request_draft02,
}
use mcps.Core.Pipeline.Accepts.{
  EnvelopeView, view01, view02, Checked, check_request-Checked, check_request_draft02-Checked,
}
use mcps.Core.Envelope.{RequestEnvelope, Draft02RequestEnvelope}
use mcps.Core.Constraints.Reads.{
  RequestReads, Draft02RequestReads, request_reads, draft02_request_reads,
}

-- The evidence that is returned says what the envelope says.
pub record Reports (v : EnvelopeView) (vr : VerifiedRequest) : Type 0 where
  pub signer : vr.verified_signer ≡ v.signer
  pub key_id : vr.key_id ≡ v.signature.key_id
  pub on_behalf_of : vr.on_behalf_of ≡ v.on_behalf_of
  pub audience : vr.audience ≡ v.audience
  pub authorization : vr.authorization ≡ v.authorization
  pub nonce : vr.nonce ≡ v.nonce
  pub issued_at : vr.issued_at ≡ v.issued_at
  pub expires_at : vr.expires_at ≡ v.expires_at
  pub canonicalization_id : vr.canonicalization_id ≡ v.canonicalization_id

module _ (x : Externals) (resolver : TrustResolver x.VerificationKey) {S : Type 0}
    (cache : ReplayCache S) (config : VerificationConfig) (s : S) (raw : List ℕ) (now : ℤ)
    (value : Value) (vr : VerifiedRequest) (s' : S) where
  -- What acceptance means of the envelope, of the cache before and after, and of what is returned.
  pub record Accepted (v : EnvelopeView) : Type 0 where
    pub checked : Checked x resolver config raw now value v
    pub unseen :
        (cache.check_and_insert s (v.signer, v.audience, v.nonce) checked.window.expires).0
        ≡ ok fresh
    pub stored :
        (cache.check_and_insert s (v.signer, v.audience, v.nonce) checked.window.expires).1 ≡ s'
    pub hash : vr.request_hash ≡ sha256_hash_id x checked.preimage
    pub reports : Reports v vr

  abbrev pub Accepted01 : Type 0
  Accepted01 =
      (e : RequestEnvelope) × RequestReads x.request_from_value value e
      × (starts_with e.authorization_hash (codes "sha256:") ≡ true)
      × Accepted (view01 e)

  abbrev pub Accepted02 : Type 0
  Accepted02 =
      (e : Draft02RequestEnvelope) × Draft02RequestReads x.draft02_request_from_value value e
      × Accepted (view02 e)

module _ {S : Type 0} (cache : ReplayCache S) {A : Type 0} where
  decide-ok :
      (done : Result McpsError A) (d : Result ReplayCacheError ReplayDecision) (a : A)
      → decide cache done d ≡ ok a
      → (d ≡ ok fresh) × (done ≡ ok a)
  unfolding decide
  decide-ok done d a h = (ground arith, ground arith)

  pub admit-ok :
      (s : S) (signer audience nonce expires_at : Str) (done : Result McpsError A) (a : A)
      → (admit cache s signer audience nonce expires_at done).0 ≡ ok a
      → (t : ℤ) × (parse_rfc3339_utc expires_at ≡ ok t)
        × ((cache.check_and_insert s (signer, audience, nonce) t).0 ≡ ok fresh)
        × (done ≡ ok a)
        × ((admit cache s signer audience nonce expires_at done).1
            ≡ (cache.check_and_insert s (signer, audience, nonce) t).1)
  unfolding admit
  admit-ok s signer audience nonce expires_at done a h =
      elim (Result-cases (parse_rfc3339_utc expires_at)) [
        | inl (t, p) ↦
            let d : decide cache done (cache.check_and_insert s (signer, audience, nonce) t).0
                ≡ ok a =
              ground (arith, p) in
            let (isfresh, finished) = decide-ok done _ a d in
            (t, p, isfresh, finished, ground (arith, p))
        | inr (e, p) ↦ absurd (ground (arith, p))
      ]

request_hash-ok :
    (x : Externals) (value : Value) (preimage : List ℕ) (computed : Str)
    → signing_preimage request value ≡ ok preimage
    → request_hash x value ≡ ok computed
    → computed ≡ sha256_hash_id x preimage
unfolding request_hash
request_hash-ok x value preimage computed p h = ground (arith, p)

module _ (x : Externals) (resolver : TrustResolver x.VerificationKey) {S : Type 0}
    (cache : ReplayCache S) (config : VerificationConfig) (s : S) (raw : List ℕ) (now : ℤ) where
  pub verify_request-Accepted :
      (vr : VerifiedRequest)
      → (verify_request x resolver cache config s raw now).0 ≡ ok vr
      → (value : Value) × Accepted01 x resolver cache config s raw now value vr
          (verify_request x resolver cache config s raw now).1
  unfolding verify_request verified01
  verify_request-Accepted vr h = elim (Result-cases (check_request x resolver config raw now)) [
    | inr (e, p) ↦ absurd (ground (arith, p))
    | inl ((value, e), p) ↦
        let done : Result McpsError VerifiedRequest =
          request_hash x value >>= λ computed. ok (verified01 e computed) in
        let accepted : (admit cache s e.signer e.audience e.nonce e.expires_at done).0 ≡ ok vr =
          rw (p, verify_request) at h in
        let (t, pt, unseen, finished, left) = admit-ok cache s _ _ _ _ done vr accepted in
        let (computed, hashed, built) = >>=-eq-ok (request_hash x value) _ finished in
        let (found, prefixed, checked) =
          check_request-Checked x resolver config raw now value e p in
        let same : verified01 e computed ≡ vr = cc in
        let same_end : t ≡ checked.window.expires =
          ok-injective (sym pt ∙ checked.window.expires_of) in
        (
          value,
          (
            e,
            (request_reads _ value e).0 found,
            prefixed,
            rw (p, verify_request)
                (rw (← same) (record {
                  checked = checked;
                  unseen = rw same_end at unseen;
                  stored = sym (rw same_end at left);
                  hash = request_hash-ok x value _ computed checked.preimage_of hashed;
                  reports = record {
                    signer = refl;
                    key_id = refl;
                    on_behalf_of = refl;
                    audience = refl;
                    authorization = refl;
                    nonce = refl;
                    issued_at = refl;
                    expires_at = refl;
                    canonicalization_id = refl;
                  };
                })),
          ),
        )
  ]

  pub verify_request_draft02-Accepted :
      (vr : VerifiedRequest)
      → (verify_request_draft02 x resolver cache config s raw now).0 ≡ ok vr
      → (value : Value) × Accepted02 x resolver cache config s raw now value vr
          (verify_request_draft02 x resolver cache config s raw now).1
  unfolding verify_request_draft02 verified02
  verify_request_draft02-Accepted vr h =
      elim (Result-cases (check_request_draft02 x resolver config raw now)) [
        | inr (e, p) ↦ absurd (ground (arith, p))
        | inl ((value, e), p) ↦
            let done : Result McpsError VerifiedRequest =
              request_hash x value >>= λ computed. ok (verified02 e computed) in
            let accepted : (admit cache s e.signer e.audience e.nonce e.expires_at done).0 ≡ ok vr =
              rw (p, verify_request_draft02) at h in
            let (t, pt, unseen, finished, left) = admit-ok cache s _ _ _ _ done vr accepted in
            let (computed, hashed, built) = >>=-eq-ok (request_hash x value) _ finished in
            let (found, checked) =
              check_request_draft02-Checked x resolver config raw now value e p in
            let same : verified02 e computed ≡ vr = cc in
            let same_end : t ≡ checked.window.expires =
              ok-injective (sym pt ∙ checked.window.expires_of) in
            (
              value,
              (
                e,
                (draft02_request_reads _ value e).0 found,
                rw (p, verify_request_draft02)
                    (rw (← same) (record {
                      checked = checked;
                      unseen = rw same_end at unseen;
                      stored = sym (rw same_end at left);
                      hash = request_hash-ok x value _ computed checked.preimage_of hashed;
                      reports = record {
                        signer = refl;
                        key_id = refl;
                        on_behalf_of = refl;
                        audience = refl;
                        authorization = refl;
                        nonce = refl;
                        issued_at = refl;
                        expires_at = refl;
                        canonicalization_id = refl;
                      };
                    })),
              ),
            )
      ]
