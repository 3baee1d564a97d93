-- ===== src/Core/Pipeline/Complete.antt =====
-- The other direction: a request that is in order is accepted, so the checks refuse nothing else.
use mcps.Prelude.{
  ℕ, Str, codes, is_empty, starts_with, true, List, ◌≡◌, Result, ok, arith, str_eq_iff, [], ◌∷◌,
}
use mcps.Prelude.Int.{ℤ}
use mcps.Core.Error.{McpsError, invalid_signature}
use mcps.Core.Ids.{sig_alg_ed25519}
use mcps.Core.Time.{parse_rfc3339_utc}
use mcps.Core.Time.Freshness.{check_freshness-InWindow}
use mcps.Core.Pipeline.Accepts.{EnvelopeView, view01, view02, Checked, read_message-reads}
use mcps.Core.Replay.{ReplayCache, fresh}
use mcps.Core.Resolver.{TrustResolver}
use mcps.Core.Json.{Value}
use mcps.Core.Envelope.{RequestEnvelope, Draft02RequestEnvelope}
use mcps.Core.Constraints.{extract_request_envelope, extract_draft02_request_envelope}
use mcps.Core.Crypto.{Externals, ensure_ed25519_alg, verify_ed25519_with, sha256_hash_id}
use mcps.Core.Signing.{signing_preimage, request, request_hash}
use mcps.Core.Pipeline.{
  VerificationConfig, check_authorization_hash, check_on_behalf_of, check_signature_block,
  check_claims, verify_signature, read_message, check_request, check_request_draft02, admit, decide,
  verified01, verified02, verify_request, verify_request_draft02,
}

module _ (x : Externals) (resolver : TrustResolver x.VerificationKey) (config : VerificationConfig)
    (raw : List ℕ) (now : ℤ) (value : Value) (v : EnvelopeView)
    (o : Checked x resolver config raw now value v) where
  reads : read_message x raw ≡ ok value
  reads = read_message-reads x raw value o.parsed o.single o.domain

  block_passes : check_signature_block v.signature ≡ ok tt
  unfolding check_signature_block ensure_ed25519_alg
  block_passes = ground (arith, o.alg, o.signed.present, str_eq_iff v.signature.alg sig_alg_ed25519)

  behalf_passes : check_on_behalf_of v.on_behalf_of ≡ ok tt
  unfolding check_on_behalf_of
  behalf_passes = ground (arith, o.on_behalf)

  claims_pass : check_claims config v.audience v.issued_at v.expires_at now ≡ ok tt
  unfolding check_claims
  claims_pass =
      let fresh =
        (check_freshness-InWindow v.issued_at v.expires_at now config.max_clock_skew_secs).1
          o.window in
      ground (arith, o.addressed, fresh, str_eq_iff v.audience config.expected_audience)

  signature_passes :
      verify_signature x resolver v.signer v.signature
        (signing_preimage request value)
        invalid_signature
      ≡ ok tt
  unfolding verify_signature verify_ed25519_with
  signature_passes = ground (
    arith, o.signed.trusted, o.preimage_of, o.signed.present, o.signed.decoded, o.signed.sized,
    o.signed.valid,
  )

prefixed_hash :
    (hash : Str) → starts_with hash (codes "sha256:") ≡ true → check_authorization_hash hash ≡ ok tt
unfolding check_authorization_hash starts_with is_empty codes
prefixed_hash [] h = cc
prefixed_hash (c ∷ hash) h = ground arith

module _ {S : Type 0} (cache : ReplayCache S) {A : Type 0} where
  admit-fresh :
      (s : S) (signer audience nonce expires_at : Str) (t : ℤ) (done : Result McpsError A)
      → parse_rfc3339_utc expires_at ≡ ok t
      → (cache.check_and_insert s (signer, audience, nonce) t).0 ≡ ok fresh
      → admit cache s signer audience nonce expires_at done
        ≡ (done, (cache.check_and_insert s (signer, audience, nonce) t).1)
  unfolding admit decide
  admit-fresh s signer audience nonce expires_at t done p unseen = ground (arith, p, unseen)

module _ (x : Externals) (resolver : TrustResolver x.VerificationKey) {S : Type 0}
    (cache : ReplayCache S) (config : VerificationConfig) (s : S) (raw : List ℕ) (now : ℤ)
    (value : Value) where
  request_hash_of :
      (preimage : List ℕ)
      → signing_preimage request value ≡ ok preimage
      → request_hash x value ≡ ok (sha256_hash_id x preimage)
  unfolding request_hash
  request_hash_of preimage p = ground (arith, p)

  pub verify_request_complete :
      (e : RequestEnvelope) (o : Checked x resolver config raw now value (view01 e))
      → extract_request_envelope x.request_from_value value ≡ ok e
      → starts_with e.authorization_hash (codes "sha256:") ≡ true
      → (cache.check_and_insert s (e.signer, e.audience, e.nonce) o.window.expires).0 ≡ ok fresh
      → verify_request x resolver cache config s raw now ≡ (
        ok (verified01 e (sha256_hash_id x o.preimage)),
        (cache.check_and_insert s (e.signer, e.audience, e.nonce) o.window.expires).1,
      )
  unfolding verify_request check_request
  verify_request_complete e o found prefixed unseen =
      rw (checked, verify_request)
        (rw
          (admit-fresh cache s e.signer e.audience e.nonce e.expires_at o.window.expires _
            o.window.expires_of unseen)
          (rw (request_hash_of o.preimage o.preimage_of)))
    where
      hash_passes : check_authorization_hash e.authorization_hash ≡ ok tt
      hash_passes = prefixed_hash e.authorization_hash prefixed

      checked : check_request x resolver config raw now ≡ ok (value, e)
      checked = rw (
        reads x resolver config raw now value (view01 e) o,
        found,
        hash_passes,
        behalf_passes x resolver config raw now value (view01 e) o,
        block_passes x resolver config raw now value (view01 e) o,
        claims_pass x resolver config raw now value (view01 e) o,
        signature_passes x resolver config raw now value (view01 e) o,
      )

  pub verify_request_draft02_complete :
      (e : Draft02RequestEnvelope) (o : Checked x resolver config raw now value (view02 e))
      → extract_draft02_request_envelope x.draft02_request_from_value value ≡ ok e
      → (cache.check_and_insert s (e.signer, e.audience, e.nonce) o.window.expires).0 ≡ ok fresh
      → verify_request_draft02 x resolver cache config s raw now ≡ (
        ok (verified02 e (sha256_hash_id x o.preimage)),
        (cache.check_and_insert s (e.signer, e.audience, e.nonce) o.window.expires).1,
      )
  unfolding verify_request_draft02 check_request_draft02
  verify_request_draft02_complete e o found unseen =
      rw (checked, verify_request_draft02)
        (rw
          (admit-fresh cache s e.signer e.audience e.nonce e.expires_at o.window.expires _
            o.window.expires_of unseen)
          (rw (request_hash_of o.preimage o.preimage_of)))
    where
      checked : check_request_draft02 x resolver config raw now ≡ ok (value, e)
      checked = rw (
        reads x resolver config raw now value (view02 e) o,
        found,
        behalf_passes x resolver config raw now value (view02 e) o,
        block_passes x resolver config raw now value (view02 e) o,
        claims_pass x resolver config raw now value (view02 e) o,
        signature_passes x resolver config raw now value (view02 e) o,
      )
