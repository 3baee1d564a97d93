-- ===== src/Core/Pipeline.antt =====
-- mcps-core/src/pipeline.rs: the verification of requests and responses. The checks up to the
-- signature read no state; step 12 alone touches the replay cache, whose new state is returned
-- beside the result.
pub mod Accepts
pub mod Accepted
pub mod Cache
pub mod Complete
pub mod Exact
pub mod Claims
pub mod Signer
pub mod History
pub mod Sample
mod Tests
use mcps.Prelude.{
  ℕ, Str, codes, str_eq, is_empty, starts_with, Bool, true, false, not, ◌||◌, Option, none, some,
  List, Result, ok, err, ◌>>=◌, ◌>>◌, guard, ok_or, map_err, if◌then◌else◌,
}
use mcps.Prelude.Int.{ℤ}
use mcps.Core.Error.{
  McpsError, canonicalization_failed, authorization_hash_missing, on_behalf_of_invalid_format,
  invalid_signature, invalid_audience, replay_detected, response_sig_invalid,
  response_hash_mismatch, canonicalization_id_mismatch, downgrade_forbidden, unsupported_version,
}
use mcps.Core.Ids.{request_meta_key, version_draft_01, version_draft_02}
use mcps.Core.Time.{check_freshness, parse_rfc3339_utc}
use mcps.Core.Replay.{ReplayCache, ReplayCacheError, ReplayDecision, fresh, replay}
use mcps.Core.Replay
use mcps.Core.Resolver.{TrustResolver, TrustResolverError}
use mcps.Core.Resolver
use mcps.Core.Json.{Value, get, as_str}
use mcps.Core.Envelope.{
  SignatureBlock, RequestEnvelope, ResponseEnvelope, Draft02RequestEnvelope,
  Draft02ResponseEnvelope, AuthorizationBinding,
}
use mcps.Core.Constraints.{
  Check, reject_batch, reject_notification, locate_envelope, extract_request_envelope,
  extract_response_envelope, extract_draft02_request_envelope, extract_draft02_response_envelope,
}
use mcps.Core.Crypto.{Externals, ensure_ed25519_alg, verify_ed25519_with}
use mcps.Core.Canonical.Parser.{canonicalize}
use mcps.Core.Signing.{signing_preimage, request_hash, request, response}

pub record VerificationConfig : Type 0 where
  pub expected_audience : Str
  pub max_clock_skew_secs : ℤ

pub data VerifiedAuthorization : Type 0 where
  draft01_hash : Str → VerifiedAuthorization
  draft02_binding : AuthorizationBinding → VerifiedAuthorization

pub record VerifiedRequest : Type 0 where
  pub verified_signer : Str
  pub key_id : Str
  pub on_behalf_of : Str
  pub audience : Str
  pub authorization : VerifiedAuthorization
  pub request_hash : Str
  pub nonce : Str
  pub issued_at : Str
  pub expires_at : Str
  pub canonicalization_id : Option Str

unfoldable pub check_authorization_hash : Str → Check
check_authorization_hash hash =
    guard (not (is_empty hash || not (starts_with hash (codes "sha256:"))))
      authorization_hash_missing

unfoldable pub check_on_behalf_of : Str → Check
check_on_behalf_of on_behalf_of = guard (not (is_empty on_behalf_of)) on_behalf_of_invalid_format

unfoldable pub check_signature_block : SignatureBlock → Check
check_signature_block signature = do
  ensure_ed25519_alg signature.alg invalid_signature
  elim signature.value [ none ↦ err invalid_signature | some v ↦ ok tt ]

unfoldable pub verified01 : RequestEnvelope → Str → VerifiedRequest
verified01 e computed = record {
  verified_signer = e.signer;
  key_id = e.signature.key_id;
  on_behalf_of = e.on_behalf_of;
  audience = e.audience;
  authorization = draft01_hash e.authorization_hash;
  request_hash = computed;
  nonce = e.nonce;
  issued_at = e.issued_at;
  expires_at = e.expires_at;
  canonicalization_id = none;
}

unfoldable pub verified02 : Draft02RequestEnvelope → Str → VerifiedRequest
verified02 e computed = record {
  verified_signer = e.signer;
  key_id = e.signature.key_id;
  on_behalf_of = e.on_behalf_of;
  audience = e.audience;
  authorization = draft02_binding e.authorization_binding;
  request_hash = computed;
  nonce = e.nonce;
  issued_at = e.issued_at;
  expires_at = e.expires_at;
  canonicalization_id = some e.canonicalization_id;
}

-- The parse and steps 1 to 3, which every verifier begins with.
unfoldable pub read_message : (x : Externals) → List ℕ → Result McpsError Value
read_message x raw_bytes = do
  value ← ok_or (x.from_slice raw_bytes) canonicalization_failed
  reject_batch value
  reject_notification value
  _ ← canonicalize raw_bytes
  ok value

-- Steps 8 and 9.
unfoldable pub check_claims : VerificationConfig → Str → Str → Str → ℤ → Check
check_claims config audience issued_at expires_at now_unix = do
  guard (str_eq audience config.expected_audience) invalid_audience
  check_freshness issued_at expires_at now_unix config.max_clock_skew_secs

module _ (x : Externals) (resolver : TrustResolver x.VerificationKey) where
  -- Step 11: the signature over the preimage, under the key of the signer.
  unfoldable pub verify_signature :
      Str → SignatureBlock → Result McpsError (List ℕ) → McpsError → Check
  verify_signature signer signature preimage_of on_error = do
    key ← map_err Resolver.to_mcps_error (resolver signer signature.key_id)
    preimage ← preimage_of
    signature_value ← ok_or signature.value on_error
    verify_ed25519_with x preimage signature_value key on_error

  -- Steps 1 to 11 of `verify_request`.
  unfoldable pub check_request :
      VerificationConfig → List ℕ → ℤ → Result McpsError (Value × RequestEnvelope)
  check_request config raw_bytes now_unix = do
    value ← read_message x raw_bytes
    envelope ← extract_request_envelope x.request_from_value value
    check_authorization_hash envelope.authorization_hash
    check_on_behalf_of envelope.on_behalf_of
    check_signature_block envelope.signature
    check_claims config envelope.audience envelope.issued_at envelope.expires_at now_unix
    verify_signature envelope.signer envelope.signature (signing_preimage request value)
        invalid_signature
    ok (value, envelope)

  -- Steps 1 to 11 of `verify_request_draft02`.
  unfoldable pub check_request_draft02 :
      VerificationConfig → List ℕ → ℤ → Result McpsError (Value × Draft02RequestEnvelope)
  check_request_draft02 config raw_bytes now_unix = do
    value ← read_message x raw_bytes
    envelope ← extract_draft02_request_envelope x.draft02_request_from_value value
    check_on_behalf_of envelope.on_behalf_of
    check_signature_block envelope.signature
    check_claims config envelope.audience envelope.issued_at envelope.expires_at now_unix
    verify_signature envelope.signer envelope.signature (signing_preimage request value)
        invalid_signature
    ok (value, envelope)

module _ {S : Type 0} (cache : ReplayCache S) where
  -- What the decision of the cache means, and the result that is ready if the triple is fresh.
  unfoldable pub decide :
      {A : Type 0}
      → Result McpsError A
      → Result ReplayCacheError ReplayDecision
      → Result McpsError A
  decide done (ok fresh) = done
  decide done (ok replay) = err replay_detected
  decide done (err e) = err (Replay.to_mcps_error e)

  -- Step 12, and what follows it.
  unfoldable pub admit :
      {A : Type 0} → S → Str → Str → Str → Str → Result McpsError A → Result McpsError A × S
  admit s signer audience nonce expires_at done = elim (parse_rfc3339_utc expires_at) [
    | err e ↦ (err e, s)
    | ok expires_at_unix ↦
        let (decision, s') = cache.check_and_insert s (signer, audience, nonce) expires_at_unix in
        (decide done decision, s')
  ]

module _ (x : Externals) (resolver : TrustResolver x.VerificationKey) {S : Type 0}
    (cache : ReplayCache S) where
  unfoldable pub verify_request :
      VerificationConfig → S → List ℕ → ℤ → Result McpsError VerifiedRequest × S
  verify_request config s raw_bytes now_unix =
      elim (check_request x resolver config raw_bytes now_unix) [
        | err e ↦ (err e, s)
        | ok (value, e) ↦
            admit cache s e.signer e.audience e.nonce e.expires_at
              (do computed ← request_hash x value; ok (verified01 e computed))
      ]

  unfoldable pub verify_request_draft02 :
      VerificationConfig → S → List ℕ → ℤ → Result McpsError VerifiedRequest × S
  verify_request_draft02 config s raw_bytes now_unix =
      elim (check_request_draft02 x resolver config raw_bytes now_unix) [
        | err e ↦ (err e, s)
        | ok (value, e) ↦
            admit cache s e.signer e.audience e.nonce e.expires_at
              (do computed ← request_hash x value; ok (verified02 e computed))
      ]
