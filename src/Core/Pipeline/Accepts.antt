-- ===== src/Core/Pipeline/Accepts.antt =====
-- What an accepted request guarantees.
use mcps.Prelude.{
  ℕ, Str, codes, starts_with, length, true, Option, some, none, List, ◌≡◌, Result, ok, >>=-eq-ok,
  arith, str_eq_iff, Option-cases, map_err, >>-eq-ok, ok_or, ok_or-eq-ok, map_err-eq-ok, is_empty,
  false, Result-cases, inl, inr,
}
use mcps.Prelude.Int.{ℤ}
use mcps.Core.Error.{McpsError, invalid_signature}
use mcps.Core.Ids.{sig_alg_ed25519}
use mcps.Core.Time.Freshness.{InWindow, check_freshness-InWindow}
use mcps.Core.Canonical.Parser.{canonicalize}
use mcps.Core.Constraints.{extract_request_envelope, extract_draft02_request_envelope}
use mcps.Core.Constraints.Single.{IsSingle, IsSingle-iff}
use mcps.Core.Json.{Value}
use mcps.Core.Envelope.{SignatureBlock, RequestEnvelope, Draft02RequestEnvelope}
use mcps.Core.Resolver
use mcps.Core.Resolver.{TrustResolver}
use mcps.Core.Crypto.{Externals, verify_ed25519_with, ensure_ed25519_alg}
use mcps.Core.Signing.{signing_preimage, request}
use mcps.Core.Pipeline.{
  verify_signature, check_claims, read_message, check_request, check_request_draft02,
  check_on_behalf_of, check_authorization_hash, check_signature_block, VerificationConfig,
  VerifiedAuthorization, draft01_hash, draft02_binding,
}

-- A block whose own value is a signature that verifies, under the key that the resolver gives for the
-- signer and the key id of the block.
pub record Signed (x : Externals) (resolver : TrustResolver x.VerificationKey) (signer : Str)
    (block : SignatureBlock) (preimage : List ℕ) : Type 0 where
  pub key : x.VerificationKey
  pub trusted : resolver signer block.key_id ≡ ok key
  pub text : Str
  pub present : block.value ≡ some text
  pub bytes : List ℕ
  pub decoded : x.b64url_decode text ≡ some bytes
  pub sized : length bytes ≡ 64
  pub valid : x.verify_strict key preimage bytes ≡ true

pub verify_ed25519-ok :
    (x : Externals) (preimage : List ℕ) (text : Str) (key : x.VerificationKey) (e : McpsError)
    → verify_ed25519_with x preimage text key e ≡ ok tt
    → (bytes : List ℕ) × (x.b64url_decode text ≡ some bytes)
      × (length bytes ≡ 64)
      × (x.verify_strict key preimage bytes ≡ true)
unfolding verify_ed25519_with
verify_ed25519-ok x preimage text key e h = elim (Option-cases (x.b64url_decode text)) [
  | inl p ↦ absurd (ground (arith, p))
  | inr (bytes, p) ↦ (bytes, p, ground (arith, p), ground (arith, p))
]

pub verify_signature-ok :
    (x : Externals) (resolver : TrustResolver x.VerificationKey) (signer : Str)
    (signature : SignatureBlock) (preimage_of : Result McpsError (List ℕ)) (e : McpsError)
    → verify_signature x resolver signer signature preimage_of e ≡ ok tt
    → (preimage : List ℕ) × (preimage_of ≡ ok preimage)
      × Signed x resolver signer signature preimage
unfolding verify_signature
verify_signature-ok x resolver signer signature preimage_of e h =
    let (key, trusted, h1) =
      >>=-eq-ok (map_err Resolver.to_mcps_error (resolver signer signature.key_id)) _ h in
    let (preimage, pe, h2) = >>=-eq-ok preimage_of _ h1 in
    let (text, te, h3) = >>=-eq-ok (ok_or signature.value e) _ h2 in
    let (bytes, decoded, sized, valid) = verify_ed25519-ok x preimage text key e h3 in
    (
      preimage,
      pe,
      record {
        key = key;
        trusted = map_err-eq-ok _ _ trusted;
        text = text;
        present = ok_or-eq-ok signature.value e te;
        bytes = bytes;
        decoded = decoded;
        sized = sized;
        valid = valid;
      },
    )

pub check_claims-ok :
    (config : VerificationConfig) (audience issued_at expires_at : Str) (now : ℤ)
    → check_claims config audience issued_at expires_at now ≡ ok tt
    → (audience ≡ config.expected_audience)
      × InWindow issued_at expires_at now config.max_clock_skew_secs
unfolding check_claims
check_claims-ok config audience issued_at expires_at now h = (
  ground (arith, str_eq_iff audience config.expected_audience),
  (check_freshness-InWindow issued_at expires_at now config.max_clock_skew_secs).0 (ground arith),
)

-- The message is in the domain of canonical JSON, as the raw bytes are read.
abbrev pub InDomain : List ℕ → Type 0
InDomain raw = (out : List ℕ) × (canonicalize raw ≡ ok out)

pub read_message-ok :
    (x : Externals) (raw : List ℕ) (value : Value)
    → read_message x raw ≡ ok value
    → (x.from_slice raw ≡ some value) × IsSingle value × InDomain raw
unfolding read_message
read_message-ok x raw value h = (
  ground arith,
  (IsSingle-iff value).0 (ground arith, ground arith),
  elim (Result-cases (canonicalize raw)) [
    | inl found ↦ found
    | inr (e, p) ↦ absurd (ground (arith, p))
  ],
)

pub read_message-reads :
    (x : Externals) (raw : List ℕ) (value : Value)
    → x.from_slice raw ≡ some value
    → IsSingle value
    → InDomain raw
    → read_message x raw ≡ ok value
unfolding read_message
read_message-reads x raw value parsed single (out, domain) =
    let (batch, notification) = (IsSingle-iff value).1 single in
    rw (parsed, batch, notification, domain)

-- What a verifier reads of an envelope, whichever the draft.
pub record EnvelopeView : Type 0 where
  pub signer : Str
  pub on_behalf_of : Str
  pub audience : Str
  pub nonce : Str
  pub issued_at : Str
  pub expires_at : Str
  pub signature : SignatureBlock
  pub authorization : VerifiedAuthorization
  pub canonicalization_id : Option Str

abbrev pub view01 : RequestEnvelope → EnvelopeView
view01 e = record {
  signer = e.signer;
  on_behalf_of = e.on_behalf_of;
  audience = e.audience;
  nonce = e.nonce;
  issued_at = e.issued_at;
  expires_at = e.expires_at;
  signature = e.signature;
  authorization = draft01_hash e.authorization_hash;
  canonicalization_id = none;
}

abbrev pub view02 : Draft02RequestEnvelope → EnvelopeView
view02 e = record {
  signer = e.signer;
  on_behalf_of = e.on_behalf_of;
  audience = e.audience;
  nonce = e.nonce;
  issued_at = e.issued_at;
  expires_at = e.expires_at;
  signature = e.signature;
  authorization = draft02_binding e.authorization_binding;
  canonicalization_id = some e.canonicalization_id;
}

-- What holds of a message that passed steps 1 to 11, whichever the draft.
pub record Checked (x : Externals) (resolver : TrustResolver x.VerificationKey)
    (config : VerificationConfig) (raw : List ℕ) (now : ℤ) (value : Value) (v : EnvelopeView)
    : Type 0 where
  pub parsed : x.from_slice raw ≡ some value
  pub single : IsSingle value
  pub domain : InDomain raw
  pub preimage : List ℕ
  pub preimage_of : signing_preimage request value ≡ ok preimage
  pub alg : v.signature.alg ≡ sig_alg_ed25519
  pub signed : Signed x resolver v.signer v.signature preimage
  pub on_behalf : is_empty v.on_behalf_of ≡ false
  pub addressed : v.audience ≡ config.expected_audience
  pub window : InWindow v.issued_at v.expires_at now config.max_clock_skew_secs

check_on_behalf_of-ok : (who : Str) → check_on_behalf_of who ≡ ok tt → is_empty who ≡ false
unfolding check_on_behalf_of
check_on_behalf_of-ok who h = ground arith

check_signature_block-ok :
    (block : SignatureBlock) → check_signature_block block ≡ ok tt → block.alg ≡ sig_alg_ed25519
unfolding check_signature_block ensure_ed25519_alg
check_signature_block-ok block h = ground (arith, str_eq_iff block.alg sig_alg_ed25519)

check_authorization_hash-ok :
    (hash : Str) → check_authorization_hash hash ≡ ok tt → starts_with hash (codes "sha256:") ≡ true
unfolding check_authorization_hash
check_authorization_hash-ok hash h = ground arith

module _ (x : Externals) (resolver : TrustResolver x.VerificationKey) (config : VerificationConfig)
    (raw : List ℕ) (now : ℤ) where
  to_Checked :
      (value : Value) (v : EnvelopeView)
      → read_message x raw ≡ ok value
      → check_on_behalf_of v.on_behalf_of ≡ ok tt
      → check_signature_block v.signature ≡ ok tt
      → check_claims config v.audience v.issued_at v.expires_at now ≡ ok tt
      → verify_signature x resolver v.signer v.signature
          (signing_preimage request value)
          invalid_signature
        ≡ ok tt
      → Checked x resolver config raw now value v
  to_Checked value v read behalf block claims h =
      let (parsed, single, domain) = read_message-ok x raw value read in
      let (preimage, preimage_of, signed) =
        verify_signature-ok x resolver v.signer v.signature (signing_preimage request value) _ h in
      let (addressed, window) =
        check_claims-ok config v.audience v.issued_at v.expires_at now claims in
      record {
        parsed = parsed;
        single = single;
        domain = domain;
        preimage = preimage;
        preimage_of = preimage_of;
        alg = check_signature_block-ok v.signature block;
        signed = signed;
        on_behalf = check_on_behalf_of-ok v.on_behalf_of behalf;
        addressed = addressed;
        window = window;
      }

  pub check_request-Checked :
      (value : Value) (e : RequestEnvelope)
      → check_request x resolver config raw now ≡ ok (value, e)
      → (extract_request_envelope x.request_from_value value ≡ ok e)
        × (starts_with e.authorization_hash (codes "sha256:") ≡ true)
        × Checked x resolver config raw now value (view01 e)
  unfolding check_request
  check_request-Checked value e h =
      let (v, read, h1) = >>=-eq-ok (read_message x raw) _ h in
      let (f, found, h2) = >>=-eq-ok (extract_request_envelope x.request_from_value v) _ h1 in
      let (hash, h3) = >>-eq-ok (check_authorization_hash f.authorization_hash) _ h2 in
      let (behalf, h4) = >>-eq-ok (check_on_behalf_of f.on_behalf_of) _ h3 in
      let (block, h5) = >>-eq-ok (check_signature_block f.signature) _ h4 in
      let (claims, h6) =
        >>-eq-ok (check_claims config f.audience f.issued_at f.expires_at now) _ h5 in
      let (valid, h7) = >>-eq-ok (verify_signature x resolver f.signer f.signature _ _) _ h6 in
      let same_value : v ≡ value = cc in
      let same_envelope : f ≡ e = cc in
      rw (← same_value, ← same_envelope)
        (
          found,
          check_authorization_hash-ok f.authorization_hash hash,
          to_Checked v (view01 f) read behalf block claims valid,
        )

  pub check_request_draft02-Checked :
      (value : Value) (e : Draft02RequestEnvelope)
      → check_request_draft02 x resolver config raw now ≡ ok (value, e)
      → (extract_draft02_request_envelope x.draft02_request_from_value value ≡ ok e)
        × Checked x resolver config raw now value (view02 e)
  unfolding check_request_draft02
  check_request_draft02-Checked value e h =
      let (v, read, h1) = >>=-eq-ok (read_message x raw) _ h in
      let (f, found, h2) =
        >>=-eq-ok (extract_draft02_request_envelope x.draft02_request_from_value v) _ h1 in
      let (behalf, h4) = >>-eq-ok (check_on_behalf_of f.on_behalf_of) _ h2 in
      let (block, h5) = >>-eq-ok (check_signature_block f.signature) _ h4 in
      let (claims, h6) =
        >>-eq-ok (check_claims config f.audience f.issued_at f.expires_at now) _ h5 in
      let (valid, h7) = >>-eq-ok (verify_signature x resolver f.signer f.signature _ _) _ h6 in
      let same_value : v ≡ value = cc in
      let same_envelope : f ≡ e = cc in
      rw (← same_value, ← same_envelope)
        (found, to_Checked v (view02 f) read behalf block claims valid)
