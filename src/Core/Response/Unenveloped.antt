-- ===== src/Core/Response/Unenveloped.antt =====
-- The exact responses of which the draft-02 verifier of mcps-core/src/pipeline.rs says that they have no
-- envelope.
use mcps.Prelude.{
  ℕ, Str, str_eq, str_eq_iff, List, Option-cases, some, Result, ok, err, ◌≡◌, ◌≢◌, ◌↔◌, ◌⊎◌, ◌>>◌,
  guard-eq-ok, inl, inr, arith, guard, FailsOnly, FailsOnly-guard, Result-cases, >>=-eq-err,
}
use mcps.Core.Error.{
  McpsError, missing_envelope, response_sig_invalid, response_hash_mismatch,
  canonicalization_id_mismatch,
}
use mcps.Core.Ids.{sig_alg_ed25519}
use mcps.Core.Json.{Value}
use mcps.Core.Envelope.{Draft02ResponseEnvelope}
use mcps.Core.Resolver
use mcps.Core.Resolver.{TrustResolver, TrustResolverError}
use mcps.Core.Crypto.{Externals, ensure_ed25519_alg, verify_ed25519_with}
use mcps.Core.Canonical.Parser.Refusals.{canonicalize-Fails}
use mcps.Core.Constraints.{extract_draft02_response_envelope, reject_batch, reject_notification}
use mcps.Core.Constraints.Reads.{Draft02ResponseReads, draft02_response_reads}
use mcps.Core.Constraints.Single.{IsSingle}
use mcps.Core.Signing.{signing_preimage, response}
use mcps.Core.Pipeline.{read_message, verify_signature}
use mcps.Core.Pipeline.Accepts.{InDomain, read_message-ok, read_message-reads}
use mcps.Core.Response.{VerifiedResponse, verify_response_draft02}
use mcps.Core.Response.Absent.{
  EnvelopeAt, Blockless, located_cases, extract_missing, preimage_missing,
}

-- Nothing is at the place of the envelope, or what is there reads as an envelope of a trusted server
-- whose `signature` member is not an object.
abbrev pub Missing : (x : Externals) → TrustResolver x.VerificationKey → Value → Type 0
Missing x resolver value =
    ((envelope : Value) → ¬ EnvelopeAt value envelope)
    ⊎ ((envelope : Value) × (e : Draft02ResponseEnvelope) × (key : x.VerificationKey) × EnvelopeAt
          value envelope
        × Blockless envelope
        × Draft02ResponseReads x.draft02_response_from_value value e
        × (e.signature.alg ≡ sig_alg_ed25519)
        × (resolver e.server_signer e.signature.key_id ≡ ok key))

-- A message in the domain of the verifier, of which the envelope is missing.
pub record Unenveloped (x : Externals) (resolver : TrustResolver x.VerificationKey) (raw : List ℕ)
    : Type 0 where
  pub value : Value
  pub parsed : x.from_slice raw ≡ some value
  pub single : IsSingle value
  pub domain : InDomain raw
  pub missing : Missing x resolver value

module _ (x : Externals) (raw : List ℕ) where
  read_found : read_message x raw ≢ err missing_envelope
  unfolding read_message reject_batch reject_notification
  read_found h = ground (arith, (canonicalize-Fails raw).at missing_envelope)

ed25519_fails :
    (x : Externals) (preimage : List ℕ) (text : Str) (key : x.VerificationKey) (e : McpsError)
    → FailsOnly e (verify_ed25519_with x preimage text key e)
unfolding verify_ed25519_with
ed25519_fails x preimage text key e = record { at = λ e' h. ground arith }

resolver_found : (e : TrustResolverError) → Resolver.to_mcps_error e ≢ missing_envelope
unfolding Resolver.to_mcps_error
resolver_found e h = ground arith

module _ (x : Externals) (resolver : TrustResolver x.VerificationKey) (value : Value)
    (e : Draft02ResponseEnvelope) where
  abbrev signature_checked : Result McpsError (Unit {0})
  signature_checked =
      verify_signature x resolver e.server_signer e.signature (signing_preimage response value)
        response_sig_invalid

  signature_missing :
      signature_checked ≡ err missing_envelope
      → (key : x.VerificationKey) × (resolver e.server_signer e.signature.key_id ≡ ok key)
        × (signing_preimage response value ≡ err missing_envelope)
  unfolding verify_signature
  signature_missing h = elim (Result-cases (resolver e.server_signer e.signature.key_id)) [
    | inr (d, p) ↦ absurd (resolver_found d (ground (arith, p)))
    | inl (key, p) ↦ elim (Result-cases (signing_preimage response value)) [
      | inr (d, q) ↦ (key, p, ground (arith, p, q))
      | inl (preimage, q) ↦ elim (Option-cases e.signature.value) [
        | inl r ↦ absurd (ground (arith, p, q, r))
        | inr (text, r) ↦ absurd (
            let fails : verify_ed25519_with x preimage text key response_sig_invalid
                ≡ err missing_envelope =
              ground (arith, p, q, r) in
            let same = (ed25519_fails x preimage text key response_sig_invalid).at _ fails in cc)
      ]
    ]
  ]

  missing_signature :
      (key : x.VerificationKey)
      → resolver e.server_signer e.signature.key_id ≡ ok key
      → signing_preimage response value ≡ err missing_envelope
      → signature_checked ≡ err missing_envelope
  unfolding verify_signature
  missing_signature key p q = ground (arith, p, q)

module _ (x : Externals) (resolver : TrustResolver x.VerificationKey) (value : Value) where
  found_at :
      (e : Draft02ResponseEnvelope)
      → extract_draft02_response_envelope x.draft02_response_from_value value ≡ ok e
      → (envelope : Value) × EnvelopeAt value envelope
  found_at e found = elim (located_cases value) [
    | inl (envelope, at, p) ↦ (envelope, at)
    | inr (nothing, p) ↦
        absurd (let fails = (extract_missing x.draft02_response_from_value value).1 nothing in cc)
  ]

  unsigned :
      (e : Draft02ResponseEnvelope)
      → extract_draft02_response_envelope x.draft02_response_from_value value ≡ ok e
      → e.signature.alg ≡ sig_alg_ed25519
      → signature_checked x resolver value e ≡ err missing_envelope
      → Missing x resolver value
  unsigned e found alg h =
      let (envelope, at) = found_at e found in
      let (key, trusted, fails) = signature_missing x resolver value e h in
      inr (
        envelope,
        e,
        key,
        at,
        (preimage_missing value envelope at).0 fails,
        (draft02_response_reads _ value e).0 found,
        alg,
        trusted,
      )

module _ (x : Externals) (resolver : TrustResolver x.VerificationKey) (raw : List ℕ)
    (expected id : Str) where
  abbrev returned : Draft02ResponseEnvelope → VerifiedResponse
  returned e = record {
    server_signer = e.server_signer;
    key_id = e.signature.key_id;
    request_hash = e.request_hash;
  }

  abbrev verdict : Result McpsError VerifiedResponse
  verdict = verify_response_draft02 x resolver raw expected id

  checks_missing :
      (value : Value) (e : Draft02ResponseEnvelope)
      → extract_draft02_response_envelope x.draft02_response_from_value value ≡ ok e
      → (ensure_ed25519_alg e.signature.alg response_sig_invalid
          >> (signature_checked x resolver value e
              >> (guard (str_eq e.canonicalization_id id) canonicalization_id_mismatch
                  >> (guard (str_eq e.request_hash expected) response_hash_mismatch
                      >> ok (returned e)))))
        ≡ err missing_envelope
      → Missing x resolver value
  unfolding ensure_ed25519_alg
  checks_missing value e found h =
      elim (>>=-eq-err (ensure_ed25519_alg e.signature.alg response_sig_invalid) _ h) [
        | inl fails ↦ absurd (let same = (FailsOnly-guard _).at _ fails in cc)
        | inr (u, alg, h1) ↦ elim (>>=-eq-err (signature_checked x resolver value e) _ h1) [
          | inl fails ↦
              unsigned x resolver value e found
                ((str_eq_iff e.signature.alg sig_alg_ed25519).0 (guard-eq-ok _ _ alg)) fails
          | inr (u', valid, h2) ↦ absurd (ground (arith, h2))
        ]
      ]

  unenveloped : verdict ≡ err missing_envelope → Unenveloped x resolver raw
  unfolding verify_response_draft02 ensure_ed25519_alg
  unenveloped h = elim (>>=-eq-err (read_message x raw) _ h) [
    | inl fails ↦ absurd (read_found x raw fails)
    | inr (value, read, h1) ↦
        let (parsed, single, domain) = read_message-ok x raw value read in
        record {
          value = value;
          parsed = parsed;
          single = single;
          domain = domain;
          missing =
              elim (>>=-eq-err
                (extract_draft02_response_envelope x.draft02_response_from_value value) _ h1) [
                  | inl fails ↦ inl ((extract_missing x.draft02_response_from_value value).0 fails)
                  | inr (e, found, h2) ↦ checks_missing value e found h2
                ];
        }
  ]

  missing_verdict : Unenveloped x resolver raw → verdict ≡ err missing_envelope
  unfolding verify_response_draft02 ensure_ed25519_alg
  missing_verdict u =
      let read = read_message-reads x raw u.value u.parsed u.single u.domain in
      elim u.missing [
        | inl nothing ↦
            let fails = (extract_missing x.draft02_response_from_value u.value).1 nothing in
            ground (arith, read, fails)
        | inr (envelope, e, key, at, block, found, alg, trusted) ↦
            let fails =
              missing_signature x resolver u.value e key trusted
                ((preimage_missing u.value envelope at).1 block) in
            ground (
              arith,
              read,
              (draft02_response_reads _ u.value e).1 found,
              fails,
              str_eq_iff e.signature.alg sig_alg_ed25519,
            )
      ]

  -- The verifier says that the envelope is missing of these responses and of no others.
  pub verify_response_draft02-Unenveloped :
      (verdict ≡ err missing_envelope) ↔ Unenveloped x resolver raw
  verify_response_draft02-Unenveloped = (unenveloped, missing_verdict)
