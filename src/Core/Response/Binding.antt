-- ===== src/Core/Response/Binding.antt =====
-- What an accepted response guarantees.
use mcps.Prelude.{
  ℕ, Str, some, List, ◌≡◌, ok, >>=-eq-ok, >>-eq-ok, guard, arith, str_eq, str_eq_iff, refl, ap, sym,
  ok-injective,
}
use mcps.Core.Error.{
  McpsError, response_sig_invalid, response_hash_mismatch, canonicalization_id_mismatch,
}
use mcps.Core.Resolver.{TrustResolver}
use mcps.Core.Json.{Value}
use mcps.Core.Ids.{sig_alg_ed25519}
use mcps.Core.Constraints.Single.{IsSingle}
use mcps.Core.Envelope.{SignatureBlock, ResponseEnvelope, Draft02ResponseEnvelope}
use mcps.Core.Constraints.{extract_response_envelope, extract_draft02_response_envelope}
use mcps.Core.Constraints.Reads.{
  ResponseReads, Draft02ResponseReads, response_reads, draft02_response_reads,
}
use mcps.Core.Crypto.{Externals, ensure_ed25519_alg}
use mcps.Core.Signing.{signing_preimage, response}
use mcps.Core.Pipeline.{read_message, verify_signature}
use mcps.Core.Response.{VerifiedResponse, verify_response, verify_response_draft02}
use mcps.Core.Pipeline.Accepts.{Signed, InDomain, read_message-ok, verify_signature-ok}

-- What a verifier reads of the envelope of a response, whichever the draft.
pub record ResponseView : Type 0 where
  pub request_hash : Str
  pub server_signer : Str
  pub signature : SignatureBlock

-- The envelope of a draft-01 response, and of a draft-02 one with the canonicalization id.
abbrev pub Carries01 : (x : Externals) → Value → ResponseView → Type 0
Carries01 x value v =
    (e : ResponseEnvelope) × ResponseReads x.response_from_value value e
    × (v.request_hash ≡ e.request_hash)
    × (v.server_signer ≡ e.server_signer)
    × (v.signature ≡ e.signature)

abbrev pub Carries02 : (x : Externals) → Str → Value → ResponseView → Type 0
Carries02 x id value v =
    (e : Draft02ResponseEnvelope) × Draft02ResponseReads x.draft02_response_from_value value e
    × (e.canonicalization_id ≡ id)
    × (v.request_hash ≡ e.request_hash)
    × (v.server_signer ≡ e.server_signer)
    × (v.signature ≡ e.signature)

-- A response whose own envelope answers the request with the hash `expected`, with a signature of its
-- own that verifies, and of which `vr` is what is returned.
pub record Answers (x : Externals) (resolver : TrustResolver x.VerificationKey)
    (carries : Value → ResponseView → Type 0) (raw : List ℕ) (expected : Str)
    (vr : VerifiedResponse) : Type 0 where
  pub value : Value
  pub parsed : x.from_slice raw ≡ some value
  pub single : IsSingle value
  pub domain : InDomain raw
  pub view : ResponseView
  pub carried : carries value view
  pub bound : view.request_hash ≡ expected
  pub preimage : List ℕ
  pub preimage_of : signing_preimage response value ≡ ok preimage
  pub alg : view.signature.alg ≡ sig_alg_ed25519
  pub signed : Signed x resolver view.server_signer view.signature preimage
  pub server_signer : vr.server_signer ≡ view.server_signer
  pub key_id : vr.key_id ≡ view.signature.key_id
  pub request_hash : vr.request_hash ≡ view.request_hash

guard-str_eq-ok : (s t : Str) (e : McpsError) → guard (str_eq s t) e ≡ ok tt → s ≡ t
guard-str_eq-ok s t e h = ground (arith, str_eq_iff s t)

alg-ok : (alg : Str) (e : McpsError) → ensure_ed25519_alg alg e ≡ ok tt → alg ≡ sig_alg_ed25519
unfolding ensure_ed25519_alg
alg-ok alg e h = ground (arith, str_eq_iff alg sig_alg_ed25519)

abbrev returned : ResponseView → VerifiedResponse
returned v = record {
  server_signer = v.server_signer;
  key_id = v.signature.key_id;
  request_hash = v.request_hash;
}

module _ (x : Externals) (resolver : TrustResolver x.VerificationKey) (raw : List ℕ)
    (expected : Str) (vr : VerifiedResponse) where
  to_Answers :
      (carries : Value → ResponseView → Type 0) (value : Value) (v : ResponseView)
      → read_message x raw ≡ ok value
      → carries value v
      → ensure_ed25519_alg v.signature.alg response_sig_invalid ≡ ok tt
      → verify_signature x resolver v.server_signer v.signature
          (signing_preimage response value)
          response_sig_invalid
        ≡ ok tt
      → guard (str_eq v.request_hash expected) response_hash_mismatch ≡ ok tt
      → returned v ≡ vr
      → Answers x resolver carries raw expected vr
  to_Answers carries value v read carried alg valid bound same =
      let (parsed, single, domain) = read_message-ok x raw value read in
      let (preimage, preimage_of, signed) =
        verify_signature-ok x resolver v.server_signer v.signature _ _ valid in
      record {
        value = value;
        parsed = parsed;
        single = single;
        domain = domain;
        view = v;
        carried = carried;
        bound = guard-str_eq-ok v.request_hash expected _ bound;
        preimage = preimage;
        preimage_of = preimage_of;
        alg = alg-ok v.signature.alg _ alg;
        signed = signed;
        server_signer = ap (λ r. r.server_signer) (sym same);
        key_id = ap (λ r. r.key_id) (sym same);
        request_hash = ap (λ r. r.request_hash) (sym same);
      }

  pub verify_response-Answers :
      verify_response x resolver raw expected ≡ ok vr
      → Answers x resolver (Carries01 x) raw expected vr
  unfolding verify_response
  verify_response-Answers h =
      let (v, read, h1) = >>=-eq-ok (read_message x raw) _ h in
      let (e, found, h2) = >>=-eq-ok (extract_response_envelope x.response_from_value v) _ h1 in
      let (alg, h3) = >>-eq-ok (ensure_ed25519_alg e.signature.alg response_sig_invalid) _ h2 in
      let (valid, h4) =
        >>-eq-ok (verify_signature x resolver e.server_signer e.signature _ _) _ h3 in
      let (bound, built) =
        >>-eq-ok (guard (str_eq e.request_hash expected) response_hash_mismatch) _ h4 in
      let view : ResponseView = record {
        request_hash = e.request_hash;
        server_signer = e.server_signer;
        signature = e.signature;
      } in
      to_Answers (Carries01 x) v view read (e, (response_reads _ v e).0 found, refl, refl, refl) alg
        valid bound (ok-injective built)

  -- A response that the verifier of draft-02 accepts parses as a message with an id, no batch, in
  -- the domain of canonical JSON; its own envelope names the canonicalization id and the hash of
  -- the request that were expected; the signature that stands in that envelope verifies over its
  -- preimage, under the key that the resolver gives for the server and the key id of that envelope;
  -- and the server, the key id and the hash that are returned are those of the envelope.
  pub verify_response_draft02-Answers :
      (expected_id : Str)
      → verify_response_draft02 x resolver raw expected expected_id ≡ ok vr
      → Answers x resolver (Carries02 x expected_id) raw expected vr
  unfolding verify_response_draft02
  verify_response_draft02-Answers expected_id h =
      let (v, read, h1) = >>=-eq-ok (read_message x raw) _ h in
      let (e, found, h2) =
        >>=-eq-ok (extract_draft02_response_envelope x.draft02_response_from_value v) _ h1 in
      let (alg, h3) = >>-eq-ok (ensure_ed25519_alg e.signature.alg response_sig_invalid) _ h2 in
      let (valid, h4) =
        >>-eq-ok (verify_signature x resolver e.server_signer e.signature _ _) _ h3 in
      let (id, h5) =
        >>-eq-ok (guard (str_eq e.canonicalization_id expected_id) canonicalization_id_mismatch) _
          h4 in
      let (bound, built) =
        >>-eq-ok (guard (str_eq e.request_hash expected) response_hash_mismatch) _ h5 in
      let view : ResponseView = record {
        request_hash = e.request_hash;
        server_signer = e.server_signer;
        signature = e.signature;
      } in
      let same_id = guard-str_eq-ok e.canonicalization_id expected_id _ id in
      to_Answers (Carries02 x expected_id) v view read
        (e, (draft02_response_reads _ v e).0 found, same_id, refl, refl, refl) alg valid bound
        (ok-injective built)
