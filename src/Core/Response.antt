-- ===== src/Core/Response.antt =====
-- mcps-core/src/pipeline.rs: the verifiers of responses.
pub mod Absent
pub mod Binding
pub mod Unenveloped
use mcps.Prelude.{ℕ, Str, str_eq, List, Result, ok, ◌>>=◌, ◌>>◌, guard}
use mcps.Core.Error.{
  McpsError, response_sig_invalid, response_hash_mismatch, canonicalization_id_mismatch,
}
use mcps.Core.Resolver.{TrustResolver}
use mcps.Core.Constraints.{extract_response_envelope, extract_draft02_response_envelope}
use mcps.Core.Crypto.{Externals, ensure_ed25519_alg}
use mcps.Core.Signing.{signing_preimage, response}
use mcps.Core.Pipeline.{read_message, verify_signature}

pub record VerifiedResponse : Type 0 where
  pub server_signer : Str
  pub key_id : Str
  pub request_hash : Str

module _ (x : Externals) (resolver : TrustResolver x.VerificationKey) where
  unfoldable pub verify_response : List ℕ → Str → Result McpsError VerifiedResponse
  verify_response raw_bytes expected_request_hash = do
    value ← read_message x raw_bytes
    envelope ← extract_response_envelope x.response_from_value value
    ensure_ed25519_alg envelope.signature.alg response_sig_invalid
    verify_signature x resolver envelope.server_signer envelope.signature
        (signing_preimage response value) response_sig_invalid
    guard (str_eq envelope.request_hash expected_request_hash) response_hash_mismatch
    ok (record {
      server_signer = envelope.server_signer;
      key_id = envelope.signature.key_id;
      request_hash = envelope.request_hash;
    })

  unfoldable pub verify_response_draft02 : List ℕ → Str → Str → Result McpsError VerifiedResponse
  verify_response_draft02 raw_bytes expected_request_hash expected_canonicalization_id = do
    value ← read_message x raw_bytes
    envelope ← extract_draft02_response_envelope x.draft02_response_from_value value
    ensure_ed25519_alg envelope.signature.alg response_sig_invalid
    verify_signature x resolver envelope.server_signer envelope.signature
        (signing_preimage response value) response_sig_invalid
    guard (str_eq envelope.canonicalization_id expected_canonicalization_id)
        canonicalization_id_mismatch
    guard (str_eq envelope.request_hash expected_request_hash) response_hash_mismatch
    ok (record {
      server_signer = envelope.server_signer;
      key_id = envelope.signature.key_id;
      request_hash = envelope.request_hash;
    })
