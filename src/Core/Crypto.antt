-- ===== src/Core/Crypto.antt =====
-- mcps-core/src/crypto.rs, hash.rs and encoding.rs over the libraries that they call: `ed25519_dalek`,
-- `sha2`, `base64` and `serde_json` are the fields of `Externals`, of which nothing is assumed.
use mcps.Prelude.{
  ℕ, Str, codes, str_eq, length, ◌==◌, ◌++◌, Bool, Option, none, some, List, err, guard,
  if◌then◌else◌,
}
use mcps.Core.Error.{McpsError}
use mcps.Core.Ids.{sig_alg_ed25519}
use mcps.Core.Json.{Value}
use mcps.Core.Envelope.{
  RequestEnvelope, ResponseEnvelope, Draft02RequestEnvelope, Draft02ResponseEnvelope,
}
use mcps.Core.Constraints.{Check, FromValue}

pub record Externals : Type 1 where
  pub VerificationKey : Type 0
  -- `VerifyingKey::verify_strict`, on a key, a message and the 64 bytes of a signature.
  pub verify_strict : VerificationKey → List ℕ → List ℕ → Bool
  pub b64url_decode : Str → Option (List ℕ)
  pub b64url_encode : List ℕ → Str
  pub sha256 : List ℕ → List ℕ
  -- `serde_json::from_slice`, and `from_value` at each envelope.
  pub from_slice : List ℕ → Option Value
  pub request_from_value : FromValue RequestEnvelope
  pub response_from_value : FromValue ResponseEnvelope
  pub draft02_request_from_value : FromValue Draft02RequestEnvelope
  pub draft02_response_from_value : FromValue Draft02ResponseEnvelope

unfoldable pub ensure_ed25519_alg : Str → McpsError → Check
unfolding str_eq codes
ensure_ed25519_alg alg on_error = guard (str_eq alg sig_alg_ed25519) on_error

module _ (x : Externals) where
  unfoldable pub verify_ed25519_with : List ℕ → Str → x.VerificationKey → McpsError → Check
  verify_ed25519_with preimage signature_b64url key on_error =
      elim (x.b64url_decode signature_b64url) [
        | none ↦ err on_error
        | some bytes ↦
            if length bytes == 64
            then guard (x.verify_strict key preimage bytes) on_error
            else err on_error
      ]

  unfoldable pub sha256_hash_id : List ℕ → Str
  unfolding codes
  sha256_hash_id bytes = codes "sha256:" ++ x.b64url_encode (x.sha256 bytes)
