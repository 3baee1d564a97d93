-- ===== src/Core/Pipeline/Signer.antt =====
-- What a signer signs for a key, the verifier accepts under it.
use mcps.Prelude.{ℕ, Str, length, List, ◌≡◌, some, ok, true, arith}
use mcps.Core.Error.{McpsError}
use mcps.Core.Ids.{sig_alg_ed25519}
use mcps.Core.Envelope.{SignatureBlock}
use mcps.Core.Resolver.{TrustResolver}
use mcps.Core.Crypto.{Externals, verify_ed25519_with}
use mcps.Core.Pipeline.{verify_signature}

-- A signer, as what it signs of each message, whose signatures the key verifies.
pub record SignsFor (x : Externals) (signs : List ℕ → Str → Type 0) (key : x.VerificationKey)
    : Type 0 where
  pub bytes : Str → List ℕ
  pub decoded : (m : List ℕ) (text : Str) → signs m text → x.b64url_decode text ≡ some (bytes text)
  pub sized : (m : List ℕ) (text : Str) → signs m text → length (bytes text) ≡ 64
  pub valid : (m : List ℕ) (text : Str) → signs m text → x.verify_strict key m (bytes text) ≡ true

-- The block that an envelope carries.
abbrev pub block : Str → Str → SignatureBlock
block key_id signature = record { alg = sig_alg_ed25519; key_id = key_id; value = some signature }

pub verify_signature-SignsFor :
    (x : Externals) (resolver : TrustResolver x.VerificationKey) (signer key_id : Str)
    (key : x.VerificationKey) (on_error : McpsError) (signs : List ℕ → Str → Type 0)
    (preimage : List ℕ) (signature : Str)
    → resolver signer key_id ≡ ok key
    → SignsFor x signs key
    → signs preimage signature
    → verify_signature x resolver signer (block key_id signature) (ok preimage) on_error ≡ ok tt
unfolding verify_signature verify_ed25519_with
verify_signature-SignsFor x resolver signer key_id key on_error signs preimage signature trusted
      good signed =
    ground (
      arith,
      trusted,
      good.decoded preimage signature signed,
      good.sized preimage signature signed,
      good.valid preimage signature signed,
    )
