-- ===== src/Policy/Reference/Signature.antt =====
-- What `mint_reference_grant` of mcps-policy/src/reference.rs signs, the profile verifies.
use mcps.Prelude.{ℕ, Str, codes, length, List, [], ◌∷◌, ◌≡◌, true, some}
use mcps.Core.Ids.{sig_alg_ed25519}
use mcps.Core.Json.{Value, string, no_members, member}
use mcps.Core.Crypto.{Externals}
use mcps.Policy.Scope.{Grant}
use mcps.Policy.Reference.{ReferenceGrant}
use mcps.Policy.Reference.Mint.{
  ReferenceGrantSpec, GrantedOperation, minted_artifact, minted_signature,
}

abbrev granted_operations : List GrantedOperation → List Grant
granted_operations [] = []
granted_operations (o ∷ os) =
    record { method = o.method; tool = o.tool; arguments = o.arguments } ∷ granted_operations os

-- The grant whose members are those of the artifact, for the value of a signature.
abbrev pub minted_grant : ReferenceGrantSpec → Str → Str → ReferenceGrant
minted_grant spec key_id value = record {
  issuer = spec.issuer;
  grantee = spec.grantee;
  subject = spec.subject;
  audience = spec.audience;
  grants = granted_operations spec.operations;
  not_before = spec.not_before;
  expires_at = spec.expires_at;
  revocation_id = spec.revocation_id;
  signature = record { alg = sig_alg_ed25519; key_id = key_id; value = value };
}

abbrev pub signed_artifact : ReferenceGrantSpec → Str → Str → Value
signed_artifact spec key_id value =
    minted_artifact spec
      (minted_signature key_id (member (codes "value") (string value) no_members))

-- A signing key and the key that the resolver gives for it.
pub record KeyPair (x : Externals) (sign : List ℕ → Str) (key : x.VerificationKey) : Type 0 where
  pub signature : List ℕ → List ℕ
  pub decoded : (m : List ℕ) → x.b64url_decode (sign m) ≡ some (signature m)
  pub sized : (m : List ℕ) → length (signature m) ≡ 64
  pub valid : (m : List ℕ) → x.verify_strict key m (signature m) ≡ true
