-- ===== src/Policy/Reference/Mint.antt =====
-- mcps-policy/src/reference.rs: the signing of a grant by its issuer.
use mcps.Prelude.{
  ℕ, Str, codes, is_empty, ◌||◌, Bool, false, not, Option, none, some, List, [], ◌∷◌, Result, ◌>>=◌,
  ◌>>◌, guard,
}
use mcps.Core.Ids.{sig_alg_ed25519}
use mcps.Core.Json.{
  Value, Items, Members, string, array, object, no_items, item, no_members, member,
}
use mcps.Core.Canonical.{canonicalize_json_value}
use mcps.Policy.Error.{PolicyError, malformed}
use mcps.Policy.Reference.{to_malformed, reference_profile_id}

pub record GrantedOperation : Type 0 where
  pub method : Str
  pub tool : Str
  pub arguments : Option Value

pub record ReferenceGrantSpec : Type 0 where
  pub issuer : Str
  pub grantee : Str
  pub subject : Str
  pub audience : Str
  pub operations : List GrantedOperation
  pub not_before : Str
  pub expires_at : Str
  pub revocation_id : Str

unfoldable pub any_operation : (GrantedOperation → Bool) → List GrantedOperation → Bool
any_operation p [] = false
any_operation p (o ∷ os) = p o || any_operation p os

minted_arguments : Option Value → Members
unfolding codes
minted_arguments none = no_members
minted_arguments (some arguments) = member (codes "arguments") arguments no_members

unfoldable pub minted_grants : List GrantedOperation → Items
unfolding codes minted_arguments
minted_grants [] = no_items
minted_grants (o ∷ os) =
    item
      (object (
        member (codes "method") (string o.method)
          (member (codes "tool") (string o.tool) (minted_arguments o.arguments))))
      (minted_grants os)

-- The literal of `json!`, around the members of the signature.
unfoldable pub minted_artifact : ReferenceGrantSpec → Members → Value
unfolding codes minted_grants
minted_artifact spec signature = object (
    member (codes "profile") (string reference_profile_id) (
      member (codes "issuer") (string spec.issuer) (
        member (codes "grantee") (string spec.grantee) (
          member (codes "subject") (string spec.subject) (
            member (codes "audience") (string spec.audience) (
              member (codes "grants") (array (minted_grants spec.operations)) (
                member (codes "not_before") (string spec.not_before) (
                  member (codes "expires_at") (string spec.expires_at) (
                    member (codes "revocation_id") (string spec.revocation_id)
                      (member (codes "signature") (object signature) no_members))))))))))

-- The members of the signature, and the value that is written to them later.
unfoldable pub minted_signature : Str → Members → Members
unfolding codes
minted_signature key_id rest =
    member (codes "alg") (string sig_alg_ed25519) (member (codes "key_id") (string key_id) rest)

-- `sign` is the method of the signing key of the issuer.
unfoldable pub mint_reference_grant :
    ReferenceGrantSpec → (List ℕ → Str) → Str → Result PolicyError (List ℕ)
mint_reference_grant spec sign key_id = do
  guard (not (any_operation (λ o. is_empty o.tool) spec.operations)) malformed
  preimage ←
      to_malformed
        (canonicalize_json_value (minted_artifact spec (minted_signature key_id no_members)))
  let value = member (codes "value") (string (sign preimage)) no_members
  to_malformed (canonicalize_json_value (minted_artifact spec (minted_signature key_id value)))
