-- ===== src/Client/Request.antt =====
-- mcps-client-core/src/request.rs: the construction of a signed request. `serde_json::Map` is a list
-- of members, and the key of a signer is the function that signs with it.
pub mod Unsigned
pub mod Signed
pub mod Returns
pub mod Verified
use mcps.Prelude.{
  ℕ, Str, codes, is_empty, List, Option, some, none, Result, ok, err, ◌>>=◌, ◌>>◌, if◌then◌else◌,
  guard, not,
}
use mcps.Core.Error.{
  McpsError, canonicalization_id_missing, canonicalization_id_not_allowed, canonicalization_failed,
}
use mcps.Core.Ids.{
  request_meta_key, version_draft_02, canonicalization_id_int53_v1, sig_alg_ed25519,
  draft_02_canonicalization_allowlist,
}
use mcps.Core.Json.{
  Value, Members, string, object, no_members, member, get_member, remove_member, insert_member,
}
use mcps.Core.Envelope.{AuthorizationBinding}
use mcps.Core.Constraints.{Check, contains}
use mcps.Core.Signing.{signing_preimage, request_hash, request}
use mcps.Core.Signing.Written.{write_signature}
use mcps.Core.Libraries.{Libraries}
use mcps.Core.Failure.{Failure, or_refuse, or_refused, or_panic}

pub record RequestSigningInputs : Type 0 where
  pub signer : Str
  pub key_id : Str
  pub on_behalf_of : Str
  pub audience : Str
  pub authorization_binding : AuthorizationBinding
  pub nonce : Str
  pub issued_at : Str
  pub expires_at : Str
  pub canonicalization_id : Str

unfoldable pub with_default_canonicalization :
    Str → Str → Str → Str → AuthorizationBinding → Str → Str → Str → RequestSigningInputs
with_default_canonicalization signer key_id on_behalf_of audience binding nonce issued_at
      expires_at =
    record {
      signer = signer;
      key_id = key_id;
      on_behalf_of = on_behalf_of;
      audience = audience;
      authorization_binding = binding;
      nonce = nonce;
      issued_at = issued_at;
      expires_at = expires_at;
      canonicalization_id = canonicalization_id_int53_v1;
    }

pub record SignedRequest : Type 0 where
  pub wire_bytes : List ℕ
  pub hash : Str
  pub message : Value

unfoldable pub check_canonicalization_id : Str → Check
check_canonicalization_id id = do
  guard (not (is_empty id)) canonicalization_id_missing
  guard (contains draft_02_canonicalization_allowlist id) canonicalization_id_not_allowed

unfoldable pub block_members : Str → Members
unfolding codes
block_members key_id =
    member (codes "alg") (string sig_alg_ed25519)
      (member (codes "key_id") (string key_id) no_members)

unfoldable pub envelope_value : Value → RequestSigningInputs → Value
unfolding codes
envelope_value binding inputs = object (
    member (codes "version") (string version_draft_02) (
      member (codes "canonicalization_id") (string inputs.canonicalization_id) (
        member (codes "signer") (string inputs.signer) (
          member (codes "on_behalf_of") (string inputs.on_behalf_of) (
            member (codes "audience") (string inputs.audience) (
              member (codes "authorization_binding") binding (
                member (codes "nonce") (string inputs.nonce) (
                  member (codes "issued_at") (string inputs.issued_at) (
                    member (codes "expires_at") (string inputs.expires_at) (
                      member (codes "signature") (object (block_members inputs.key_id))
                        no_members))))))))))

-- The `_meta` that was given, when it is an object.
unfoldable pub given_meta : Option Value → Members
given_meta (some (object ms)) = ms
given_meta _ = no_members

unfoldable pub with_meta : Value → Members → Members
unfolding codes
with_meta envelope params =
    let meta =
      insert_member request_meta_key envelope (given_meta (get_member params (codes "_meta"))) in
    insert_member (codes "_meta") (object meta) (remove_member (codes "_meta") params)

unfoldable pub request_object : Value → Str → Members → Value
unfolding codes
request_object id method params = object (
    member (codes "id") id (
      member (codes "jsonrpc") (string (codes "2.0")) (
        member (codes "method") (string method)
          (member (codes "params") (object params) no_members))))

unfoldable pub build_signed_request_with :
    Libraries
    → Value
    → Str
    → Members
    → RequestSigningInputs
    → (List ℕ → Result McpsError Str)
    → Result Failure SignedRequest
build_signed_request_with l id method params inputs sign = do
  or_refused (check_canonicalization_id inputs.canonicalization_id)
  binding ← or_panic (l.binding_to_value inputs.authorization_binding)
  let unsigned = request_object id method (with_meta (envelope_value binding inputs) params)
  preimage ← or_refused (signing_preimage request unsigned)
  signature ← or_refused (sign preimage)
  signed ← or_panic (write_signature request signature unsigned)
  hash ← or_refused (request_hash l.externals signed)
  wire_bytes ← or_refuse (l.to_vec signed) canonicalization_failed
  ok (record { wire_bytes = wire_bytes; hash = hash; message = signed })

unfoldable pub build_signed_request :
    Libraries
    → Value
    → Str
    → Members
    → RequestSigningInputs
    → (List ℕ → Str)
    → Result Failure SignedRequest
build_signed_request l id method params inputs signing_key =
    build_signed_request_with l id method params inputs (λ preimage. ok (signing_key preimage))

unfoldable pub build_signed_tool_call :
    Libraries
    → Value
    → Str
    → Value
    → RequestSigningInputs
    → (List ℕ → Str)
    → Result Failure SignedRequest
unfolding codes
build_signed_tool_call l id tool_name arguments inputs signing_key =
    let params =
      insert_member (codes "arguments") arguments
        (insert_member (codes "name") (string tool_name) no_members) in
    build_signed_request l id (codes "tools/call") params inputs signing_key
