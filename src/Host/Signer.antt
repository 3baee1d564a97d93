-- ===== src/Host/Signer.antt =====
-- mcps-host/src/signer.rs: the signing of a draft-01 request. Its key is the function that signs with
-- it, and the message around the envelope is the one of mcps-client-core/src/request.rs.
use mcps.Prelude.{ℕ, Str, codes, List, Result, ◌>>=◌}
use mcps.Core.Error.{canonicalization_failed}
use mcps.Core.Ids.{version_draft_01}
use mcps.Core.Json.{Value, Members, string, object, no_members, member, insert_member}
use mcps.Core.Signing.{signing_preimage, request}
use mcps.Core.Signing.Written.{write_signature}
use mcps.Core.Libraries.{Libraries}
use mcps.Core.Failure.{Failure, or_refuse, or_refused, or_panic}
use mcps.Client.Request.{block_members, with_meta, request_object}

pub record HostSigner : Type 0 where
  pub signing_key : List ℕ → Str
  pub signer : Str
  pub key_id : Str

-- What a caller gives for a request.
pub record Claims : Type 0 where
  pub on_behalf_of : Str
  pub audience : Str
  pub authorization_hash : Str

unfoldable pub envelope_value : HostSigner → Claims → Str → Str → Str → Value
unfolding codes
envelope_value h c nonce issued_at expires_at = object (
    member (codes "version") (string version_draft_01) (
      member (codes "signer") (string h.signer) (
        member (codes "on_behalf_of") (string c.on_behalf_of) (
          member (codes "audience") (string c.audience) (
            member (codes "authorization_hash") (string c.authorization_hash) (
              member (codes "nonce") (string nonce) (
                member (codes "issued_at") (string issued_at) (
                  member (codes "expires_at") (string expires_at) (
                    member (codes "signature") (object (block_members h.key_id)) no_members)))))))))

module _ (l : Libraries) (h : HostSigner) where
  unfoldable pub sign_request :
      Value → Str → Members → Claims → Str → Str → Str → Result Failure (List ℕ)
  sign_request id method params c nonce issued_at expires_at = do
    let envelope = envelope_value h c nonce issued_at expires_at
    let unsigned = request_object id method (with_meta envelope params)
    preimage ← or_refused (signing_preimage request unsigned)
    signed ← or_panic (write_signature request (h.signing_key preimage) unsigned)
    or_refuse (l.to_vec signed) canonicalization_failed

  unfoldable pub sign_tool_call :
      Value → Str → Value → Claims → Str → Str → Str → Result Failure (List ℕ)
  unfolding codes
  sign_tool_call id tool_name arguments c nonce issued_at expires_at =
      let params =
        insert_member (codes "arguments") arguments
          (insert_member (codes "name") (string tool_name) no_members) in
      sign_request id (codes "tools/call") params c nonce issued_at expires_at
