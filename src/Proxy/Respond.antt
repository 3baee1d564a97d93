-- ===== src/Proxy/Respond.antt =====
-- mcps-proxy/src/proxy.rs: the signed response to the caller.
pub mod Signed
pub mod Verified
pub mod Panics
use mcps.Prelude.{ℕ, Str, codes, Option, none, some, List, Result, ok, err, ◌>>=◌, ok_or}
use mcps.Prelude.Int.{ℤ}
use mcps.Core.Error.{
  McpsError, canonicalization_failed, canonicalization_id_missing, response_sig_invalid,
}
use mcps.Core.Ids.{
  version_draft_02, response_meta_key, sig_alg_ed25519, response_wrap_value_key,
  response_wrap_inner_error_key,
}
use mcps.Core.Json.{Value, Members, string, object, no_members, member, get, index_mut}
use mcps.Core.Signing.{signing_preimage, response}
use mcps.Core.Pipeline.{VerifiedRequest, draft01_hash, draft02_binding}
use mcps.Core.Time.Format.{unix_to_rfc3339_utc}
use mcps.Core.Failure.{Failure, or_refuse, or_panic, or_refused}
use mcps.Core.Libraries.{Libraries}
use mcps.Proxy.Scrub.{scrub_proxy_owned_meta}

-- The result that is signed, of the answer of the inner server.
unfoldable pub wrap_result : Value → Value
unfolding codes get
wrap_result inner = elim (get inner (codes "result")) [
  | some (object ms) ↦ object ms
  | some result ↦ object (member response_wrap_value_key result no_members)
  | none ↦ object (member response_wrap_inner_error_key inner no_members)
]

unfoldable pub signature_members : Str → Members
unfolding codes
signature_members key_id =
    member (codes "alg") (string sig_alg_ed25519)
      (member (codes "key_id") (string key_id) no_members)

-- The members that both versions of the envelope have.
unfoldable pub envelope_members : Str → Str → VerifiedRequest → ℤ → Members
unfolding codes
envelope_members server_signer key_id verified now_unix =
    member (codes "request_hash") (string verified.request_hash) (
      member (codes "server_signer") (string server_signer) (
        member (codes "issued_at") (string (unix_to_rfc3339_utc now_unix))
          (member (codes "signature") (object (signature_members key_id)) no_members)))

unfoldable pub build_response_envelope : Str → Str → VerifiedRequest → ℤ → Result McpsError Value
unfolding codes
build_response_envelope server_signer key_id verified now_unix = elim verified.authorization [
  | draft01_hash authorization_hash ↦
      ok (object (envelope_members server_signer key_id verified now_unix))
  | draft02_binding authorization_binding ↦ do
    canonicalization_id ← ok_or verified.canonicalization_id canonicalization_id_missing
    ok (
        object (
          member (codes "version") (string version_draft_02) (
            member (codes "canonicalization_id") (string canonicalization_id)
              (envelope_members server_signer key_id verified now_unix))))
]

unfoldable pub response_object : Value → Value → Value
unfolding codes
response_object id result = object (
    member (codes "jsonrpc") (string (codes "2.0"))
      (member (codes "id") id (member (codes "result") result no_members)))

-- `response["result"]["_meta"][RESPONSE_META_KEY]`, written by `f`.
unfoldable pub at_envelope : (Value → Option Value) → Value → Option Value
unfolding codes
at_envelope f message =
    index_mut (codes "result") (index_mut (codes "_meta") (index_mut response_meta_key f)) message

unfoldable pub with_envelope : Value → Value → Option Value
with_envelope envelope message = at_envelope (λ old. some envelope) message

unfoldable pub with_signature : Str → Value → Option Value
unfolding codes
with_signature signature message =
    at_envelope
      (index_mut (codes "signature") (index_mut (codes "value") (λ old. some (string signature))))
      message

unfoldable pub build_signed_response :
    (l : Libraries)
    → (List ℕ → Option Str)
    → Str
    → Str
    → List ℕ
    → VerifiedRequest
    → ℤ
    → Value
    → Result Failure (List ℕ)
build_signed_response l sign_response server_signer key_id inner_response verified now_unix id = do
  inner ← or_refuse (l.externals.from_slice inner_response) canonicalization_failed
  let result = scrub_proxy_owned_meta (wrap_result inner)
  envelope ← or_refused (build_response_envelope server_signer key_id verified now_unix)
  unsigned ← or_panic (with_envelope envelope (response_object id result))
  preimage ← or_refused (signing_preimage response unsigned)
  signature ← or_refuse (sign_response preimage) response_sig_invalid
  signed ← or_panic (with_signature signature unsigned)
  or_refuse (l.to_vec signed) canonicalization_failed
