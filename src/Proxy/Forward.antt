-- ===== src/Proxy/Forward.antt =====
-- mcps-proxy/src/proxy.rs: the request that the inner server gets.
pub mod Injected
use mcps.Prelude.{ℕ, Str, codes, Option, none, some, List, Result, ok, err, ◌>>=◌, ok_or}
use mcps.Prelude.Int.{ℤ}
use mcps.Core.Error.{McpsError, canonicalization_failed, canonicalization_id_missing}
use mcps.Core.Ids.{version_draft_02, verified_meta_key}
use mcps.Core.Json.{
  Value, Members, string, object, no_members, member, as_object, insert_member, index_mut,
}
use mcps.Core.Envelope.{AuthorizationBinding}
use mcps.Core.Pipeline.{VerifiedRequest, draft01_hash, draft02_binding}
use mcps.Core.Time.Format.{unix_to_rfc3339_utc}
use mcps.Core.Failure.{Failure, or_refuse, or_panic, or_refused}
use mcps.Core.Libraries.{Libraries}
use mcps.Proxy.Scrub.{scrub_proxy_owned_meta}

-- The members that both versions of the context have, before those of the version.
unfoldable pub context_members : VerifiedRequest → Str → Str → Members → Members
unfolding codes
context_members verified verifier verified_at rest =
    member (codes "verified_signer") (string verified.verified_signer) (
      member (codes "key_id") (string verified.key_id) (
        member (codes "on_behalf_of") (string verified.on_behalf_of) (
          member (codes "audience") (string verified.audience) (
            member (codes "request_hash") (string verified.request_hash) (
              member (codes "verifier") (string verifier)
                (member (codes "verified_at") (string verified_at) rest))))))

unfoldable pub build_verified_context :
    (AuthorizationBinding → Option Value) → Str → VerifiedRequest → ℤ → Result McpsError Value
unfolding codes
build_verified_context to_value server_signer verified now_unix = elim verified.authorization [
  | draft01_hash authorization_hash ↦ ok (
      object (
        context_members verified server_signer (unix_to_rfc3339_utc now_unix)
          (member (codes "authorization_hash") (string authorization_hash) no_members)))
  | draft02_binding authorization_binding ↦ do
    canonicalization_id ← ok_or verified.canonicalization_id canonicalization_id_missing
    binding ← ok_or (to_value authorization_binding) canonicalization_failed
    ok (
        object (
          context_members verified server_signer (unix_to_rfc3339_utc now_unix) (
            member (codes "version") (string version_draft_02) (
              member (codes "canonicalization_id") (string canonicalization_id)
                (member (codes "authorization_binding") binding no_members)))))
]

-- The match on `request["params"]["_meta"].as_object_mut()`.
unfoldable pub with_context : Value → Value → Option Value
unfolding as_object insert_member
with_context context meta = elim (as_object meta) [
  | some ms ↦ some (object (insert_member verified_meta_key context ms))
  | none ↦ some (object (member verified_meta_key context no_members))
]

unfoldable pub inject_context : Value → Value → Option Value
unfolding codes
inject_context context request =
    index_mut (codes "params") (index_mut (codes "_meta") (with_context context)) request

unfoldable pub build_forwarded_request :
    Libraries → Str → List ℕ → VerifiedRequest → ℤ → Result Failure (List ℕ)
build_forwarded_request l server_signer request_bytes verified now_unix = do
  request ← or_refuse (l.externals.from_slice request_bytes) canonicalization_failed
  let scrubbed = scrub_proxy_owned_meta request
  context ← or_refused (build_verified_context l.binding_to_value server_signer verified now_unix)
  injected ← or_panic (inject_context context scrubbed)
  or_refuse (l.to_vec injected) canonicalization_failed
