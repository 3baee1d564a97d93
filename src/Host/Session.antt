-- ===== src/Host/Session.antt =====
-- mcps-host/src/session.rs, with pending.rs and verified_result.rs: the requests of a host that wait
-- for a response. The clock and the source of nonces are read once in a call, so what they give is
-- an argument; `serde_json::to_string` is a parameter.
pub mod Once
mod Tests
use mcps.Prelude.{
  ℕ, Str, codes, length, ◌-◌, List, [], Option, some, none, Result, ok, err, ◌>>=◌, ok_or, Bool,
  true, false, not,
}
use mcps.Prelude.Int.{ℤ, pos, leb_ℤ, checked_add}
use mcps.Prelude.Assoc.{find, set, erase, keep}
use mcps.Core.Error.{McpsError, canonicalization_failed, missing_envelope, replay_detected}
use mcps.Core.Json.{Value, Members, string, no_members, get, insert_member}
use mcps.Core.Resolver.{TrustResolver, str_key_eq}
use mcps.Core.Signing.{request_hash}
use mcps.Core.Time.Format.{unix_to_rfc3339_utc}
use mcps.Core.Response.{VerifiedResponse, verify_response}
use mcps.Core.Unwrap.{UnwrappedResult, unwrap_verified_result}
use mcps.Core.Libraries.{Libraries}
use mcps.Core.Failure.{Failure, refused, or_refuse, or_refused}
use mcps.Host.Signer.{HostSigner, Claims}
use mcps.Host.Signer

abbrev pub default_request_lifetime_secs : ℤ
default_request_lifetime_secs = pos 300

pub record PendingRequest : Type 0 where
  pub hash : Str
  pub expires_at_unix : ℤ

unfoldable pub is_expired_at : PendingRequest → ℤ → Bool
is_expired_at p now_unix = leb_ℤ p.expires_at_unix now_unix

pub record HostSession : Type 0 where
  pub signer : HostSigner
  pub request_lifetime_secs : ℤ
  pub pending : List (Str × PendingRequest)

unfoldable pub new : HostSigner → ℤ → HostSession
new signer request_lifetime_secs = record {
  signer = signer;
  request_lifetime_secs = request_lifetime_secs;
  pending = [];
}

unfoldable pub with_defaults : HostSigner → HostSession
with_defaults signer = new signer default_request_lifetime_secs

pub record VerifiedResult : Type 0 where
  pub verified : VerifiedResponse
  pub unwrapped : UnwrappedResult

module _ (l : Libraries) where
  unfoldable pub response_id : List ℕ → Result McpsError Value
  unfolding codes get
  response_id response_bytes = do
    value ← ok_or (l.externals.from_slice response_bytes) canonicalization_failed
    ok_or (get value (codes "id")) missing_envelope

  -- The signed bytes of a request, and the entry that waits for its response.
  unfoldable pub signed_entry :
      HostSession
      → List ℕ
      → ℤ
      → Value
      → Str
      → Members
      → Claims
      → Result Failure (List ℕ × PendingRequest)
  signed_entry s random issued_unix id method params c = do
    let nonce = l.externals.b64url_encode random
    expires_unix ←
        or_refuse (checked_add issued_unix s.request_lifetime_secs) canonicalization_failed
    bytes ←
        Signer.sign_request l s.signer id method params c nonce (unix_to_rfc3339_utc issued_unix)
          (unix_to_rfc3339_utc expires_unix)
    signed_value ← or_refuse (l.externals.from_slice bytes) canonicalization_failed
    hash ← or_refused (request_hash l.externals signed_value)
    ok (bytes, record { hash = hash; expires_at_unix = expires_unix })

module _ (l : Libraries) (to_string : Value → Option Str) where
  unfoldable pub id_key : Value → Str
  id_key id = elim (to_string id) [ some s ↦ s | none ↦ [] ]

  unfoldable pub sign_request :
      HostSession
      → List ℕ
      → ℤ
      → Value
      → Str
      → Members
      → Claims
      → Result Failure (List ℕ) × HostSession
  sign_request s random issued_unix id method params c = elim (find (id_key id) s.pending) [
    | some waiting ↦ (err (refused replay_detected), s)
    | none ↦ elim (signed_entry l s random issued_unix id method params c) [
      | err e ↦ (err e, s)
      | ok (bytes, entry) ↦ (ok bytes, record s { pending = set (id_key id) entry s.pending })
    ]
  ]

  unfoldable pub sign_tool_call :
      HostSession
      → List ℕ
      → ℤ
      → Value
      → Str
      → Value
      → Claims
      → Result Failure (List ℕ) × HostSession
  unfolding codes
  sign_tool_call s random issued_unix id tool_name arguments c =
      let params =
        insert_member (codes "arguments") arguments
          (insert_member (codes "name") (string tool_name) no_members) in
      sign_request s random issued_unix id (codes "tools/call") params c

  module _ (resolver : TrustResolver l.externals.VerificationKey) where
    -- The key of the request that a response answers, and what the verification gives.
    unfoldable pub checked_response :
        HostSession → List ℕ → Result McpsError (Str × VerifiedResponse)
    checked_response s response_bytes = do
      id ← response_id l response_bytes
      entry ← ok_or (find (id_key id) s.pending) missing_envelope
      verified ← verify_response l.externals resolver response_bytes entry.hash
      ok (id_key id, verified)

    unfoldable pub verify_response_of :
        HostSession → List ℕ → Result McpsError VerifiedResponse × HostSession
    verify_response_of s response_bytes = elim (checked_response s response_bytes) [
      | err e ↦ (err e, s)
      | ok (key, verified) ↦ (ok verified, record s { pending = erase key s.pending })
    ]

    unfoldable pub unwrapped_result : List ℕ → VerifiedResponse → Result McpsError VerifiedResult
    unfolding codes get
    unwrapped_result response_bytes verified = do
      value ← ok_or (l.externals.from_slice response_bytes) canonicalization_failed
      result ← ok_or (get value (codes "result")) missing_envelope
      unwrapped ← unwrap_verified_result result
      ok (record { verified = verified; unwrapped = unwrapped })

    unfoldable pub verify_and_unwrap_response :
        HostSession → List ℕ → Result McpsError VerifiedResult × HostSession
    verify_and_unwrap_response s response_bytes =
        let (answer, s') = verify_response_of s response_bytes in
        (answer >>= unwrapped_result response_bytes, s')

  unfoldable pub stored_request_hash : HostSession → Value → Option Str
  stored_request_hash s id = elim (find (id_key id) s.pending) [
    | none ↦ none
    | some p ↦ some p.hash
  ]

  unfoldable pub cancel_request : HostSession → Value → Bool × HostSession
  cancel_request s id = (
    elim (find (id_key id) s.pending) [ none ↦ false | some p ↦ true ],
    record s { pending = erase (id_key id) s.pending },
  )

unfoldable pub pending_count : HostSession → ℕ
pending_count s = length s.pending

unfoldable pub expire_pending : HostSession → ℤ → ℕ × HostSession
expire_pending s now_unix =
    let left = keep (λ p. not (is_expired_at p now_unix)) s.pending in
    (length s.pending - length left, record s { pending = left })
