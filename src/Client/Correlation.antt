-- ===== src/Client/Correlation.antt =====
-- mcps-client-core/src/correlation.rs: the store of the requests that wait for a response. The code
-- counts the pending requests, so that map is an association list; nonces are only looked up.
pub mod Nonces
pub mod Pending
mod Tests
use mcps.Prelude.{
  ℕ, ◌-◌, Str, str_eq, Bool, true, false, not, Option, some, none, List, [], ◌∷◌, length, Result,
  ok, err, if◌then◌else◌,
}
use mcps.Prelude.Int.{ℤ, ltb_ℤ, leb_ℤ}
use mcps.Prelude.Map.{Map, empty, insert, retain}
use mcps.Core.Error.{McpsError, replay_detected, response_hash_mismatch, expired_request}
use mcps.Core.Resolver.{str_key_eq}

pub record PendingRequest : Type 0 where
  pub correlation_id : Str
  pub request_hash : Str
  pub nonce : Str
  pub issued_at_unix : ℤ
  pub deadline_unix : ℤ
  pub route_id : Str
  pub audience : Str
  pub expected_server_signers : List Str
  pub version : Str
  pub canonicalization_id : Str
  pub authz_digest : Str

pub data CorrelationError : Type 0 where
  duplicate_correlation_id nonce_reuse uncorrelatable expired : CorrelationError

unfoldable pub to_mcps_error : CorrelationError → McpsError
to_mcps_error duplicate_correlation_id = replay_detected
to_mcps_error nonce_reuse = replay_detected
to_mcps_error uncorrelatable = response_hash_mismatch
to_mcps_error expired = expired_request

-- `HashMap::get`, `remove` and `retain` on the entries.
abbrev pub Entries : Type 0
Entries = List (Str × PendingRequest)

unfoldable pub find : Str → Entries → Option PendingRequest
find id [] = none
find id ((k, r) ∷ es) = if str_eq k id then some r else find id es

unfoldable pub erase : Str → Entries → Entries
erase id [] = []
erase id ((k, r) ∷ es) = let rest = erase id es in if str_eq k id then rest else (k, r) ∷ rest

unfoldable pub keep : (PendingRequest → Bool) → Entries → Entries
keep p [] = []
keep p ((k, r) ∷ es) = let rest = keep p es in if p r then (k, r) ∷ rest else rest

pub record CorrelationStore : Type 0 where
  pub pending : Entries
  pub nonce_window : Map Str ℤ

unfoldable pub new : CorrelationStore
unfolding empty
new = record { pending = []; nonce_window = empty }

unfoldable pub outstanding : CorrelationStore → ℕ
outstanding s = length s.pending

in_window : Option ℤ → ℤ → Bool
in_window none now_unix = false
in_window (some retained_until) now_unix = ltb_ℤ now_unix retained_until

is_some : Option PendingRequest → Bool
is_some none = false
is_some (some r) = true

unfoldable pub register :
    CorrelationStore → PendingRequest → ℤ → Result CorrelationError (Unit {0}) × CorrelationStore
unfolding find insert in_window is_some
register s request now_unix =
    if is_some (find request.correlation_id s.pending)
    then (err duplicate_correlation_id, s)
    else if in_window (s.nonce_window request.nonce) now_unix
    then (err nonce_reuse, s)
    else (
      ok tt,
      record {
        pending = (request.correlation_id, request) ∷ s.pending;
        nonce_window = insert request.nonce request.deadline_unix s.nonce_window;
      },
    )

unfoldable pub take_for_response :
    CorrelationStore → Str → ℤ → Result CorrelationError PendingRequest × CorrelationStore
unfolding find erase
take_for_response s correlation_id now_unix = elim (find correlation_id s.pending) [
  | none ↦ (err uncorrelatable, s)
  | some entry ↦
      let s' = record s { pending = erase correlation_id s.pending } in
      if ltb_ℤ entry.deadline_unix now_unix then (err expired, s') else (ok entry, s')
]

unfoldable pub cancel : CorrelationStore → Str → Option PendingRequest × CorrelationStore
unfolding find erase
cancel s correlation_id =
    (find correlation_id s.pending, record s { pending = erase correlation_id s.pending })

unfoldable pub sweep_expired : CorrelationStore → ℤ → ℕ × CorrelationStore
unfolding keep retain
sweep_expired s now_unix =
    let pending = keep (λ entry. leb_ℤ now_unix entry.deadline_unix) s.pending in
    let window = retain (λ _ retained_until. leb_ℤ now_unix retained_until) s.nonce_window in
    (length s.pending - length pending, record { pending = pending; nonce_window = window })
