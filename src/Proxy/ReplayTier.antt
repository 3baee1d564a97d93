-- ===== src/Proxy/ReplayTier.antt =====
-- mcps-proxy/src/replay_tier.rs: the tier of durability of the replay store that a deployment selects.
pub mod Spelling
use mcps.Prelude.{
  ℕ, Str, codes, str_eq, ◌++◌, Bool, true, false, Option, some, none, Result, ok, err, ◌>>=◌, ◌>>◌,
  guard, ok_or, leb, if◌then◌else◌,
}
use mcps.Prelude.Parse.{
  trim, to_lowercase, strip_prefix, split, next, left_over, is_empty_part, is_none_part,
  parse_unsigned,
}

pub data ReplayDurabilityTier : Type 0 where
  redis_async_bounded linearizable single_store_fail_closed : ReplayDurabilityTier
  redis_wait_quorum : (quorum timeout_ms : ℕ) → ReplayDurabilityTier

abbrev pub u32_max : ℕ
u32_max = 4294967295

abbrev pub u64_max : ℕ
u64_max = 18446744073709551615

-- `.and_then(|q| q.parse().ok()).filter(|q| *q >= 1)`, by the greatest value of the type.
unfoldable pub positive_of : ℕ → Option Str → Option ℕ
positive_of max none = none
positive_of max (some s) = elim (parse_unsigned max s) [
  | none ↦ none
  | some n ↦ if leb 1 n then some n else none
]

unfoldable pub parse_quorum : Str → Str → Result Str ReplayDurabilityTier
unfolding codes
parse_quorum rest value = do
  let parts = split b':' rest
  guard (is_empty_part (next parts))
      (codes "redis-wait-quorum requires ':<quorum>:<timeout_ms>' (got '" ++ (value ++ codes "')"))
  quorum ←
      ok_or (positive_of u32_max (next (left_over parts)))
        (codes "redis-wait-quorum quorum must be a positive integer (in '" ++ (value ++ codes "')"))
  timeout_ms ← ok_or (positive_of u64_max (next (left_over (left_over parts)))) (
      codes "redis-wait-quorum timeout_ms must be a positive integer (in '"
      ++ (value ++ codes "')"))
  guard (is_none_part (next (left_over (left_over (left_over parts))))) (
      codes "redis-wait-quorum takes exactly ':<quorum>:<timeout_ms>' (got '"
      ++ (value ++ codes "')"))
  ok (redis_wait_quorum quorum timeout_ms)

unfoldable pub parse : Str → Result Str ReplayDurabilityTier
unfolding codes
parse value =
    let lower = to_lowercase (trim value) in
    if str_eq lower (codes "redis-async")
    then ok redis_async_bounded
    else if str_eq lower (codes "linearizable")
    then ok linearizable
    else if str_eq lower (codes "single-store-fail-closed")
    then ok single_store_fail_closed
    else elim (strip_prefix lower (codes "redis-wait-quorum")) [
      | some rest ↦ parse_quorum rest value
      | none ↦ err (
          codes "unknown replay durability tier '"
          ++ (value
              ++ codes
                  "' (expected redis-async | redis-wait-quorum:<quorum>:<timeout_ms> | linearizable | single-store-fail-closed)"))
    ]

unfoldable pub wire_name : ReplayDurabilityTier → Str
unfolding codes
wire_name redis_async_bounded = codes "REDIS_ASYNC"
wire_name (redis_wait_quorum quorum timeout_ms) = codes "REDIS_WAIT_QUORUM"
wire_name linearizable = codes "LINEARIZABLE"
wire_name single_store_fail_closed = codes "SINGLE_STORE_FAIL_CLOSED"

unfoldable pub guarantee : ReplayDurabilityTier → Str
unfolding codes
guarantee redis_async_bounded =
    codes
      "replay-safe in steady state; a failover or restart-with-state-loss may reopen a replay window bounded by the freshness window"
guarantee (redis_wait_quorum quorum timeout_ms) =
    codes
      "materially reduced failover replay risk; WAIT timeout or insufficient acks fail closed; not linearizable / not unconditional"
guarantee linearizable =
    codes
      "strongest horizontal replay-safety claim, conditional on the store's durable linearizable write contract and correct freshness enforcement"
guarantee single_store_fail_closed =
    codes
      "strong only under the fail-closed invariant: the fleet rejects protected requests on store unavailability or possible state loss until the freshness window elapses"

unfoldable pub startup_audit_line : ReplayDurabilityTier → Str → Str
unfolding codes
startup_audit_line tier backend =
    codes "replay-store backend="
    ++ (backend
        ++ (codes " tier="
            ++ (wire_name tier ++ (codes " guarantee=\"" ++ (guarantee tier ++ codes "\"")))))

unfoldable pub meets_strict_production_minimum : ReplayDurabilityTier → Bool
meets_strict_production_minimum (redis_wait_quorum quorum timeout_ms) = true
meets_strict_production_minimum linearizable = true
meets_strict_production_minimum _ = false
