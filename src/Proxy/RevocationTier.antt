-- ===== src/Proxy/RevocationTier.antt =====
-- mcps-proxy/src/revocation_tier.rs: the tier of freshness of trust that a deployment selects.
pub mod Spelling
mod Tests
use mcps.Prelude.{
  ℕ, Str, codes, str_eq, is_empty, ◌++◌, List, [], ◌∷◌, Bool, true, false, Option, some, none,
  Result, ok, err, ◌>>=◌, ◌>>◌, guard, ok_or, if◌then◌else◌,
}
use mcps.Prelude.Int.{ℤ, pos, leb_ℤ}
use mcps.Prelude.Parse.{
  trim, to_lowercase, strip_prefix, split, next, left_over, is_empty_part, is_none_part, parse_i64,
}

pub data RevocationTier : Type 0 where
  bounded_cache : ℤ → RevocationTier
  live : RevocationTier
  push : ℤ → RevocationTier

-- `.filter(|t| *t >= 1)`.
unfoldable pub at_least_one : Option ℤ → Option ℤ
at_least_one none = none
at_least_one (some t) = if leb_ℤ (pos 1) t then some t else none

-- `.and_then(|t| t.parse::<i64>().ok())`.
unfoldable pub number_of : Option Str → Option ℤ
number_of none = none
number_of (some s) = parse_i64 s

unfoldable pub parse_window : Str → Str → Str → Result Str ℤ
unfolding codes
parse_window rest original tier = do
  let parts = split b':' rest
  guard (is_empty_part (next parts))
      (tier ++ (codes " requires ':<t_secs>' (got '" ++ (original ++ codes "')")))
  t_secs ←
      ok_or (at_least_one (number_of (next (left_over parts))))
        (tier ++ (codes " t_secs must be a positive integer (in '" ++ (original ++ codes "')")))
  guard (is_none_part (next (left_over (left_over parts))))
      (tier ++ (codes " takes exactly ':<t_secs>' (got '" ++ (original ++ codes "')")))
  ok t_secs

unfoldable pub parse : Str → Result Str RevocationTier
unfolding codes
parse value =
    let lower = to_lowercase (trim value) in
    if str_eq lower (codes "live")
    then ok live
    else elim (strip_prefix lower (codes "bounded-cache")) [
      | some rest ↦ do
        t_secs ← parse_window rest value (codes "bounded-cache")
        ok (bounded_cache t_secs)
      | none ↦ elim (strip_prefix lower (codes "push")) [
        | some rest ↦ do t_secs ← parse_window rest value (codes "push"); ok (push t_secs)
        | none ↦ err (
            codes "unknown revocation tier '"
            ++ (value ++ codes "' (expected bounded-cache:<t_secs> | live | push:<t_secs>)"))
      ]
    ]

unfoldable pub wire_name : RevocationTier → Str
unfolding codes
wire_name (bounded_cache t_secs) = codes "BOUNDED_CACHE"
wire_name live = codes "LIVE"
wire_name (push t_secs) = codes "PUSH"

unfoldable pub guarantee : RevocationTier → Str
unfolding codes
guarantee (bounded_cache t_secs) =
    codes
      "revocation enforced fleet-wide within the bounded window T; on store outage cached active state is usable only until T, then fail closed; NOT zero-window / NOT live / NOT push"
guarantee live =
    codes
      "near-zero revocation window: the store is consulted on every verification with no positive-trust caching, at the cost of a per-request store round-trip and a hard availability dependency (store unavailability fails closed); NOT proven zero-window"
guarantee (push t_secs) =
    codes
      "near-zero revocation window with bounded-T fallback: a pushed revocation evicts affected entries immediately, but on invalidation-channel failure entries fall back to expiry within the bounded window T; NOT zero-window (the reference channel does not prove reliable ordering/delivery)"

unfoldable pub startup_audit_line : RevocationTier → Str → Str
unfolding codes
startup_audit_line tier backend =
    codes "trust-store backend="
    ++ (backend
        ++ (codes " revocation-tier="
            ++ (wire_name tier ++ (codes " guarantee=\"" ++ (guarantee tier ++ codes "\"")))))

unfoldable pub claims_zero_window : RevocationTier → Bool
claims_zero_window tier = false
