-- ===== src/Proxy/TrustCache.antt =====
-- mcps-proxy/src/trust_cache.rs: the cache of trust with a bounded window. The inner resolver and the
-- clock are read once in a call, so a call takes the resolver of that instant and the instant. The
-- lock of the cache is poisoned, or it is not.
pub mod Entries
pub mod Staleness
pub mod Windows
mod Tests
use mcps.Prelude.{
  ℕ, Str, codes, Bool, true, false, Option, some, none, List, [], ◌∷◌, Result, ok, err,
  if◌then◌else◌,
}
use mcps.Prelude.Int.{ℤ, pos, ltb_ℤ, saturating_add}
use mcps.Prelude.Map.{Eq, Map, empty, insert, remove, retain}
use mcps.Core.Resolver.{TrustResolver, TrustResolverError, compose_key, str_key_eq, unavailable}

abbrev pub recommended_max_t_secs : ℤ
recommended_max_t_secs = pos 300

unfoldable pub t_exceeds_recommended_max : ℤ → Bool
t_exceeds_recommended_max t_secs = ltb_ℤ recommended_max_t_secs t_secs

-- `t.max(0)`, and `a.min(b)`.
unfoldable pub clamp_negative : ℤ → ℤ
clamp_negative t = if ltb_ℤ t (pos 0) then pos 0 else t

unfoldable pub min_ℤ : ℤ → ℤ → ℤ
min_ℤ a b = if ltb_ℤ b a then b else a

-- The filter and the fold, from the accumulator on.
unfoldable pub strictest_from : ℤ → List ℤ → ℤ
unfolding min_ℤ
strictest_from acc [] = acc
strictest_from acc (t ∷ ts) = strictest_from (if ltb_ℤ t (pos 0) then acc else min_ℤ acc t) ts

unfoldable pub strictest_applicable_t : ℤ → List ℤ → ℤ
unfolding strictest_from clamp_negative
strictest_applicable_t default_t_secs class_windows =
    strictest_from (clamp_negative default_t_secs) class_windows

pub data CachedOutcome (Key : Type 0) : Type 0 where
  active : Key → CachedOutcome Key
  revoked not_found malformed : CachedOutcome Key

pub record CacheEntry (Key : Type 0) : Type 0 where
  pub outcome : CachedOutcome Key
  pub expires_at : ℤ

pub record BoundedTrustCache (Key : Type 0) : Type 0 where
  pub t_secs : ℤ
  pub negative_ttl_secs : ℤ
  pub poisoned : Bool
  pub cache : Map Str (CacheEntry Key)

module _ {Key : Type 0} where
  unfoldable pub to_result : CachedOutcome Key → Result TrustResolverError Key
  to_result (active key) = ok key
  to_result CachedOutcome.revoked = err TrustResolverError.revoked
  to_result CachedOutcome.not_found = err TrustResolverError.not_found
  to_result CachedOutcome.malformed = err TrustResolverError.malformed_key

  unfoldable pub new : ℤ → ℤ → BoundedTrustCache Key
  unfolding clamp_negative empty
  new t_secs negative_ttl_secs = record {
    t_secs = clamp_negative t_secs;
    negative_ttl_secs = clamp_negative negative_ttl_secs;
    poisoned = false;
    cache = empty;
  }

  live : Option (CacheEntry Key) → ℤ → Option (Result TrustResolverError Key)
  unfolding to_result
  live none now = none
  live (some entry) now =
      if ltb_ℤ now entry.expires_at then some (to_result entry.outcome) else none

  unfoldable pub cached : BoundedTrustCache Key → Str → ℤ → Option (Result TrustResolverError Key)
  unfolding live
  cached c key now =
      if c.poisoned
      then some (
          err (
            unavailable
              (codes "trust cache mutex poisoned: poisoned lock: another task failed inside")))
      else live (c.cache key) now

  unfoldable pub store :
      BoundedTrustCache Key → Str → CachedOutcome Key → ℤ → ℤ → BoundedTrustCache Key
  unfolding insert
  store c key outcome now ttl = if c.poisoned then c else record c {
    cache = insert key (record { outcome = outcome; expires_at = saturating_add now ttl }) c.cache;
  }

  unfoldable pub prune : BoundedTrustCache Key → ℤ → BoundedTrustCache Key
  unfolding retain
  prune c now =
      if c.poisoned then c else record c { cache = retain (λ _ e. ltb_ℤ now e.expires_at) c.cache }

  abbrev is_some : Option (CacheEntry Key) → Bool
  is_some none = false
  is_some (some e) = true

  unfoldable pub evict : BoundedTrustCache Key → Str → Str → Bool × BoundedTrustCache Key
  unfolding remove
  evict c signer key_id =
      let key = compose_key signer key_id in
      if c.poisoned
      then (false, c)
      else (is_some (c.cache key), record c { cache = remove key c.cache })

  -- The match on the answer of the inner resolver, by the class of the outcome.
  unfoldable pub remember :
      BoundedTrustCache Key → Str → ℤ → Result TrustResolverError Key → BoundedTrustCache Key
  remember c key now (ok k) = store c key (active k) now c.t_secs
  remember c key now (err TrustResolverError.revoked) =
      store c key CachedOutcome.revoked now c.t_secs
  remember c key now (err TrustResolverError.not_found) =
      store c key CachedOutcome.not_found now c.negative_ttl_secs
  remember c key now (err TrustResolverError.malformed_key) =
      store c key CachedOutcome.malformed now c.negative_ttl_secs
  remember c key now (err (unavailable details)) = c

  unfoldable pub resolve :
      BoundedTrustCache Key
      → TrustResolver Key
      → ℤ
      → Str
      → Str
      → Result TrustResolverError Key × BoundedTrustCache Key
  resolve c inner now signer key_id =
      let key = compose_key signer key_id in
      elim (cached c key now) [
        | some hit ↦ (hit, c)
        | none ↦ (inner signer key_id, remember c key now (inner signer key_id))
      ]
