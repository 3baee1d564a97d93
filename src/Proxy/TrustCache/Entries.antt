-- ===== src/Proxy/TrustCache/Entries.antt =====
-- What each call does to one entry of the cache.
use mcps.Prelude.{
  Option-cases, Str, ◌≡◌, ◌⊎◌, refl, ap, inl, inr, Bool-cases, Option, some, none, Result, ok, err,
  arith, str_eq, str_eq_iff,
}
use mcps.Prelude.Int.{ℤ, ◌<ℤ◌, saturating_add}
use mcps.Core.Resolver.{TrustResolver, TrustResolverError, compose_key, unavailable}
use mcps.Proxy.TrustCache.{
  BoundedTrustCache, CacheEntry, CachedOutcome, active, to_result, live, cached, store, prune,
  evict, remember, resolve,
}

module _ {Key : Type 0} where
  pub prune_fewer :
      (c : BoundedTrustCache Key) (now : ℤ) (name : Str) (entry : CacheEntry Key)
      → (prune c now).cache name ≡ some entry
      → c.cache name ≡ some entry
  unfolding prune
  prune_fewer c now name entry h = ground arith

  pub evict_fewer :
      (c : BoundedTrustCache Key) (s k name : Str) (entry : CacheEntry Key)
      → (evict c s k).1.cache name ≡ some entry
      → c.cache name ≡ some entry
  unfolding evict
  evict_fewer c s k name entry h = ground arith

  store_entry :
      (c : BoundedTrustCache Key) (stored name : Str) (outcome : CachedOutcome Key) (now ttl : ℤ)
      (entry : CacheEntry Key)
      → (store c stored outcome now ttl).cache name ≡ some entry
      → (c.cache name ≡ some entry)
        ⊎ ((stored ≡ name)
            × (entry ≡ record { outcome = outcome; expires_at = saturating_add now ttl }))
  unfolding store
  store_entry c stored name outcome now ttl entry h = elim (Bool-cases c.poisoned) [
    | inl p ↦ inl (ground arith)
    | inr p ↦ elim (Bool-cases (str_eq stored name)) [
      | inl q ↦ inr ((str_eq_iff stored name).0 q, ground arith)
      | inr q ↦ inl (ground arith)
    ]
  ]

  -- An entry behind `remember` was there, or is the one of the answer.
  pub remember_entry :
      (c : BoundedTrustCache Key) (stored name : Str) (now : ℤ)
      (answer : Result TrustResolverError Key) (key : Key) (end : ℤ)
      → (remember c stored now answer).cache name
        ≡ some (record { outcome = active key; expires_at = end })
      → (c.cache name ≡ some (record { outcome = active key; expires_at = end }))
        ⊎ ((stored ≡ name) × (answer ≡ ok key) × (end ≡ saturating_add now c.t_secs))
  unfolding remember
  remember_entry c stored name now (ok k) key end h = elim (store_entry c stored name _ now _ _ h) [
    | inl there ↦ inl there
    | inr (same, e) ↦ inr (same, cc, ap (λ (x : CacheEntry Key). x.expires_at) e)
  ]
  remember_entry c stored name now (err TrustResolverError.revoked) key end h =
      elim (store_entry c stored name _ now _ _ h) [
        | inl there ↦ inl there
        | inr (same, e) ↦ absurd (cc)
      ]
  remember_entry c stored name now (err TrustResolverError.not_found) key end h =
      elim (store_entry c stored name _ now _ _ h) [
        | inl there ↦ inl there
        | inr (same, e) ↦ absurd (cc)
      ]
  remember_entry c stored name now (err TrustResolverError.malformed_key) key end h =
      elim (store_entry c stored name _ now _ _ h) [
        | inl there ↦ inl there
        | inr (same, e) ↦ absurd (cc)
      ]
  remember_entry c stored name now (err (unavailable details)) key end h = inl h

  to_result-ok : (o : CachedOutcome Key) (key : Key) → to_result o ≡ ok key → o ≡ active key
  unfolding to_result
  to_result-ok (active k) key h = ap active (cc)
  to_result-ok CachedOutcome.revoked key h = cc
  to_result-ok CachedOutcome.not_found key h = cc
  to_result-ok CachedOutcome.malformed key h = cc

  live-ok :
      (found : Option (CacheEntry Key)) (now : ℤ) (key : Key)
      → live found now ≡ some (ok key)
      → (end : ℤ) × (found ≡ some (record { outcome = active key; expires_at = end }))
        × (now <ℤ end)
  unfolding live
  live-ok none now key h = cc
  live-ok (some entry) now key h =
      let is_active : entry.outcome ≡ active key = to_result-ok entry.outcome key (ground arith) in
      let this : entry ≡ record { outcome = active key; expires_at = entry.expires_at } =
        ap (λ o. record { outcome = o; expires_at = entry.expires_at }) is_active in
      (entry.expires_at, ap some this, ground arith)

  cached-ok :
      (c : BoundedTrustCache Key) (name : Str) (now : ℤ) (key : Key)
      → cached c name now ≡ some (ok key)
      → (end : ℤ) × (c.cache name ≡ some (record { outcome = active key; expires_at = end }))
        × (now <ℤ end)
  unfolding cached
  cached-ok c name now key h = elim (Bool-cases c.poisoned) [
    | inl p ↦ absurd (ground arith)
    | inr p ↦ live-ok (c.cache name) now key (ground arith)
  ]

  -- An answer is the one of the resolver, or of a live entry.
  pub resolve-ok :
      (c : BoundedTrustCache Key) (inner : TrustResolver Key) (now : ℤ) (s k : Str) (key : Key)
      → (resolve c inner now s k).0 ≡ ok key
      → (inner s k ≡ ok key)
        ⊎ ((end : ℤ) × (c.cache (compose_key s k)
              ≡ some (record { outcome = active key; expires_at = end }))
            × (now <ℤ end))
  unfolding resolve
  resolve-ok c inner now s k key h = elim (Option-cases (cached c (compose_key s k) now)) [
    | inl p ↦ inl (ground arith)
    | inr (hit, p) ↦ inr (cached-ok c (compose_key s k) now key (ground arith))
  ]

  pub remember_window :
      (c : BoundedTrustCache Key) (name : Str) (now : ℤ) (answer : Result TrustResolverError Key)
      → (remember c name now answer).t_secs ≡ c.t_secs
  unfolding remember store
  remember_window c name now (ok k) = ground arith
  remember_window c name now (err TrustResolverError.revoked) = ground arith
  remember_window c name now (err TrustResolverError.not_found) = ground arith
  remember_window c name now (err TrustResolverError.malformed_key) = ground arith
  remember_window c name now (err (unavailable details)) = refl
