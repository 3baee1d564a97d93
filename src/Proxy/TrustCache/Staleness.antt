-- ===== src/Proxy/TrustCache/Staleness.antt =====
-- Trust is never older than the window: histories of a cache, and where an active answer comes from.
use mcps.Prelude.{
  Option-cases, Str, ◌<◌, ◌^◌, ◌≡◌, ◌⊎◌, refl, ◌∙◌, ap, inl, inr, some, List, [], ◌∷◌, All, ok,
  arith, as_bytes, length,
}
use mcps.Prelude.Int.{ℤ, ◌<ℤ◌, saturating_add}
use mcps.Core.Resolver.{TrustResolver, compose_key}
use mcps.Core.Resolver.Bindings.{compose_key_injective}
use mcps.Proxy.TrustCache.{
  BoundedTrustCache, CacheEntry, active, new, cached, prune, evict, resolve, clamp_negative,
}
use mcps.Proxy.TrustCache.Entries.{
  prune_fewer, evict_fewer, remember_entry, resolve-ok, remember_window,
}

-- A call of the cache, with what its resolver and its clock were.
pub data Event (Key : Type 0) : Type 0 where
  resolves : TrustResolver Key → ℤ → Str → Str → Event Key
  prunes : ℤ → Event Key
  evicts : Str → Str → Event Key

module _ {Key : Type 0} where
  after : BoundedTrustCache Key → Event Key → BoundedTrustCache Key
  after c (resolves inner now signer key_id) = (resolve c inner now signer key_id).1
  after c (prunes now) = prune c now
  after c (evicts signer key_id) = (evict c signer key_id).1

  -- The cache after the events, the last of which comes first.
  unfoldable pub history : BoundedTrustCache Key → List (Event Key) → BoundedTrustCache Key
  unfolding after
  history c [] = c
  history c (e ∷ es) = after (history c es) e

  -- One of the events was a call for this pair, at this instant, that the resolver answered with the key.
  pub data Answered (s k : Str) (key : Key) (since : ℤ) : List (Event Key) → Type 0 where
    latest :
        (inner : TrustResolver Key) (es : List (Event Key))
        → inner s k ≡ ok key
        → Answered s k key since (resolves inner since s k ∷ es)
    earlier :
        (e : Event Key) (es : List (Event Key))
        → Answered s k key since es
        → Answered s k key since (e ∷ es)

  -- The signer of the event has a size that a `usize` holds.
  abbrev pub Fits : Event Key → Type 0
  Fits (resolves inner now signer key_id) = length (as_bytes signer) < 2 ^ 64
  Fits (prunes now) = Unit
  Fits (evicts signer key_id) = Unit

  -- An active entry comes from an answer of the resolver, and expires with its window.
  Backed : ℤ → List (Event Key) → BoundedTrustCache Key → Type 0
  Backed t es c =
      (name : Str) (key : Key) (end : ℤ)
      → c.cache name ≡ some (record { outcome = active key; expires_at = end })
      → (s : Str) × (k : Str) × (since : ℤ) × (length (as_bytes s) < 2 ^ 64)
        × (compose_key s k ≡ name)
        × Answered s k key since es
        × (end ≡ saturating_add since t)

  later :
      (t : ℤ) (e : Event Key) (es : List (Event Key)) (c : BoundedTrustCache Key)
      → Backed t es c
      → Backed t (e ∷ es) c
  unfolding Backed
  later t e es c b name key end h =
      let (s, k, since, fits, named, answered, ends) = b name key end h in
      (s, k, since, fits, named, earlier e es answered, ends)

  -- What is left of a cache is backed.
  Backed-fewer :
      (t : ℤ) (es : List (Event Key)) (c c' : BoundedTrustCache Key)
      → ((name : Str) (entry : CacheEntry Key)
          → c'.cache name ≡ some entry
          → c.cache name ≡ some entry)
      → Backed t es c
      → Backed t es c'
  unfolding Backed
  Backed-fewer t es c c' fewer b name key end h = b name key end (fewer name _ h)

  -- The windows of a cache never change.
  after_window : (c : BoundedTrustCache Key) (e : Event Key) → (after c e).t_secs ≡ c.t_secs
  unfolding after resolve prune evict
  after_window c (resolves inner now s k) = elim (Option-cases (cached c (compose_key s k) now)) [
    | inl p ↦ rw (p, after, resolve) (remember_window c (compose_key s k) now (inner s k))
    | inr (hit, p) ↦ rw (p, after, resolve) refl
  ]
  after_window c (prunes now) = ground arith
  after_window c (evicts s k) = ground arith

  resolve_Backed :
      (t : ℤ) (c : BoundedTrustCache Key) (es : List (Event Key)) (inner : TrustResolver Key)
      (now : ℤ) (s k : Str)
      → c.t_secs ≡ t
      → length (as_bytes s) < 2 ^ 64
      → Backed t es c
      → Backed t (resolves inner now s k ∷ es) (resolve c inner now s k).1
  unfolding resolve Backed
  resolve_Backed t c es inner now s k w fits b name key end h =
      elim (Option-cases (cached c (compose_key s k) now)) [
        | inr (hit, p) ↦ later t _ es c b name key end (rw (p, resolve) at h)
        | inl p ↦
            elim (remember_entry c (compose_key s k) name now (inner s k) key end
              (rw (p, resolve) at h)) [
                | inl there ↦ later t _ es c b name key end there
                | inr (named, answered, ends) ↦ (
                  s,
                  k,
                  now,
                  fits,
                  named,
                  latest inner es answered,
                  ends ∙ ap (saturating_add now) w,
                )
              ]
      ]

  after_Backed :
      (t : ℤ) (c : BoundedTrustCache Key) (es : List (Event Key)) (e : Event Key)
      → c.t_secs ≡ t
      → Fits e
      → Backed t es c
      → Backed t (e ∷ es) (after c e)
  unfolding after
  after_Backed t c es (resolves inner now s k) w fits b =
      resolve_Backed t c es inner now s k w fits b
  after_Backed t c es (prunes now) w fits b =
      later t (prunes now) es _ (Backed-fewer t es c _ (prune_fewer c now) b)
  after_Backed t c es (evicts s k) w fits b =
      later t (evicts s k) es _ (Backed-fewer t es c _ (evict_fewer c s k) b)

  history_window :
      (c : BoundedTrustCache Key) (es : List (Event Key)) → (history c es).t_secs ≡ c.t_secs
  unfolding history
  history_window c [] = refl
  history_window c (e ∷ es) = after_window (history c es) e ∙ history_window c es

  history_Backed :
      (t : ℤ) (c : BoundedTrustCache Key) (es : List (Event Key))
      → c.t_secs ≡ t
      → Backed t [] c
      → All Fits es
      → Backed t es (history c es)
  unfolding history
  history_Backed t c [] w b fits = b
  history_Backed t c (e ∷ es) w b fits =
      after_Backed t (history c es) es e (history_window c es ∙ w) fits.0
        (history_Backed t c es w b fits.1)

  -- Whatever calls were made of a new cache with the window `t`, and whatever its resolver answered
  -- then, a key that the cache gives now is the one that the resolver gives now, or the one that it
  -- gave to a call for the same pair, at an instant that the window has not left behind; a negative
  -- window counts as 0, and the signers are of a size that a `usize` holds.
  pub resolve_fresh :
      (t n : ℤ) (es : List (Event Key)) (inner : TrustResolver Key) (now : ℤ) (s k : Str)
      (key : Key)
      → All Fits es
      → length (as_bytes s) < 2 ^ 64
      → (resolve (history (new t n) es) inner now s k).0 ≡ ok key
      → (inner s k ≡ ok key)
        ⊎ ((since : ℤ) × Answered s k key since es
            × (now <ℤ saturating_add since (clamp_negative t)))
  unfolding Backed new
  resolve_fresh t n es inner now s k key fits fit h =
      elim (resolve-ok (history (new t n) es) inner now s k key h) [
        | inl now_given ↦ inl now_given
        | inr (end, found, alive) ↦
            let (s', k', since, fit', named, answered, ends) =
              history_Backed (clamp_negative t) (new t n) es refl (λ name key end h. cc) fits
                (compose_key s k) key end found in
            let (p, q) = compose_key_injective s' s k' k fit' fit named in
            inr (since, rw (p, q) at answered, rw ends at alive)
      ]
