-- ===== src/Proxy/TrustCache/Windows.antt =====
-- The choice of a window, and what ends one early.
use mcps.Prelude.{
  Str, ◌≡◌, ◌⊎◌, refl, inl, inr, false, Bool-cases, List, [], ◌∷◌, All, arith, str_eq_refl, none,
  subst, sym, ◌∙◌, if◌then◌else◌,
}
use mcps.Prelude.Int.{ℤ, pos, ltb_ℤ, ◌≤ℤ◌}
use mcps.Core.Resolver.{TrustResolver, compose_key}
use mcps.Proxy.TrustCache.{
  BoundedTrustCache, strictest_from, strictest_applicable_t, clamp_negative, min_ℤ, resolve, evict,
  cached, live,
}

-- `r` is one of the windows.
pub data OneOf (r : ℤ) : List ℤ → Type 0 where
  first : (ts : List ℤ) → OneOf r (r ∷ ts)
  behind : (t : ℤ) (ts : List ℤ) → OneOf r ts → OneOf r (t ∷ ts)

-- No wider than a window that is not negative.
abbrev pub Within : ℤ → ℤ → Type 0
Within r t = pos 0 ≤ℤ t → r ≤ℤ t

Within-shrink : (r a : ℤ) (ts : List ℤ) → r ≤ℤ a → All (Within a) ts → All (Within r) ts
Within-shrink r a [] h w = tt
Within-shrink r a (t ∷ ts) h w = (λ p. (let q = w.0 p in omega arith), Within-shrink r a ts h w.1)

strictest_from_lower : (acc : ℤ) (ts : List ℤ) → strictest_from acc ts ≤ℤ acc
unfolding strictest_from min_ℤ
strictest_from_lower acc [] = omega arith
strictest_from_lower acc (t ∷ ts) =
    let next = if ltb_ℤ t (pos 0) then acc else min_ℤ acc t in
    let below = strictest_from_lower next ts in let step : next ≤ℤ acc = ground arith in omega arith

strictest_from-Within : (acc : ℤ) (ts : List ℤ) → All (Within (strictest_from acc ts)) ts
unfolding strictest_from
strictest_from-Within acc [] = tt
strictest_from-Within acc (t ∷ ts) =
    let next = if ltb_ℤ t (pos 0) then acc else min_ℤ acc t in
    let below = strictest_from_lower next ts in
    (
      λ p. (let step : next ≤ℤ t = unfold min_ℤ in ground arith in omega arith),
      strictest_from-Within next ts,
    )

next_window :
    (acc t : ℤ)
    → ((if ltb_ℤ t (pos 0) then acc else min_ℤ acc t) ≡ acc)
      ⊎ ((if ltb_ℤ t (pos 0) then acc else min_ℤ acc t) ≡ t)
unfolding min_ℤ
next_window acc t = elim (Bool-cases (ltb_ℤ t (pos 0))) [
  | inl p ↦ inl (ground (arith, p))
  | inr p ↦ elim (Bool-cases (ltb_ℤ t acc)) [
    | inl q ↦ inr (ground (arith, p, q))
    | inr q ↦ inl (ground (arith, p, q))
  ]
]

strictest_from_chosen :
    (acc : ℤ) (ts : List ℤ) → (strictest_from acc ts ≡ acc) ⊎ OneOf (strictest_from acc ts) ts
unfolding strictest_from
strictest_from_chosen acc [] = inl refl
strictest_from_chosen acc (t ∷ ts) =
    let next = if ltb_ℤ t (pos 0) then acc else min_ℤ acc t in
    elim (strictest_from_chosen next ts) [
      | inr among ↦ inr (behind t ts among)
      | inl e ↦ elim (next_window acc t) [
        | inl p ↦ inl (e ∙ p)
        | inr p ↦ inr (subst (λ r. OneOf r (t ∷ ts)) (sym (e ∙ p)) (first ts))
      ]
    ]

-- The window for a request is no wider than the default, which counts as 0 when it is negative, and
-- no wider than any class window that is not negative; and it is the default or a class window.
pub strictest_applicable_t_exact :
    (default_t_secs : ℤ) (class_windows : List ℤ)
    → (strictest_applicable_t default_t_secs class_windows ≤ℤ clamp_negative default_t_secs)
      × All (Within (strictest_applicable_t default_t_secs class_windows)) class_windows
      × ((strictest_applicable_t default_t_secs class_windows ≡ clamp_negative default_t_secs)
          ⊎ OneOf (strictest_applicable_t default_t_secs class_windows) class_windows)
unfolding strictest_applicable_t
strictest_applicable_t_exact d ts = (
  strictest_from_lower (clamp_negative d) ts,
  strictest_from-Within (clamp_negative d) ts,
  strictest_from_chosen (clamp_negative d) ts,
)

module _ {Key : Type 0} (c : BoundedTrustCache Key) (signer key_id : Str)
    (inner : TrustResolver Key) (now : ℤ) where
  evicted :
      c.poisoned ≡ false → cached (evict c signer key_id).1 (compose_key signer key_id) now ≡ none
  unfolding cached live evict
  evicted h = ground (arith, h, str_eq_refl (compose_key signer key_id))

  -- After an eviction of a pair from a cache whose lock is sound, the next call for the pair asks
  -- the inner resolver and gives its answer.
  pub resolve-evict :
      c.poisoned ≡ false
      → (resolve (evict c signer key_id).1 inner now signer key_id).0 ≡ inner signer key_id
  unfolding resolve
  resolve-evict h = rw (evicted h, resolve) refl

-- A pair without an entry is asked of the inner resolver.
pub resolve_absent :
    {Key : Type 0} (c : BoundedTrustCache Key) (inner : TrustResolver Key) (now : ℤ) (s k : Str)
    → c.cache (compose_key s k) ≡ none
    → c.poisoned ≡ false
    → (resolve c inner now s k).0 ≡ inner s k
unfolding resolve cached live
resolve_absent c inner now s k gone sound = ground (arith, gone, sound)
