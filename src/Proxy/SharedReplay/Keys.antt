-- ===== src/Proxy/SharedReplay/Keys.antt =====
-- The keys of mcps-proxy/src/shared_replay.rs tell triples apart, and what a map keeps under one.
use mcps.Prelude.{
  suc, ◌<◌, ◌≤◌, ◌^◌, Str, str_eq, as_bytes, length, List, [], ◌∷◌, Option, some, none, Bool,
  Bool-cases, true, false, ◌≡◌, refl, ap, ◌∙◌, inl, inr, arith,
}
use mcps.Prelude.Decimal.{decimal_injective}
use mcps.Prelude.Int.{ℤ}
use mcps.Prelude.Map.{keep_if}
use mcps.Prelude.Assoc.{find, set, keep, Only}
use mcps.Core.Resolver.{str_key_eq}
use mcps.Core.Resolver.Bindings.{uncons, cut_at_colon, cut_at_size}
use mcps.Core.Replay.{ReplayKey, replay_key_eq}
use mcps.Proxy.SharedReplay.{key_preimage}

-- The sizes of the fields of a triple are those of strings, which a `usize` holds.
pub record Sized (k : ReplayKey) : Type 0 where
  pub signer : length (as_bytes k.0) < 2 ^ 64
  pub audience : length (as_bytes k.1) < 2 ^ 64
  pub nonce : length (as_bytes k.2) < 2 ^ 64

pub key_preimage_injective :
    (j k : ReplayKey)
    → Sized j
    → Sized k
    → key_preimage j.0 j.1 j.2 ≡ key_preimage k.0 k.1 k.2
    → j ≡ k
unfolding key_preimage
key_preimage_injective (s, a, n) (s', a', n') hj hk e =
    let (sizes, rest) = cut_at_colon (length (as_bytes s)) (length (as_bytes s')) _ _ e in
    let same = decimal_injective _ _ (omega (arith, hj.signer)) (omega (arith, hk.signer)) sizes in
    let (p, q) = cut_at_size s s' _ _ same rest in
    let (sizes', rest') =
      cut_at_colon (length (as_bytes a)) (length (as_bytes a')) _ _ (ap uncons q) in
    let same' =
      decimal_injective _ _ (omega (arith, hj.audience)) (omega (arith, hk.audience)) sizes' in
    let (p', q') = cut_at_size a a' _ _ same' rest' in
    let (_, r) = cut_at_colon (length (as_bytes n)) (length (as_bytes n')) _ _ (ap uncons q') in
    λ i. (p i, p' i, r i)

pub length-set : (k : Str) (v : ℤ) (es : List (Str × ℤ)) → length (set k v es) ≤ suc (length es)
unfolding set
length-set k v [] = omega arith
length-set k v ((j, w) ∷ es) = ground (arith, length-set k v es)

pub length-keep : (p : ℤ → Bool) (es : List (Str × ℤ)) → length (keep p es) ≤ length es
unfolding keep
length-keep p [] = omega arith
length-keep p ((j, w) ∷ es) = ground (arith, length-keep p es)

-- A retained entry that the retention drops is found no more.
pub find-keep_gone :
    (p : ℤ → Bool) (k : Str) (v : ℤ) (es : List (Str × ℤ))
    → p v ≡ false
    → Only k v es
    → find k (keep p es) ≡ none
unfolding find keep
find-keep_gone p k v [] h o = refl
find-keep_gone p k v ((j, w) ∷ es) h (here, there) = elim (Bool-cases (str_eq j k)) [
  | inl q ↦
      let same : w ≡ v = here q in
      let drop : p w ≡ false = ap p same ∙ h in rw drop (find-keep_gone p k v es h there)
  | inr q ↦ ground (arith, q, find-keep_gone p k v es h there)
]

pub kept_if :
    (p : ℤ → Bool) (o : Option ℤ) (v : ℤ) → keep_if p o ≡ some v → (o ≡ some v) × (p v ≡ true)
kept_if p none v h = cc
kept_if p (some w) v h = elim (Bool-cases (p w)) [
  | inl q ↦ let same : w ≡ v = ground (arith, q) in (ap some same, rw same at q)
  | inr q ↦ absurd (ground (arith, q))
]
