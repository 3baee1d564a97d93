-- ===== src/Core/Canonical/Units.antt =====
-- The order on UTF-16 code units is a total order, and texts are told apart by their units.
use mcps.Prelude.{ℕ, ◌≤◌, ◌<◌, ◌≡◌, ◌⊎◌, refl, List, [], ◌∷◌, All, Str, true, false, arith}
use mcps.Core.Canonical.{encode_utf16, units_le, le_utf16}

-- A Unicode scalar value, which Rust's `char` holds.
abbrev pub IsScalar : ℕ → Type 0
IsScalar c = (c < 0xd800) ⊎ ((0xe000 ≤ c) × (c < 0x110000))

abbrev pub IsText : Str → Type 0
IsText s = All IsScalar s

units_le_refl : (xs : List ℕ) → units_le xs xs ≡ true
unfolding units_le
units_le_refl [] = refl
units_le_refl (x ∷ xs) = ground (arith, units_le_refl xs)

units_le_total : (xs ys : List ℕ) → units_le xs ys ≡ false → units_le ys xs ≡ true
unfolding units_le
units_le_total [] ys h = cc
units_le_total (x ∷ xs) [] h = refl
units_le_total (x ∷ xs) (y ∷ ys) h = ground (arith, units_le_total xs ys)

units_le_trans :
    (xs ys zs : List ℕ) → units_le xs ys ≡ true → units_le ys zs ≡ true → units_le xs zs ≡ true
unfolding units_le
units_le_trans [] ys zs h k = refl
units_le_trans (x ∷ xs) [] zs h k = cc
units_le_trans (x ∷ xs) (y ∷ ys) [] h k = cc
units_le_trans (x ∷ xs) (y ∷ ys) (z ∷ zs) h k = ground (arith, units_le_trans xs ys zs)

units_le_antisym : (xs ys : List ℕ) → units_le xs ys ≡ true → units_le ys xs ≡ true → xs ≡ ys
unfolding units_le
units_le_antisym [] [] h k = refl
units_le_antisym [] (y ∷ ys) h k = cc
units_le_antisym (x ∷ xs) [] h k = cc
units_le_antisym (x ∷ xs) (y ∷ ys) h k = ground (arith, units_le_antisym xs ys)

-- One code point of a text, from its units and the units behind it.
encode_utf16_head :
    (c d : ℕ) (s t : Str)
    → IsScalar c
    → IsScalar d
    → encode_utf16 (c ∷ s) ≡ encode_utf16 (d ∷ t)
    → (c ≡ d) × (encode_utf16 s ≡ encode_utf16 t)
unfolding encode_utf16
encode_utf16_head c d s t hc hd h = ground arith

encode_utf16_injective : (s t : Str) → IsText s → IsText t → encode_utf16 s ≡ encode_utf16 t → s ≡ t
unfolding encode_utf16
encode_utf16_injective [] [] hs ht h = refl
encode_utf16_injective [] (d ∷ t) hs ht h = ground arith
encode_utf16_injective (c ∷ s) [] hs ht h = ground arith
encode_utf16_injective (c ∷ s) (d ∷ t) hs ht h =
    let (p, q) = encode_utf16_head c d s t hs.0 ht.0 h in
    let rest = encode_utf16_injective s t hs.1 ht.1 q in cc

pub le_utf16_refl : (s : Str) → le_utf16 s s ≡ true
unfolding le_utf16
le_utf16_refl s = units_le_refl (encode_utf16 s)

pub le_utf16_total : (s t : Str) → le_utf16 s t ≡ false → le_utf16 t s ≡ true
unfolding le_utf16
le_utf16_total s t h = units_le_total (encode_utf16 s) (encode_utf16 t) h

pub le_utf16_trans : (s t u : Str) → le_utf16 s t ≡ true → le_utf16 t u ≡ true → le_utf16 s u ≡ true
unfolding le_utf16
le_utf16_trans s t u h k = units_le_trans (encode_utf16 s) (encode_utf16 t) (encode_utf16 u) h k

pub le_utf16_antisym :
    (s t : Str) → IsText s → IsText t → le_utf16 s t ≡ true → le_utf16 t s ≡ true → s ≡ t
unfolding le_utf16
le_utf16_antisym s t hs ht h k =
    encode_utf16_injective s t hs ht (units_le_antisym (encode_utf16 s) (encode_utf16 t) h k)
