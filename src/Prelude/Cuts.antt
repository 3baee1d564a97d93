-- ===== src/Prelude/Cuts.antt =====
-- Texts that are put together with separators, and taken apart again.
use Prim.Native.Nat.{ℕ, ◌<◌}
use mathlib.Core.Path.{◌≡◌, refl}
use mathlib.Core.Logic.{◌≢◌}
use mathlib.Core.List.{[], ◌∷◌, ◌++◌}
use native.Mathlib.Omega.{arith}
use mcps.Prelude.Lists.{All}
use mcps.Prelude.Text.{Str}
use mcps.Prelude.Decimal.{IsDigit}

-- A separator that stands in neither head cuts two equal texts at the same place.
pub cut_at :
    (c : ℕ) (xs ys r t : Str)
    → All (λ a. a ≢ c) xs
    → All (λ a. a ≢ c) ys
    → xs ++ c ∷ r ≡ ys ++ c ∷ t
    → (xs ≡ ys) × (r ≡ t)
cut_at c [] [] r t hx hy e = (refl, cc)
cut_at c [] (y ∷ ys) r t hx hy e = absurd (hy.0 (cc))
cut_at c (x ∷ xs) [] r t hx hy e = absurd (hx.0 (cc))
cut_at c (x ∷ xs) (y ∷ ys) r t hx hy e = let (p, q) = cut_at c xs ys r t hx.1 hy.1 (cc) in (cc, q)

pub digits_not : (c : ℕ) (s : Str) → b'9' < c → All IsDigit s → All (λ a. a ≢ c) s
digits_not c [] h d = tt
digits_not c (x ∷ s) h d = (λ e. omega arith, digits_not c s h d.1)

pub All-append : (P : ℕ → Type 0) (xs ys : Str) → All P xs → All P ys → All P (xs ++ ys)
All-append P [] ys hx hy = hy
All-append P (x ∷ xs) ys (h, hx) hy = (h, All-append P xs ys hx hy)
