-- ===== src/Prelude/Int.antt =====
-- Rust's `i64`: an integer, with the saturating operations written out. `omega int_laws` reads the
-- operations through the two parts of an integer.
use mathlib.Core.Option.{Option, none, some}
use mcps.Prelude.Tests.{ltb, leb, if◌then◌else◌}
use Prim.Native.Nat.{ℕ, suc, ◌+◌, ◌-◌, ◌*◌, ◌/◌, ◌%◌, ◌≤◌, ◌<◌}
use mathlib.Core.Path.{◌≡◌}
use mathlib.Core.Bool.{Bool, ◌&&◌}
use mathlib.Core.Logic.{◌↔◌}
use native.Mathlib.Omega.{arith}

-- `negsuc n` is -(n + 1).
pub data ℤ : Type 0 where
  pos : ℕ → ℤ
  negsuc : ℕ → ℤ

abbrev pub pos_part : ℤ → ℕ
pos_part (pos n) = n
pos_part (negsuc n) = 0

abbrev pub neg_part : ℤ → ℕ
neg_part (pos n) = 0
neg_part (negsuc n) = suc n

-- a - b, as an integer.
abbrev pub sub_ℕ : ℕ → ℕ → ℤ
sub_ℕ a b = if leb b a then pos (a - b) else negsuc (b - a - 1)

infixl 65 ◌+ℤ◌ ◌-ℤ◌
infix 50 ◌≤ℤ◌ ◌<ℤ◌
unfoldable pub ◌+ℤ◌ : ℤ → ℤ → ℤ
a +ℤ b = sub_ℕ (pos_part a + pos_part b) (neg_part a + neg_part b)

unfoldable pub ◌-ℤ◌ : ℤ → ℤ → ℤ
a -ℤ b = sub_ℕ (pos_part a + neg_part b) (neg_part a + pos_part b)

abbrev pub ◌≤ℤ◌ : ℤ → ℤ → Type 0
a ≤ℤ b = pos_part a + neg_part b ≤ pos_part b + neg_part a

abbrev pub ◌<ℤ◌ : ℤ → ℤ → Type 0
a <ℤ b = pos_part a + neg_part b < pos_part b + neg_part a

abbrev pub ltb_ℤ : ℤ → ℤ → Bool
ltb_ℤ a b = ltb (pos_part a + neg_part b) (pos_part b + neg_part a)

abbrev pub leb_ℤ : ℤ → ℤ → Bool
leb_ℤ a b = leb (pos_part a + neg_part b) (pos_part b + neg_part a)

pub +ℤ_parts :
    (a b : ℤ)
    → pos_part (a +ℤ b) + neg_part a + neg_part b ≡ neg_part (a +ℤ b) + pos_part a + pos_part b
unfolding ◌+ℤ◌
+ℤ_parts a b = ground arith

pub -ℤ_parts :
    (a b : ℤ)
    → pos_part (a -ℤ b) + neg_part a + pos_part b ≡ neg_part (a -ℤ b) + pos_part a + neg_part b
unfolding ◌-ℤ◌
-ℤ_parts a b = ground arith

pub eq_of_parts : (a b : ℤ) → pos_part a + neg_part b ≡ pos_part b + neg_part a → a ≡ b
eq_of_parts a b h = ground arith

pub ruleset int_laws = (arith, +ℤ_parts, -ℤ_parts, eq_of_parts)

-- `i64::MAX` and `i64::MIN`.
abbrev pub i64_max : ℤ
i64_max = pos 9223372036854775807

abbrev pub i64_min : ℤ
i64_min = negsuc 9223372036854775807

-- The integers that an `i64` holds.
pub record IsI64 (a : ℤ) : Type 0 where
  pub above : i64_min ≤ℤ a
  pub below : a ≤ℤ i64_max

clamp_i64 : ℤ → ℤ
clamp_i64 a = if ltb_ℤ a i64_min then i64_min else if ltb_ℤ i64_max a then i64_max else a

unfoldable pub saturating_add : ℤ → ℤ → ℤ
unfolding clamp_i64
saturating_add a b = clamp_i64 (a +ℤ b)

-- `checked_add` on `i64`.
unfoldable pub checked_add : ℤ → ℤ → Option ℤ
unfolding ◌+ℤ◌
checked_add a b =
    let sum = a +ℤ b in if leb_ℤ i64_min sum && leb_ℤ sum i64_max then some sum else none

unfoldable pub saturating_sub : ℤ → ℤ → ℤ
unfolding clamp_i64
saturating_sub a b = clamp_i64 (a -ℤ b)

lt_clamp_i64_iff : (a n : ℤ) → IsI64 n → i64_min ≤ℤ a → (clamp_i64 a <ℤ n) ↔ (a <ℤ n)
unfolding clamp_i64
lt_clamp_i64_iff a n v h = ground arith

clamp_i64-lt_iff : (a n : ℤ) → IsI64 n → a ≤ℤ i64_max → (n <ℤ clamp_i64 a) ↔ (n <ℤ a)
unfolding clamp_i64
clamp_i64-lt_iff a n v h = ground arith

-- Against a value that an `i64` holds, a saturated sum compares as the exact sum does, unless the
-- exact sum leaves the range at the other end.
pub lt_saturating_add_iff :
    (a b n : ℤ) → IsI64 n → i64_min ≤ℤ a +ℤ b → (saturating_add a b <ℤ n) ↔ (a +ℤ b <ℤ n)
unfolding saturating_add
lt_saturating_add_iff a b n v h = lt_clamp_i64_iff (a +ℤ b) n v h

pub saturating_sub-lt_iff :
    (a b n : ℤ) → IsI64 n → a -ℤ b ≤ℤ i64_max → (n <ℤ saturating_sub a b) ↔ (n <ℤ a -ℤ b)
unfolding saturating_sub
saturating_sub-lt_iff a b n v h = clamp_i64-lt_iff (a -ℤ b) n v h

clamp_i64-IsI64 : (a : ℤ) → IsI64 (clamp_i64 a)
unfolding clamp_i64
clamp_i64-IsI64 a = ground arith

pub saturating_add-IsI64 : (a b : ℤ) → IsI64 (saturating_add a b)
unfolding saturating_add
saturating_add-IsI64 a b = clamp_i64-IsI64 (a +ℤ b)

-- `a * k` and `a / k` by a literal `k`: Rust's division truncates towards zero.
unfoldable pub times : ℤ → ℕ → ℤ
times a k = sub_ℕ (pos_part a * k) (neg_part a * k)

unfoldable pub quot : ℤ → ℕ → ℤ
quot a k = sub_ℕ (pos_part a / k) (neg_part a / k)

-- `a.rem_euclid(k)` and `a.div_euclid(k)` for a literal `k`.
unfoldable pub rem_euclid : ℤ → ℕ → ℕ
rem_euclid (pos n) k = n % k
rem_euclid (negsuc n) k = k - 1 - n % k

unfoldable pub div_euclid : ℤ → ℕ → ℤ
div_euclid (pos n) k = pos (n / k)
div_euclid (negsuc n) k = negsuc (n / k)
