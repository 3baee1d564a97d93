-- ===== src/Prelude/Decimal.antt =====
-- The decimal form of a number, as `Display` writes it, and `{:0w}` padding. Twenty digits are
-- enough for every `u64` and `i64`.
use Prim.Native.Nat.{ℕ, zero, suc, ◌+◌, ◌-◌, ◌*◌, ◌/◌, ◌%◌, ◌^◌, ◌≤◌, ◌<◌}
use native.Mathlib.Nat.{pow-suc}
use native.Mathlib.Omega.{arith}
use mathlib.Core.Path.{◌≡◌, refl, ap, sym, ◌∙◌}
use mathlib.Core.List.{[], ◌∷◌, ◌++◌}
use mcps.Prelude.Tests.{ltb, if◌then◌else◌, Bool-cases}
use mathlib.Core.Logic.{inl, inr}
use mcps.Prelude.Lists.{length, replicate, All}
use mcps.Prelude.Text.{Str, is_empty}
use mathlib.Core.Bool.{false}

decimal_from : ℕ → ℕ → Str → Str
decimal_from zero n acc = acc
decimal_from (suc f) n acc =
    let rest = decimal_from f (n / 10) ((b'0' + n % 10) ∷ acc) in
    if ltb n 10 then (b'0' + n) ∷ acc else rest

unfoldable pub decimal : ℕ → Str
unfolding decimal_from
decimal n = decimal_from 20 n []

unfoldable pub pad_zeros : ℕ → Str → Str
pad_zeros w s = replicate (w - length s) b'0' ++ s

-- The number that a run of digits stands for, read after `v`.
abbrev pub value : ℕ → Str → ℕ
value v [] = v
value v (b ∷ s) = value (v * 10 + (b - b'0')) s

abbrev pub IsDigit : ℕ → Type 0
IsDigit b = (b'0' ≤ b) × (b ≤ b'9')

value-decimal_from :
    (f n : ℕ) (acc : Str) → n < 10 ^ f → value 0 (decimal_from f n acc) ≡ value n acc
unfolding decimal_from
value-decimal_from zero n acc h = let e : n ≡ 0 = omega arith in rw e
value-decimal_from (suc f) n acc h = elim (Bool-cases (ltb n 10)) [
  | inl small ↦
      rw small (let e : 0 * 10 + (b'0' + n - b'0') ≡ n = omega arith in ap (λ v. value v acc) e)
  | inr large ↦
      let p : n < 10 ^ f * 10 = rw (← pow-suc 10 f) h in
      let e : n / 10 * 10 + (b'0' + n % 10 - b'0') ≡ n = omega arith in
      rw large (
        value-decimal_from f (n / 10) ((b'0' + n % 10) ∷ acc) (omega arith)
        ∙ ap (λ v. value v acc) e)
]

All-decimal_from : (f n : ℕ) (acc : Str) → All IsDigit acc → All IsDigit (decimal_from f n acc)
unfolding decimal_from
All-decimal_from zero n acc h = h
All-decimal_from (suc f) n acc h =
    ground (arith, All-decimal_from f (n / 10) ((b'0' + n % 10) ∷ acc))

pub All-decimal : (n : ℕ) → All IsDigit (decimal n)
unfolding decimal
All-decimal n = All-decimal_from 20 n [] tt

pub value-decimal : (n : ℕ) → n < 10 ^ 20 → value 0 (decimal n) ≡ n
unfolding decimal
value-decimal n h = value-decimal_from 20 n [] h

pub decimal_injective : (m n : ℕ) → m < 10 ^ 20 → n < 10 ^ 20 → decimal m ≡ decimal n → m ≡ n
decimal_injective m n hm hn e = sym (value-decimal m hm) ∙ ap (value 0) e ∙ value-decimal n hn

decimal_from_filled : (f n b : ℕ) (acc : Str) → is_empty (decimal_from f n (b ∷ acc)) ≡ false
unfolding decimal_from is_empty
decimal_from_filled zero n b acc = refl
decimal_from_filled (suc f) n b acc =
    ground (arith, decimal_from_filled f (n / 10) (b'0' + n % 10) (b ∷ acc))

pub decimal_filled : (n : ℕ) → is_empty (decimal n) ≡ false
unfolding decimal decimal_from is_empty
decimal_filled n = ground (arith, decimal_from_filled 19 (n / 10) (b'0' + n % 10) [])
