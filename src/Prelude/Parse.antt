-- ===== src/Prelude/Parse.antt =====
-- What the code uses of `str` to read options: `trim`, `to_lowercase`, `strip_prefix`, `split` and
-- `parse` at integers. `to_lowercase` is that of ASCII: no other character has a lower case among the
-- ASCII letters of the words that are compared.
use Prim.Native.Nat.{ℕ, zero, suc, ◌+◌, ◌≤◌, ◌<◌, ◌^◌}
use native.Mathlib.Omega.{arith}
use mathlib.Core.Path.{◌≡◌, refl, ap, ◌∙◌}
use mathlib.Core.Bool.{Bool, true, false, ◌&&◌, ◌||◌, not}
use mathlib.Core.Option.{Option, none, some}
use mathlib.Core.List.{List, [], ◌∷◌, ◌++◌}
use mcps.Prelude.Tests.{◌==◌, leb, if◌then◌else◌}
use mcps.Prelude.Lists.{All}
use mcps.Prelude.Text.{Str, is_empty}
use mcps.Prelude.Decimal.{decimal, value, IsDigit, All-decimal, value-decimal, decimal_filled}
use mcps.Prelude.Int.{ℤ, pos, negsuc}

-- `char::is_whitespace`.
unfoldable pub is_whitespace : ℕ → Bool
is_whitespace c =
    (leb 9 c && leb c 13)
    || (c == 32
        || (c == 0x85
            || (c == 0xa0
                || (c == 0x1680
                    || ((leb 0x2000 c && leb c 0x200a)
                        || (c == 0x2028
                            || (c == 0x2029 || (c == 0x202f || (c == 0x205f || c == 0x3000)))))))))

trim_start : Str → Str
trim_start [] = []
trim_start (c ∷ s) = let rest = trim_start s in if is_whitespace c then rest else c ∷ s

trim_end : Str → Str
trim_end [] = []
trim_end (c ∷ s) =
    let rest = trim_end s in if is_whitespace c && is_empty rest then [] else c ∷ rest

unfoldable pub trim : Str → Str
unfolding trim_start trim_end
trim s = trim_end (trim_start s)

unfoldable pub to_lowercase : Str → Str
to_lowercase [] = []
to_lowercase (c ∷ s) =
    let rest = to_lowercase s in if leb b'A' c && leb c b'Z' then (c + 32) ∷ rest else c ∷ rest

unfoldable pub strip_prefix : Str → Str → Option Str
strip_prefix s [] = some s
strip_prefix [] (b ∷ p) = none
strip_prefix (a ∷ s) (b ∷ p) = let rest = strip_prefix s p in if a == b then rest else none

cons_first : ℕ → List Str → List Str
cons_first c [] = (c ∷ []) ∷ []
cons_first c (s ∷ rest) = (c ∷ s) ∷ rest

-- `split` at a character: the parts, at least one.
unfoldable pub split : ℕ → Str → List Str
unfolding cons_first
split sep [] = [] ∷ []
split sep (c ∷ s) = let rest = split sep s in if c == sep then [] ∷ rest else cons_first c rest

-- `next` on the iterator of the parts, and what is left of it.
unfoldable pub next : List Str → Option Str
next [] = none
next (s ∷ rest) = some s

unfoldable pub left_over : List Str → List Str
left_over [] = []
left_over (s ∷ rest) = rest

unfoldable pub is_empty_part : Option Str → Bool
is_empty_part none = false
is_empty_part (some s) = is_empty s

unfoldable pub is_none_part : Option Str → Bool
is_none_part none = true
is_none_part (some s) = false

unfoldable pub all_digits : Str → Bool
all_digits [] = true
all_digits (c ∷ s) = (leb b'0' c && leb c b'9') && all_digits s

-- The digits of a number that is at most `max`.
unfoldable pub parse_digits : ℕ → Str → Option ℕ
parse_digits max s =
    if all_digits s && (not (is_empty s) && leb (value 0 s) max) then some (value 0 s) else none

-- `parse::<u32>` and `parse::<u64>`, by the greatest value of the type.
unfoldable pub parse_unsigned : ℕ → Str → Option ℕ
unfolding parse_digits
parse_unsigned max [] = none
parse_unsigned max (c ∷ s) = if c == b'+' then parse_digits max s else parse_digits max (c ∷ s)

-- A parsed magnitude below zero.
negated : Option ℕ → Option ℤ
negated none = none
negated (some zero) = some (pos 0)
negated (some (suc n)) = some (negsuc n)

positive : Option ℕ → Option ℤ
positive none = none
positive (some n) = some (pos n)

-- `parse::<i64>`.
unfoldable pub parse_i64 : Str → Option ℤ
unfolding parse_digits negated positive
parse_i64 [] = none
parse_i64 (c ∷ s) =
    if c == b'+'
    then positive (parse_digits 9223372036854775807 s)
    else if c == b'-'
    then negated (parse_digits 9223372036854775808 s)
    else positive (parse_digits 9223372036854775807 (c ∷ s))

unfoldable pub every : (ℕ → Bool) → Str → Bool
every p [] = true
every p (c ∷ s) = p c && every p s

pub every-append :
    (p : ℕ → Bool) (s t : Str) → every p s ≡ true → every p t ≡ true → every p (s ++ t) ≡ true
unfolding every
every-append p [] t h k = k
every-append p (c ∷ s) t h k = ground (arith, every-append p s t)

every_digit :
    (p : ℕ → Bool) (s : Str) → ((c : ℕ) → IsDigit c → p c ≡ true) → All IsDigit s → every p s ≡ true
unfolding every
every_digit p [] h a = refl
every_digit p (c ∷ s) h (here, there) = ground (arith, h c here, every_digit p s h there)

pub every-decimal :
    (p : ℕ → Bool) (n : ℕ) → ((c : ℕ) → IsDigit c → p c ≡ true) → every p (decimal n) ≡ true
every-decimal p n h = every_digit p (decimal n) h (All-decimal n)

-- A character that `trim` and `to_lowercase` leave alone.
unfoldable pub is_plain : ℕ → Bool
unfolding is_whitespace
is_plain c = not (is_whitespace c) && not (leb b'A' c && leb c b'Z')

pub digit_plain : (c : ℕ) → IsDigit c → is_plain c ≡ true
unfolding is_plain is_whitespace
digit_plain c (h, k) = ground arith

trim_start-plain : (s : Str) → every is_plain s ≡ true → trim_start s ≡ s
unfolding trim_start every is_plain
trim_start-plain [] h = refl
trim_start-plain (c ∷ s) h = ground (arith, h)

trim_end-plain : (s : Str) → every is_plain s ≡ true → trim_end s ≡ s
unfolding trim_end every is_plain
trim_end-plain [] h = refl
trim_end-plain (c ∷ s) h = ground (arith, h, trim_end-plain s)

pub trim-plain : (s : Str) → every is_plain s ≡ true → trim s ≡ s
unfolding trim
trim-plain s h = ap trim_end (trim_start-plain s h) ∙ trim_end-plain s h

pub to_lowercase-plain : (s : Str) → every is_plain s ≡ true → to_lowercase s ≡ s
unfolding to_lowercase every is_plain
to_lowercase-plain [] h = refl
to_lowercase-plain (c ∷ s) h = ground (arith, h, to_lowercase-plain s)

pub split_none : (sep : ℕ) (s : Str) → every (λ c. not (c == sep)) s ≡ true → split sep s ≡ s ∷ []
unfolding split every
split_none sep [] h = refl
split_none sep (c ∷ s) h = ground (arith, h, split_none sep s)

all_digits-decimal : (s : Str) → All IsDigit s → all_digits s ≡ true
unfolding all_digits
all_digits-decimal [] h = refl
all_digits-decimal (c ∷ s) (here, there) = ground (arith, here, all_digits-decimal s there)

parse_digits-decimal : (max n : ℕ) → n ≤ max → n < 10 ^ 20 → parse_digits max (decimal n) ≡ some n
unfolding parse_digits
parse_digits-decimal max n h k =
    ground
      (arith, value-decimal n k, all_digits-decimal (decimal n) (All-decimal n), decimal_filled n)

unsigned_digits :
    (max : ℕ) (s : Str)
    → All IsDigit s
    → is_empty s ≡ false
    → parse_unsigned max s ≡ parse_digits max s
unfolding parse_unsigned is_empty
unsigned_digits max [] a h = cc
unsigned_digits max (c ∷ s) ((low, high), there) h =
    let other : (c == b'+') ≡ false = ground arith in rw other refl

i64_digits :
    (s : Str)
    → All IsDigit s
    → is_empty s ≡ false
    → parse_i64 s ≡ positive (parse_digits 9223372036854775807 s)
unfolding parse_i64 is_empty
i64_digits [] a h = cc
i64_digits (c ∷ s) ((low, high), there) h =
    let plus : (c == b'+') ≡ false = ground arith in
    let minus : (c == b'-') ≡ false = ground arith in rw (plus, minus) refl

pub parse_unsigned-decimal :
    (max n : ℕ) → n ≤ max → n < 10 ^ 20 → parse_unsigned max (decimal n) ≡ some n
parse_unsigned-decimal max n h k =
    unsigned_digits max (decimal n) (All-decimal n) (decimal_filled n)
    ∙ parse_digits-decimal max n h k

pub parse_i64-decimal : (n : ℕ) → n ≤ 9223372036854775807 → parse_i64 (decimal n) ≡ some (pos n)
unfolding positive
parse_i64-decimal n h =
    i64_digits (decimal n) (All-decimal n) (decimal_filled n)
    ∙ ap positive (parse_digits-decimal 9223372036854775807 n h (omega arith))

-- A word without the separator, up to the first separator.
pub split_word :
    (sep : ℕ) (s rest : Str)
    → every (λ c. not (c == sep)) s ≡ true
    → split sep (s ++ sep ∷ rest) ≡ s ∷ split sep rest
unfolding split every cons_first
split_word sep [] rest h = ground arith
split_word sep (c ∷ s) rest h = ground (arith, h, split_word sep s rest)
