-- ===== src/Core/Canonical/Lexer.antt =====
-- mcps-core/src/canonical.rs: the parser's steps over literals, strings and numbers. A step takes the
-- characters that are left and returns those that it leaves; the loop of a string runs on fuel, one
-- unit for each character.
use mcps.Prelude.{
  ℕ, zero, suc, ◌+◌, ◌-◌, ◌*◌, Str, length, Bool, true, false, ◌&&◌, ◌||◌, Option, none, some, [],
  ◌∷◌, ltb, leb, ◌==◌, if◌then◌else◌, ok, err, ◌>>=◌, guard, not, ok_or,
}
use mcps.Prelude.Int.{ℤ, pos, negsuc}
use mcps.Prelude.Decimal.{value}
use mcps.Core.Error.{canonicalization_failed}
use mcps.Core.Canonical.{JcsValue, integer, Canonical, check_safe_integer}

abbrev pub Parser : Type 0 → Type 0
Parser A = Str → Canonical (A × Str)

abbrev pub fail : {A : Type 0} → Canonical A
fail = err canonicalization_failed

unfoldable pub is_ws : ℕ → Bool
is_ws c = c == b' ' || (c == 0x09 || (c == 0x0a || c == 0x0d))

unfoldable pub skip_ws : Str → Str
unfolding is_ws
skip_ws [] = []
skip_ws (c ∷ s) = if is_ws c then skip_ws s else c ∷ s

-- `peek() == Some(c)`.
abbrev pub starts : ℕ → Str → Bool
starts c [] = false
starts c (d ∷ s) = d == c

unfoldable pub expect : ℕ → Parser (Unit {0})
expect c [] = fail
expect c (d ∷ s) = if d == c then ok (tt, s) else fail

unfoldable pub parse_literal : Str → Parser (Unit {0})
unfolding expect
parse_literal [] s = ok (tt, s)
parse_literal (c ∷ cs) s = do (_, rest) ← expect c s; parse_literal cs rest

unfoldable pub hex_value : ℕ → Option ℕ
hex_value c =
    if leb b'0' c && leb c b'9'
    then some (c - b'0')
    else if leb b'a' c && leb c b'f'
    then some (c - b'a' + 10)
    else if leb b'A' c && leb c b'F'
    then some (c - b'A' + 10)
    else none

unfoldable pub read_hex : ℕ → ℕ → Parser ℕ
unfolding hex_value
read_hex zero v s = ok (v, s)
read_hex (suc n) v [] = fail
read_hex (suc n) v (c ∷ s) = do
  digit ← ok_or (hex_value c) canonicalization_failed
  read_hex n (v * 16 + digit) s

-- A high surrogate must be followed by the escape of a low one.
unfoldable pub low_surrogate : ℕ → Parser ℕ
unfolding read_hex expect
low_surrogate first s = do
  (_, r1) ← expect 0x5c s
  (_, r2) ← expect b'u' r1
  (second, r3) ← read_hex 4 0 r2
  if leb 0xdc00 second && leb second 0xdfff
      then ok (0x10000 + ((first - 0xd800) * 1024 + (second - 0xdc00)), r3)
      else fail

-- The `\u` is consumed already. A value that this returns is a `char`: what `char::from_u32` refuses
-- are the surrogates, and what is past U+10FFFF.
unfoldable pub parse_unicode_escape : Parser ℕ
unfolding read_hex low_surrogate
parse_unicode_escape s = do
  (first, rest) ← read_hex 4 0 s
  if leb 0xd800 first && leb first 0xdbff
      then low_surrogate first rest
      else if leb 0xdc00 first && leb first 0xdfff
      then fail
      else ok (first, rest)

-- The character that a short escape stands for.
unfoldable pub short_escape : ℕ → Option ℕ
short_escape e =
    if e == b'"'
    then some b'"'
    else if e == 0x5c
    then some 0x5c
    else if e == b'/'
    then some b'/'
    else if e == b'b'
    then some 0x08
    else if e == b'f'
    then some 0x0c
    else if e == b'n'
    then some 0x0a
    else if e == b'r'
    then some 0x0d
    else if e == b't'
    then some 0x09
    else none

unfoldable pub parse_escape : Parser ℕ
unfolding parse_unicode_escape short_escape
parse_escape [] = fail
parse_escape (e ∷ s) =
    if e == b'u'
    then parse_unicode_escape s
    else elim (short_escape e) [ none ↦ fail | some c ↦ ok (c, s) ]

-- The loop of `parse_string`, behind the opening quote.
unfoldable pub string_body : ℕ → Parser Str
unfolding parse_escape
string_body zero s = fail
string_body (suc fuel) [] = fail
string_body (suc fuel) (c ∷ s) =
    let escaped = (do
      (e, rest) ← parse_escape s
      (out, rest') ← string_body fuel rest
      ok (e ∷ out, rest')) in
    let plain = (do (out, rest) ← string_body fuel s; ok (c ∷ out, rest)) in
    if c == b'"'
    then ok ([], s)
    else if c == 0x5c
    then escaped
    else if leb c 0x1f
    then fail
    else plain

unfoldable pub parse_string : Parser Str
unfolding expect string_body
parse_string s = do (_, rest) ← expect b'"' s; string_body (suc (length rest)) rest

unfoldable pub is_digit : ℕ → Bool
is_digit c = leb b'0' c && leb c b'9'

-- The run of digits at the head, and what follows it.
unfoldable pub take_digits : Str → Str × Str
unfolding is_digit
take_digits [] = ([], [])
take_digits (c ∷ s) =
    let (ds, rest) = take_digits s in if is_digit c then (c ∷ ds, rest) else ([], c ∷ s)

-- The integer part: a single zero, or a run of digits that begins with none.
unfoldable pub integer_part : Parser Str
unfolding take_digits
integer_part [] = fail
integer_part (c ∷ s) =
    if c == b'0'
    then ok (b'0' ∷ [], s)
    else if leb b'1' c && leb c b'9'
    then (let (ds, rest) = take_digits s in ok (c ∷ ds, rest))
    else fail

-- `token.parse::<i64>()` of a token that `parse_number` cuts: out of range is an error.
unfoldable pub parse_i64 : Bool → Str → Canonical ℤ
parse_i64 true digits =
    let n = value 0 digits in
    if n == 0 then ok (pos 0) else if leb n 9223372036854775808 then ok (negsuc (n - 1)) else fail
parse_i64 false digits =
    let n = value 0 digits in if ltb n 9223372036854775808 then ok (pos n) else fail

unfoldable pub parse_unsigned : Bool → Parser JcsValue
unfolding integer_part parse_i64 check_safe_integer
parse_unsigned negative s = do
  (digits, rest) ← integer_part s
  _ ←
      guard (not (starts b'.' rest || (starts b'e' rest || starts b'E' rest)))
        canonicalization_failed
  parsed ← parse_i64 negative digits
  _ ← check_safe_integer parsed
  ok (integer parsed, rest)

unfoldable pub parse_number : Parser JcsValue
unfolding parse_unsigned
parse_number [] = fail
parse_number (c ∷ s) = if c == b'-' then parse_unsigned true s else parse_unsigned false (c ∷ s)

-- The loops behind the opening bracket, one round for each element.
