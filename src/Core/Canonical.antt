-- ===== src/Core/Canonical.antt =====
-- mcps-core/src/canonical.rs: the value domain and the canonical writer. The depth of the source
-- counts up to `MAX_PARSE_DEPTH`; here the levels that are left count down from it, and each
-- recursion is on them. Every failure is the one error `canonicalization_failed`.
pub mod Lexer
pub mod Parser
pub mod Units
pub mod Order
pub mod Fails
mod Tests
use mcps.Prelude.{
  ℕ, zero, suc, ◌+◌, ◌-◌, ◌/◌, ◌%◌, ◌≤◌, Str, codes, as_bytes, str_eq, Bool, true, false, ◌&&◌,
  Option, none, some, List, [], ◌∷◌, ◌++◌, ltb, leb, ◌==◌, if◌then◌else◌, Result, ok, err, ◌>>=◌,
  ◌>>◌, guard, not,
}
use mcps.Prelude.Int.{ℤ, pos, negsuc, leb_ℤ}
use mcps.Prelude.Decimal.{decimal}
use mcps.Core.Error.{McpsError, canonicalization_failed}
use mcps.Core.Json

abbrev pub max_safe_integer : ℕ
max_safe_integer = 9007199254740991

abbrev pub max_parse_depth : ℕ
max_parse_depth = 128

mutual
  pub data JcsValue : Type 0 where
    null : JcsValue
    bool : Bool → JcsValue
    integer : ℤ → JcsValue
    string : Str → JcsValue
    array : JcsItems → JcsValue
    object : JcsMembers → JcsValue

  -- `Vec<JcsValue>` and `Vec<(String, JcsValue)>`.
  pub data JcsItems : Type 0 where
    no_items : JcsItems
    item : JcsValue → JcsItems → JcsItems

  pub data JcsMembers : Type 0 where
    no_members : JcsMembers
    member : Str → JcsValue → JcsMembers → JcsMembers

abbrev pub Canonical : Type 0 → Type 0
Canonical A = Result McpsError A

unfoldable pub check_safe_integer : ℤ → Canonical (Unit {0})
check_safe_integer (pos n) = guard (leb n max_safe_integer) canonicalization_failed
check_safe_integer (negsuc n) = guard (ltb n max_safe_integer) canonicalization_failed

from_number : Json.Number → Canonical JcsValue
unfolding check_safe_integer
from_number n = elim n.as_i64 [
  | some i ↦ do check_safe_integer i; ok (integer i)
  | none ↦ elim n.as_u64 [
    | some u ↦ if ltb max_safe_integer u then err canonicalization_failed else ok (integer (pos u))
    | none ↦ err canonicalization_failed
  ]
]

from_items : (Json.Value → Canonical JcsValue) → Json.Items → Canonical JcsItems
from_items f Json.no_items = ok no_items
from_items f (Json.item v vs) = do w ← f v; ws ← from_items f vs; ok (item w ws)

from_members : (Json.Value → Canonical JcsValue) → Json.Members → Canonical JcsMembers
from_members f Json.no_members = ok no_members
from_members f (Json.member k v ms) = do w ← f v; ws ← from_members f ms; ok (member k w ws)

unfoldable pub from_serde_value_at : ℕ → Json.Value → Canonical JcsValue
unfolding from_number from_items from_members
from_serde_value_at left Json.null = ok null
from_serde_value_at left (Json.bool b) = ok (bool b)
from_serde_value_at left (Json.number n) = from_number n
from_serde_value_at left (Json.string s) = ok (string s)
from_serde_value_at zero (Json.array vs) = err canonicalization_failed
from_serde_value_at (suc left) (Json.array vs) = do
  ws ← from_items (from_serde_value_at left) vs
  ok (array ws)
from_serde_value_at zero (Json.object ms) = err canonicalization_failed
from_serde_value_at (suc left) (Json.object ms) = do
  ws ← from_members (from_serde_value_at left) ms
  ok (object ws)

-- `write_string`: the quotes are added by `write_string`, this is one character.
hex_digit : ℕ → ℕ
hex_digit d = if ltb d 10 then b'0' + d else b'a' + (d - 10)

unfoldable pub write_char : ℕ → Str
unfolding hex_digit
write_char c =
    if c == b'"'
    then 0x5c ∷ b'"' ∷ []
    else if c == 0x5c
    then 0x5c ∷ 0x5c ∷ []
    else if c == 0x08
    then 0x5c ∷ b'b' ∷ []
    else if c == 0x09
    then 0x5c ∷ b't' ∷ []
    else if c == 0x0a
    then 0x5c ∷ b'n' ∷ []
    else if c == 0x0c
    then 0x5c ∷ b'f' ∷ []
    else if c == 0x0d
    then 0x5c ∷ b'r' ∷ []
    else if leb c 0x1f
    then 0x5c ∷ b'u' ∷ b'0' ∷ b'0' ∷ hex_digit (c / 16) ∷ hex_digit (c % 16) ∷ []
    else c ∷ []

unfoldable pub write_chars : Str → Str
unfolding write_char
write_chars [] = []
write_chars (c ∷ s) = write_char c ++ write_chars s

unfoldable pub write_string : Str → Str
unfolding write_chars
write_string s = b'"' ∷ (write_chars s ++ b'"' ∷ [])

unfoldable pub write_integer : ℤ → Str
unfolding decimal
write_integer (pos n) = decimal n
write_integer (negsuc n) = b'-' ∷ decimal (suc n)

-- `str::encode_utf16`.
unfoldable pub encode_utf16 : Str → List ℕ
encode_utf16 [] = []
encode_utf16 (c ∷ s) =
    if ltb c 0x10000
    then c ∷ encode_utf16 s
    else (0xd800 + (c - 0x10000) / 1024) ∷ (0xdc00 + (c - 0x10000) % 1024) ∷ encode_utf16 s

-- The loop of `cmp_utf16`, as the test that the first does not come after the second.
units_le : List ℕ → List ℕ → Bool
units_le [] ys = true
units_le (x ∷ xs) [] = false
units_le (x ∷ xs) (y ∷ ys) = if x == y then units_le xs ys else ltb x y

unfoldable pub le_utf16 : Str → Str → Bool
unfolding units_le encode_utf16
le_utf16 a b = units_le (encode_utf16 a) (encode_utf16 b)

-- `sort_by`, which is stable.
insert_member : Str → JcsValue → JcsMembers → JcsMembers
unfolding le_utf16
insert_member k v no_members = member k v no_members
insert_member k v (member j w ms) =
    if le_utf16 k j then member k v (member j w ms) else member j w (insert_member k v ms)

unfoldable pub sort_members : JcsMembers → JcsMembers
unfolding insert_member
sort_members no_members = no_members
sort_members (member k v ms) = insert_member k v (sort_members ms)

-- `sorted.windows(2).any(|pair| pair[0].0 == pair[1].0)`.
unfoldable pub adjacent_equal : JcsMembers → Bool
unfolding str_eq
adjacent_equal no_members = false
adjacent_equal (member k v no_members) = false
adjacent_equal (member k v (member j w ms)) =
    if str_eq k j then true else adjacent_equal (member j w ms)

-- The loops of `write_value`, after the first element with its comma before each.
module _ (write : JcsValue → Canonical Str) where
  write_more_items : JcsItems → Canonical Str
  write_more_items no_items = ok []
  write_more_items (item v vs) = do t ← write v; ts ← write_more_items vs; ok (b',' ∷ (t ++ ts))

  write_items : JcsItems → Canonical Str
  unfolding write_more_items
  write_items no_items = ok []
  write_items (item v vs) = do t ← write v; ts ← write_more_items vs; ok (t ++ ts)

  write_member : Str → JcsValue → Canonical Str
  unfolding write_string
  write_member k v = do t ← write v; ok (write_string k ++ b':' ∷ t)

  write_more_members : JcsMembers → Canonical Str
  unfolding write_member
  write_more_members no_members = ok []
  write_more_members (member k v ms) = do
    t ← write_member k v
    ts ← write_more_members ms
    ok (b',' ∷ (t ++ ts))

  write_members : JcsMembers → Canonical Str
  unfolding write_member write_more_members
  write_members no_members = ok []
  write_members (member k v ms) = do t ← write_member k v; ts ← write_more_members ms; ok (t ++ ts)

unfoldable pub write_value : ℕ → JcsValue → Canonical Str
unfolding write_integer write_string sort_members adjacent_equal write_items write_members codes
write_value left null = ok (codes "null")
write_value left (bool true) = ok (codes "true")
write_value left (bool false) = ok (codes "false")
write_value left (integer i) = ok (write_integer i)
write_value left (string s) = ok (write_string s)
write_value zero (array vs) = err canonicalization_failed
write_value (suc left) (array vs) = do
  ts ← write_items (write_value left) vs
  ok (b'[' ∷ (ts ++ b']' ∷ []))
write_value zero (object ms) = err canonicalization_failed
write_value (suc left) (object ms) = do
  guard (not (adjacent_equal (sort_members ms))) canonicalization_failed
  ts ← write_members (write_value left) (sort_members ms)
  ok (b'{' ∷ (ts ++ b'}' ∷ []))

unfoldable pub canonicalize_value : JcsValue → Canonical (List ℕ)
unfolding write_value as_bytes
canonicalize_value v = do t ← write_value max_parse_depth v; ok (as_bytes t)

unfoldable pub canonicalize_json_value : Json.Value → Canonical (List ℕ)
unfolding from_serde_value_at canonicalize_value
canonicalize_json_value value = do
  jcs ← from_serde_value_at max_parse_depth value
  canonicalize_value jcs
