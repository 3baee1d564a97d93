-- ===== src/Core/Canonical/Fails.antt =====
-- Every failure of mcps-core/src/canonical.rs is the one error `canonicalization_failed`.
use mcps.Prelude.{
  ℕ, zero, suc, Str, Bool, true, false, [], ◌∷◌, Option, none, some, Option-cases, inl, inr, ok,
  err, FailsOnly, fails_rules, FailsOnly-ok, FailsOnly-err, FailsOnly-bind, FailsOnly-if,
  FailsOnly-guard, FailsOnly-ok_or,
}
use mcps.Prelude.Int.{ℤ, pos, negsuc}
use mcps.Core.Error.{canonicalization_failed}
use mcps.Core.Json
use mcps.Core.Canonical.{
  JcsValue, JcsItems, JcsMembers, Canonical, null, bool, string, integer, array, object, no_items,
  item, no_members, member, max_parse_depth, check_safe_integer, from_number, from_items,
  from_members, from_serde_value_at, write_items, write_value, canonicalize_value,
  canonicalize_json_value, write_members, write_more_members, write_member, write_more_items,
}
use mcps.Core.Canonical.Lexer.{
  expect, parse_literal, read_hex, low_surrogate, parse_unicode_escape, parse_escape, short_escape,
  string_body, parse_string, integer_part, parse_i64, parse_unsigned, parse_number,
}

abbrev pub Fails : {A : Type 0} → Canonical A → Type 0
Fails r = FailsOnly canonicalization_failed r

pub expect-Fails : (c : ℕ) (s : Str) → Fails (expect c s)
unfolding expect
expect-Fails c [] = FailsOnly-err
expect-Fails c (d ∷ s) = search fails_rules

pub parse_literal-Fails : (t s : Str) → Fails (parse_literal t s)
unfolding parse_literal
parse_literal-Fails [] s = FailsOnly-ok _
parse_literal-Fails (c ∷ cs) s =
    FailsOnly-bind _ _ (expect-Fails c s) (λ (_, rest). parse_literal-Fails cs rest)

read_hex-Fails : (n v : ℕ) (s : Str) → Fails (read_hex n v s)
unfolding read_hex
read_hex-Fails zero v s = FailsOnly-ok _
read_hex-Fails (suc n) v [] = FailsOnly-err
read_hex-Fails (suc n) v (c ∷ s) =
    FailsOnly-bind _ _ (FailsOnly-ok_or _) (λ digit. read_hex-Fails n _ s)

low_surrogate-Fails : (first : ℕ) (s : Str) → Fails (low_surrogate first s)
unfolding low_surrogate
low_surrogate-Fails first s = search (fails_rules, expect-Fails, read_hex-Fails)

parse_unicode_escape-Fails : (s : Str) → Fails (parse_unicode_escape s)
unfolding parse_unicode_escape
parse_unicode_escape-Fails s = search (fails_rules, read_hex-Fails, low_surrogate-Fails)

short_fails :
    (o : Option ℕ) (s : Str)
    → FailsOnly {A = ℕ × Str} canonicalization_failed
        (elim o [ none ↦ err canonicalization_failed | some c ↦ ok (c, s) ])
short_fails none s = FailsOnly-err
short_fails (some c) s = FailsOnly-ok _

parse_escape-Fails : (s : Str) → Fails (parse_escape s)
unfolding parse_escape
parse_escape-Fails [] = FailsOnly-err
parse_escape-Fails (e ∷ s) =
    FailsOnly-if _ _ _ (parse_unicode_escape-Fails s) (short_fails (short_escape e) s)

string_body-Fails : (fuel : ℕ) (s : Str) → Fails (string_body fuel s)
unfolding string_body
string_body-Fails zero s = FailsOnly-err
string_body-Fails (suc fuel) [] = FailsOnly-err
string_body-Fails (suc fuel) (c ∷ s) =
    search (fails_rules, parse_escape-Fails, string_body-Fails fuel)

pub parse_string-Fails : (s : Str) → Fails (parse_string s)
unfolding parse_string
parse_string-Fails s = search (fails_rules, expect-Fails, string_body-Fails)

integer_part-Fails : (s : Str) → Fails (integer_part s)
unfolding integer_part
integer_part-Fails [] = FailsOnly-err
integer_part-Fails (c ∷ s) = search fails_rules

parse_i64-Fails : (negative : Bool) (s : Str) → Fails (parse_i64 negative s)
unfolding parse_i64
parse_i64-Fails true s = search fails_rules
parse_i64-Fails false s = search fails_rules

pub check_safe_integer-Fails : (i : ℤ) → Fails (check_safe_integer i)
unfolding check_safe_integer
check_safe_integer-Fails (pos n) = FailsOnly-guard _
check_safe_integer-Fails (negsuc n) = FailsOnly-guard _

parse_unsigned-Fails : (negative : Bool) (s : Str) → Fails (parse_unsigned negative s)
unfolding parse_unsigned
parse_unsigned-Fails negative s =
    search (fails_rules, integer_part-Fails, parse_i64-Fails, check_safe_integer-Fails)

pub parse_number-Fails : (s : Str) → Fails (parse_number s)
unfolding parse_number
parse_number-Fails [] = FailsOnly-err
parse_number-Fails (c ∷ s) = search (fails_rules, parse_unsigned-Fails)

-- The conversion from serde values.
number-Fails : (n : Json.Number) → Fails (from_number n)
unfolding from_number
number-Fails n = elim (Option-cases n.as_i64) [
  | inr (i, p) ↦ rw p (FailsOnly-bind _ _ (check_safe_integer-Fails i) (λ u. FailsOnly-ok _))
  | inl p ↦ elim (Option-cases n.as_u64) [
    | inl q ↦ rw (p, q) FailsOnly-err
    | inr (u, q) ↦ rw (p, q) (FailsOnly-if _ _ _ FailsOnly-err (FailsOnly-ok _))
  ]
]

module _ (f : Json.Value → Canonical JcsValue) (hf : (v : Json.Value) → Fails (f v)) where
  from_items-Fails : (vs : Json.Items) → Fails (from_items f vs)
  unfolding from_items
  from_items-Fails Json.no_items = FailsOnly-ok _
  from_items-Fails (Json.item v vs) =
      FailsOnly-bind _ _ (hf v)
        (λ w. FailsOnly-bind _ _ (from_items-Fails vs) (λ ws. FailsOnly-ok _))

  from_members-Fails : (ms : Json.Members) → Fails (from_members f ms)
  unfolding from_members
  from_members-Fails Json.no_members = FailsOnly-ok _
  from_members-Fails (Json.member k v ms) =
      FailsOnly-bind _ _ (hf v)
        (λ w. FailsOnly-bind _ _ (from_members-Fails ms) (λ ws. FailsOnly-ok _))

from_serde-Fails : (left : ℕ) (v : Json.Value) → Fails (from_serde_value_at left v)
unfolding from_serde_value_at
from_serde-Fails left Json.null = FailsOnly-ok _
from_serde-Fails left (Json.bool b) = FailsOnly-ok _
from_serde-Fails left (Json.number n) = number-Fails n
from_serde-Fails left (Json.string s) = FailsOnly-ok _
from_serde-Fails zero (Json.array vs) = FailsOnly-err
from_serde-Fails (suc left) (Json.array vs) =
    FailsOnly-bind _ _ (from_items-Fails (from_serde_value_at left) (from_serde-Fails left) vs)
      (λ ws. FailsOnly-ok _)
from_serde-Fails zero (Json.object ms) = FailsOnly-err
from_serde-Fails (suc left) (Json.object ms) =
    FailsOnly-bind _ _ (from_members-Fails (from_serde_value_at left) (from_serde-Fails left) ms)
      (λ ws. FailsOnly-ok _)

module _ (f : JcsValue → Canonical Str) (hf : (v : JcsValue) → Fails (f v)) where
  more_items-Fails : (vs : JcsItems) → Fails (write_more_items f vs)
  unfolding write_more_items
  more_items-Fails no_items = FailsOnly-ok _
  more_items-Fails (item v vs) = search (fails_rules, hf v, more_items-Fails vs)

  items-Fails : (vs : JcsItems) → Fails (write_items f vs)
  unfolding write_items
  items-Fails no_items = FailsOnly-ok _
  items-Fails (item v vs) = search (fails_rules, hf v, more_items-Fails vs)

  member-Fails : (k : Str) (v : JcsValue) → Fails (write_member f k v)
  unfolding write_member
  member-Fails k v = search (fails_rules, hf v)

  more_members-Fails : (ms : JcsMembers) → Fails (write_more_members f ms)
  unfolding write_more_members
  more_members-Fails no_members = FailsOnly-ok _
  more_members-Fails (member k v ms) = search (fails_rules, member-Fails k v, more_members-Fails ms)

  members-Fails : (ms : JcsMembers) → Fails (write_members f ms)
  unfolding write_members
  members-Fails no_members = FailsOnly-ok _
  members-Fails (member k v ms) = search (fails_rules, member-Fails k v, more_members-Fails ms)

write_value-Fails : (left : ℕ) (v : JcsValue) → Fails (write_value left v)
unfolding write_value
write_value-Fails left null = FailsOnly-ok _
write_value-Fails left (bool true) = FailsOnly-ok _
write_value-Fails left (bool false) = FailsOnly-ok _
write_value-Fails left (integer i) = FailsOnly-ok _
write_value-Fails left (string s) = FailsOnly-ok _
write_value-Fails zero (array vs) = FailsOnly-err
write_value-Fails (suc left) (array vs) =
    FailsOnly-bind _ _ (items-Fails (write_value left) (write_value-Fails left) vs)
      (λ ts. FailsOnly-ok _)
write_value-Fails zero (object ms) = FailsOnly-err
write_value-Fails (suc left) (object ms) =
    search (fails_rules, members-Fails (write_value left) (write_value-Fails left))

pub canonicalize_value-Fails : (v : JcsValue) → Fails (canonicalize_value v)
unfolding canonicalize_value
canonicalize_value-Fails v = search (fails_rules, write_value-Fails max_parse_depth)

-- The canonical form of a value, when there is none.
pub canonicalize_json_value-Fails : (v : Json.Value) → Fails (canonicalize_json_value v)
unfolding canonicalize_json_value
canonicalize_json_value-Fails v =
    search (fails_rules, from_serde-Fails max_parse_depth, canonicalize_value-Fails)
