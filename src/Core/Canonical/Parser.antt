-- ===== src/Core/Canonical/Parser.antt =====
-- mcps-core/src/canonical.rs: the fail-closed parser of arrays, objects and whole messages. The loops
-- run on fuel, one unit for each character that is left.
pub mod Refusals
use mcps.Prelude.{
  ℕ, zero, suc, Str, codes, length, Bool, true, false, ◌||◌, List, [], ◌∷◌, if◌then◌else◌, ok,
  ◌>>=◌, guard, not, ok_or,
}
use mcps.Prelude.Utf8.{from_utf8}
use mathlib.Core.List.{tail}
use mcps.Core.Constraints.{contains}
use mcps.Core.Error.{canonicalization_failed}
use mcps.Core.Canonical.{
  JcsValue, JcsItems, JcsMembers, null, bool, string, array, object, no_items, item, no_members,
  member, Canonical, canonicalize_value, max_parse_depth,
}
use mcps.Core.Canonical.Lexer.{
  Parser, fail, skip_ws, starts, expect, parse_literal, parse_string, is_digit, parse_number,
}

module _ (parse : Parser JcsValue) where
  items_loop : ℕ → Parser JcsItems
  unfolding skip_ws
  items_loop zero s = fail
  items_loop (suc fuel) s = do
    (v, r1) ← parse (skip_ws s)
    let r2 = skip_ws r1
    let more = (do (vs, r3) ← items_loop fuel (tail r2); ok (item v vs, r3))
    if starts b',' r2 then more else if starts b']' r2 then ok (item v no_items, tail r2) else fail

  parse_array : Parser JcsItems
  unfolding items_loop expect
  parse_array s = do
    (_, r0) ← expect b'[' s
    let r1 = skip_ws r0
    if starts b']' r1 then ok (no_items, tail r1) else items_loop (suc (length r1)) r1

  -- One member behind its name.
  member_value : Parser JcsValue
  unfolding skip_ws expect
  member_value s = do (_, r1) ← expect b':' (skip_ws s); parse (skip_ws r1)

  -- `seen` holds the names read so far.
  members_loop : ℕ → List Str → Parser JcsMembers
  unfolding skip_ws parse_string member_value contains
  members_loop zero seen s = fail
  members_loop (suc fuel) seen s = do
    (key, r1) ← parse_string (skip_ws s)
    _ ← guard (not (contains seen key)) canonicalization_failed
    (v, r2) ← member_value r1
    let r3 = skip_ws r2
    let more = (do (ms, r4) ← members_loop fuel (key ∷ seen) (tail r3); ok (member key v ms, r4))
    if starts b',' r3
        then more
        else if starts b'}' r3
        then ok (member key v no_members, tail r3)
        else fail

  parse_object : Parser JcsMembers
  unfolding members_loop expect
  parse_object s = do
    (_, r0) ← expect b'{' s
    let r1 = skip_ws r0
    if starts b'}' r1 then ok (no_members, tail r1) else members_loop (suc (length r1)) [] r1

starts_digit : Str → Bool
unfolding is_digit
starts_digit [] = false
starts_digit (c ∷ s) = is_digit c

parse_leaf : Parser JcsValue
unfolding parse_string parse_literal parse_number starts_digit codes
parse_leaf s =
    if starts b'"' s
    then (do (t, rest) ← parse_string s; ok (string t, rest))
    else if starts b't' s
    then (do (_, rest) ← parse_literal (codes "true") s; ok (bool true, rest))
    else if starts b'f' s
    then (do (_, rest) ← parse_literal (codes "false") s; ok (bool false, rest))
    else if starts b'n' s
    then (do (_, rest) ← parse_literal (codes "null") s; ok (null, rest))
    else if starts b'-' s || starts_digit s
    then parse_number s
    else fail

unfoldable pub parse_value : ℕ → Parser JcsValue
unfolding parse_leaf parse_array parse_object
parse_value zero s = if starts b'{' s || starts b'[' s then fail else parse_leaf s
parse_value (suc left) s =
    let members = (do (ms, rest) ← parse_object (parse_value left) s; ok (object ms, rest)) in
    let items = (do (vs, rest) ← parse_array (parse_value left) s; ok (array vs, rest)) in
    if starts b'{' s then members else if starts b'[' s then items else parse_leaf s

at_end : JcsValue → Str → Canonical JcsValue
at_end v [] = ok v
at_end v (c ∷ s) = fail

unfoldable pub parse : List ℕ → Canonical JcsValue
unfolding parse_value from_utf8 at_end
parse input = do
  text ← ok_or (from_utf8 input) canonicalization_failed
  (v, rest) ← parse_value max_parse_depth (skip_ws text)
  at_end v (skip_ws rest)

unfoldable pub canonicalize : List ℕ → Canonical (List ℕ)
unfolding parse canonicalize_value
canonicalize input = do v ← parse input; canonicalize_value v
