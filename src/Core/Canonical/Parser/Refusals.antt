-- ===== src/Core/Canonical/Parser/Refusals.antt =====
-- Every failure of the parser of mcps-core/src/canonical.rs is the one error `canonicalization_failed`.
use mcps.Prelude.{ℕ, zero, suc, Str, List, [], ◌∷◌, fails_rules, FailsOnly-ok, FailsOnly-err}
use mcps.Core.Canonical.{JcsValue, max_parse_depth}
use mcps.Core.Canonical.Lexer.{Parser}
use mcps.Core.Canonical.Fails.{
  Fails, expect-Fails, parse_literal-Fails, parse_string-Fails, parse_number-Fails,
  canonicalize_value-Fails,
}
use mcps.Core.Canonical.Parser.{
  items_loop, parse_array, member_value, members_loop, parse_object, parse_leaf, parse_value,
  at_end, parse, canonicalize,
}

module _ (p : Parser JcsValue) (hp : (s : Str) → Fails (p s)) where
  items_loop-Fails : (fuel : ℕ) (s : Str) → Fails (items_loop p fuel s)
  unfolding items_loop
  items_loop-Fails zero s = FailsOnly-err
  items_loop-Fails (suc fuel) s = search (fails_rules, hp, items_loop-Fails fuel)

  parse_array-Fails : (s : Str) → Fails (parse_array p s)
  unfolding parse_array
  parse_array-Fails s = search (fails_rules, expect-Fails, items_loop-Fails)

  member_value-Fails : (s : Str) → Fails (member_value p s)
  unfolding member_value
  member_value-Fails s = search (fails_rules, expect-Fails, hp)

  members_loop-Fails : (fuel : ℕ) (seen : List Str) (s : Str) → Fails (members_loop p fuel seen s)
  unfolding members_loop
  members_loop-Fails zero seen s = FailsOnly-err
  members_loop-Fails (suc fuel) seen s =
      search (fails_rules, parse_string-Fails, member_value-Fails, members_loop-Fails fuel) depth 30

  parse_object-Fails : (s : Str) → Fails (parse_object p s)
  unfolding parse_object
  parse_object-Fails s = search (fails_rules, expect-Fails, members_loop-Fails)

parse_leaf-Fails : (s : Str) → Fails (parse_leaf s)
unfolding parse_leaf
parse_leaf-Fails s =
    search (fails_rules, parse_string-Fails, parse_literal-Fails, parse_number-Fails) depth 30

parse_value-Fails : (left : ℕ) (s : Str) → Fails (parse_value left s)
unfolding parse_value
parse_value-Fails zero s = search (fails_rules, parse_leaf-Fails)
parse_value-Fails (suc left) s = search (
  fails_rules,
  parse_leaf-Fails,
  parse_array-Fails (parse_value left) (parse_value-Fails left),
  parse_object-Fails (parse_value left) (parse_value-Fails left),
)

at_end-Fails : (v : JcsValue) (s : Str) → Fails (at_end v s)
unfolding at_end
at_end-Fails v [] = FailsOnly-ok _
at_end-Fails v (c ∷ s) = FailsOnly-err

pub canonicalize-Fails : (raw : List ℕ) → Fails (canonicalize raw)
unfolding canonicalize parse
canonicalize-Fails raw =
    search (fails_rules, parse_value-Fails max_parse_depth, at_end-Fails, canonicalize_value-Fails)
