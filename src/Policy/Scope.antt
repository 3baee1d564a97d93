-- ===== src/Policy/Scope.antt =====
-- mcps-policy/src/reference.rs: what a request asks for, and whether one granted operation covers it.
use mcps.Prelude.{
  Str, codes, str_eq, ◌==◌, ◌&&◌, ◌||◌, Bool, true, false, Option, none, some, List, [], ◌∷◌,
  if◌then◌else◌,
}
use mcps.Core.Json.{
  Value, Members, no_members, member, get, get_member, as_str, as_object, count_members,
}
use mcps.Core.Constraints.{and_then_get}
use mcps.Policy.Block.{and_then_str}

pub record Grant : Type 0 where
  pub method : Str
  pub tool : Str
  pub arguments : Option Value

-- The member of `params` that names the target of a method.
unfoldable pub target_key : Str → Option Str
unfolding str_eq codes
target_key method =
    if str_eq method (codes "tools/call") || str_eq method (codes "prompts/get")
    then some (codes "name")
    else if str_eq method (codes "resources/read")
    then some (codes "uri")
    else none

unfoldable pub requested_method : Value → Str
unfolding get as_str codes
requested_method request = elim (and_then_str (get request (codes "method"))) [
  | some method ↦ method
  | none ↦ []
]

unfoldable pub requested_target : Value → Option Str
unfolding target_key requested_method get as_str codes
requested_target request = elim (target_key (requested_method request)) [
  | some key ↦ and_then_str (and_then_get (get request (codes "params")) key)
  | none ↦ none
]

unfoldable pub requested_arguments : Value → Option Value
unfolding get codes
requested_arguments request = and_then_get (get request (codes "params")) (codes "arguments")

same_as : (Value → Value → Bool) → Option Value → Value → Bool
same_as value_eq none value = false
same_as value_eq (some actual) value = value_eq actual value

unfoldable pub members_satisfied : (Value → Value → Bool) → Members → Members → Bool
unfolding same_as get_member
members_satisfied value_eq no_members actual = true
members_satisfied value_eq (member key value constraint) actual =
    same_as value_eq (get_member actual key) value && members_satisfied value_eq constraint actual

abbrev and_then_object : Option Value → Option Members
and_then_object none = none
and_then_object (some v) = as_object v

unfoldable pub arguments_satisfied : (Value → Value → Bool) → Option Value → Option Value → Bool
unfolding as_object members_satisfied count_members
arguments_satisfied value_eq none actual = true
arguments_satisfied value_eq (some constraint) actual = elim (as_object constraint) [
  | none ↦ false
  | some members ↦ elim (and_then_object actual) [
    | some given ↦ members_satisfied value_eq members given
    | none ↦ count_members members == 0
  ]
]

unfoldable pub permits : (Value → Value → Bool) → Str → Str → Option Value → Grant → Bool
permits value_eq method tool arguments g =
    str_eq g.method method
    && (str_eq g.tool tool && arguments_satisfied value_eq g.arguments arguments)

unfoldable pub any_grant : (Grant → Bool) → List Grant → Bool
any_grant p [] = false
any_grant p (g ∷ gs) = p g || any_grant p gs
