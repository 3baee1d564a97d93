-- ===== src/Core/Json.antt =====
-- `serde_json::Value` as the code sees it: the constructors that it matches on, a number by the two
-- methods that it calls, and an object as its members in the order of iteration.
pub mod Writes
use mcps.Prelude.{ℕ, suc, Str, str_eq, Bool, true, false, Option, none, some, if◌then◌else◌}
use mcps.Prelude.Int.{ℤ}

-- `as_i64` and `as_u64`; a number that answers neither is a float.
pub record Number : Type 0 where
  pub as_i64 : Option ℤ
  pub as_u64 : Option ℕ

mutual
  pub data Value : Type 0 where
    null : Value
    bool : Bool → Value
    number : Number → Value
    string : Str → Value
    array : Items → Value
    object : Members → Value

  pub data Items : Type 0 where
    no_items : Items
    item : Value → Items → Items

  pub data Members : Type 0 where
    no_members : Members
    member : Str → Value → Members → Members

-- `Map::get`.
unfoldable pub get_member : Members → Str → Option Value
get_member no_members key = none
get_member (member k v rest) key = if str_eq k key then some v else get_member rest key

unfoldable pub has_member : Members → Str → Bool
has_member no_members key = false
has_member (member k v rest) key = if str_eq k key then true else has_member rest key

-- `Map::len`.
unfoldable pub count_members : Members → ℕ
count_members no_members = 0
count_members (member k v rest) = suc (count_members rest)

-- `Map::remove`.
unfoldable pub remove_member : Str → Members → Members
remove_member key no_members = no_members
remove_member key (member k v rest) =
    let left = remove_member key rest in if str_eq k key then left else member k v left

-- The write through `Map::get_mut`: the value of a key that is there is replaced.
unfoldable pub set_member : Str → Value → Members → Members
set_member key v no_members = no_members
set_member key v (member k w rest) =
    if str_eq k key then member k v rest else member k w (set_member key v rest)

-- `Map::insert`: the value of a key that is there is replaced.
unfoldable pub insert_member : Str → Value → Members → Members
insert_member key v no_members = member key v no_members
insert_member key v (member k w ms) =
    if str_eq k key then member k v ms else member k w (insert_member key v ms)

unfoldable pub as_str : Value → Option Str
as_str (string s) = some s
as_str _ = none

unfoldable pub as_object : Value → Option Members
as_object (object ms) = some ms
as_object _ = none

-- `Value::get` by a key: `None` unless the value is an object that has it.
unfoldable pub get : Value → Str → Option Value
unfolding get_member
get (object ms) key = get_member ms key
get _ key = none

abbrev pub value_or_null : Option Value → Value
value_or_null none = null
value_or_null (some v) = v

-- A write through `value[key]`: a key that is absent is added with null, null becomes an object, and
-- any other value panics, which is `none`.
unfoldable pub index_mut : Str → (Value → Option Value) → Value → Option Value
unfolding get_member insert_member
index_mut key f null = elim (f null) [
  | some v ↦ some (object (member key v no_members))
  | none ↦ none
]
index_mut key f (object ms) = elim (f (value_or_null (get_member ms key))) [
  | some v ↦ some (object (insert_member key v ms))
  | none ↦ none
]
index_mut key f _ = none
