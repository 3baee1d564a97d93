-- ===== src/Core/Json/Writes.antt =====
-- What a write through `value[key]` leaves to be read.
use mcps.Prelude.{
  Str, str_eq, str_eq_refl, str_eq_iff, Bool-cases, inl, inr, false, Option, some, Option-cases,
  ◌≡◌, refl, ap, arith,
}
use mcps.Core.Json.{as_object}
use mcps.Core.Json.{
  Value, Members, null, bool, number, string, array, object, no_members, member, get, get_member,
  set_member, insert_member, index_mut, value_or_null,
}
use mcps.Core.Signing.{put}

pub get_member-insert_member :
    (key : Str) (v : Value) (ms : Members) → get_member (insert_member key v ms) key ≡ some v
unfolding get_member insert_member
get_member-insert_member key v no_members = rw (str_eq_refl key) refl
get_member-insert_member key v (member k w ms) = elim (Bool-cases (str_eq k key)) [
  | inl p ↦ ground (arith, p)
  | inr p ↦ ground (arith, p, get_member-insert_member key v ms)
]

pub get_member-insert_member_other :
    (key other : Str) (v : Value) (ms : Members)
    → str_eq key other ≡ false
    → get_member (insert_member key v ms) other ≡ get_member ms other
unfolding get_member insert_member
get_member-insert_member_other key other v no_members h = ground (arith, h)
get_member-insert_member_other key other v (member k w ms) h = elim (Bool-cases (str_eq k key)) [
  | inl p ↦ ground (arith, p, h, str_eq_iff k key, str_eq_iff k other, str_eq_iff key other)
  | inr p ↦ ground (arith, p, get_member-insert_member_other key other v ms h)
]

insert_member_there :
    (key : Str) (v w : Value) (ms : Members)
    → get_member ms key ≡ some w
    → insert_member key v ms ≡ set_member key v ms
unfolding get_member insert_member set_member
insert_member_there key v w no_members h = cc
insert_member_there key v w (member k u ms) h = elim (Bool-cases (str_eq k key)) [
  | inl p ↦ ground (arith, p)
  | inr p ↦ ground (arith, p, insert_member_there key v w ms)
]

-- A write at a key that is there is a replacement.
pub index_mut_there :
    (key : Str) (f : Value → Option Value) (o w v : Value)
    → get o key ≡ some w
    → f w ≡ some v
    → index_mut key f o ≡ some (put o key v)
unfolding index_mut get put
index_mut_there key f (object ms) w v h k =
    let here : get_member ms key ≡ some w = h in
    ground (arith, here, k, insert_member_there key v w ms here)
index_mut_there key f null w v h k = cc
index_mut_there key f (bool b) w v h k = cc
index_mut_there key f (number n) w v h k = cc
index_mut_there key f (string s) w v h k = cc
index_mut_there key f (array vs) w v h k = cc

-- What a write that does not panic has written.
pub index_mut-get :
    (key : Str) (f : Value → Option Value) (o o' : Value)
    → index_mut key f o ≡ some o'
    → (old : Value) × (new : Value) × (f old ≡ some new) × (get o' key ≡ some new)
unfolding index_mut get insert_member
index_mut-get key f (object ms) o' h =
    let old = value_or_null (get_member ms key) in
    elim (Option-cases (f old)) [
      | inl p ↦ absurd (ground (arith, p))
      | inr (new, p) ↦
          let written : object (insert_member key new ms) ≡ o' = ground (arith, p) in
          (old, new, p, rw (← written) (get_member-insert_member key new ms))
    ]
index_mut-get key f null o' h = elim (Option-cases (f null)) [
  | inl p ↦ absurd (ground (arith, p))
  | inr (new, p) ↦
      let written : object (member key new no_members) ≡ o' = ground (arith, p) in
      (null, new, p, rw (← written) (get_member-insert_member key new no_members))
]
index_mut-get key f (bool b) o' h = cc
index_mut-get key f (number n) o' h = cc
index_mut-get key f (string s) o' h = cc
index_mut-get key f (array vs) o' h = cc

get_member-set_member_other :
    (key other : Str) (v : Value) (ms : Members)
    → str_eq key other ≡ false
    → get_member (set_member key v ms) other ≡ get_member ms other
unfolding get_member set_member
get_member-set_member_other key other v no_members h = refl
get_member-set_member_other key other v (member k w ms) h = elim (Bool-cases (str_eq k key)) [
  | inl p ↦ ground (arith, p, h, str_eq_iff k key, str_eq_iff k other, str_eq_iff key other)
  | inr p ↦ ground (arith, p, get_member-set_member_other key other v ms h)
]

-- A replacement leaves the other members as they were.
pub get-put_other :
    (key other : Str) (v o : Value)
    → str_eq key other ≡ false
    → get (put o key v) other ≡ get o other
unfolding get put
get-put_other key other v (object ms) h = get_member-set_member_other key other v ms h
get-put_other key other v null h = refl
get-put_other key other v (bool b) h = refl
get-put_other key other v (number n) h = refl
get-put_other key other v (string s) h = refl
get-put_other key other v (array vs) h = refl

-- So does a write.
pub index_mut-get_other :
    (key other : Str) (f : Value → Option Value) (ms : Members) (o' : Value)
    → str_eq key other ≡ false
    → index_mut key f (object ms) ≡ some o'
    → get o' other ≡ get_member ms other
unfolding index_mut get
index_mut-get_other key other f ms o' d h =
    elim (Option-cases (f (value_or_null (get_member ms key)))) [
      | inl p ↦ absurd (ground (arith, p))
      | inr (new, p) ↦
          let written : object (insert_member key new ms) ≡ o' = ground (arith, p) in
          rw (← written) (get_member-insert_member_other key other new ms d)
    ]

-- The members of a value that is an object, or null, which a write takes as an empty object.
unfoldable pub members_or_none : Value → Members
members_or_none (object ms) = ms
members_or_none _ = no_members

pub index_mut-exact :
    (key : Str) (f : Value → Option Value) (o o' : Value)
    → index_mut key f o ≡ some o'
    → (new : Value) × (f (value_or_null (get_member (members_or_none o) key)) ≡ some new)
      × (o' ≡ object (insert_member key new (members_or_none o)))
unfolding index_mut members_or_none get_member insert_member
index_mut-exact key f (object ms) o' h =
    elim (Option-cases (f (value_or_null (get_member ms key)))) [
      | inl p ↦ absurd (ground (arith, p))
      | inr (new, p) ↦ (new, p, ground (arith, p))
    ]
index_mut-exact key f null o' h = elim (Option-cases (f null)) [
  | inl p ↦ absurd (ground (arith, p))
  | inr (new, p) ↦ (new, p, ground (arith, p))
]
index_mut-exact key f (bool b) o' h = cc
index_mut-exact key f (number n) o' h = cc
index_mut-exact key f (string s) o' h = cc
index_mut-exact key f (array vs) o' h = cc

pub as_object-some : (v : Value) (ms : Members) → as_object v ≡ some ms → v ≡ object ms
unfolding as_object
as_object-some (object ns) ms h = ap object (cc)
as_object-some _ ms h = cc
