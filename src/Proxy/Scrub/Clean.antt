-- ===== src/Proxy/Scrub/Clean.antt =====
-- What is left of a message that mcps-proxy/src/proxy.rs has scrubbed.
use mcps.Prelude.{Str}
use mcps.Prelude.{
  subst, str_eq_iff, true, none, codes, str_eq, Bool, false, ◌&&◌, Bool-cases, inl, inr, ◌≡◌, ap,
  refl,
}
use mcps.Core.Json.{
  Value, Items, Members, null, bool, number, string, array, object, no_items, item, no_members,
  member,
}
use mcps.Core.Json.{get_member, value_or_null}
use mcps.Core.Json.Writes.{members_or_none}
use mcps.Core.Constraints.{contains}
use mcps.Proxy.Scrub.{
  proxy_owned_meta_keys, scrub_value, scrub_items, scrub_members, scrub_proxy_owned_meta,
}

-- No object under a `_meta`, however deep, has a member that the proxy alone writes.
mutual
  pub CleanValue : Bool → Value → Type 0
  CleanValue under_meta (object ms) = CleanMembers under_meta ms
  CleanValue under_meta (array vs) = CleanItems vs
  CleanValue under_meta null = Unit
  CleanValue under_meta (bool b) = Unit
  CleanValue under_meta (number n) = Unit
  CleanValue under_meta (string s) = Unit

  pub CleanItems : Items → Type 0
  CleanItems no_items = Unit
  CleanItems (item v vs) = CleanValue false v × CleanItems vs

  pub CleanMembers : Bool → Members → Type 0
  CleanMembers under_meta no_members = Unit
  CleanMembers under_meta (member k v ms) =
      ((under_meta && contains proxy_owned_meta_keys k) ≡ false)
      × CleanValue (str_eq k (codes "_meta")) v
      × CleanMembers under_meta ms

mutual
  unfolding scrub_value CleanValue

  clean_value : (m : Bool) (v : Value) → CleanValue m (scrub_value m v)
  clean_value m (object ms) = clean_members m ms
  clean_value m (array vs) = clean_items vs
  clean_value m null = tt
  clean_value m (bool b) = tt
  clean_value m (number n) = tt
  clean_value m (string s) = tt

  clean_items : (vs : Items) → CleanItems (scrub_items vs)
  clean_items no_items = tt
  clean_items (item v vs) = (clean_value false v, clean_items vs)

  clean_members : (m : Bool) (ms : Members) → CleanMembers m (scrub_members m ms)
  clean_members m no_members = tt
  clean_members m (member k v ms) = elim (Bool-cases (m && contains proxy_owned_meta_keys k)) [
    | inl p ↦ rw p (clean_members m ms)
    | inr p ↦ rw p (p, clean_value (str_eq k (codes "_meta")) v, clean_members m ms)
  ]

mutual
  unfolding scrub_value CleanValue

  kept_value : (m : Bool) (v : Value) → CleanValue m v → scrub_value m v ≡ v
  kept_value m (object ms) h = ap object (kept_members m ms h)
  kept_value m (array vs) h = ap array (kept_items vs h)
  kept_value m null h = refl
  kept_value m (bool b) h = refl
  kept_value m (number n) h = refl
  kept_value m (string s) h = refl

  kept_items : (vs : Items) → CleanItems vs → scrub_items vs ≡ vs
  kept_items no_items h = refl
  kept_items (item v vs) (here, there) = rw (kept_value false v here, kept_items vs there) refl

  kept_members : (m : Bool) (ms : Members) → CleanMembers m ms → scrub_members m ms ≡ ms
  kept_members m no_members h = refl
  kept_members m (member k v ms) (p, here, there) =
      rw (p, kept_value (str_eq k (codes "_meta")) v here, kept_members m ms there) refl

pub scrub-CleanValue :
    (v : Value)
    → CleanValue false (scrub_proxy_owned_meta v)
      × (CleanValue false v → scrub_proxy_owned_meta v ≡ v)
unfolding scrub_proxy_owned_meta
scrub-CleanValue v = (clean_value false v, kept_value false v)

pub CleanMembers-get :
    (m : Bool) (ms : Members) (key : Str)
    → CleanMembers m ms
    → CleanValue (str_eq key (codes "_meta")) (value_or_null (get_member ms key))
unfolding CleanValue get_member
CleanMembers-get m no_members key h = tt
CleanMembers-get m (member k v ms) key (p, here, there) = elim (Bool-cases (str_eq k key)) [
  | inl q ↦
      let same : k ≡ key = (str_eq_iff k key).0 q in
      rw q (subst (λ x. CleanValue (str_eq x (codes "_meta")) v) same here)
  | inr q ↦ rw q (CleanMembers-get m ms key there)
]

pub CleanMembers-owned :
    (ms : Members) (key : Str)
    → CleanMembers true ms
    → contains proxy_owned_meta_keys key ≡ true
    → get_member ms key ≡ none
unfolding CleanValue get_member
CleanMembers-owned no_members key h owned = refl
CleanMembers-owned (member k v ms) key (p, here, there) owned = elim (Bool-cases (str_eq k key)) [
  | inl q ↦
      let same : k ≡ key = (str_eq_iff k key).0 q in
      let not_owned : contains proxy_owned_meta_keys key ≡ false = rw same at p in absurd (cc)
  | inr q ↦ rw q (CleanMembers-owned ms key there owned)
]

pub CleanValue-members :
    (m : Bool) (v : Value) → CleanValue m v → CleanMembers m (members_or_none v)
unfolding CleanValue members_or_none
CleanValue-members m (object ms) h = h
CleanValue-members m null h = tt
CleanValue-members m (bool b) h = tt
CleanValue-members m (number n) h = tt
CleanValue-members m (string s) h = tt
CleanValue-members m (array vs) h = tt
