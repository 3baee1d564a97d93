-- ===== src/Core/Canonical/Order.antt =====
-- The canonical form does not depend on the order in which the members of an object are given.
use mcps.Prelude.{
  Str, str_eq, str_eq_iff, str_eq_refl, true, false, ◌≡◌, ◌≢◌, ◌⊎◌, refl, ◌∙◌, ap, inl, inr,
  Bool-cases, arith, err,
}
use mcps.Core.Error.{canonicalization_failed}
use mcps.Core.Canonical.{
  JcsValue, JcsMembers, no_members, member, object, le_utf16, insert_member, sort_members,
  adjacent_equal, write_value, canonicalize_value,
}
use mcps.Core.Canonical.Units.{
  IsText, le_utf16_refl, le_utf16_total, le_utf16_trans, le_utf16_antisym,
}

-- The members in another order.
pub data Reordered : JcsMembers → JcsMembers → Type 0 where
  same : (ms : JcsMembers) → Reordered ms ms
  swapped :
      (j : Str) (v : JcsValue) (k : Str) (w : JcsValue) (ms : JcsMembers)
      → Reordered (member j v (member k w ms)) (member k w (member j v ms))
  deeper :
      (k : Str) (v : JcsValue) (ms ns : JcsMembers)
      → Reordered ms ns
      → Reordered (member k v ms) (member k v ns)
  chained : (ms ns ls : JcsMembers) → Reordered ms ns → Reordered ns ls → Reordered ms ls

-- Every name is a text of scalar values.
unfoldable pub TextKeys : JcsMembers → Type 0
TextKeys no_members = Unit
TextKeys (member k v ms) = IsText k × TextKeys ms

Reordered-TextKeys : (ms ns : JcsMembers) → Reordered ms ns → TextKeys ms → TextKeys ns
unfolding TextKeys
Reordered-TextKeys _ _ (same ms) t = t
Reordered-TextKeys _ _ (swapped j v k w ms) (p, (q, t)) = (q, (p, t))
Reordered-TextKeys _ _ (deeper k v ms ns r) (p, t) = (p, Reordered-TextKeys ms ns r t)
Reordered-TextKeys _ _ (chained ms ns ls r s) t =
    Reordered-TextKeys ns ls s (Reordered-TextKeys ms ns r t)

-- Two names in either order, with a third.
module _ (j k : Str) (hj : IsText j) (hk : IsText k) (apart : j ≢ k) where
  strict : le_utf16 j k ≡ true → le_utf16 k j ≡ false
  strict h = elim (Bool-cases (le_utf16 k j)) [
    | inl p ↦ absurd (apart (le_utf16_antisym j k hj hk h p))
    | inr p ↦ p
  ]

  insert_member_comm :
      (v w : JcsValue) (ms : JcsMembers)
      → insert_member j v (insert_member k w ms) ≡ insert_member k w (insert_member j v ms)
  unfolding insert_member
  insert_member_comm v w no_members = ground (arith, strict, le_utf16_total j k)
  insert_member_comm v w (member x u ms) = ground (
    arith,
    strict,
    le_utf16_total j k,
    le_utf16_trans j k x,
    le_utf16_trans k j x,
    insert_member_comm v w ms,
  )

adjacent_equal_behind :
    (k : Str) (v : JcsValue) (ms : JcsMembers)
    → adjacent_equal ms ≡ true
    → adjacent_equal (member k v ms) ≡ true
unfolding adjacent_equal
adjacent_equal_behind k v no_members h = cc
adjacent_equal_behind k v (member j w ms) h = ground arith

insert_member-twice :
    (k : Str) (v w : JcsValue) (ms : JcsMembers)
    → adjacent_equal (insert_member k v (insert_member k w ms)) ≡ true
unfolding insert_member adjacent_equal
insert_member-twice k v w no_members = ground (arith, le_utf16_refl k, str_eq_refl k)
insert_member-twice k v w (member x u ms) = elim (Bool-cases (le_utf16 k x)) [
  | inl p ↦ rw p (rw (le_utf16_refl k, str_eq_refl k) refl)
  | inr p ↦ rw p (rw p (adjacent_equal_behind x u _ (insert_member-twice k v w ms)))
]

adjacent_equal-insert_member :
    (k : Str) (v : JcsValue) (ms : JcsMembers)
    → adjacent_equal ms ≡ true
    → adjacent_equal (insert_member k v ms) ≡ true
unfolding insert_member adjacent_equal
adjacent_equal-insert_member k v no_members h = cc
adjacent_equal-insert_member k v (member x u no_members) h = cc
adjacent_equal-insert_member k v (member x u (member y t ms)) h = elim (Bool-cases (le_utf16 k x)) [
  | inl p ↦ rw p (adjacent_equal_behind k v (member x u (member y t ms)) h)
  | inr p ↦ elim (Bool-cases (str_eq x y)) [
    | inl q ↦
        let names : x ≡ y = (str_eq_iff x y).0 q in
        let late : le_utf16 k y ≡ false = rw names at p in rw (p, late, q) refl
    | inr q ↦
        let rest : adjacent_equal (member y t ms) ≡ true = ground arith in
        rw p (
          adjacent_equal_behind x u (insert_member k v (member y t ms))
            (adjacent_equal-insert_member k v (member y t ms) rest))
  ]
]

-- The sorted members are the same, or both have a name twice.
abbrev Alike : JcsMembers → JcsMembers → Type 0
Alike ms ns =
    (sort_members ms ≡ sort_members ns)
    ⊎ ((adjacent_equal (sort_members ms) ≡ true) × (adjacent_equal (sort_members ns) ≡ true))

Reordered-Alike : (ms ns : JcsMembers) → Reordered ms ns → TextKeys ms → Alike ms ns
unfolding sort_members TextKeys
Reordered-Alike _ _ (same ms) t = inl refl
Reordered-Alike _ _ (swapped j v k w ms) (p, (q, t)) = elim (Bool-cases (str_eq j k)) [
  | inl e ↦
      let names : j ≡ k = (str_eq_iff j k).0 e in
      inr (rw names (insert_member-twice k v w _, insert_member-twice k w v _))
  | inr e ↦
      let apart : j ≢ k = λ names. (let f = (str_eq_iff j k).1 names in cc) in
      inl (insert_member_comm j k p q apart v w (sort_members ms))
]
Reordered-Alike _ _ (deeper k v ms ns r) (p, t) = elim (Reordered-Alike ms ns r t) [
  | inl e ↦ inl (ap (insert_member k v) e)
  | inr (a, b) ↦ inr (adjacent_equal-insert_member k v _ a, adjacent_equal-insert_member k v _ b)
]
Reordered-Alike _ _ (chained ms ns ls r s) t = elim (Reordered-Alike ms ns r t) [
  | inl e ↦ elim (Reordered-Alike ns ls s (Reordered-TextKeys ms ns r t)) [
    | inl f ↦ inl (e ∙ f)
    | inr (b, c) ↦ inr (rw e b, c)
  ]
  | inr (a, b) ↦ elim (Reordered-Alike ns ls s (Reordered-TextKeys ms ns r t)) [
    | inl f ↦ inr (a, rw (← f) b)
    | inr (_, c) ↦ inr (a, c)
  ]
]

-- The canonical bytes of an object do not depend on the order in which its members are given, whose
-- names are texts.
pub canonicalize_value-Reordered :
    (ms ns : JcsMembers)
    → Reordered ms ns
    → TextKeys ms
    → canonicalize_value (object ms) ≡ canonicalize_value (object ns)
unfolding canonicalize_value write_value
canonicalize_value-Reordered ms ns r t = elim (Reordered-Alike ms ns r t) [
  | inl e ↦ rw e refl
  | inr (a, b) ↦ rw (a, b) refl
]

twice_refused :
    (k : Str) (v w : JcsValue) (ms : JcsMembers)
    → canonicalize_value (object (member k v (member k w ms))) ≡ err canonicalization_failed
unfolding canonicalize_value write_value sort_members
twice_refused k v w ms = rw (insert_member-twice k v w (sort_members ms)) refl

-- An object that has a name twice, wherever its members with that name stand, has no canonical
-- form, when its names are texts.
pub canonicalize_value_duplicate :
    (k : Str) (v w : JcsValue) (ms ns : JcsMembers)
    → Reordered ms (member k v (member k w ns))
    → TextKeys ms
    → canonicalize_value (object ms) ≡ err canonicalization_failed
canonicalize_value_duplicate k v w ms ns r t =
    canonicalize_value-Reordered ms _ r t ∙ twice_refused k v w ns
