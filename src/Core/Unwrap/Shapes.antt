-- ===== src/Core/Unwrap/Shapes.antt =====
-- Which results are unwrapped to which shape.
use mcps.Prelude.{
  Str, codes, str_eq, str_eq_iff, str_eq_refl, ◌≡◌, refl, ◌↔◌, ok, arith, false, ap, ◌∙◌,
  Bool-cases, inl, inr, ok-injective, if◌then◌else◌,
}
use mcps.Core.Ids.{response_wrap_value_key, response_wrap_inner_error_key}
use mcps.Core.Json.{
  Value, Members, object, no_members, member, get_member, count_members, remove_member,
}
use mcps.Core.Unwrap.{
  scalar, inner_error, object_result, by_payload, by_wrapper, unwrap_verified_result, meta_field,
}

two_wrappers : str_eq response_wrap_value_key response_wrap_inner_error_key ≡ false
unfolding str_eq codes
two_wrappers = refl

two_wrappers' : str_eq response_wrap_inner_error_key response_wrap_value_key ≡ false
unfolding str_eq codes
two_wrappers' = refl

by_payload-value : (v : Value) → by_payload (member response_wrap_value_key v no_members) ≡ scalar v
unfolding by_payload get_member count_members
by_payload-value v = rw (str_eq_refl response_wrap_value_key) refl

by_payload-inner_error :
    (v : Value) → by_payload (member response_wrap_inner_error_key v no_members) ≡ inner_error v
unfolding by_payload get_member count_members
by_payload-inner_error v = rw (two_wrappers', str_eq_refl response_wrap_inner_error_key) refl

-- One member is a wrapper if its name says so, and nothing else is.
one_member :
    (k : Str) (w : Value)
    → by_payload (member k w no_members) ≡ (
        if str_eq k response_wrap_value_key
        then scalar w
        else if str_eq k response_wrap_inner_error_key
        then inner_error w
        else object_result (object (member k w no_members)))
unfolding by_payload by_wrapper get_member count_members
one_member k w = elim (Bool-cases (str_eq k response_wrap_value_key)) [
  | inl p ↦ rw p refl
  | inr p ↦ elim (Bool-cases (str_eq k response_wrap_inner_error_key)) [
    | inl q ↦ rw (p, q) refl
    | inr q ↦ rw (p, q) refl
  ]
]

no_member : by_payload no_members ≡ object_result (object no_members)
unfolding by_payload count_members
no_member = refl

more_members :
    (k j : Str) (w u : Value) (ms : Members)
    → by_payload (member k w (member j u ms)) ≡ object_result (object (member k w (member j u ms)))
unfolding by_payload count_members
more_members k j w u ms = ground arith

scalar_payload :
    (ms : Members) (v : Value)
    → by_payload ms ≡ scalar v
    → ms ≡ member response_wrap_value_key v no_members
scalar_payload no_members v h = (let say = no_member in cc)
scalar_payload (member k w no_members) v h =
    let say = one_member k w in
    elim (Bool-cases (str_eq k response_wrap_value_key)) [
      | inl p ↦
          let same : k ≡ response_wrap_value_key = (str_eq_iff _ _).0 p in
          let this : w ≡ v = ground (arith, say, p) in rw (same, this) refl
      | inr p ↦ absurd (ground (arith, say, p))
    ]
scalar_payload (member k w (member j u ms)) v h = (let say = more_members k j w u ms in cc)

inner_error_payload :
    (ms : Members) (v : Value)
    → by_payload ms ≡ inner_error v
    → ms ≡ member response_wrap_inner_error_key v no_members
inner_error_payload no_members v h = (let say = no_member in cc)
inner_error_payload (member k w no_members) v h =
    let say = one_member k w in
    elim (Bool-cases (str_eq k response_wrap_inner_error_key)) [
      | inl p ↦
          let same : k ≡ response_wrap_inner_error_key = (str_eq_iff _ _).0 p in
          let other : str_eq k response_wrap_value_key ≡ false = rw same two_wrappers' in
          let this : w ≡ v = ground (arith, say, p, other) in rw (same, this) refl
      | inr p ↦ absurd (ground (arith, say, p))
    ]
inner_error_payload (member k w (member j u ms)) v h = (let say = more_members k j w u ms in cc)

object_payload : (ms : Members) (w : Value) → by_payload ms ≡ object_result w → w ≡ object ms
object_payload no_members w h = (let say = no_member in cc)
object_payload (member k v no_members) w h = ground (arith, one_member k v)
object_payload (member k v (member j u ms)) w h = (let say = more_members k j v u ms in cc)

-- A verified result is unwrapped as a scalar, or as an error of the server inside, exactly when the
-- wrapper's name is the only one beside the envelope; an object that is given back as one is given
-- back whole, without the envelope.
pub unwrap_verified_result_exact :
    (ms : Members) (v : Value)
    → ((unwrap_verified_result (object ms) ≡ ok (scalar v))
        ↔ (remove_member meta_field ms ≡ member response_wrap_value_key v no_members))
      × ((unwrap_verified_result (object ms) ≡ ok (inner_error v))
          ↔ (remove_member meta_field ms ≡ member response_wrap_inner_error_key v no_members))
      × (unwrap_verified_result (object ms) ≡ ok (object_result v)
          → v ≡ object (remove_member meta_field ms))
unfolding unwrap_verified_result
unwrap_verified_result_exact ms v =
    let payload = remove_member meta_field ms in
    (
      (
        λ h. scalar_payload payload v (ok-injective h),
        λ h. ap ok (ap by_payload h ∙ by_payload-value v),
      ),
      (
        λ h. inner_error_payload payload v (ok-injective h),
        λ h. ap ok (ap by_payload h ∙ by_payload-inner_error v),
      ),
      λ h. object_payload payload v (ok-injective h),
    )
