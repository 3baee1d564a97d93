-- ===== src/Core/Constraints/Binding.antt =====
-- The authorization bindings that `check_authorization_binding` admits.
use mcps.Prelude.{
  ok_or-eq-ok, guard-eq-ok, ap, ◌∙◌, Bool-cases, inl, inr, Str, codes, is_empty, length, true,
  false, Option, none, some, List, [], ◌∷◌, All, ◌≡◌, refl, ◌↔◌, ok, arith, ◌==◌, ==_iff, str_eq,
  str_eq_iff, str_eq_refl, >>=-eq-ok, >>-eq-ok, guard, ok_or,
}
use mcps.Core.Ids.{
  binding_type_opaque_bytes, binding_type_authz_system_reference, digest_alg_sha256,
}
use mcps.Core.Json.{
  Value, Members, null, bool, number, string, array, object, get, as_object, count_members,
}
use mcps.Core.Constraints.{
  check_authorization_binding, required_fields, check_filled, has_any, str_member, is_filled,
  is_sha256, reference_only, opaque_required, reference_required,
}

as_object-eq-some : (v : Value) (ms : Members) → as_object v ≡ some ms → v ≡ object ms
unfolding as_object
as_object-eq-some (object ns) ms h = ap object (cc)
as_object-eq-some null ms h = cc
as_object-eq-some (bool b) ms h = cc
as_object-eq-some (number n) ms h = cc
as_object-eq-some (string t) ms h = cc
as_object-eq-some (array vs) ms h = cc

-- A member that is a string with something in it.
abbrev pub Filled : Members → Str → Type 0
Filled obj key = (s : Str) × (str_member obj key ≡ some s) × (is_empty s ≡ false)

-- The two profiles, each with the members that it must have.
pub data Profile (obj : Members) : Str → List Str → Type 0 where
  opaque :
      has_any obj reference_only ≡ false → Profile obj binding_type_opaque_bytes opaque_required
  reference : Profile obj binding_type_authz_system_reference reference_required

pub record Admissible (raw : Value) : Type 0 where
  pub obj : Members
  pub found : get raw (codes "authorization_binding") ≡ some (object obj)
  pub binding_type : Str
  pub typed : str_member obj (codes "binding_type") ≡ some binding_type
  pub required : List Str
  pub profile : Profile obj binding_type required
  pub no_other : count_members obj ≡ length required
  pub filled : All (Filled obj) required
  pub digest : str_member obj (codes "digest_alg") ≡ some digest_alg_sha256

is_filled_iff :
    (o : Option Str) → (is_filled o ≡ true) ↔ ((s : Str) × (o ≡ some s) × (is_empty s ≡ false))
is_filled_iff none = (λ h. cc, λ (s, h, _). cc)
is_filled_iff (some s) =
    (λ h. (s, refl, ground arith), λ (t, h, k). (let e : s ≡ t = cc in rw (e, k) refl))

is_sha256_iff : (o : Option Str) → (is_sha256 o ≡ true) ↔ (o ≡ some digest_alg_sha256)
is_sha256_iff none = (λ h. cc, λ h. cc)
is_sha256_iff (some s) =
    let t = str_eq_iff s digest_alg_sha256 in (λ h. ground (arith, t), λ h. ground (arith, t))

check_filled_iff :
    (obj : Members) (keys : List Str) → (check_filled obj keys ≡ ok tt) ↔ All (Filled obj) keys
unfolding check_filled
check_filled_iff obj [] = (λ h. tt, λ h. refl)
check_filled_iff obj (key ∷ keys) =
    let one = is_filled_iff (str_member obj key) in
    let rest = check_filled_iff obj keys in
    (
      λ h. (one.0 (ground arith), rest.0 (ground (arith, one))),
      λ all. rw ((one.1 all.0), (rest.1 all.1)) refl,
    )

two_profiles : str_eq binding_type_authz_system_reference binding_type_opaque_bytes ≡ false
unfolding str_eq codes
two_profiles = refl

required_fields_iff :
    (obj : Members) (t : Str) (required : List Str)
    → (required_fields obj t ≡ ok required) ↔ Profile obj t required
unfolding required_fields
required_fields_iff obj t required = (
  λ h. elim (Bool-cases (str_eq t binding_type_opaque_bytes)) [
    | inl p ↦ elim (Bool-cases (has_any obj reference_only)) [
      | inl q ↦ absurd (ground arith)
      | inr q ↦
          let same : t ≡ binding_type_opaque_bytes = (str_eq_iff _ _).0 p in
          let fields : opaque_required ≡ required = ground arith in rw (same, ← fields) (opaque q)
    ]
    | inr p ↦ elim (Bool-cases (str_eq t binding_type_authz_system_reference)) [
      | inl q ↦
          let same : t ≡ binding_type_authz_system_reference = (str_eq_iff _ _).0 q in
          let fields : reference_required ≡ required = ground arith in rw (same, ← fields) reference
      | inr q ↦ absurd (ground arith)
    ]
  ],
  λ profile. back t required profile,
)
  where
    back :
        (t : Str) (required : List Str)
        → Profile obj t required
        → required_fields obj t ≡ ok required
    back t required (opaque none_of_them) =
        ground (arith, none_of_them, str_eq_refl binding_type_opaque_bytes)
    back t required reference =
        ground (arith, two_profiles, str_eq_refl binding_type_authz_system_reference)

admitted : (raw : Value) → check_authorization_binding raw ≡ ok tt → Admissible raw
unfolding check_authorization_binding
admitted raw h =
    let (binding, found, h1) = >>=-eq-ok (ok_or (get raw (codes "authorization_binding")) _) _ h in
    let (obj, object_of, h2) = >>=-eq-ok (ok_or (as_object binding) _) _ h1 in
    let (t, typed, h3) = >>=-eq-ok (ok_or (str_member obj (codes "binding_type")) _) _ h2 in
    let (required, fields, h4) = >>=-eq-ok (required_fields obj t) _ h3 in
    let (count, h5) = >>-eq-ok (guard (count_members obj == length required) _) _ h4 in
    let (filled, digest) = >>-eq-ok (check_filled obj required) _ h5 in
    record {
      obj = obj;
      found =
          ok_or-eq-ok _ _ found
          ∙ ap some (as_object-eq-some binding obj (ok_or-eq-ok _ _ object_of));
      binding_type = t;
      typed = ok_or-eq-ok _ _ typed;
      required = required;
      profile = (required_fields_iff obj t required).0 fields;
      no_other = (==_iff _ _).0 (guard-eq-ok _ _ count);
      filled = (check_filled_iff obj required).0 filled;
      digest = (is_sha256_iff _).0 (guard-eq-ok _ _ digest);
    }

admits-Admissible : (raw : Value) → Admissible raw → check_authorization_binding raw ≡ ok tt
unfolding check_authorization_binding
admits-Admissible raw a =
    let fields = (required_fields_iff a.obj a.binding_type a.required).1 a.profile in
    let count = (==_iff (count_members a.obj) (length a.required)).1 a.no_other in
    let filled = (check_filled_iff a.obj a.required).1 a.filled in
    rw (a.found, a.typed, fields, count, filled, (is_sha256_iff _).1 a.digest) refl

-- The check of an authorization binding passes exactly on an object of one of the two profiles: it
-- has the members of the profile and no others, each a string that is not empty, its digest
-- algorithm is sha256, and an opaque one has no member of a reference.
pub check_authorization_binding_exact :
    (raw : Value) → (check_authorization_binding raw ≡ ok tt) ↔ Admissible raw
check_authorization_binding_exact raw = (admitted raw, admits-Admissible raw)
