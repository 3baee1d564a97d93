-- ===== src/Core/Constraints/Tests.antt =====
-- Tests and witnesses for mcps-core/src/constraints.rs.
use mcps.Prelude.{String, codes, str_eq, is_empty, ◌≡◌, ◌↔◌, refl, ok, err}
use mcps.Core.Error.{
  authorization_binding_malformed, authorization_binding_ambiguous_bytes, notification_forbidden,
}
use mcps.Core.Json.{Value, Members, null, string, object, no_members, member}
use mcps.Core.Constraints.{check_authorization_binding, reject_notification}
use mcps.Core.Constraints.Binding.{Admissible, check_authorization_binding_exact}

abbrev field : String → String → Members → Members
field key v ms = member (codes key) (string (codes v)) ms

abbrev with_binding : Members → Value
with_binding ms = object (member (codes "authorization_binding") (object ms) no_members)

abbrev opaque_binding : Members
opaque_binding =
    field "binding_type" "opaque-bytes"
      (field "digest_alg" "sha256" (field "digest_value" "AA" no_members))

admits_opaque : check_authorization_binding (with_binding opaque_binding) ≡ ok tt
unfolding check_authorization_binding codes str_eq is_empty
admits_opaque = refl

refuses_ambiguity :
    check_authorization_binding (with_binding (field "reference_value" "r" opaque_binding))
    ≡ err authorization_binding_ambiguous_bytes
unfolding check_authorization_binding codes str_eq is_empty
refuses_ambiguity = refl

refuses_extra_members :
    check_authorization_binding (with_binding (field "note" "r" opaque_binding))
    ≡ err authorization_binding_malformed
unfolding check_authorization_binding codes str_eq is_empty
refuses_extra_members = refl

null_id_is_a_notification :
    reject_notification (object (member (codes "id") null no_members)) ≡ err notification_forbidden
unfolding reject_notification codes str_eq
null_id_is_a_notification = refl

check_authorization_binding_exact_example :
    (check_authorization_binding (with_binding opaque_binding) ≡ ok tt)
    ↔ Admissible (with_binding opaque_binding)
check_authorization_binding_exact_example =
    check_authorization_binding_exact (with_binding opaque_binding)
