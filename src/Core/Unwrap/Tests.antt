-- ===== src/Core/Unwrap/Tests.antt =====
-- Tests and witnesses for mcps-core/src/unwrap.rs.
use mcps.Prelude.{codes, str_eq, ◌≡◌, ◌↔◌, refl, ok}
use mcps.Core.Ids.{response_wrap_value_key, response_wrap_inner_error_key}
use mcps.Core.Json.{Members, null, object, no_members, member, remove_member}
use mcps.Core.Unwrap.{scalar, inner_error, object_result, unwrap_verified_result, meta_field}
use mcps.Core.Unwrap.Shapes.{unwrap_verified_result_exact}

abbrev with_meta : Members → Members
with_meta ms = member meta_field (object no_members) ms

abbrev wrapped : Members
wrapped = with_meta (member response_wrap_value_key null no_members)

unwraps_a_value : unwrap_verified_result (object wrapped) ≡ ok (scalar null)
unfolding unwrap_verified_result codes str_eq
unwraps_a_value = refl

surfaces_an_error :
    unwrap_verified_result
      (object (with_meta (member response_wrap_inner_error_key null no_members)))
    ≡ ok (inner_error null)
unfolding unwrap_verified_result codes str_eq
surfaces_an_error = refl

keeps_a_larger_object :
    unwrap_verified_result (
      object
        (with_meta (member response_wrap_value_key null (member (codes "unit") null no_members))))
    ≡ ok (
        object_result
          (object (member response_wrap_value_key null (member (codes "unit") null no_members))))
unfolding unwrap_verified_result codes str_eq
keeps_a_larger_object = refl

unwrap_verified_result_exact_example :
    ((unwrap_verified_result (object wrapped) ≡ ok (scalar null))
      ↔ (remove_member meta_field wrapped ≡ member response_wrap_value_key null no_members))
    × ((unwrap_verified_result (object wrapped) ≡ ok (inner_error null))
        ↔ (remove_member meta_field wrapped ≡ member response_wrap_inner_error_key null no_members))
    × (unwrap_verified_result (object wrapped) ≡ ok (object_result null)
        → null ≡ object (remove_member meta_field wrapped))
unwrap_verified_result_exact_example = unwrap_verified_result_exact wrapped null
