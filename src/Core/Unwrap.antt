-- ===== src/Core/Unwrap.antt =====
-- mcps-core/src/unwrap.rs: the result of a verified response, as the server inside gave it.
pub mod Shapes
mod Tests
use mcps.Prelude.{
  Str, codes, Bool, true, false, Option, some, none, Result, ok, err, ◌>>=◌, ok_or, ◌==◌,
  if◌then◌else◌,
}
use mcps.Core.Error.{McpsError, canonicalization_failed}
use mcps.Core.Ids.{response_wrap_value_key, response_wrap_inner_error_key}
use mcps.Core.Json.{Value, Members, object, as_object, get_member, count_members, remove_member}

abbrev pub meta_field : Str
meta_field = codes "_meta"

pub data UnwrappedResult : Type 0 where
  object_result scalar inner_error : Value → UnwrappedResult

unfoldable pub is_inner_error : UnwrappedResult → Bool
is_inner_error (inner_error v) = true
is_inner_error (object_result v) = false
is_inner_error (scalar v) = false

unfoldable pub into_value : UnwrappedResult → Value
into_value (object_result v) = v
into_value (scalar v) = v
into_value (inner_error v) = v

-- The two removals, of which the first that finds its key decides.
by_wrapper : Option Value → Option Value → Members → UnwrappedResult
by_wrapper (some value) e payload = scalar value
by_wrapper none (some e) payload = inner_error e
by_wrapper none none payload = object_result (object payload)

by_payload : Members → UnwrappedResult
unfolding by_wrapper get_member count_members
by_payload payload =
    if count_members payload == 1
    then by_wrapper (get_member payload response_wrap_value_key)
        (get_member payload response_wrap_inner_error_key) payload
    else object_result (object payload)

unfoldable pub unwrap_verified_result : Value → Result McpsError UnwrappedResult
unfolding as_object remove_member by_payload
unwrap_verified_result result_value = do
  members ← ok_or (as_object result_value) canonicalization_failed
  ok (by_payload (remove_member meta_field members))
