-- ===== src/Core/Wire.antt =====
-- mcps-core/src/wire.rs: the JSON-RPC error that a refused message is answered with. `to_vec` stands
-- for `serde_json::to_vec`.
use mcps.Prelude.{ℕ, Str, codes, false, Option, none, some, List}
use mcps.Prelude.Int.{ℤ, negsuc}
use mcps.Core.Error.{McpsError, wire_code}
use mcps.Core.Json.{Value, bool, number, string, object, no_members, member}

-- -32003.
abbrev pub mcps_json_rpc_error_code : ℤ
mcps_json_rpc_error_code = negsuc 32002

-- The literal of `json!`, for a code and the layer that refuses.
unfoldable pub error_object : Str → Str → Value → Value
unfolding codes
error_object code policy id =
    let data_object = object (
      member (codes "mcps_error") (string code) (
        member (codes "policy") (string policy) (
          member (codes "retryable") (bool false)
            (member (codes "details") (string code) no_members)))) in
    let number_code = number (record { as_i64 = some mcps_json_rpc_error_code; as_u64 = none }) in
    let error_value = object (
      member (codes "code") number_code
        (member (codes "message") (string code) (member (codes "data") data_object no_members))) in
    object (
      member (codes "jsonrpc") (string (codes "2.0"))
        (member (codes "id") id (member (codes "error") error_value no_members)))

unfoldable pub or_internal_error : Option (List ℕ) → List ℕ
unfolding codes
or_internal_error (some bytes) = bytes
or_internal_error none = codes "{\"jsonrpc\":\"2.0\",\"id\":null,\"error\":{\"code\":-32603}}"

unfoldable pub json_rpc_error_object : (Value → Option (List ℕ)) → McpsError → Value → List ℕ
unfolding codes
json_rpc_error_object to_vec error id =
    or_internal_error (to_vec (error_object (wire_code error) (codes "core") id))
