-- ===== src/Policy/Error.antt =====
-- mcps-policy/src/error.rs, decision.rs and wire.rs: the refusals, the decision, and the error object
-- that a refused request is answered with. `to_vec` stands for `serde_json::to_vec`.
use mcps.Prelude.{ℕ, Str, codes, Bool, true, false, Option, none, some, List}
use mcps.Core.Wire.{error_object, or_internal_error}
use mcps.Core.Json.{Value}

pub data PolicyError : Type 0 where
  block_missing hash_mismatch profile_unsupported malformed signature_invalid : PolicyError
  signer_mismatch subject_mismatch audience_mismatch expired revoked : PolicyError
  revocation_unavailable scope_denied binding_profile_required : PolicyError

unfoldable pub wire_code : PolicyError → Str
unfolding codes
wire_code block_missing = codes "mcps.authorization_block_missing"
wire_code hash_mismatch = codes "mcps.authorization_hash_mismatch"
wire_code profile_unsupported = codes "mcps.authorization_profile_unsupported"
wire_code malformed = codes "mcps.authorization_malformed"
wire_code signature_invalid = codes "mcps.authorization_signature_invalid"
wire_code signer_mismatch = codes "mcps.authorization_signer_mismatch"
wire_code subject_mismatch = codes "mcps.authorization_subject_mismatch"
wire_code audience_mismatch = codes "mcps.authorization_audience_mismatch"
wire_code expired = codes "mcps.authorization_expired"
wire_code revoked = codes "mcps.authorization_revoked"
wire_code revocation_unavailable = codes "mcps.authorization_revocation_unavailable"
wire_code scope_denied = codes "mcps.authorization_scope_denied"
wire_code binding_profile_required = codes "mcps.authorization_binding_profile_required"

pub data AuthorizationDecision : Type 0 where
  allow : AuthorizationDecision
  deny : PolicyError → AuthorizationDecision

unfoldable pub is_allowed : AuthorizationDecision → Bool
is_allowed allow = true
is_allowed (deny e) = false

unfoldable pub denial : AuthorizationDecision → Option PolicyError
denial allow = none
denial (deny e) = some e

unfoldable pub json_rpc_authorization_error :
    (Value → Option (List ℕ)) → PolicyError → Value → List ℕ
unfolding codes
json_rpc_authorization_error to_vec error id =
    or_internal_error (to_vec (error_object (wire_code error) (codes "authorization") id))
