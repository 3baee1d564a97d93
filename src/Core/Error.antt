-- ===== src/Core/Error.antt =====
-- mcps-core/src/error.rs: the frozen taxonomy of errors and their wire codes.
pub mod Codes
use mcps.Prelude.{Str, codes}

pub data McpsError : Type 0 where
  missing_envelope unsupported_version invalid_signature canonicalization_failed : McpsError
  expired_request replay_detected invalid_audience actor_binding_failed : McpsError
  transport_binding_failed authorization_hash_missing on_behalf_of_missing : McpsError
  on_behalf_of_invalid_format response_sig_invalid response_hash_mismatch : McpsError
  downgrade_forbidden batch_forbidden notification_forbidden unknown_envelope_field : McpsError
  trust_resolver_unavailable replay_cache_unavailable canonicalization_id_missing : McpsError
  canonicalization_id_unknown canonicalization_id_not_allowed : McpsError
  canonicalization_id_mismatch authorization_binding_missing : McpsError
  authorization_binding_type_unsupported authorization_binding_malformed : McpsError
  authorization_binding_profile_required authorization_binding_ambiguous_bytes : McpsError

pub wire_code : McpsError → Str
wire_code missing_envelope = codes "mcps.missing_envelope"
wire_code unsupported_version = codes "mcps.unsupported_version"
wire_code invalid_signature = codes "mcps.invalid_signature"
wire_code canonicalization_failed = codes "mcps.canonicalization_failed"
wire_code expired_request = codes "mcps.expired_request"
wire_code replay_detected = codes "mcps.replay_detected"
wire_code invalid_audience = codes "mcps.invalid_audience"
wire_code actor_binding_failed = codes "mcps.actor_binding_failed"
wire_code transport_binding_failed = codes "mcps.transport_binding_failed"
wire_code authorization_hash_missing = codes "mcps.authorization_hash_missing"
wire_code on_behalf_of_missing = codes "mcps.on_behalf_of_missing"
wire_code on_behalf_of_invalid_format = codes "mcps.on_behalf_of_invalid_format"
wire_code response_sig_invalid = codes "mcps.response_sig_invalid"
wire_code response_hash_mismatch = codes "mcps.response_hash_mismatch"
wire_code downgrade_forbidden = codes "mcps.downgrade_forbidden"
wire_code batch_forbidden = codes "mcps.batch_forbidden"
wire_code notification_forbidden = codes "mcps.notification_forbidden"
wire_code unknown_envelope_field = codes "mcps.unknown_envelope_field"
wire_code trust_resolver_unavailable = codes "mcps.trust_resolver_unavailable"
wire_code replay_cache_unavailable = codes "mcps.replay_cache_unavailable"
wire_code canonicalization_id_missing = codes "mcps.canonicalization_id_missing"
wire_code canonicalization_id_unknown = codes "mcps.canonicalization_id_unknown"
wire_code canonicalization_id_not_allowed = codes "mcps.canonicalization_id_not_allowed"
wire_code canonicalization_id_mismatch = codes "mcps.canonicalization_id_mismatch"
wire_code authorization_binding_missing = codes "mcps.authorization_binding_missing"
wire_code authorization_binding_type_unsupported =
    codes "mcps.authorization_binding_type_unsupported"
wire_code authorization_binding_malformed = codes "mcps.authorization_binding_malformed"
wire_code authorization_binding_profile_required =
    codes "mcps.authorization_binding_profile_required"
wire_code authorization_binding_ambiguous_bytes = codes "mcps.authorization_binding_ambiguous_bytes"
