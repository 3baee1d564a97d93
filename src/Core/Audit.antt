-- ===== src/Core/Audit.antt =====
-- mcps-core/src/audit.rs: the vocabulary of audit events.
use mcps.Prelude.{Str, codes, Option, none, some, List, [], ◌∷◌}
use mcps.Core.Error.{
  McpsError, wire_code, missing_envelope, unsupported_version, invalid_signature,
  canonicalization_failed, expired_request, replay_detected, invalid_audience, actor_binding_failed,
  transport_binding_failed, authorization_hash_missing, on_behalf_of_missing,
  on_behalf_of_invalid_format, response_sig_invalid, response_hash_mismatch, downgrade_forbidden,
  batch_forbidden, notification_forbidden, unknown_envelope_field, trust_resolver_unavailable,
  replay_cache_unavailable, canonicalization_id_missing, canonicalization_id_unknown,
  canonicalization_id_not_allowed, canonicalization_id_mismatch, authorization_binding_missing,
  authorization_binding_type_unsupported, authorization_binding_malformed,
  authorization_binding_profile_required, authorization_binding_ambiguous_bytes,
}

abbrev pub request_accepted_event : Str
request_accepted_event = codes "mcps.request.accepted"

abbrev pub response_signed_event : Str
response_signed_event = codes "mcps.response.signed"

abbrev pub request_rejected_event : Str
request_rejected_event = codes "mcps.request.rejected"

abbrev pub response_rejected_event : Str
response_rejected_event = codes "mcps.response.rejected"

abbrev pub success_event_types : List Str
success_event_types = request_accepted_event ∷ response_signed_event ∷ []

abbrev pub rejection_event_types : List Str
rejection_event_types = request_rejected_event ∷ response_rejected_event ∷ []

unfoldable pub rejection_reason : McpsError → Str
rejection_reason error = wire_code error

unfoldable pub reason_label : McpsError → Str
unfolding codes
reason_label missing_envelope = codes "Missing MCP-S envelope"
reason_label unsupported_version = codes "Unsupported envelope version"
reason_label invalid_signature = codes "Invalid signature"
reason_label canonicalization_failed = codes "Canonicalization failed"
reason_label expired_request = codes "Expired request"
reason_label replay_detected = codes "Replay detected"
reason_label invalid_audience = codes "Invalid audience"
reason_label actor_binding_failed = codes "Signer trust binding failed"
reason_label transport_binding_failed = codes "Transport binding failed"
reason_label authorization_hash_missing = codes "Authorization hash missing"
reason_label on_behalf_of_missing = codes "on_behalf_of missing"
reason_label on_behalf_of_invalid_format = codes "on_behalf_of malformed"
reason_label response_sig_invalid = codes "Invalid response signature"
reason_label response_hash_mismatch = codes "Response/request hash mismatch"
reason_label downgrade_forbidden = codes "Security downgrade forbidden"
reason_label batch_forbidden = codes "JSON-RPC batch forbidden"
reason_label notification_forbidden = codes "Security notification forbidden"
reason_label unknown_envelope_field = codes "Unknown envelope field"
reason_label trust_resolver_unavailable = codes "Trust resolver unavailable"
reason_label replay_cache_unavailable = codes "Replay cache unavailable"
reason_label canonicalization_id_missing = codes "canonicalization_id missing"
reason_label canonicalization_id_unknown = codes "canonicalization_id unknown"
reason_label canonicalization_id_not_allowed = codes "canonicalization_id not allowed by profile"
reason_label canonicalization_id_mismatch = codes "canonicalization_id mismatch"
reason_label authorization_binding_missing = codes "authorization_binding missing"
reason_label authorization_binding_type_unsupported = codes "authorization_binding type unsupported"
reason_label authorization_binding_malformed = codes "authorization_binding malformed"
reason_label authorization_binding_profile_required = codes "authorization_binding profile required"
reason_label authorization_binding_ambiguous_bytes = codes "authorization_binding ambiguous bytes"

pub data Decision : Type 0 where
  accepted signed rejected : Decision

pub record AuditEvent : Type 0 where
  pub event_type : Str
  pub decision : Decision
  pub reason : Option Str
  pub label : Option Str

unfoldable pub request_accepted : AuditEvent
request_accepted = record {
  event_type = request_accepted_event;
  decision = accepted;
  reason = none;
  label = none;
}

unfoldable pub response_signed : AuditEvent
response_signed = record {
  event_type = response_signed_event;
  decision = signed;
  reason = none;
  label = none;
}

-- The two constructors of a rejection, by the type of the event.
rejection : Str → McpsError → AuditEvent
unfolding rejection_reason reason_label
rejection event_type error = record {
  event_type = event_type;
  decision = rejected;
  reason = some (rejection_reason error);
  label = some (reason_label error);
}

unfoldable pub request_rejected : McpsError → AuditEvent
unfolding rejection
request_rejected error = rejection request_rejected_event error

unfoldable pub response_rejected : McpsError → AuditEvent
unfolding rejection
response_rejected error = rejection response_rejected_event error
