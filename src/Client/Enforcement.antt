-- ===== src/Client/Enforcement.antt =====
-- mcps-client-core/src/enforcement.rs, audit.rs and probe.rs: what a client does with the evidence
-- that a response carries, how it records that, and what it remembers of a server.
pub mod Downgrades
use mcps.Prelude.{Str, List, Option, some, none, Result, ok, err, Bool, true, false, length, ℕ}
use mcps.Prelude.Assoc.{find, set}
use mcps.Core.Error.{McpsError, missing_envelope, downgrade_forbidden, wire_code}
use mcps.Core.Resolver.{str_key_eq}
use mcps.Core.Response.{VerifiedResponse}
use mcps.Core.Audit

pub data EnforcementMode : Type 0 where
  require_mcps allow_legacy_explicit : EnforcementMode

pub data AbsenceReason : Type 0 where
  transport_failure_pre_evidence plain_unsigned explicit_unsupported_hint : AbsenceReason

pub data EvidenceOutcome : Type 0 where
  verified : VerifiedResponse → EvidenceOutcome
  absent : AbsenceReason → EvidenceOutcome
  invalid : McpsError → EvidenceOutcome

pub data EnforcementDecision : Type 0 where
  accept_mcps : EnforcementDecision
  fall_back_to_legacy : AbsenceReason → EnforcementDecision
  fail_closed : McpsError → EnforcementDecision

unfoldable pub absence_fail_closed_code : AbsenceReason → McpsError
absence_fail_closed_code plain_unsigned = missing_envelope
absence_fail_closed_code transport_failure_pre_evidence = downgrade_forbidden
absence_fail_closed_code explicit_unsupported_hint = downgrade_forbidden

unfoldable pub classify_response_result : Result McpsError VerifiedResponse → EvidenceOutcome
classify_response_result (ok v) = verified v
classify_response_result (err missing_envelope) = absent plain_unsigned
classify_response_result (err other) = invalid other

unfoldable pub decide : EnforcementMode → Bool → EvidenceOutcome → EnforcementDecision
decide mode route_legacy_allowed (verified v) = accept_mcps
decide mode route_legacy_allowed (invalid e) = fail_closed e
decide require_mcps route_legacy_allowed (absent reason) =
    fail_closed (absence_fail_closed_code reason)
decide allow_legacy_explicit true (absent reason) = fall_back_to_legacy reason
decide allow_legacy_explicit false (absent reason) = fail_closed (absence_fail_closed_code reason)

pub data ClientPath : Type 0 where
  mcps_verified legacy_explicit : ClientPath

pub data ClientOutcome : Type 0 where
  accepted fell_back rejected : ClientOutcome

pub record ClientAuditEvent : Type 0 where
  pub path : ClientPath
  pub outcome : ClientOutcome
  pub reason : Option Str
  pub legacy_reason : Option AbsenceReason

unfoldable pub accepted_mcps : ClientAuditEvent
accepted_mcps = record {
  path = mcps_verified;
  outcome = accepted;
  reason = none;
  legacy_reason = none;
}

unfoldable pub fell_back_to_legacy : AbsenceReason → ClientAuditEvent
fell_back_to_legacy reason = record {
  path = legacy_explicit;
  outcome = fell_back;
  reason = none;
  legacy_reason = some reason;
}

unfoldable pub rejected_event : McpsError → ClientAuditEvent
rejected_event error = record {
  path = mcps_verified;
  outcome = rejected;
  reason = some (wire_code error);
  legacy_reason = none;
}

unfoldable pub audit_for_decision : EnforcementDecision → ClientAuditEvent
audit_for_decision accept_mcps = accepted_mcps
audit_for_decision (fall_back_to_legacy reason) = fell_back_to_legacy reason
audit_for_decision (fail_closed error) = rejected_event error

pub data SupportObservation : Type 0 where
  supports no_mcps_evidence : SupportObservation

pub record OpportunisticProbe : Type 0 where
  pub observations : List (Str × SupportObservation)

unfoldable pub observation_of : EvidenceOutcome → SupportObservation
observation_of (verified v) = supports
observation_of (absent reason) = no_mcps_evidence
observation_of (invalid e) = no_mcps_evidence

unfoldable pub record_outcome : OpportunisticProbe → Str → EvidenceOutcome → OpportunisticProbe
record_outcome p server outcome = record {
  observations = set server (observation_of outcome) p.observations;
}

unfoldable pub observation : OpportunisticProbe → Str → Option SupportObservation
observation p server = find server p.observations

abbrev is_support : Option SupportObservation → Bool
is_support (some supports) = true
is_support _ = false

unfoldable pub supports_mcps : OpportunisticProbe → Str → Bool
supports_mcps p server = is_support (observation p server)

unfoldable pub observed_count : OpportunisticProbe → ℕ
observed_count p = length p.observations
