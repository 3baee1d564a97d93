-- ===== src/Core/Error/Codes.antt =====
-- The wire codes of mcps-core/src/error.rs tell the errors apart.
use mcps.Prelude.{
  Str, codes, str_eq, starts_with, ◌≡◌, refl, sym, ap, ◌∙◌, true, List, [], ◌∷◌, Option, none, some,
  if◌then◌else◌,
}
use mathlib.Core.Option.{some-injective}
use mcps.Core.Error.{
  McpsError, wire_code, missing_envelope, unsupported_version, invalid_signature,
  canonicalization_failed, expired_request, replay_detected, invalid_audience, actor_binding_failed,
  transport_binding_failed, authorization_hash_missing, on_behalf_of_missing,
  on_behalf_of_invalid_format, response_sig_invalid, response_hash_mismatch, downgrade_forbidden,
  batch_forbidden, notification_forbidden, unknown_envelope_field, trust_resolver_unavailable,
  replay_cache_unavailable, canonicalization_id_missing, canonicalization_id_unknown,
  canonicalization_id_not_allowed, canonicalization_id_mismatch, authorization_binding_missing,
  authorization_binding_type_unsupported, authorization_binding_malformed,
  authorization_binding_profile_required, authorization_binding_ambiguous_bytes,
}

-- The errors, each once.
abbrev all_errors : List McpsError
all_errors =
    missing_envelope ∷ unsupported_version ∷ invalid_signature ∷ canonicalization_failed
    ∷ expired_request ∷ replay_detected ∷ invalid_audience ∷ actor_binding_failed
    ∷ transport_binding_failed ∷ authorization_hash_missing ∷ on_behalf_of_missing
    ∷ on_behalf_of_invalid_format ∷ response_sig_invalid ∷ response_hash_mismatch
    ∷ downgrade_forbidden ∷ batch_forbidden ∷ notification_forbidden ∷ unknown_envelope_field
    ∷ trust_resolver_unavailable ∷ replay_cache_unavailable ∷ canonicalization_id_missing
    ∷ canonicalization_id_unknown ∷ canonicalization_id_not_allowed ∷ canonicalization_id_mismatch
    ∷ authorization_binding_missing ∷ authorization_binding_type_unsupported
    ∷ authorization_binding_malformed ∷ authorization_binding_profile_required
    ∷ authorization_binding_ambiguous_bytes ∷ []

find_code : Str → List McpsError → Option McpsError
find_code s [] = none
find_code s (e ∷ es) = if str_eq s (wire_code e) then some e else find_code s es

find_code-wire_code : (e : McpsError) → find_code (wire_code e) all_errors ≡ some e
unfolding find_code wire_code str_eq codes
find_code-wire_code missing_envelope = refl
find_code-wire_code _ = refl

-- Two errors with the same wire code are the same error.
pub wire_code_injective : (e f : McpsError) → wire_code e ≡ wire_code f → e ≡ f
wire_code_injective e f h =
    some-injective _ _
      (sym (find_code-wire_code e) ∙ ap (λ s. find_code s all_errors) h ∙ find_code-wire_code f)

-- Every wire code is in the `mcps.` family.
pub wire_code-prefix : (e : McpsError) → starts_with (wire_code e) (codes "mcps.") ≡ true
unfolding wire_code starts_with codes
wire_code-prefix missing_envelope = refl
wire_code-prefix _ = refl
