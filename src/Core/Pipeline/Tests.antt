-- ===== src/Core/Pipeline/Tests.antt =====
-- Tests and witnesses for mcps-core/src/pipeline.rs, on the messages of `Sample`.
mod Complete
use mcps.Prelude.{
  String, is_empty, starts_with, ◌++◌, ℕ, Str, codes, str_eq, ◌⊎◌, arith, replicate, length, List,
  [], ◌∷◌, ◌≡◌, refl, ◌==◌, Bool, true, false, Option, none, some, Result, ok, err, if◌then◌else◌,
}
use mcps.Prelude.Int.{ℤ, pos, saturating_add, saturating_sub}
use mcps.Core.Error.{McpsError, replay_detected, downgrade_forbidden}
use mcps.Core.Ids.{
  request_meta_key, response_meta_key, version_draft_01, version_draft_02,
  canonicalization_id_int53_v1, sig_alg_ed25519, binding_type_opaque_bytes, digest_alg_sha256,
}
use mcps.Core.Json.{Value, Number, Members, number, string, object, get, as_str, no_members, member}
use mcps.Core.Envelope.{
  SignatureBlock, RequestEnvelope, ResponseEnvelope, Draft02RequestEnvelope,
  Draft02ResponseEnvelope, opaque_bytes,
}
use mcps.Core.Resolver.{TrustResolver, not_found}
use mcps.Core.Replay.{InMemoryReplayCache, in_memory, new, prune, key_eq, fresh, check_and_insert}
use mcps.Core.Crypto.{Externals, verify_ed25519_with, ensure_ed25519_alg, sha256_hash_id}
use mcps.Core.Pipeline.{
  VerificationConfig, VerifiedRequest, verified01, verified02, verify_request,
  verify_request_draft02, check_request_draft02, check_request, read_message, check_claims,
  verify_signature, check_authorization_hash, check_on_behalf_of, check_signature_block, admit,
  decide,
}
use mcps.Core.Dispatch.{
  ExpectedVersionPolicy, draft02_only, draft01_and_draft02, verify_request_dispatch, select_version,
  read_request_envelope_version, admits,
}
use mcps.Core.Response.{VerifiedResponse, verify_response_draft02}
use mcps.Core.Pipeline.Cache.{Authentic, CarriesSignature, dispatch-Authentic, dispatch_untouched}
use mcps.Core.Pipeline.History.{Event, history, no_second_accept}
use mcps.Core.Pipeline.History.Event.{prunes}
use mcps.Core.Dispatch.Versions.{Profile, dispatch-Profile, downgrade_refused}
use mcps.Core.Response.Binding.{Answers, Carries02, verify_response_draft02-Answers}
use mcps.Core.Signing.{signing_preimage, request, request_hash}
use mcps.Core.Canonical.Parser.{canonicalize}
use mcps.Core.Time.{parse_rfc3339_utc, check_freshness}
use mcps.Core.Constraints.{
  extract_draft02_request_envelope, extract_request_envelope, extract_draft02_response_envelope,
  locate_envelope, reject_batch, reject_notification,
}
use mcps.Core.Pipeline.Sample.{
  text, one, signature_value, binding_value, message, request02_value, request01_value,
  response02_value, raw02, raw01, raw_response, signature_block, request02, request01, response02,
  toy, trust, config, now, cache,
}

abbrev accepted : VerifiedRequest
accepted = verified02 request02 (codes "sha256:" ++ 266 ∷ [])

accepts_draft02 :
    (verify_request_dispatch toy trust in_memory draft02_only config cache raw02 now).0
    ≡ ok accepted
unfolding verify_request_dispatch verify_request_draft02 check_request_draft02 select_version
    read_message check_claims verify_signature check_on_behalf_of check_signature_block admit decide
    verified02 read_request_envelope_version admits verify_ed25519_with ensure_ed25519_alg
    signing_preimage request_hash sha256_hash_id canonicalize extract_draft02_request_envelope
    locate_envelope check_freshness reject_batch reject_notification check_and_insert new codes
    str_eq is_empty get as_str saturating_sub saturating_add
accepts_draft02 = refl

-- The replay cache remembers: the same bytes are a replay, after a pruning too.
refuses_twice :
    (verify_request_dispatch toy trust in_memory draft02_only config
      (prune
        (verify_request_dispatch toy trust in_memory draft02_only config cache raw02 now).1
        (pos 1779998730))
      raw02
      (pos 1779998730)).0
    ≡ err replay_detected
unfolding verify_request_dispatch verify_request_draft02 check_request_draft02 select_version
    read_message check_claims verify_signature check_on_behalf_of check_signature_block admit decide
    read_request_envelope_version admits verify_ed25519_with ensure_ed25519_alg signing_preimage
    request_hash canonicalize extract_draft02_request_envelope locate_envelope check_freshness
    reject_batch reject_notification check_and_insert prune new codes str_eq is_empty get as_str
    saturating_sub saturating_add key_eq
refuses_twice = refl

dispatch-Authentic_example :
    Authentic toy trust in_memory config cache raw02 now accepted
      (verify_request_dispatch toy trust in_memory draft02_only config cache raw02 now).1
dispatch-Authentic_example =
    dispatch-Authentic toy trust in_memory config cache raw02 now draft02_only accepted
      accepts_draft02

dispatch_untouched_example :
    ((verify_request_dispatch toy trust in_memory draft02_only config cache raw02 now).1 ≡ cache)
    ⊎ CarriesSignature toy trust in_memory config cache raw02 now
dispatch_untouched_example =
    dispatch_untouched toy trust in_memory config cache raw02 now draft02_only

same_skew : cache.max_clock_skew_secs ≡ config.max_clock_skew_secs
unfolding new
same_skew = refl

-- A pruning, and the last instant at which the request is fresh.
no_second_accept_example : ¬ (
    (verify_request_dispatch toy trust in_memory draft02_only config
      (history toy config
        (verify_request_dispatch toy trust in_memory draft02_only config cache raw02 now).1
        (prunes (pos 1779998600) ∷ []))
      raw02
      (pos 1779998730)).0
    ≡ ok accepted)
no_second_accept_example =
    no_second_accept toy config trust trust draft02_only draft02_only cache raw02 now
      (pos 1779998730) (prunes (pos 1779998600) ∷ []) accepted accepted same_skew accepts_draft02
      (omega arith, tt)

dispatch-Profile_example :
    (version : Str) × ((value : Value) × (toy.from_slice raw02 ≡ some value)
      × (read_request_envelope_version value ≡ ok version))
    × (admits draft02_only version ≡ true)
    × Profile accepted version
dispatch-Profile_example =
    dispatch-Profile toy trust in_memory config cache raw02 now accepted draft02_only
      accepts_draft02

parsed01 : toy.from_slice raw01 ≡ some request01_value
unfolding codes str_eq
parsed01 = refl

named01 : read_request_envelope_version request01_value ≡ ok version_draft_01
unfolding read_request_envelope_version locate_envelope get as_str codes str_eq
named01 = refl

no_notification01 : reject_notification request01_value ≡ ok tt
unfolding reject_notification codes str_eq
no_notification01 = refl

no_batch01 : reject_batch request01_value ≡ ok tt
unfolding reject_batch
no_batch01 = refl

downgrade_refused_example :
    verify_request_dispatch toy trust in_memory draft02_only config cache raw01 now
    ≡ (err downgrade_forbidden, cache)
downgrade_refused_example =
    downgrade_refused toy trust in_memory config cache raw01 now request01_value parsed01 no_batch01
      no_notification01 named01

answer : VerifiedResponse
answer = record {
  server_signer = codes "did:s";
  key_id = codes "k1";
  request_hash = codes "sha256:h";
}

accepts_response :
    verify_response_draft02 toy trust raw_response (codes "sha256:h") canonicalization_id_int53_v1
    ≡ ok answer
unfolding verify_response_draft02 read_message verify_signature verify_ed25519_with
    ensure_ed25519_alg signing_preimage canonicalize extract_draft02_response_envelope reject_batch
    reject_notification codes str_eq get as_str answer
accepts_response = refl

verify_response_draft02-Answers_example :
    Answers toy trust
      (Carries02 toy canonicalization_id_int53_v1)
      raw_response
      (codes "sha256:h")
      answer
verify_response_draft02-Answers_example =
    verify_response_draft02-Answers toy trust raw_response (codes "sha256:h") answer
      canonicalization_id_int53_v1 accepts_response
