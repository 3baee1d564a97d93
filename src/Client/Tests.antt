-- ===== src/Client/Tests.antt =====
-- Runs and witnesses for mcps-client-core, on the messages of the core's samples.
use mcps.Prelude.{
  ℕ, Str, codes, str_eq, is_empty, List, [], true, false, some, ◌≡◌, ◌↔◌, refl, Result, ok, err,
  arith,
}
use mcps.Core.Error.{McpsError}
use mcps.Core.Ids.{canonicalization_id_int53_v1}
use mcps.Core.Json.{
  null, no_members, get, get_member, as_object, remove_member, insert_member, index_mut,
}
use mcps.Core.Constraints.{
  contains, extract_draft02_response_envelope, reject_batch, reject_notification,
}
use mcps.Core.Signing.{signing_preimage, request_hash}
use mcps.Core.Signing.Written.{write_signature}
use mcps.Core.Canonical.{canonicalize_json_value}
use mcps.Core.Canonical.Parser.{canonicalize}
use mcps.Core.Crypto.{sha256_hash_id, verify_ed25519_with, ensure_ed25519_alg}
use mcps.Core.Pipeline.{verify_signature, read_message}
use mcps.Core.Pipeline.Sample.{toy, trust, request02, raw_response, raw02, one}
use mcps.Core.Response.{VerifiedResponse, verify_response_draft02}
use mcps.Core.Response.Binding.{Answers, Carries02}
use mcps.Core.Response.Unenveloped.{Unenveloped}
use mcps.Core.Libraries.{Libraries}
use mcps.Core.Failure.{Failure, or_refuse, or_refused, or_panic}
use mcps.Client.Audience.{AudienceTuple}
use mcps.Client.Audience.Spelling.{to_audience_string_injective}
use mcps.Client.Request.{
  RequestSigningInputs, SignedRequest, build_signed_request_with, check_canonicalization_id,
  request_object, with_meta, envelope_value, given_meta, block_members,
}
use mcps.Client.Request.Signed.{SignedFor}
use mcps.Client.Signer.{
  ClientSigner, software_held_private, SignerPolicy, production, authorize_signer, bound_to,
  build_signed_request_with_signer, is_non_exporting, acceptable_for_production, is_production,
}
use mcps.Client.Signer.Authorized.{Authorized, signed_by-Authorized}
use mcps.Client.Response.{ResponseExpectation, verify_signed_response, check_server_signer}
use mcps.Client.Enforcement.{
  require_mcps, allow_legacy_explicit, plain_unsigned, accept_mcps, fall_back_to_legacy,
  classify_response_result, decide,
}
use mcps.Client.Enforcement.Downgrades.{accepted-Answers, decision_falls_back}

-- A tenant whose name holds delimiters.
abbrev tuple : AudienceTuple
tuple = record {
  scheme = codes "https";
  host = codes "a.example";
  port = 443;
  tenant_id = codes "t;route=r%";
  route_id = codes "r";
  realm = [];
}

to_audience_string_injective_example : tuple ≡ tuple
to_audience_string_injective_example =
    to_audience_string_injective tuple tuple (omega arith) (omega arith) refl

abbrev libraries : Libraries
libraries = record {
  externals = toy;
  to_vec = λ v. some (codes "OUT");
  binding_to_value = λ b. some null;
}

abbrev inputs : RequestSigningInputs
inputs = record {
  signer = codes "did:a";
  key_id = codes "k1";
  on_behalf_of = codes "user:a";
  audience = codes "did:s";
  authorization_binding = request02.authorization_binding;
  nonce = codes "n";
  issued_at = codes "2026-05-28T20:00:00Z";
  expires_at = codes "2026-05-28T20:05:00Z";
  canonicalization_id = canonicalization_id_int53_v1;
}

abbrev sign : List ℕ → Result McpsError Str
sign preimage = ok (codes "sig")

abbrev signed_or_empty : Result Failure SignedRequest → SignedRequest
signed_or_empty (ok s) = s
signed_or_empty (err e) = record { wire_bytes = []; hash = []; message = null }

abbrev sample : SignedRequest
sample =
    signed_or_empty
      (build_signed_request_with libraries one (codes "tools/call") no_members inputs sign)

built :
    build_signed_request_with libraries one (codes "tools/call") no_members inputs sign ≡ ok sample
unfolding build_signed_request_with check_canonicalization_id request_object with_meta
    envelope_value given_meta block_members signing_preimage request_hash sha256_hash_id
    write_signature index_mut get get_member insert_member remove_member as_object contains codes
    str_eq is_empty canonicalize_json_value or_refuse or_refused or_panic
built = refl

-- The wire of the sample is the one that the library gives.
sample_wire : sample.wire_bytes ≡ codes "OUT"
unfolding build_signed_request_with check_canonicalization_id request_object with_meta
    envelope_value given_meta block_members signing_preimage request_hash sha256_hash_id
    write_signature index_mut get get_member insert_member remove_member as_object contains codes
    str_eq is_empty canonicalize_json_value or_refuse or_refused or_panic
sample_wire = refl

abbrev signer : ClientSigner
signer = record {
  signer_id = codes "did:a";
  key_id = codes "k1";
  custody = software_held_private;
  sign_preimage = sign;
}

abbrev policy : SignerPolicy
policy = record {
  expected_signer = codes "did:a";
  revoked_key_ids = [];
  environment = production;
  require_mcps = true;
  require_non_exporting = false;
}

built_by_signer :
    build_signed_request_with_signer libraries one
      (codes "tools/call")
      no_members
      inputs
      signer
      policy
    ≡ ok sample
unfolding build_signed_request_with_signer authorize_signer bound_to contains codes str_eq
    or_refused acceptable_for_production is_production is_non_exporting
built_by_signer = built

signed_by-Authorized_example :
    Authorized policy signer
    × SignedFor libraries one
        (codes "tools/call")
        no_members
        (record inputs { signer = signer.signer_id; key_id = signer.key_id })
        sign
        sample
signed_by-Authorized_example =
    signed_by-Authorized libraries one (codes "tools/call") no_members inputs signer policy sample
      built_by_signer

abbrev expectation : ResponseExpectation
expectation = record {
  expected_request_hash = codes "sha256:h";
  expected_canonicalization_id = canonicalization_id_int53_v1;
  expected_server_signer = some (codes "did:s");
}

accepts :
    decide require_mcps false
      (classify_response_result (verify_signed_response toy trust raw_response expectation))
    ≡ accept_mcps
unfolding decide classify_response_result verify_signed_response check_server_signer
    verify_response_draft02 read_message verify_signature verify_ed25519_with ensure_ed25519_alg
    signing_preimage canonicalize extract_draft02_response_envelope reject_batch reject_notification
    codes str_eq get
accepts = refl

accepted-Answers_example :
    (v : VerifiedResponse) × (verify_signed_response toy trust raw_response expectation ≡ ok v)
    × Answers toy trust
        (Carries02 toy canonicalization_id_int53_v1)
        raw_response
        (codes "sha256:h")
        v
    × ((expected : Str) → some (codes "did:s") ≡ some expected → v.server_signer ≡ expected)
accepted-Answers_example =
    accepted-Answers require_mcps false toy trust raw_response expectation accepts

decision_falls_back_example :
    (decide allow_legacy_explicit true
        (classify_response_result (verify_signed_response toy trust raw02 expectation))
      ≡ fall_back_to_legacy plain_unsigned)
    ↔ ((allow_legacy_explicit ≡ allow_legacy_explicit)
        × (true ≡ true)
        × Unenveloped toy trust raw02
        × (plain_unsigned ≡ plain_unsigned))
decision_falls_back_example =
    decision_falls_back allow_legacy_explicit true toy trust raw02 expectation plain_unsigned

-- A message without a result has no envelope.
falls_back_over_plain :
    decide allow_legacy_explicit true
      (classify_response_result (verify_signed_response toy trust raw02 expectation))
    ≡ fall_back_to_legacy plain_unsigned
unfolding decide classify_response_result verify_signed_response check_server_signer
    verify_response_draft02 read_message canonicalize extract_draft02_response_envelope reject_batch
    reject_notification codes str_eq get
falls_back_over_plain = refl
