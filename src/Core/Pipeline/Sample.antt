-- ===== src/Core/Pipeline/Sample.antt =====
-- One request of each draft and one response, and functions in place of the libraries that know these
-- messages: the data of the tests.
use mcps.Prelude.{
  String, ℕ, Str, codes, str_eq, replicate, length, List, [], ◌∷◌, ◌==◌, none, some, ok, err,
  if◌then◌else◌,
}
use mcps.Prelude.Int.{ℤ, pos}
use mcps.Core.Ids.{
  request_meta_key, response_meta_key, version_draft_01, version_draft_02,
  canonicalization_id_int53_v1, sig_alg_ed25519, binding_type_opaque_bytes, digest_alg_sha256,
}
use mcps.Core.Json.{Value, number, string, object, no_members, member}
use mcps.Core.Envelope.{
  SignatureBlock, RequestEnvelope, Draft02RequestEnvelope, Draft02ResponseEnvelope, opaque_bytes,
}
use mcps.Core.Resolver.{TrustResolver, not_found}
use mcps.Core.Replay.{InMemoryReplayCache, new}
use mcps.Core.Crypto.{Externals}
use mcps.Core.Pipeline.{VerificationConfig}

abbrev pub text : String → Value
text s = string (codes s)

abbrev pub one : Value
one = number (record { as_i64 = some (pos 1); as_u64 = some 1 })

abbrev pub signature_value : Value
signature_value = object (
    member (codes "alg") (string sig_alg_ed25519)
      (member (codes "key_id") (text "k1") (member (codes "value") (text "sig") no_members)))

abbrev pub binding_value : Value
binding_value = object (
    member (codes "binding_type") (string binding_type_opaque_bytes) (
      member (codes "digest_alg") (string digest_alg_sha256)
        (member (codes "digest_value") (text "AA") no_members)))

abbrev pub message : Str → Str → Value → Value
message outer key envelope = object (
    member (codes "id") one (
      member outer
        (object (member (codes "_meta") (object (member key envelope no_members)) no_members))
        no_members))

abbrev pub request02_value : Value
request02_value = message (codes "params") request_meta_key (
    object (
      member (codes "authorization_binding") binding_value (
        member (codes "canonicalization_id") (string canonicalization_id_int53_v1) (
          member (codes "signature") signature_value
            (member (codes "version") (string version_draft_02) no_members)))))

abbrev pub request01_value : Value
request01_value = message (codes "params") request_meta_key (
    object (
      member (codes "signature") signature_value
        (member (codes "version") (string version_draft_01) no_members)))

abbrev pub response02_value : Value
response02_value = message (codes "result") response_meta_key (
    object (
      member (codes "canonicalization_id") (string canonicalization_id_int53_v1) (
        member (codes "signature") signature_value
          (member (codes "version") (string version_draft_02) no_members))))

abbrev pub raw02 : List ℕ
raw02 =
    codes
      "{\"id\":1,\"params\":{\"_meta\":{\"se.syncom/mcps.request\":{\"authorization_binding\":{\"binding_type\":\"opaque-bytes\",\"digest_alg\":\"sha256\",\"digest_value\":\"AA\"},\"canonicalization_id\":\"mcps-jcs-int53-json-v1\",\"signature\":{\"alg\":\"Ed25519\",\"key_id\":\"k1\",\"value\":\"sig\"},\"version\":\"draft-02\"}}}}"

abbrev pub raw01 : List ℕ
raw01 =
    codes
      "{\"id\":1,\"params\":{\"_meta\":{\"se.syncom/mcps.request\":{\"signature\":{\"alg\":\"Ed25519\",\"key_id\":\"k1\",\"value\":\"sig\"},\"version\":\"draft-01\"}}}}"

abbrev pub raw_response : List ℕ
raw_response =
    codes
      "{\"id\":1,\"result\":{\"_meta\":{\"se.syncom/mcps.response\":{\"canonicalization_id\":\"mcps-jcs-int53-json-v1\",\"signature\":{\"alg\":\"Ed25519\",\"key_id\":\"k1\",\"value\":\"sig\"},\"version\":\"draft-02\"}}}}"

abbrev pub signature_block : SignatureBlock
signature_block = record { alg = sig_alg_ed25519; key_id = codes "k1"; value = some (codes "sig") }

abbrev pub request02 : Draft02RequestEnvelope
request02 = record {
  version = version_draft_02;
  canonicalization_id = canonicalization_id_int53_v1;
  signer = codes "did:a";
  on_behalf_of = codes "user";
  audience = codes "did:s";
  authorization_binding = opaque_bytes digest_alg_sha256 (codes "AA");
  nonce = codes "n1";
  issued_at = codes "2026-05-28T20:00:00Z";
  expires_at = codes "2026-05-28T20:05:00Z";
  signature = signature_block;
}

abbrev pub request01 : RequestEnvelope
request01 = record {
  version = version_draft_01;
  signer = codes "did:a";
  on_behalf_of = codes "user";
  audience = codes "did:s";
  authorization_hash = codes "sha256:AA";
  nonce = codes "n1";
  issued_at = codes "2026-05-28T20:00:00Z";
  expires_at = codes "2026-05-28T20:05:00Z";
  signature = signature_block;
}

abbrev pub response02 : Draft02ResponseEnvelope
response02 = record {
  version = version_draft_02;
  canonicalization_id = canonicalization_id_int53_v1;
  request_hash = codes "sha256:h";
  server_signer = codes "did:s";
  issued_at = codes "2026-05-28T20:00:01Z";
  signature = signature_block;
}

abbrev pub toy : Externals
toy = record {
  VerificationKey = ℕ;
  verify_strict = λ key preimage signature. key == 7;
  b64url_decode = λ s. if str_eq s (codes "sig") then some (replicate 64 0) else none;
  b64url_encode = λ bytes. bytes;
  sha256 = λ bytes. length bytes ∷ [];
  from_slice = λ raw.
      if str_eq raw raw02
      then some request02_value
      else if str_eq raw raw01
      then some request01_value
      else if str_eq raw raw_response
      then some response02_value
      else none;
  request_from_value = λ v. ok request01;
  response_from_value = λ v. err (codes "missing field");
  draft02_request_from_value = λ v. ok request02;
  draft02_response_from_value = λ v. ok response02;
}

abbrev pub trust : TrustResolver ℕ
trust signer key_id = if str_eq key_id (codes "k1") then ok 7 else err not_found

abbrev pub config : VerificationConfig
config = record { expected_audience = codes "did:s"; max_clock_skew_secs = pos 30 }

abbrev pub now : ℤ
now = pos 1779998500

abbrev pub cache : InMemoryReplayCache
cache = new (pos 30)
