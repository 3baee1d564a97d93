-- ===== src/Policy/Reference/Tests.antt =====
-- Runs and witnesses for mcps-policy: a grant, a request that it covers, and functions in place of the
-- libraries that know them.
use mcps.Prelude.{
  String, ◌++◌, ℕ, Str, codes, str_eq, List, [], ◌∷◌, ◌≡◌, ◌↔◌, ◌⊎◌, refl, false, some, none, ok,
  replicate, if◌then◌else◌, is_empty,
}
use mcps.Prelude.Int.{pos}
use mcps.Prelude.Map.{insert, empty, contains_key}
use mcps.Core.Ids.{sig_alg_ed25519}
use mcps.Core.Wire.{or_internal_error}
use mcps.Core.Json.{
  Value, object, no_members, member, get, get_member, as_object, as_str, remove_member, set_member,
}
use mcps.Core.Resolver.{str_key_eq}
use mcps.Core.Crypto.{sha256_hash_id, verify_ed25519_with}
use mcps.Core.Time.{parse_rfc3339_utc}
use mcps.Core.Canonical.{canonicalize_json_value}
use mcps.Core.Canonical.Parser.{canonicalize}
use mcps.Core.Signing.{put}
use mcps.Core.Pipeline.{VerifiedRequest, verified01, draft01_hash}
use mcps.Core.Pipeline.Sample.{toy, trust, request01, text}
use mcps.Policy.Error.{allow, deny, scope_denied, revoked, json_rpc_authorization_error}
use mcps.Policy.Block.{extract_authorization_block, decoded_artifact}
use mcps.Policy.Revocation
use mcps.Policy.Profile.{Situation}
use mcps.Policy.Scope.{
  requested_method, requested_target, requested_arguments, target_key, any_grant, permits,
  arguments_satisfied,
}
use mcps.Policy.Evaluator.{new, register, evaluate, evaluate_inner, evaluate_artifact_binding}
use mcps.Policy.Evaluator.Bound.{Binds, ArtifactAllowed, ReferenceAllowed, evaluate_exact}
use mcps.Policy.Reference.{
  Libraries, ReferenceGrant, authorize, read_grant, verify_issuer_signature, check_subjects,
  check_window, check_revocation, check_scope, issuer_preimage, to_malformed,
  expected_authorization_hash,
}
use mcps.Policy.Reference
use mcps.Policy.Reference.Granted.{Granted, authorize_exact}
use mcps.Policy.Reference.Mint.{ReferenceGrantSpec}
use mcps.Policy.Reference.Registered.{deployment, evaluate-Granted}

abbrev raw_artifact : List ℕ
raw_artifact = codes "{\"signature\":{\"key_id\":\"k1\"}}"

abbrev artifact_value : Value
artifact_value = object (
    member (codes "signature") (object (member (codes "key_id") (text "k1") no_members)) no_members)

abbrev grant : ReferenceGrant
grant = record {
  issuer = codes "did:i";
  grantee = codes "did:a";
  subject = codes "user";
  audience = codes "did:s";
  grants = record { method = codes "tools/call"; tool = codes "read"; arguments = none } ∷ [];
  not_before = codes "2026-05-28T20:00:00Z";
  expires_at = codes "2026-05-28T21:00:00Z";
  revocation_id = codes "r1";
  signature = record { alg = sig_alg_ed25519; key_id = codes "k1"; value = codes "sig" };
}

abbrev libraries : Libraries
libraries = record {
  externals = record toy {
    from_slice = λ raw. some artifact_value;
    b64url_decode =
        λ s. if str_eq s (codes "ART") then some raw_artifact else some (replicate 64 0);
  };
  grant_from_value = λ v. ok grant;
  value_eq = λ v w. false;
}

abbrev call : String → Value
call tool = object (
    member (codes "method") (text "tools/call") (
      member (codes "params")
        (object (
          member (codes "name") (text tool) (
            member (codes "_meta")
              (object (
                member (codes "se.syncom/mcps.authorization")
                  (object (
                    member (codes "profile") (text "se.syncom/mcps-authz-reference-v1")
                      (member (codes "artifact") (text "ART") no_members)))
                  no_members))
              no_members)))
        no_members))

-- The hash of the artifact, whose 29 bytes are what the stand-in of the hash counts.
abbrev verified : VerifiedRequest
verified = record (verified01 request01 (codes "h")) {
  authorization = draft01_hash (codes "sha256:" ++ 29 ∷ []);
}

abbrev situation : String → Revocation.InMemoryRevocationSource → Situation ℕ
situation tool source = record {
  verified = verified;
  request = call tool;
  resolver = trust;
  revocation = Revocation.revocation_status source;
  now_unix = pos 1779998500;
}

abbrev none_revoked : Revocation.InMemoryRevocationSource
none_revoked = Revocation.revoke Revocation.new (codes "r2")

allowed : authorize libraries raw_artifact (situation "read" none_revoked) ≡ allow
unfolding authorize Reference.evaluate_inner read_grant to_malformed canonicalize
    verify_issuer_signature issuer_preimage canonicalize_json_value put get get_member set_member
    remove_member as_object as_str str_eq codes verify_ed25519_with check_subjects check_window
    parse_rfc3339_utc check_revocation check_scope requested_method requested_target
    requested_arguments target_key any_grant is_empty permits arguments_satisfied verified01
    Revocation.revocation_status Revocation.revoke Revocation.new
allowed = refl

uncovered : authorize libraries raw_artifact (situation "write" none_revoked) ≡ deny scope_denied
unfolding authorize Reference.evaluate_inner read_grant to_malformed canonicalize
    verify_issuer_signature issuer_preimage canonicalize_json_value put get get_member set_member
    remove_member as_object as_str str_eq codes verify_ed25519_with check_subjects check_window
    parse_rfc3339_utc check_revocation check_scope requested_method requested_target
    requested_arguments target_key any_grant is_empty permits arguments_satisfied verified01
    Revocation.revocation_status Revocation.revoke Revocation.new
uncovered = refl

withdrawn :
    authorize libraries raw_artifact
      (situation "read" (Revocation.revoke none_revoked (codes "r1")))
    ≡ deny revoked
unfolding authorize Reference.evaluate_inner read_grant to_malformed canonicalize
    verify_issuer_signature issuer_preimage canonicalize_json_value put get get_member set_member
    remove_member as_object as_str str_eq codes verify_ed25519_with check_subjects check_window
    parse_rfc3339_utc check_revocation check_scope requested_method requested_target
    requested_arguments target_key any_grant is_empty permits arguments_satisfied verified01
    Revocation.revocation_status Revocation.revoke Revocation.new
withdrawn = refl

evaluated :
    evaluate libraries.externals (deployment libraries) (situation "read" none_revoked) ≡ allow
unfolding authorize Reference.evaluate_inner read_grant to_malformed canonicalize
    verify_issuer_signature issuer_preimage canonicalize_json_value put get get_member set_member
    remove_member as_object as_str str_eq codes verify_ed25519_with check_subjects check_window
    parse_rfc3339_utc check_revocation check_scope requested_method requested_target
    requested_arguments target_key any_grant is_empty permits arguments_satisfied verified01
    Revocation.revocation_status Revocation.revoke Revocation.new evaluate evaluate_inner
    evaluate_artifact_binding extract_authorization_block decoded_artifact register new
    expected_authorization_hash sha256_hash_id insert empty contains_key
evaluated = refl

authorize_exact_example :
    (authorize libraries raw_artifact (situation "read" none_revoked) ≡ allow)
    ↔ Granted libraries raw_artifact (situation "read" none_revoked)
authorize_exact_example = authorize_exact libraries raw_artifact (situation "read" none_revoked)

evaluate_exact_example :
    (evaluate libraries.externals (deployment libraries) (situation "read" none_revoked) ≡ allow)
    ↔ (ArtifactAllowed libraries.externals (deployment libraries) (situation "read" none_revoked)
        ⊎ ReferenceAllowed libraries.externals
            (deployment libraries)
            (situation "read" none_revoked))
evaluate_exact_example =
    evaluate_exact libraries.externals (deployment libraries) (situation "read" none_revoked)

evaluate-Granted_example :
    (artifact_bytes : List ℕ) × (expected : Str) × Granted libraries artifact_bytes
      (situation "read" none_revoked)
    × (expected_authorization_hash libraries artifact_bytes ≡ ok expected)
    × Binds (situation "read" none_revoked).verified.authorization expected
evaluate-Granted_example = evaluate-Granted libraries (situation "read" none_revoked) evaluated

-- A key that signs with the one text that the stand-in decodes.
abbrev spec : ReferenceGrantSpec
spec = record {
  issuer = codes "did:i";
  grantee = codes "did:a";
  subject = codes "user";
  audience = codes "did:s";
  operations = record { method = codes "tools/call"; tool = codes "read"; arguments = none } ∷ [];
  not_before = codes "2026-05-28T20:00:00Z";
  expires_at = codes "2026-05-28T21:00:00Z";
  revocation_id = codes "r1";
}

abbrev minted : List ℕ
minted =
    codes
      "{\"audience\":\"did:s\",\"expires_at\":\"2026-05-28T21:00:00Z\",\"grantee\":\"did:a\",\"grants\":[{\"method\":\"tools/call\",\"tool\":\"read\"}],\"issuer\":\"did:i\",\"not_before\":\"2026-05-28T20:00:00Z\",\"profile\":\"se.syncom/mcps-authz-reference-v1\",\"revocation_id\":\"r1\",\"signature\":{\"alg\":\"Ed25519\",\"key_id\":\"k1\",\"value\":\"sig\"},\"subject\":\"user\"}"

-- A refusal on the wire.
refusal :
    json_rpc_authorization_error (λ v. none) revoked (text "1")
    ≡ codes "{\"jsonrpc\":\"2.0\",\"id\":null,\"error\":{\"code\":-32603}}"
unfolding json_rpc_authorization_error or_internal_error codes
refusal = refl
