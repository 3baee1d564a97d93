-- ===== src/Core/Pipeline/Tests/Complete.antt =====
-- Witnesses of `Exact`, and the two sample requests, which are accepted.
use mcps.Prelude.{is_empty, starts_with, ◌++◌, codes, str_eq, [], ◌∷◌, ◌≡◌, ◌↔◌, refl, ok}
use mcps.Prelude.Int.{pos, saturating_add, saturating_sub}
use mcps.Core.Json.{Value}
use mcps.Core.Replay.{InMemoryReplayCache, in_memory, new, check_and_insert}
use mcps.Core.Crypto.{sha256_hash_id, verify_ed25519_with, ensure_ed25519_alg}
use mcps.Core.Pipeline.{
  VerifiedRequest, verified01, verified02, verify_request, verify_request_draft02, check_request,
  check_request_draft02, read_message, check_claims, verify_signature, check_authorization_hash,
  check_on_behalf_of, check_signature_block, admit, decide,
}
use mcps.Core.Pipeline.Accepted.{Accepted01, Accepted02}
use mcps.Core.Pipeline.Exact.{verify_request_exact, verify_request_draft02_exact}
use mcps.Core.Signing.{signing_preimage, request_hash}
use mcps.Core.Canonical.Parser.{canonicalize}
use mcps.Core.Time.{check_freshness}
use mcps.Core.Constraints.{
  extract_draft02_request_envelope, extract_request_envelope, reject_batch, reject_notification,
}
use mcps.Core.Pipeline.Sample.{raw02, raw01, request02, request01, toy, trust, config, now, cache}

abbrev accepted01 : VerifiedRequest
accepted01 = verified01 request01 (codes "sha256:" ++ 121 ∷ [])

abbrev accepted02 : VerifiedRequest
accepted02 = verified02 request02 (codes "sha256:" ++ 266 ∷ [])

-- The cache with the nonce of the requests.
abbrev after : InMemoryReplayCache
after = (check_and_insert cache (codes "did:a", codes "did:s", codes "n1") (pos 1779998700)).1

accepts_first : verify_request toy trust in_memory config cache raw01 now ≡ (ok accepted01, after)
unfolding verify_request check_request read_message check_claims verify_signature
    check_authorization_hash check_on_behalf_of check_signature_block admit decide verified01
    verify_ed25519_with ensure_ed25519_alg signing_preimage request_hash sha256_hash_id canonicalize
    extract_request_envelope check_freshness reject_batch reject_notification check_and_insert new
    codes str_eq is_empty starts_with saturating_sub saturating_add
accepts_first = refl

accepts_second :
    verify_request_draft02 toy trust in_memory config cache raw02 now ≡ (ok accepted02, after)
unfolding verify_request_draft02 check_request_draft02 read_message check_claims verify_signature
    check_on_behalf_of check_signature_block admit decide verified02 verify_ed25519_with
    ensure_ed25519_alg signing_preimage request_hash sha256_hash_id canonicalize
    extract_draft02_request_envelope check_freshness reject_batch reject_notification
    check_and_insert new codes str_eq is_empty saturating_sub saturating_add
accepts_second = refl

verify_request_exact_example :
    (verify_request toy trust in_memory config cache raw01 now ≡ (ok accepted01, after)) ↔ (
      (value : Value) × Accepted01 toy trust in_memory config cache raw01 now value accepted01
        after)
verify_request_exact_example =
    verify_request_exact toy trust in_memory config cache raw01 now accepted01 after

verify_request_draft02_exact_example :
    (verify_request_draft02 toy trust in_memory config cache raw02 now ≡ (ok accepted02, after)) ↔ (
      (value : Value) × Accepted02 toy trust in_memory config cache raw02 now value accepted02
        after)
verify_request_draft02_exact_example =
    verify_request_draft02_exact toy trust in_memory config cache raw02 now accepted02 after
