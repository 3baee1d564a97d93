-- ===== src/Client/Response.antt =====
-- mcps-client-core/src/response.rs: the verification of a response by a client, which may expect the
-- server that signed it.
use mcps.Prelude.{ℕ, Str, str_eq, List, Option, some, none, Result, ok, ◌>>=◌, ◌>>◌, guard}
use mcps.Core.Error.{McpsError, actor_binding_failed}
use mcps.Core.Resolver.{TrustResolver}
use mcps.Core.Crypto.{Externals}
use mcps.Core.Constraints.{Check}
use mcps.Core.Response.{VerifiedResponse, verify_response_draft02}

pub record ResponseExpectation : Type 0 where
  pub expected_request_hash : Str
  pub expected_canonicalization_id : Str
  pub expected_server_signer : Option Str

unfoldable pub new : Str → Str → ResponseExpectation
new expected_request_hash expected_canonicalization_id = record {
  expected_request_hash = expected_request_hash;
  expected_canonicalization_id = expected_canonicalization_id;
  expected_server_signer = none;
}

unfoldable pub with_expected_server_signer : ResponseExpectation → Str → ResponseExpectation
with_expected_server_signer e signer = record e { expected_server_signer = some signer }

unfoldable pub check_server_signer : Option Str → Str → Check
check_server_signer none server_signer = ok tt
check_server_signer (some expected) server_signer =
    guard (str_eq server_signer expected) actor_binding_failed

unfoldable pub verify_signed_response :
    (x : Externals)
    → TrustResolver x.VerificationKey
    → List ℕ
    → ResponseExpectation
    → Result McpsError VerifiedResponse
verify_signed_response x resolver raw_bytes expectation = do
  verified ←
      verify_response_draft02 x resolver raw_bytes expectation.expected_request_hash
        expectation.expected_canonicalization_id
  check_server_signer expectation.expected_server_signer verified.server_signer
  ok verified
