-- ===== src/Client/Signer.antt =====
-- mcps-client-core/src/signer.rs: the custody of a signing key, and the policy that a signer must meet
-- before it signs.
pub mod Authorized
use mcps.Prelude.{
  ℕ, Str, str_eq, List, [], ◌∷◌, Result, ok, err, ◌>>=◌, ◌>>◌, guard, Bool, true, false, ◌&&◌, not,
}
use mcps.Core.Error.{McpsError, actor_binding_failed}
use mcps.Core.Json.{Value, Members}
use mcps.Core.Constraints.{Check, contains}
use mcps.Core.Libraries.{Libraries}
use mcps.Core.Failure.{Failure, or_refused}
use mcps.Client.Request.{RequestSigningInputs, SignedRequest, build_signed_request_with}

pub data CustodyClass : Type 0 where
  non_exporting software_held_private dev_file_unprotected : CustodyClass

unfoldable pub acceptable_for_production : CustodyClass → Bool
acceptable_for_production dev_file_unprotected = false
acceptable_for_production _ = true

unfoldable pub is_non_exporting : CustodyClass → Bool
is_non_exporting non_exporting = true
is_non_exporting _ = false

pub record ClientSigner : Type 0 where
  pub signer_id : Str
  pub key_id : Str
  pub custody : CustodyClass
  pub sign_preimage : List ℕ → Result McpsError Str

pub data Environment : Type 0 where
  production dev_test : Environment

unfoldable pub is_production : Environment → Bool
is_production production = true
is_production dev_test = false

pub record SignerPolicy : Type 0 where
  pub expected_signer : Str
  pub revoked_key_ids : List Str
  pub environment : Environment
  pub require_mcps : Bool
  pub require_non_exporting : Bool

unfoldable pub new : Str → Environment → Bool → SignerPolicy
new expected_signer environment require_mcps = record {
  expected_signer = expected_signer;
  revoked_key_ids = [];
  environment = environment;
  require_mcps = require_mcps;
  require_non_exporting = false;
}

-- A `BTreeSet` that is only asked for its elements, as their list.
unfoldable pub revoke_key_id : SignerPolicy → Str → SignerPolicy
revoke_key_id p key_id = record p { revoked_key_ids = key_id ∷ p.revoked_key_ids }

unfoldable pub requiring_non_exporting : SignerPolicy → SignerPolicy
requiring_non_exporting p = record p { require_non_exporting = true }

unfoldable pub authorize_signer : SignerPolicy → ClientSigner → Check
authorize_signer policy signer = do
  guard (str_eq signer.signer_id policy.expected_signer) actor_binding_failed
  guard (not (contains policy.revoked_key_ids signer.key_id)) actor_binding_failed
  guard (not (policy.require_non_exporting && not (is_non_exporting signer.custody)))
      actor_binding_failed
  guard
      (not (
        policy.require_mcps
        && is_production policy.environment
        && not (acceptable_for_production signer.custody)))
      actor_binding_failed

-- The inputs with the identity of the signer.
unfoldable pub bound_to : ClientSigner → RequestSigningInputs → RequestSigningInputs
bound_to signer inputs = record inputs { signer = signer.signer_id; key_id = signer.key_id }

unfoldable pub build_signed_request_with_signer :
    Libraries
    → Value
    → Str
    → Members
    → RequestSigningInputs
    → ClientSigner
    → SignerPolicy
    → Result Failure SignedRequest
build_signed_request_with_signer l id method params inputs signer policy = do
  or_refused (authorize_signer policy signer)
  build_signed_request_with l id method params (bound_to signer inputs) signer.sign_preimage

unfoldable pub software_signer : (List ℕ → Str) → Str → Str → ClientSigner
software_signer signing_key signer_id key_id = record {
  signer_id = signer_id;
  key_id = key_id;
  custody = software_held_private;
  sign_preimage = λ preimage. ok (signing_key preimage);
}

unfoldable pub dev_file_signer : (List ℕ → Str) → Str → Str → ClientSigner
dev_file_signer signing_key signer_id key_id = record {
  signer_id = signer_id;
  key_id = key_id;
  custody = dev_file_unprotected;
  sign_preimage = λ preimage. ok (signing_key preimage);
}
