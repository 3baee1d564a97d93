-- ===== src/Client/Signer/Authorized.antt =====
-- What it takes for mcps-client-core/src/signer.rs to sign.
use mcps.Prelude.{
  Str, str_eq, str_eq_iff, ok, ◌≡◌, true, false, ◌&&◌, not, arith, guard-eq-ok, guard, >>-eq-ok,
  refl,
}
use mcps.Core.Json.{Value, Members}
use mcps.Core.Error.{actor_binding_failed}
use mcps.Core.Constraints.{contains}
use mcps.Core.Libraries.{Libraries}
use mcps.Core.Failure.{or_refused, or_refused-ok}
use mcps.Client.Request.{RequestSigningInputs, SignedRequest}
use mcps.Client.Request.Signed.{SignedFor, build_signed_request-SignedFor}
use mcps.Client.Signer.{
  CustodyClass, non_exporting, dev_file_unprotected, software_held_private, ClientSigner,
  SignerPolicy, production, is_production, is_non_exporting, acceptable_for_production,
  authorize_signer, bound_to, build_signed_request_with_signer,
}

-- The signer is the expected one, its key is not revoked, and the key is kept as the policy asks.
pub record Authorized (policy : SignerPolicy) (signer : ClientSigner) : Type 0 where
  pub expected : signer.signer_id ≡ policy.expected_signer
  pub live : contains policy.revoked_key_ids signer.key_id ≡ false
  pub hardware : policy.require_non_exporting ≡ true → signer.custody ≡ non_exporting
  pub no_file :
      policy.require_mcps ≡ true
      → policy.environment ≡ production
      → acceptable_for_production signer.custody ≡ true

exporting : (c : CustodyClass) → is_non_exporting c ≡ true → c ≡ non_exporting
unfolding is_non_exporting
exporting non_exporting h = refl
exporting software_held_private h = cc
exporting dev_file_unprotected h = cc

authorize_signer-Authorized :
    (policy : SignerPolicy) (signer : ClientSigner)
    → authorize_signer policy signer ≡ ok tt
    → Authorized policy signer
unfolding authorize_signer is_production
authorize_signer-Authorized policy signer h =
    let known = not (contains policy.revoked_key_ids signer.key_id) in
    let held = not (policy.require_non_exporting && not (is_non_exporting signer.custody)) in
    let (expected, h1) =
      >>-eq-ok (guard (str_eq signer.signer_id policy.expected_signer) actor_binding_failed) _ h in
    let (live, h2) = >>-eq-ok (guard known actor_binding_failed) _ h1 in
    let (hardware, h3) = >>-eq-ok (guard held actor_binding_failed) _ h2 in
    let not_revoked = guard-eq-ok known _ live in
    let in_hardware = guard-eq-ok held _ hardware in
    let not_in_file = guard-eq-ok _ _ h3 in
    record {
      expected = (str_eq_iff _ _).0 (guard-eq-ok _ _ expected);
      live = ground (arith, not_revoked);
      hardware = λ r. exporting signer.custody (ground (arith, in_hardware, r));
      no_file = λ r e. ground (arith, not_in_file, r, e);
    }

-- A request is signed only by the expected signer, with a key that is not revoked and that is kept
-- as the policy asks, and what is signed is a request whose envelope names that signer and whose
-- block names that key, whatever signer and key the inputs name, and says the rest of the inputs.
pub signed_by-Authorized :
    (l : Libraries) (id : Value) (method : Str) (params : Members) (inputs : RequestSigningInputs)
    (signer : ClientSigner) (policy : SignerPolicy) (s : SignedRequest)
    → build_signed_request_with_signer l id method params inputs signer policy ≡ ok s
    → Authorized policy signer
      × SignedFor l id method params
          (record inputs { signer = signer.signer_id; key_id = signer.key_id })
          signer.sign_preimage
          s
unfolding build_signed_request_with_signer bound_to
signed_by-Authorized l id method params inputs signer policy s h =
    let (checked, built) = >>-eq-ok (or_refused (authorize_signer policy signer)) _ h in
    (
      authorize_signer-Authorized policy signer (or_refused-ok _ checked),
      build_signed_request-SignedFor l id method params
          (record inputs { signer = signer.signer_id; key_id = signer.key_id }) signer.sign_preimage
          s built,
    )
