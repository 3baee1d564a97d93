-- ===== src/Core/Dispatch.antt =====
-- mcps-core/src/pipeline.rs: the version policy of a deployment, and the dispatcher that selects the
-- verifier of a request by the version that its bytes name.
pub mod Versions
use mcps.Prelude.{
  ℕ, Str, codes, str_eq, Bool, ◌||◌, Option, none, some, List, Result, ok, err, ◌>>=◌, ◌>>◌, guard,
  ok_or, if◌then◌else◌,
}
use mcps.Prelude.Int.{ℤ}
use mcps.Core.Error.{McpsError, canonicalization_failed, downgrade_forbidden, unsupported_version}
use mcps.Core.Ids.{request_meta_key, version_draft_01, version_draft_02}
use mcps.Core.Replay.{ReplayCache}
use mcps.Core.Resolver.{TrustResolver}
use mcps.Core.Json.{Value, get, as_str}
use mcps.Core.Constraints.{reject_batch, reject_notification, locate_envelope}
use mcps.Core.Crypto.{Externals}
use mcps.Core.Pipeline.{VerificationConfig, VerifiedRequest, verify_request, verify_request_draft02}

pub data ExpectedVersionPolicy : Type 0 where
  draft02_only draft01_and_draft02 : ExpectedVersionPolicy

pub data VersionPolicyError : Type 0 where
  unset : VersionPolicyError
  unrecognized : Str → VersionPolicyError

unfoldable pub from_config : Option Str → Result VersionPolicyError ExpectedVersionPolicy
from_config none = err unset
from_config (some other) =
    if str_eq other (codes "draft-02-only")
    then ok draft02_only
    else if str_eq other (codes "draft-01-and-draft-02")
    then ok draft01_and_draft02
    else err (unrecognized other)

unfoldable pub admits : ExpectedVersionPolicy → Str → Bool
admits draft02_only version = str_eq version version_draft_02
admits draft01_and_draft02 version =
    str_eq version version_draft_01 || str_eq version version_draft_02

abbrev and_then_str : Option Value → Option Str
and_then_str none = none
and_then_str (some v) = as_str v

unfoldable pub read_request_envelope_version : Value → Result McpsError Str
read_request_envelope_version value = do
  envelope ← locate_envelope value (codes "params") request_meta_key
  ok_or (and_then_str (get envelope (codes "version"))) unsupported_version

-- The selector of the dispatcher, with the guards before the dispatch.
unfoldable pub select_version : Externals → ExpectedVersionPolicy → List ℕ → Result McpsError Str
select_version x policy raw_bytes = do
  value ← ok_or (x.from_slice raw_bytes) canonicalization_failed
  reject_batch value
  reject_notification value
  version ← read_request_envelope_version value
  guard (str_eq version version_draft_01 || str_eq version version_draft_02) unsupported_version
  guard (admits policy version) downgrade_forbidden
  ok version

module _ (x : Externals) (resolver : TrustResolver x.VerificationKey) {S : Type 0}
    (cache : ReplayCache S) where
  unfoldable pub verify_request_dispatch :
      ExpectedVersionPolicy
      → VerificationConfig
      → S
      → List ℕ
      → ℤ
      → Result McpsError VerifiedRequest × S
  verify_request_dispatch policy config s raw_bytes now_unix =
      elim (select_version x policy raw_bytes) [
        | err e ↦ (err e, s)
        | ok version ↦
            if str_eq version version_draft_01
            then verify_request x resolver cache config s raw_bytes now_unix
            else verify_request_draft02 x resolver cache config s raw_bytes now_unix
      ]
