-- ===== src/Policy/Block.antt =====
-- mcps-policy/src/block.rs: the block of a request that carries the artifact of an authorization.
use mcps.Prelude.{ℕ, Str, codes, Option, none, some, List, Result, ok, ◌>>=◌, ok_or}
use mcps.Core.Json.{Value, get, get_member, as_str, as_object}
use mcps.Core.Constraints.{and_then_get}
use mcps.Core.Crypto.{Externals}
use mcps.Policy.Error.{PolicyError, block_missing, malformed}

abbrev pub authorization_meta_key : Str
authorization_meta_key = codes "se.syncom/mcps.authorization"

pub record AuthorizationBlock : Type 0 where
  pub profile : Str
  pub artifact_b64url : Str

unfoldable pub decoded_artifact : Externals → AuthorizationBlock → Result PolicyError (List ℕ)
decoded_artifact x block = ok_or (x.b64url_decode block.artifact_b64url) malformed

abbrev pub and_then_str : Option Value → Option Str
and_then_str none = none
and_then_str (some v) = as_str v

unfoldable pub extract_authorization_block : Value → Result PolicyError AuthorizationBlock
unfolding get get_member as_str as_object codes
extract_authorization_block request = do
  let meta = and_then_get (get request (codes "params")) (codes "_meta")
  block ← ok_or (and_then_get meta authorization_meta_key) block_missing
  fields ← ok_or (as_object block) malformed
  profile ← ok_or (and_then_str (get_member fields (codes "profile"))) malformed
  artifact ← ok_or (and_then_str (get_member fields (codes "artifact"))) malformed
  ok (record { profile = profile; artifact_b64url = artifact })
