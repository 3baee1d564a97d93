-- ===== src/Proxy/Proxying.antt =====
-- mcps-proxy/src/proxy.rs: the configuration of a proxy, and what its functions give.
use mcps.Prelude.{ℕ, Str, Option, List}
use mcps.Prelude.Int.{ℤ}
use mcps.Core.Constraints.{Check}
use mcps.Core.Replay.{ReplayCache}
use mcps.Core.Resolver.{TrustResolver}
use mcps.Core.Libraries.{Libraries}
use mcps.Core.Pipeline.{VerificationConfig}
use mcps.Core.Dispatch.{ExpectedVersionPolicy}
use mcps.Policy.Evaluator.{PolicyEvaluator}
use mcps.Policy.Revocation.{RevocationSource}

pub record PolicyEnforcement (Key : Type 0) : Type 0 where
  pub evaluator : PolicyEvaluator Key
  pub revocation : RevocationSource

-- The traits that a proxy is built from: the signer of responses, whose failure is `none`, the inner
-- server, the binding of the signer to the identity of the channel, and the verifier of an assertion
-- of a load balancer, of the header, the hash of the request and the instant.
pub record Proxy (l : Libraries) (S Identity : Type 0) : Type 0 where
  pub sign_response : List ℕ → Option Str
  pub server_signer : Str
  pub key_id : Str
  pub resolver : TrustResolver l.externals.VerificationKey
  pub config : VerificationConfig
  pub version_policy : ExpectedVersionPolicy
  pub dispatch : List ℕ → List ℕ
  pub replay : ReplayCache S
  pub policy : Option (PolicyEnforcement l.externals.VerificationKey)
  pub transport_binding : Option (Str → Option Identity → Check)
  pub lb_assertion : Option (Str → Str → ℤ → Option Identity)
