-- ===== src/Core/Libraries.antt =====
-- The libraries of the parts that write messages.
use mcps.Prelude.{ℕ, List, Option}
use mcps.Core.Json.{Value}
use mcps.Core.Envelope.{AuthorizationBinding}
use mcps.Core.Crypto.{Externals}

-- `serde_json::to_vec`, and `to_value` at a binding.
pub record Libraries : Type 1 where
  pub externals : Externals
  pub to_vec : Value → Option (List ℕ)
  pub binding_to_value : AuthorizationBinding → Option Value
