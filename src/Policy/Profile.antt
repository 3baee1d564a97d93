-- ===== src/Policy/Profile.antt =====
-- mcps-policy/src/profile.rs: the two interfaces that an authorization system implements.
use mcps.Prelude.{ℕ, Str, List, Result}
use mcps.Prelude.Int.{ℤ}
use mcps.Core.Json.{Value}
use mcps.Core.Envelope.{AuthorizationBinding}
use mcps.Core.Resolver.{TrustResolver}
use mcps.Core.Pipeline.{VerifiedRequest}
use mcps.Policy.Error.{PolicyError, AuthorizationDecision}
use mcps.Policy.Revocation.{RevocationSource}

-- What a decision reads beside the evidence: the request, the trust, the revocations and the clock.
pub record Situation (Key : Type 0) : Type 0 where
  pub verified : VerifiedRequest
  pub request : Value
  pub resolver : TrustResolver Key
  pub revocation : RevocationSource
  pub now_unix : ℤ

pub record AuthorizationProfile (Key : Type 0) : Type 0 where
  pub profile_id : Str
  pub expected_authorization_hash : List ℕ → Result PolicyError Str
  pub authorize : List ℕ → Situation Key → AuthorizationDecision

pub record AuthorizationReferenceResolver (Key : Type 0) : Type 0 where
  pub authorization_system_id : Str
  pub authorize_reference : AuthorizationBinding → Situation Key → AuthorizationDecision
