-- ===== src/Core/Envelope.antt =====
-- mcps-core/src/envelope.rs: the envelopes on the wire. `serde` fills them, so how a JSON value
-- becomes one is a parameter of the functions that do it.
use mcps.Prelude.{Str, Option}

pub record SignatureBlock : Type 0 where
  pub alg : Str
  pub key_id : Str
  pub value : Option Str

pub record RequestEnvelope : Type 0 where
  pub version : Str
  pub signer : Str
  pub on_behalf_of : Str
  pub audience : Str
  pub authorization_hash : Str
  pub nonce : Str
  pub issued_at : Str
  pub expires_at : Str
  pub signature : SignatureBlock

pub record ResponseEnvelope : Type 0 where
  pub request_hash : Str
  pub server_signer : Str
  pub issued_at : Str
  pub signature : SignatureBlock

pub data AuthorizationBinding : Type 0 where
  opaque_bytes : (digest_alg digest_value : Str) → AuthorizationBinding
  authz_system_reference :
      (authorization_system_id reference_scheme_id reference_value digest_alg digest_value : Str)
      → AuthorizationBinding

pub record Draft02RequestEnvelope : Type 0 where
  pub version : Str
  pub canonicalization_id : Str
  pub signer : Str
  pub on_behalf_of : Str
  pub audience : Str
  pub authorization_binding : AuthorizationBinding
  pub nonce : Str
  pub issued_at : Str
  pub expires_at : Str
  pub signature : SignatureBlock

pub record Draft02ResponseEnvelope : Type 0 where
  pub version : Str
  pub canonicalization_id : Str
  pub request_hash : Str
  pub server_signer : Str
  pub issued_at : Str
  pub signature : SignatureBlock
