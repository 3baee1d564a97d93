-- ===== src/Core/Resolver.antt =====
-- mcps-core/src/resolver.rs: the `TrustResolver` trait, its errors, and the resolver in memory.
-- A verification key is a type that the crypto library gives, so it is a parameter `Key`.
pub mod Bindings
mod Tests
use mcps.Prelude.{
  Str, codes, as_bytes, str_eq, str_eq_iff, length, ◌++◌, ◌∷◌, [], Option, some, none, Result, ok,
  err,
}
use mcps.Prelude.Decimal.{decimal}
use mcps.Prelude.Map.{Eq, Map, empty, insert}
use mcps.Core.Error.{McpsError, actor_binding_failed, trust_resolver_unavailable}

pub data TrustResolverError : Type 0 where
  not_found revoked malformed_key : TrustResolverError
  unavailable : Str → TrustResolverError

unfoldable pub to_mcps_error : TrustResolverError → McpsError
to_mcps_error not_found = actor_binding_failed
to_mcps_error revoked = actor_binding_failed
to_mcps_error malformed_key = actor_binding_failed
to_mcps_error (unavailable details) = trust_resolver_unavailable

-- The trait: `resolve` reads `&self`, so it is a function.
abbrev pub TrustResolver : Type 0 → Type 0
TrustResolver Key = Str → Str → Result TrustResolverError Key

pub data Binding (Key : Type 0) : Type 0 where
  active : Key → Binding Key
  revoked : Binding Key

instance abbrev pub str_key_eq : Eq Str
str_key_eq = record { beq = str_eq; beq_iff = str_eq_iff }

pub record InMemoryTrustResolver (Key : Type 0) : Type 0 where
  pub bindings : Map Str (Binding Key)

-- `format!("{}:{}|{}:{}", signer.len(), signer, key_id.len(), key_id)`, with lengths in bytes.
unfoldable pub compose_key : Str → Str → Str
unfolding decimal
compose_key signer key_id =
    decimal (length (as_bytes signer))
    ++ b':' ∷ (signer ++ b'|' ∷ (decimal (length (as_bytes key_id)) ++ b':' ∷ key_id))

module _ {Key : Type 0} where
  unfoldable pub new : InMemoryTrustResolver Key
  unfolding empty
  new = record { bindings = empty }

  unfoldable pub insert_key :
      InMemoryTrustResolver Key → Str → Str → Key → InMemoryTrustResolver Key
  unfolding insert
  insert_key r signer key_id key = record {
    bindings = insert (compose_key signer key_id) (active key) r.bindings;
  }

  unfoldable pub revoke : InMemoryTrustResolver Key → Str → Str → InMemoryTrustResolver Key
  unfolding insert
  revoke r signer key_id = record {
    bindings = insert (compose_key signer key_id) Binding.revoked r.bindings;
  }

  verdict : Option (Binding Key) → Result TrustResolverError Key
  verdict (some (active key)) = ok key
  verdict (some Binding.revoked) = err TrustResolverError.revoked
  verdict none = err not_found

  unfoldable pub resolve : InMemoryTrustResolver Key → TrustResolver Key
  unfolding verdict
  resolve r signer key_id = verdict (r.bindings (compose_key signer key_id))
