-- ===== src/Client/Authz.antt =====
-- mcps-client-core/src/authz.rs: where the authorization binding of a request comes from. The
-- providers that hold a handler are functions of the context of the request.
use mcps.Prelude.{
  ℕ, Str, codes, List, [], ◌∷◌, Option, Result, ok, err, ◌>>=◌, ◌>>◌, guard, Bool, true, false,
  ◌||◌,
}
use mcps.Prelude.Int.{ℤ}
use mcps.Prelude.Parse.{strip_prefix}
use mcps.Core.Error.{
  McpsError, authorization_binding_type_unsupported, authorization_binding_missing,
  authorization_binding_profile_required,
}
use mcps.Core.Ids.{digest_alg_sha256}
use mcps.Core.Envelope.{AuthorizationBinding, opaque_bytes, authz_system_reference}
use mcps.Core.Crypto.{Externals, sha256_hash_id}
use mcps.Core.Failure.{Failure, or_panic, or_refuse, or_refused, refused}

pub data BindingTypeTag : Type 0 where
  opaque_bytes_tag authz_system_reference_tag : BindingTypeTag

unfoldable pub binding_tag : AuthorizationBinding → BindingTypeTag
binding_tag (opaque_bytes _ _) = opaque_bytes_tag
binding_tag (authz_system_reference _ _ _ _ _) = authz_system_reference_tag

unfoldable pub same_tag : BindingTypeTag → BindingTypeTag → Bool
same_tag opaque_bytes_tag opaque_bytes_tag = true
same_tag authz_system_reference_tag authz_system_reference_tag = true
same_tag _ _ = false

pub record AuthorizationBindingPolicy : Type 0 where
  pub allowed_types : List BindingTypeTag

unfoldable pub both_base_forms : AuthorizationBindingPolicy
both_base_forms = record { allowed_types = opaque_bytes_tag ∷ authz_system_reference_tag ∷ [] }

contains_tag : List BindingTypeTag → BindingTypeTag → Bool
contains_tag [] tag = false
contains_tag (t ∷ ts) tag = same_tag t tag || contains_tag ts tag

unfoldable pub permits : AuthorizationBindingPolicy → BindingTypeTag → Bool
unfolding contains_tag
permits p tag = contains_tag p.allowed_types tag

pub record BindingRequestContext : Type 0 where
  pub audience : Str
  pub route_id : Str
  pub method : Option Str
  pub tool_id : Option Str
  pub deadline_unix : ℤ

abbrev pub AuthorizationBindingProvider : Type 0
AuthorizationBindingProvider = BindingRequestContext → Result Failure AuthorizationBinding

unfoldable pub resolve_authorization_binding :
    AuthorizationBindingProvider
    → AuthorizationBindingPolicy
    → BindingRequestContext
    → Result Failure AuthorizationBinding
resolve_authorization_binding provider policy ctx = do
  binding ← provider ctx
  or_refused (guard (permits policy (binding_tag binding)) authorization_binding_type_unsupported)
  ok binding

unfoldable pub opaque_digest_value : (x : Externals) → List ℕ → Option Str
unfolding codes
opaque_digest_value x artifact_bytes =
    strip_prefix (sha256_hash_id x artifact_bytes) (codes "sha256:")

unfoldable pub opaque_bytes_provider : (x : Externals) → List ℕ → AuthorizationBindingProvider
opaque_bytes_provider x artifact_bytes ctx = do
  digest_value ← or_panic (opaque_digest_value x artifact_bytes)
  ok (opaque_bytes digest_alg_sha256 digest_value)

pub record AuthzReference : Type 0 where
  pub authorization_system_id : Str
  pub reference_scheme_id : Str
  pub reference_value : Str
  pub digest_value : Str

unfoldable pub authz_system_reference_provider :
    Option (BindingRequestContext → Result McpsError AuthzReference) → AuthorizationBindingProvider
authz_system_reference_provider resolver ctx = do
  resolve ← or_refuse resolver authorization_binding_missing
  reference ← or_refused (resolve ctx)
  ok (
      authz_system_reference reference.authorization_system_id reference.reference_scheme_id
        reference.reference_value digest_alg_sha256 reference.digest_value)

unfoldable pub structured_object_hashing_provider : AuthorizationBindingProvider
structured_object_hashing_provider ctx = err (refused authorization_binding_profile_required)
