-- ===== src/Core/Signing.antt =====
-- mcps-core/src/signing.rs: the preimage of a signature and the hash of a request. A chain of
-- `get_mut` and the write at its end is a chain of reads and the rebuilt value.
pub mod Preimage
pub mod Written
mod Tests
use mcps.Prelude.{ℕ, Str, codes, Option, none, some, List, [], ◌∷◌, Result, ok, err, ◌>>=◌, ok_or}
use mcps.Core.Error.{McpsError, missing_envelope}
use mcps.Core.Ids.{request_meta_key, response_meta_key, observability_meta_keys}
use mcps.Core.Json.{Value, Members, object, get, set_member, remove_member, as_object}
use mcps.Core.Canonical.{canonicalize_json_value}
use mcps.Core.Crypto.{Externals, sha256_hash_id}

pub data EnvelopeLocation : Type 0 where
  request response : EnvelopeLocation

unfoldable pub container_key : EnvelopeLocation → Str
container_key request = codes "params"
container_key response = codes "result"

unfoldable pub meta_key : EnvelopeLocation → Str
meta_key request = request_meta_key
meta_key response = response_meta_key

-- The value with the one under the key replaced.
unfoldable pub put : Value → Str → Value → Value
unfolding set_member
put (object ms) key v = object (set_member key v ms)
put w key v = w

unfoldable pub strip_signature_value : EnvelopeLocation → Value → Result McpsError Value
unfolding get put as_object remove_member container_key meta_key
strip_signature_value location msg = do
  container ← ok_or (get msg (container_key location)) missing_envelope
  meta ← ok_or (get container (codes "_meta")) missing_envelope
  envelope ← ok_or (get meta (meta_key location)) missing_envelope
  signature ← ok_or (get envelope (codes "signature")) missing_envelope
  fields ← ok_or (as_object signature) missing_envelope
  let signature' = object (remove_member (codes "value") fields)
  let envelope' = put envelope (codes "signature") signature'
  let meta' = put meta (meta_key location) envelope'
  ok (put msg (container_key location) (put container (codes "_meta") meta'))

unfoldable pub remove_all : List Str → Members → Members
unfolding remove_member
remove_all [] ms = ms
remove_all (key ∷ keys) ms = remove_all keys (remove_member key ms)

abbrev strip_meta : Value → Value → EnvelopeLocation → Option Members → Value
strip_meta msg container location none = msg
strip_meta msg container location (some ms) =
    put msg (container_key location)
      (put container (codes "_meta") (object (remove_all observability_meta_keys ms)))

abbrev meta_members : Option Value → Option Members
meta_members none = none
meta_members (some v) = as_object v

unfoldable pub strip_observability_meta : EnvelopeLocation → Value → Value
unfolding get put as_object remove_all container_key
strip_observability_meta location msg = elim (get msg (container_key location)) [
  | none ↦ msg
  | some container ↦
      strip_meta msg container location (meta_members (get container (codes "_meta")))
]

unfoldable pub signing_preimage : EnvelopeLocation → Value → Result McpsError (List ℕ)
unfolding strip_signature_value strip_observability_meta canonicalize_json_value
signing_preimage location msg = do
  stripped ← strip_signature_value location msg
  canonicalize_json_value (strip_observability_meta location stripped)

module _ (x : Externals) where
  unfoldable pub request_hash : Value → Result McpsError Str
  unfolding signing_preimage sha256_hash_id
  request_hash msg = do preimage ← signing_preimage request msg; ok (sha256_hash_id x preimage)
