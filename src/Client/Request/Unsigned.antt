-- ===== src/Client/Request/Unsigned.antt =====
-- The request of mcps-client-core/src/request.rs before it is signed: what stands where.
use mcps.Prelude.{
  Str, codes, str_eq, str_eq_iff, some, ◌≡◌, refl, false, Bool-cases, inl, inr, arith,
}
use mcps.Core.Ids.{request_meta_key}
use mcps.Core.Json.{
  Value, Members, string, object, no_members, member, get, get_member, as_object, insert_member,
  remove_member,
}
use mcps.Core.Json.Writes.{get_member-insert_member}
use mcps.Core.Signing.{request, container_key, meta_key}
use mcps.Core.Signing.Preimage.{PathTo}
use mcps.Client.Request.{
  RequestSigningInputs, block_members, envelope_value, given_meta, with_meta, request_object,
}

pub get_member-remove_member_other :
    (key other : Str) (ms : Members)
    → str_eq key other ≡ false
    → get_member (remove_member key ms) other ≡ get_member ms other
unfolding get_member remove_member
get_member-remove_member_other key other no_members h = refl
get_member-remove_member_other key other (member k w ms) h = elim (Bool-cases (str_eq k key)) [
  | inl p ↦ ground (
    arith,
    p,
    h,
    str_eq_iff k key,
    str_eq_iff k other,
    str_eq_iff key other,
    get_member-remove_member_other key other ms h,
  )
  | inr p ↦ ground (arith, p, get_member-remove_member_other key other ms h)
]

unfoldable pub meta_of : Value → Members → Members
meta_of envelope params =
    insert_member request_meta_key envelope (given_meta (get_member params (codes "_meta")))

unfoldable pub container_of : Value → Members → Members
container_of envelope params =
    insert_member (codes "_meta") (object (meta_of envelope params))
      (remove_member (codes "_meta") params)

module _ (id : Value) (method : Str) (params : Members) (envelope signature : Value)
    (fields : Members) where
  pub unsigned-PathTo :
      get envelope (codes "signature") ≡ some signature
      → as_object signature ≡ some fields
      → PathTo request
          (request_object id method (with_meta envelope params))
          (object (container_of envelope params))
          (object (meta_of envelope params))
          envelope
          fields
  unfolding request_object with_meta meta_of container_of get get_member codes str_eq container_key
      meta_key
  unsigned-PathTo h k = record {
    in_message = refl;
    in_container = get_member-insert_member (codes "_meta") (object (meta_of envelope params)) _;
    in_meta = get_member-insert_member request_meta_key envelope _;
    signature = signature;
    in_envelope = h;
    is_object = k;
  }

pub differs_id : str_eq (container_key request) (codes "id") ≡ false
unfolding str_eq codes container_key
differs_id = refl

pub differs_method : str_eq (container_key request) (codes "method") ≡ false
unfolding str_eq codes container_key
differs_method = refl

module _ (id : Value) (method : Str) (params : Members) where
  pub id_there : get (request_object id method params) (codes "id") ≡ some id
  unfolding get get_member request_object str_eq codes
  id_there = refl

  pub method_there : get (request_object id method params) (codes "method") ≡ some (string method)
  unfolding get get_member request_object str_eq codes
  method_there = refl

pub block_there :
    (binding : Value) (inputs : RequestSigningInputs)
    → get (envelope_value binding inputs) (codes "signature")
      ≡ some (object (block_members inputs.key_id))
unfolding get get_member envelope_value str_eq codes
block_there binding inputs = refl
