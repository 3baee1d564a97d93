-- ===== src/Client/Request/Signed.antt =====
-- What mcps-client-core/src/request.rs signs.
use mcps.Prelude.{
  ℕ, Str, codes, str_eq, List, some, Result, ok, >>=-eq-ok, >>-eq-ok, guard-eq-ok, guard, ◌≡◌, refl,
  subst, ok-injective, sym, ◌∙◌, true, false,
}
use mathlib.Core.Option.{some-injective}
use mcps.Core.Error.{McpsError}
use mcps.Core.Ids.{version_draft_02, sig_alg_ed25519, draft_02_canonicalization_allowlist}
use mcps.Core.Json.{
  Value, Members, string, object, no_members, member, get, get_member, as_object, insert_member,
  remove_member, set_member,
}
use mcps.Core.Json.Writes.{get_member-insert_member_other, get-put_other}
use mcps.Core.Constraints.{contains}
use mcps.Core.Signing.{signing_preimage, request_hash, request, meta_key, put}
use mcps.Core.Signing.Preimage.{rebuilt, PathTo, path_rebuilt, signing_preimage-sign}
use mcps.Core.Signing.Written.{write_signature, write_signature_path, write_signature-sign}
use mcps.Core.Libraries.{Libraries}
use mcps.Core.Failure.{or_refuse, or_refused, or_panic, or_refuse-ok, or_refused-ok, or_panic-ok}
use mcps.Client.Request.Unsigned.{
  get_member-remove_member_other, meta_of, container_of, unsigned-PathTo, differs_id,
  differs_method, id_there, method_there, block_there,
}
use mcps.Client.Request.{
  RequestSigningInputs, SignedRequest, check_canonicalization_id, block_members, envelope_value,
  with_meta, request_object, build_signed_request_with,
}

-- The members of an envelope that says what the inputs say.
pub record Says (inputs : RequestSigningInputs) (binding envelope : Value) : Type 0 where
  pub version : get envelope (codes "version") ≡ some (string version_draft_02)
  pub canonicalization_id :
      get envelope (codes "canonicalization_id") ≡ some (string inputs.canonicalization_id)
  pub signer : get envelope (codes "signer") ≡ some (string inputs.signer)
  pub on_behalf_of : get envelope (codes "on_behalf_of") ≡ some (string inputs.on_behalf_of)
  pub audience : get envelope (codes "audience") ≡ some (string inputs.audience)
  pub authorization_binding : get envelope (codes "authorization_binding") ≡ some binding
  pub nonce : get envelope (codes "nonce") ≡ some (string inputs.nonce)
  pub issued_at : get envelope (codes "issued_at") ≡ some (string inputs.issued_at)
  pub expires_at : get envelope (codes "expires_at") ≡ some (string inputs.expires_at)

-- A request of the method with the parameters, signed in an envelope that says what the inputs say.
pub record SignedFor (l : Libraries) (id : Value) (method : Str) (params : Members)
    (inputs : RequestSigningInputs) (sign : List ℕ → Result McpsError Str) (s : SignedRequest)
    : Type 0 where
  pub allowed : contains draft_02_canonicalization_allowlist inputs.canonicalization_id ≡ true
  pub serialized : l.to_vec s.message ≡ some s.wire_bytes
  pub id_of : get s.message (codes "id") ≡ some id
  pub method_of : get s.message (codes "method") ≡ some (string method)
  pub binding : Value
  pub binding_of : l.binding_to_value inputs.authorization_binding ≡ some binding
  pub container : Value
  pub meta : Value
  pub envelope : Value
  pub signature : Str
  pub path : PathTo request s.message container meta envelope (
      insert_member (codes "value") (string signature) (
        member
          (codes "alg")
          (string sig_alg_ed25519)
          (member (codes "key_id") (string inputs.key_id) no_members)))
  pub says : Says inputs binding envelope
  pub params_rest :
      (key : Str) → str_eq (codes "_meta") key ≡ false → get container key ≡ get_member params key
  pub preimage : List ℕ
  pub preimage_of : signing_preimage request s.message ≡ ok preimage
  pub signed : sign preimage ≡ ok signature
  pub hash_of : request_hash l.externals s.message ≡ ok s.hash

-- The envelope says what the inputs say, whatever block of a signature is put into it.
envelope-Says :
    (binding : Value) (inputs : RequestSigningInputs) (signature : Value)
    → Says inputs binding (put (envelope_value binding inputs) (codes "signature") signature)
unfolding get get_member envelope_value str_eq codes put set_member
envelope-Says binding inputs signature = record {
  version = refl;
  canonicalization_id = refl;
  signer = refl;
  on_behalf_of = refl;
  audience = refl;
  authorization_binding = refl;
  nonce = refl;
  issued_at = refl;
  expires_at = refl;
}

module _ (l : Libraries) (id : Value) (method : Str) (params : Members)
    (inputs : RequestSigningInputs) (sign : List ℕ → Result McpsError Str) where
  abbrev pub unsigned_of : Value → Value
  unsigned_of binding = request_object id method (with_meta (envelope_value binding inputs) params)

  pub unsigned_path :
      (binding : Value)
      → PathTo request
          (unsigned_of binding)
          (object (container_of (envelope_value binding inputs) params))
          (object (meta_of (envelope_value binding inputs) params))
          (envelope_value binding inputs)
          (block_members inputs.key_id)
  unsigned_path binding =
      unsigned-PathTo id method params (envelope_value binding inputs)
        (object (block_members inputs.key_id)) (block_members inputs.key_id)
        (block_there binding inputs) (unfold as_object in refl)

  container_rest :
      (envelope : Value) (key : Str)
      → str_eq (codes "_meta") key ≡ false
      → get (object (container_of envelope params)) key ≡ get_member params key
  unfolding get container_of
  container_rest envelope key d =
      get_member-insert_member_other (codes "_meta") key _ (remove_member (codes "_meta") params) d
      ∙ get_member-remove_member_other (codes "_meta") key params d

  -- The message that is signed, and what is read of it.
  signed_message :
      (binding signed : Value) (preimage : List ℕ) (signature hash : Str) (wire_bytes : List ℕ)
      → contains draft_02_canonicalization_allowlist inputs.canonicalization_id ≡ true
      → l.binding_to_value inputs.authorization_binding ≡ some binding
      → signing_preimage request (unsigned_of binding) ≡ ok preimage
      → sign preimage ≡ ok signature
      → write_signature request signature (unsigned_of binding) ≡ some signed
      → request_hash l.externals signed ≡ ok hash
      → l.to_vec signed ≡ some wire_bytes
      → SignedFor l id method params inputs sign
          (record { wire_bytes = wire_bytes; hash = hash; message = signed })
  signed_message binding signed preimage signature hash wire_bytes allowed bound preimage_of done
        written hash_of serialized =
      let path = unsigned_path binding in
      let fields = insert_member (codes "value") (string signature) in
      let container = object (container_of (envelope_value binding inputs) params) in
      let meta = object (meta_of (envelope_value binding inputs) params) in
      let envelope =
        put (envelope_value binding inputs) (codes "signature")
          (object (fields (block_members inputs.key_id))) in
      let same : rebuilt request (unsigned_of binding) container meta
            (envelope_value binding inputs) (fields (block_members inputs.key_id))
          ≡ signed =
        some-injective _ _ (sym (write_signature_path request signature path) ∙ written) in
      record {
        allowed = allowed;
        serialized = serialized;
        id_of = rw (← same) (get-put_other _ _ _ (unsigned_of binding) differs_id ∙ id_there _ _ _);
        method_of =
            rw (← same)
              (get-put_other _ _ _ (unsigned_of binding) differs_method ∙ method_there _ _ _);
        binding = binding;
        binding_of = bound;
        container = put container (codes "_meta") (put meta (meta_key request) envelope);
        meta = put meta (meta_key request) envelope;
        envelope = envelope;
        signature = signature;
        path = unfold block_members codes in rw same at (path_rebuilt request path fields);
        says = envelope-Says binding inputs _;
        params_rest = λ key d.
            get-put_other (codes "_meta") key _ container d
            ∙ container_rest (envelope_value binding inputs) key d;
        preimage = preimage;
        preimage_of =
            signing_preimage-sign request signature (unsigned_of binding) signed
              (write_signature-sign request signature path signed written)
            ∙ preimage_of;
        signed = done;
        hash_of = hash_of;
      }

  pub build_signed_request-SignedFor :
      (s : SignedRequest)
      → build_signed_request_with l id method params inputs sign ≡ ok s
      → SignedFor l id method params inputs sign s
  unfolding build_signed_request_with check_canonicalization_id
  build_signed_request-SignedFor s h =
      let (checked, h0) =
        >>-eq-ok (or_refused (check_canonicalization_id inputs.canonicalization_id)) _ h in
      let (_, allowed) = >>-eq-ok (guard _ _) _ (or_refused-ok _ checked) in
      let (binding, bound, h1) =
        >>=-eq-ok (or_panic (l.binding_to_value inputs.authorization_binding)) _ h0 in
      let (preimage, preimage_of, h2) =
        >>=-eq-ok (or_refused (signing_preimage request (unsigned_of binding))) _ h1 in
      let (signature, done, h3) = >>=-eq-ok (or_refused (sign preimage)) _ h2 in
      let (signed, written, h4) =
        >>=-eq-ok (or_panic (write_signature request signature (unsigned_of binding))) _ h3 in
      let (hash, hash_of, h5) = >>=-eq-ok (or_refused (request_hash l.externals signed)) _ h4 in
      let (wire_bytes, serialized, h6) = >>=-eq-ok (or_refuse (l.to_vec signed) _) _ h5 in
      subst (SignedFor l id method params inputs sign) (ok-injective h6) (
        signed_message binding signed preimage signature hash wire_bytes (guard-eq-ok _ _ allowed)
          (or_panic-ok _ bound) (or_refused-ok _ preimage_of) (or_refused-ok _ done)
          (or_panic-ok _ written) (or_refused-ok _ hash_of) (or_refuse-ok _ _ serialized))
