-- ===== src/Proxy/Respond/Signed.antt =====
-- What the proxy of mcps-proxy/src/proxy.rs signs.
use mcps.Prelude.{
  ℕ, Str, codes, str_eq, List, ◌≡◌, refl, sym, ◌∙◌, Option, some, ok, false, >>=-eq-ok,
  ok-injective, ok_or,
}
use mathlib.Core.Option.{some-injective}
use mcps.Prelude.Int.{ℤ}
use mcps.Core.Ids.{response_meta_key}
use mcps.Core.Json.{Value, Members, string, object, get, get_member, as_object, insert_member}
use mcps.Core.Json.Writes.{index_mut-get, index_mut-get_other, get-put_other}
use mcps.Core.Signing.{signing_preimage, response, put, container_key, meta_key}
use mcps.Core.Signing.Preimage.{rebuilt, PathTo, path_rebuilt, sign, signing_preimage-sign}
use mcps.Core.Signing.Written.{write_signature, write_signature_path, write_signature-sign}
use mcps.Core.Pipeline.{VerifiedRequest, VerifiedAuthorization, draft01_hash, draft02_binding}
use mcps.Core.Failure.{or_refuse, or_panic, or_refused, or_refuse-ok, or_panic-ok, or_refused-ok}
use mcps.Core.Libraries.{Libraries}
use mcps.Proxy.Scrub.{scrub_proxy_owned_meta}
use mcps.Proxy.Respond.{
  wrap_result, signature_members, envelope_members, build_response_envelope, response_object,
  at_envelope, with_envelope, with_signature, build_signed_response,
}

module _ (signature : Str) (unsigned container meta envelope : Value) (fields : Members)
    (p : PathTo response unsigned container meta envelope fields) where
  pub with_signature_path :
      with_signature signature unsigned
      ≡ some (
          rebuilt response unsigned container meta envelope
            (insert_member (codes "value") (string signature) fields))
  unfolding with_signature at_envelope write_signature container_key meta_key
  with_signature_path = write_signature_path response signature p

  with_signature-sign :
      (signed : Value)
      → with_signature signature unsigned ≡ some signed
      → sign response signature unsigned ≡ ok signed
  unfolding with_signature at_envelope write_signature container_key meta_key
  with_signature-sign signed h = write_signature-sign response signature p signed h

-- What an envelope says.
pub record Names (envelope : Value) (server_signer key_id request_hash : Str) : Type 0 where
  pub request_hash_of : get envelope (codes "request_hash") ≡ some (string request_hash)
  pub server_signer_of : get envelope (codes "server_signer") ≡ some (string server_signer)
  pub signature_of : get envelope (codes "signature") ≡ some (object (signature_members key_id))

pub envelope-Names :
    (server_signer key_id : Str) (verified : VerifiedRequest) (now : ℤ) (envelope : Value)
    (a : VerifiedAuthorization)
    → verified.authorization ≡ a
    → build_response_envelope server_signer key_id verified now ≡ ok envelope
    → Names envelope server_signer key_id verified.request_hash
unfolding build_response_envelope envelope_members get get_member codes str_eq
envelope-Names server_signer key_id verified now envelope (draft01_hash hash) e h =
    let built : object (envelope_members server_signer key_id verified now) ≡ envelope =
      ok-injective (rw (e, build_response_envelope) at h) in
    rw (← built) (record { request_hash_of = refl; server_signer_of = refl; signature_of = refl })
envelope-Names server_signer key_id verified now envelope (draft02_binding binding) e h =
    let (id, _, h') =
      >>=-eq-ok (ok_or verified.canonicalization_id _) _ (rw (e, build_response_envelope) at h) in
    let built = ok-injective h' in
    rw (← built) (record { request_hash_of = refl; server_signer_of = refl; signature_of = refl })

-- The members that lead to the signature of a response that has its envelope.
pub unsigned-PathTo :
    (server_signer key_id : Str) (verified : VerifiedRequest) (now : ℤ)
    (id result envelope unsigned : Value)
    → Names envelope server_signer key_id verified.request_hash
    → with_envelope envelope (response_object id result) ≡ some unsigned
    → (container : Value) × (meta : Value) × PathTo response unsigned container meta envelope
        (signature_members key_id)
unfolding with_envelope at_envelope response_object
unsigned-PathTo server_signer key_id verified now id result envelope unsigned names h =
    let (_, container, written, in_message) = index_mut-get (codes "result") _ _ unsigned h in
    let (_, meta, written', in_container) = index_mut-get (codes "_meta") _ _ container written in
    let (_, new, same, in_meta) = index_mut-get response_meta_key _ _ meta written' in
    (
      container,
      meta,
      record {
        in_message = unfold container_key in in_message;
        in_container = in_container;
        in_meta = unfold meta_key in (in_meta ∙ sym same);
        signature = object (signature_members key_id);
        in_envelope = names.signature_of;
        is_object = unfold as_object in refl;
      },
    )

-- A response with the id of the request, bound to its hash, and signed for the server.
pub record Answered (l : Libraries) (sign_response : List ℕ → Option Str)
    (server_signer key_id request_hash : Str) (id : Value) (bytes : List ℕ) : Type 0 where
  pub message : Value
  pub serialized : l.to_vec message ≡ some bytes
  pub id_of : get message (codes "id") ≡ some id
  pub signature : Str
  pub container : Value
  pub meta : Value
  pub envelope : Value
  pub path :
      PathTo response message container meta envelope
        (insert_member (codes "value") (string signature) (signature_members key_id))
  pub request_hash_of : get envelope (codes "request_hash") ≡ some (string request_hash)
  pub server_signer_of : get envelope (codes "server_signer") ≡ some (string server_signer)
  pub preimage : List ℕ
  pub preimage_of : signing_preimage response message ≡ ok preimage
  pub signed : sign_response preimage ≡ some signature

differs_hash : str_eq (codes "signature") (codes "request_hash") ≡ false
unfolding str_eq codes
differs_hash = refl

differs_signer : str_eq (codes "signature") (codes "server_signer") ≡ false
unfolding str_eq codes
differs_signer = refl

-- The id of a response stands beside what is written later.
id_kept :
    (id container meta envelope : Value) (fields : Members) (unsigned result old : Value)
    → with_envelope old (response_object id result) ≡ some unsigned
    → get (rebuilt response unsigned container meta envelope fields) (codes "id") ≡ some id
unfolding container_key with_envelope at_envelope response_object get_member str_eq codes
id_kept id container meta envelope fields unsigned result old written =
    get-put_other (codes "result") (codes "id") _ unsigned refl
    ∙ index_mut-get_other (codes "result") (codes "id") _ _ unsigned refl written

module _ (l : Libraries) (sign_response : List ℕ → Option Str) (server_signer key_id : Str)
    (inner_response : List ℕ) (verified : VerifiedRequest) (now : ℤ) (id : Value)
    (bytes : List ℕ) where
  signed_message :
      (result envelope unsigned signed : Value) (preimage : List ℕ) (signature : Str)
      → build_response_envelope server_signer key_id verified now ≡ ok envelope
      → with_envelope envelope (response_object id result) ≡ some unsigned
      → signing_preimage response unsigned ≡ ok preimage
      → with_signature signature unsigned ≡ some signed
      → sign_response preimage ≡ some signature
      → l.to_vec signed ≡ some bytes
      → Answered l sign_response server_signer key_id verified.request_hash id bytes
  signed_message result envelope unsigned signed preimage signature built written preimage_of
        signed_as done serialized =
      let names = envelope-Names server_signer key_id verified now envelope _ refl built in
      let (container, meta, path) =
        unsigned-PathTo server_signer key_id verified now id result envelope unsigned names
          written in
      let fields' = insert_member (codes "value") (string signature) in
      let same : rebuilt response unsigned container meta envelope
            (fields' (signature_members key_id))
          ≡ signed =
        some-injective _ _ (
          sym (
            with_signature_path signature unsigned container meta envelope
              (signature_members key_id) path)
          ∙ signed_as) in
      record {
        message = signed;
        serialized = serialized;
        id_of = rw (← same) (
            id_kept id container meta envelope (fields' (signature_members key_id)) unsigned result
              _ written);
        signature = signature;
        container = _;
        meta = _;
        envelope = put envelope (codes "signature") (object (fields' (signature_members key_id)));
        path = rw same at (path_rebuilt response path fields');
        request_hash_of =
            rw (get-put_other (codes "signature") (codes "request_hash") _ envelope differs_hash)
              names.request_hash_of;
        server_signer_of =
            rw (get-put_other (codes "signature") (codes "server_signer") _ envelope differs_signer)
              names.server_signer_of;
        preimage = preimage;
        preimage_of =
            signing_preimage-sign response signature unsigned signed (
              with_signature-sign signature unsigned container meta envelope
                (signature_members key_id) path signed signed_as)
            ∙ preimage_of;
        signed = done;
      }

  pub build_signed_response-Answered :
      build_signed_response l sign_response server_signer key_id inner_response verified now id
        ≡ ok bytes
      → Answered l sign_response server_signer key_id verified.request_hash id bytes
  unfolding build_signed_response
  build_signed_response-Answered h =
      let (inner, _, h1) = >>=-eq-ok (or_refuse (l.externals.from_slice inner_response) _) _ h in
      let (envelope, built, h2) =
        >>=-eq-ok (or_refused (build_response_envelope server_signer key_id verified now)) _ h1 in
      let result = scrub_proxy_owned_meta (wrap_result inner) in
      let (unsigned, written, h3) =
        >>=-eq-ok (or_panic (with_envelope envelope (response_object id result))) _ h2 in
      let (preimage, preimage_of, h4) =
        >>=-eq-ok (or_refused (signing_preimage response unsigned)) _ h3 in
      let (signature, done, h5) = >>=-eq-ok (or_refuse (sign_response preimage) _) _ h4 in
      let (signed, signed_as, h6) = >>=-eq-ok (or_panic (with_signature signature unsigned)) _ h5 in
      signed_message result envelope unsigned signed preimage signature (or_refused-ok _ built)
        (or_panic-ok _ written) (or_refused-ok _ preimage_of) (or_panic-ok _ signed_as)
        (or_refuse-ok _ _ done) (or_refuse-ok _ _ h6)
