-- ===== src/Core/Signing/Preimage.antt =====
-- A message can be signed: the signature is written into it without changing what was signed.
use mcps.Prelude.{
  Str, codes, str_eq, str_eq_refl, some, ◌≡◌, refl, ok, Result, arith, Bool-cases, inl, inr, ap,
  >>=-eq-ok, ok_or-eq-ok, sym, ◌∙◌, ok-injective, ok_or, ◌>>=◌,
}
use mcps.Core.Error.{McpsError, missing_envelope}
use mcps.Core.Json.{
  Value, Members, object, no_members, member, get, get_member, set_member, insert_member,
  remove_member, as_object, string, null, bool, number, array,
}
use mcps.Core.Signing.{
  EnvelopeLocation, container_key, meta_key, put, strip_signature_value, signing_preimage,
  request_hash, request,
}
use mcps.Core.Crypto.{Externals}

remove_member-insert_member :
    (key : Str) (v : Value) (ms : Members)
    → remove_member key (insert_member key v ms) ≡ remove_member key ms
unfolding remove_member insert_member
remove_member-insert_member key v no_members = rw (str_eq_refl key) refl
remove_member-insert_member key v (member k w ms) = elim (Bool-cases (str_eq k key)) [
  | inl p ↦ ground (arith, p)
  | inr p ↦ ground (arith, p, remove_member-insert_member key v ms)
]

get_member-set_member :
    (key : Str) (v w : Value) (ms : Members)
    → get_member ms key ≡ some w
    → get_member (set_member key v ms) key ≡ some v
unfolding get_member set_member
get_member-set_member key v w no_members h = cc
get_member-set_member key v w (member k u ms) h = elim (Bool-cases (str_eq k key)) [
  | inl p ↦ ground (arith, p)
  | inr p ↦ ground (arith, p, get_member-set_member key v w ms)
]

set_member-set_member :
    (key : Str) (v w : Value) (ms : Members)
    → set_member key w (set_member key v ms) ≡ set_member key w ms
unfolding set_member
set_member-set_member key v w no_members = refl
set_member-set_member key v w (member k u ms) = elim (Bool-cases (str_eq k key)) [
  | inl p ↦ ground (arith, p)
  | inr p ↦ ground (arith, p, set_member-set_member key v w ms)
]

get-put :
    (o : Value) (key : Str) (v w : Value) → get o key ≡ some w → get (put o key v) key ≡ some v
unfolding get put
get-put (object ms) key v w h = get_member-set_member key v w ms h
get-put null key v w h = cc
get-put (bool b) key v w h = cc
get-put (number n) key v w h = cc
get-put (string t) key v w h = cc
get-put (array vs) key v w h = cc

put-put : (o : Value) (key : Str) (v w : Value) → put (put o key v) key w ≡ put o key w
unfolding put
put-put (object ms) key v w = ap object (set_member-set_member key v w ms)
put-put null key v w = refl
put-put (bool b) key v w = refl
put-put (number n) key v w = refl
put-put (string t) key v w = refl
put-put (array vs) key v w = refl

-- The message with the members of its signature changed by `f`.
abbrev pub rebuilt : EnvelopeLocation → Value → Value → Value → Value → Members → Value
rebuilt location msg container meta envelope fields = put msg (container_key location) (
    put container (codes "_meta")
      (put meta (meta_key location) (put envelope (codes "signature") (object fields))))

unfoldable pub edit : EnvelopeLocation → (Members → Members) → Value → Result McpsError Value
edit location f msg = do
  container ← ok_or (get msg (container_key location)) missing_envelope
  meta ← ok_or (get container (codes "_meta")) missing_envelope
  envelope ← ok_or (get meta (meta_key location)) missing_envelope
  signature ← ok_or (get envelope (codes "signature")) missing_envelope
  fields ← ok_or (as_object signature) missing_envelope
  ok (rebuilt location msg container meta envelope (f fields))

-- The members that lead to the signature of a message.
pub record PathTo (location : EnvelopeLocation) (msg container meta envelope : Value)
    (fields : Members) : Type 0 where
  pub in_message : get msg (container_key location) ≡ some container
  pub in_container : get container (codes "_meta") ≡ some meta
  pub in_meta : get meta (meta_key location) ≡ some envelope
  pub signature : Value
  pub in_envelope : get envelope (codes "signature") ≡ some signature
  pub is_object : as_object signature ≡ some fields

module _ (location : EnvelopeLocation) {msg container meta envelope : Value} {fields : Members}
    (p : PathTo location msg container meta envelope fields) where
  pub edit_path :
      (f : Members → Members)
      → edit location f msg ≡ ok (rebuilt location msg container meta envelope (f fields))
  unfolding edit
  edit_path f = rw (p.in_message, p.in_container, p.in_meta, p.in_envelope, p.is_object) refl

  pub path_rebuilt :
      (f : Members → Members)
      → PathTo location
          (rebuilt location msg container meta envelope (f fields))
          (put container
            (codes "_meta")
            (put meta (meta_key location) (put envelope (codes "signature") (object (f fields)))))
          (put meta (meta_key location) (put envelope (codes "signature") (object (f fields))))
          (put envelope (codes "signature") (object (f fields)))
          (f fields)
  path_rebuilt f = record {
    in_message = get-put _ _ _ _ p.in_message;
    in_container = get-put _ _ _ _ p.in_container;
    in_meta = get-put _ _ _ _ p.in_meta;
    signature = object (f fields);
    in_envelope = get-put _ _ _ _ p.in_envelope;
    is_object = unfold as_object in refl;
  }

  rebuilt_twice :
      (f : Members → Members) (fields' : Members)
      → rebuilt location
          (rebuilt location msg container meta envelope (f fields))
          (put container
            (codes "_meta")
            (put meta (meta_key location) (put envelope (codes "signature") (object (f fields)))))
          (put meta (meta_key location) (put envelope (codes "signature") (object (f fields))))
          (put envelope (codes "signature") (object (f fields)))
          fields'
        ≡ rebuilt location msg container meta envelope fields'
  rebuilt_twice f fields' = rw (put-put, put-put, put-put, put-put) refl

edit-path :
    (location : EnvelopeLocation) (f : Members → Members) (msg edited : Value)
    → edit location f msg ≡ ok edited
    → (container : Value) × (meta : Value) × (envelope : Value) × (fields : Members) × PathTo
        location msg container meta envelope fields
unfolding edit
edit-path location f msg edited h =
    let (container, c, h1) =
      >>=-eq-ok (ok_or (get msg (container_key location)) missing_envelope) _ h in
    let (meta, m, h2) = >>=-eq-ok (ok_or (get container (codes "_meta")) missing_envelope) _ h1 in
    let (envelope, e, h3) =
      >>=-eq-ok (ok_or (get meta (meta_key location)) missing_envelope) _ h2 in
    let (signature, s, h4) =
      >>=-eq-ok (ok_or (get envelope (codes "signature")) missing_envelope) _ h3 in
    let (fields, o, _) = >>=-eq-ok (ok_or (as_object signature) missing_envelope) _ h4 in
    (
      container,
      meta,
      envelope,
      fields,
      record {
        in_message = ok_or-eq-ok _ _ c;
        in_container = ok_or-eq-ok _ _ m;
        in_meta = ok_or-eq-ok _ _ e;
        signature = signature;
        in_envelope = ok_or-eq-ok _ _ s;
        is_object = ok_or-eq-ok _ _ o;
      },
    )

edit-edit :
    (location : EnvelopeLocation) (f g : Members → Members) (msg edited : Value)
    → ((ms : Members) → g (f ms) ≡ g ms)
    → edit location f msg ≡ ok edited
    → edit location g edited ≡ edit location g msg
edit-edit location f g msg edited same h =
    let (container, meta, envelope, fields, p) = edit-path location f msg edited h in
    let e : rebuilt location msg container meta envelope (f fields) ≡ edited =
      ok-injective (sym (edit_path location p f) ∙ h) in
    rw
      (
        ← e,
        edit_path location (path_rebuilt location p f) g,
        edit_path location p g,
        rebuilt_twice location p f (g (f fields)),
        same fields,
      )
      refl

-- The message with this text as the value of its signature.
unfoldable pub sign : EnvelopeLocation → Str → Value → Result McpsError Value
unfolding edit insert_member
sign location text = edit location (insert_member (codes "value") (string text))

strip_edit :
    (location : EnvelopeLocation) (msg : Value)
    → strip_signature_value location msg ≡ edit location (remove_member (codes "value")) msg
unfolding strip_signature_value edit
strip_edit location msg = refl

strip-sign :
    (location : EnvelopeLocation) (text : Str) (msg signed : Value)
    → sign location text msg ≡ ok signed
    → strip_signature_value location signed ≡ strip_signature_value location msg
unfolding sign
strip-sign location text msg signed h =
    strip_edit location signed
    ∙ edit-edit location _ _ msg signed (remove_member-insert_member (codes "value") (string text))
        h
    ∙ sym (strip_edit location msg)

-- Writing any text as the value of the signature of a message leaves its preimage as it was: what
-- is signed can be computed before or after the signature is written.
pub signing_preimage-sign :
    (location : EnvelopeLocation) (text : Str) (msg signed : Value)
    → sign location text msg ≡ ok signed
    → signing_preimage location signed ≡ signing_preimage location msg
unfolding signing_preimage
signing_preimage-sign location text msg signed h = rw (strip-sign location text msg signed h) refl

-- So a signed request and the request before it was signed have one request hash.
pub request_hash-sign :
    (x : Externals) (text : Str) (msg signed : Value)
    → sign request text msg ≡ ok signed
    → request_hash x signed ≡ request_hash x msg
unfolding request_hash
request_hash-sign x text msg signed h = rw (signing_preimage-sign request text msg signed h) refl
