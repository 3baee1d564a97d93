-- ===== src/Core/Constraints/Reads.antt =====
-- What the extractions of mcps-core/src/constraints.rs read: where the envelope stands in the message, and
-- what is checked of it before it is deserialized.
use mcps.Prelude.{
  Str, codes, str_eq, str_eq_iff, str_eq_refl, Option, Option-cases, none, some, ok, ◌≡◌, ◌↔◌, refl,
  ◌∙◌, ap, guard, ok-injective, sym, inl, inr, arith, true, map_err, map_err-eq-ok, guard-eq-ok,
  >>=-eq-ok, >>-eq-ok,
}
use mcps.Core.Ids.{
  request_meta_key, response_meta_key, version_draft_01, version_draft_02,
  draft_02_canonicalization_allowlist,
}
use mcps.Core.Json.{Value, null, bool, number, string, array, object, get, as_str}
use mcps.Core.Envelope.{
  RequestEnvelope, ResponseEnvelope, Draft02RequestEnvelope, Draft02ResponseEnvelope,
}
use mcps.Core.Constraints.{
  FromValue, and_then_str, contains, locate_envelope, deserialize_envelope, require_draft02_version,
  check_canonicalization_id, classify_canonicalization_id, check_authorization_binding,
  extract_request_envelope, extract_response_envelope, extract_draft02_request_envelope,
  extract_draft02_response_envelope, classify_request_envelope_error,
}

-- The value under the key in the `_meta` of the part of the message.
pub record Placed (value : Value) (outer meta_key : Str) (raw : Value) : Type 0 where
  pub container : Value
  pub meta : Value
  pub in_message : get value outer ≡ some container
  pub in_container : get container (codes "_meta") ≡ some meta
  pub in_meta : get meta meta_key ≡ some raw

located_Placed :
    (value : Value) (outer meta_key : Str) (raw : Value)
    → (locate_envelope value outer meta_key ≡ ok raw) ↔ Placed value outer meta_key raw
unfolding locate_envelope
located_Placed value outer meta_key raw = (
  λ h. elim (Option-cases (get value outer)) [
    | inl p ↦ absurd (ground (arith, p))
    | inr (container, p) ↦ elim (Option-cases (get container (codes "_meta"))) [
      | inl q ↦ absurd (ground (arith, p, q))
      | inr (meta, q) ↦ record {
        container = container;
        meta = meta;
        in_message = p;
        in_container = q;
        in_meta = ground (arith, p, q);
      }
    ]
  ],
  λ p. ground (arith, p.in_message, p.in_container, p.in_meta),
)

-- The version and the canonicalization id that a draft-02 envelope names.
pub record Draft02 (raw : Value) : Type 0 where
  pub version : get raw (codes "version") ≡ some (string version_draft_02)
  pub id : Str
  pub id_of : get raw (codes "canonicalization_id") ≡ some (string id)
  pub allowed : contains draft_02_canonicalization_allowlist id ≡ true

-- A member read as a text is one that is a string.
text_iff : (o : Option Value) (s : Str) → (and_then_str o ≡ some s) ↔ (o ≡ some (string s))
unfolding as_str
text_iff none s = (λ h. cc, λ h. cc)
text_iff (some (string t)) s = (λ h. cc, λ h. cc)
text_iff (some null) s = (λ h. cc, λ h. cc)
text_iff (some (bool b)) s = (λ h. cc, λ h. cc)
text_iff (some (number n)) s = (λ h. cc, λ h. cc)
text_iff (some (array vs)) s = (λ h. cc, λ h. cc)
text_iff (some (object ms)) s = (λ h. cc, λ h. cc)

version_iff :
    (raw : Value)
    → (require_draft02_version raw ≡ ok tt)
      ↔ (get raw (codes "version") ≡ some (string version_draft_02))
unfolding require_draft02_version
version_iff raw =
    let (to, from) = text_iff (get raw (codes "version")) version_draft_02 in
    elim (Option-cases (and_then_str (get raw (codes "version")))) [
      | inl p ↦ ((λ h. absurd (ground (arith, p))), (λ h. absurd (let q = from h in cc)))
      | inr (text, p) ↦ (
        (λ h. to (ground (arith, p, str_eq_iff text version_draft_02))),
        (λ h. let q = from h in ground (arith, q, str_eq_refl version_draft_02)),
      )
    ]

id_iff :
    (raw : Value)
    → (check_canonicalization_id raw ≡ ok tt) ↔ (
        (id : Str) × (get raw (codes "canonicalization_id") ≡ some (string id))
        × (contains draft_02_canonicalization_allowlist id ≡ true))
unfolding check_canonicalization_id classify_canonicalization_id
id_iff raw =
    let member = get raw (codes "canonicalization_id") in
    elim (Option-cases (and_then_str member)) [
      | inl p ↦ (
        (λ h. absurd (ground (arith, p))),
        (λ (id, there, allowed). absurd (let q = (text_iff member id).1 there in cc)),
      )
      | inr (text, p) ↦ (
        (λ h. (text, (text_iff member text).0 p, ground (arith, p))),
        (λ (id, there, allowed).
            let q = (text_iff member id).1 there in ground (arith, q, allowed)),
      )
    ]

deserialize_iff :
    {A : Type 0} (from_value : FromValue A) (raw : Value) (a : A)
    → (deserialize_envelope from_value raw ≡ ok a) ↔ (from_value raw ≡ ok a)
unfolding deserialize_envelope
deserialize_iff from_value raw a = (λ h. map_err-eq-ok _ _ h, λ h. rw h refl)

-- The envelope of a draft-01 request, as it stands in the message.
pub record RequestReads (from_value : FromValue RequestEnvelope) (value : Value)
    (e : RequestEnvelope) : Type 0 where
  pub raw : Value
  pub placed : Placed value (codes "params") request_meta_key raw
  pub read : from_value raw ≡ ok e
  pub version : e.version ≡ version_draft_01

-- The envelope of a draft-02 request.
pub record Draft02RequestReads (from_value : FromValue Draft02RequestEnvelope) (value : Value)
    (e : Draft02RequestEnvelope) : Type 0 where
  pub raw : Value
  pub placed : Placed value (codes "params") request_meta_key raw
  pub draft02 : Draft02 raw
  pub binding : check_authorization_binding raw ≡ ok tt
  pub read : from_value raw ≡ ok e

-- The envelope of a draft-01 response.
pub record ResponseReads (from_value : FromValue ResponseEnvelope) (value : Value)
    (e : ResponseEnvelope) : Type 0 where
  pub raw : Value
  pub placed : Placed value (codes "result") response_meta_key raw
  pub read : from_value raw ≡ ok e

-- The envelope of a draft-02 response.
pub record Draft02ResponseReads (from_value : FromValue Draft02ResponseEnvelope) (value : Value)
    (e : Draft02ResponseEnvelope) : Type 0 where
  pub raw : Value
  pub placed : Placed value (codes "result") response_meta_key raw
  pub draft02 : Draft02 raw
  pub read : from_value raw ≡ ok e

Draft02-iff :
    (raw : Value)
    → ((require_draft02_version raw ≡ ok tt) × (check_canonicalization_id raw ≡ ok tt))
      ↔ Draft02 raw
Draft02-iff raw = (
  λ (v, i).
      (let (id, id_of, allowed) = (id_iff raw).0 i in
        record { version = (version_iff raw).0 v; id = id; id_of = id_of; allowed = allowed }),
  λ d. ((version_iff raw).1 d.version, (id_iff raw).1 (d.id, d.id_of, d.allowed)),
)

pub request_reads :
    (from_value : FromValue RequestEnvelope) (value : Value) (e : RequestEnvelope)
    → (extract_request_envelope from_value value ≡ ok e) ↔ RequestReads from_value value e
unfolding extract_request_envelope
request_reads from_value value e = (
  λ h.
      (let (raw, found, h1) =
          >>=-eq-ok (locate_envelope value (codes "params") request_meta_key) _ h in
        let (f, read, h2) =
          >>=-eq-ok
            (map_err (classify_request_envelope_error raw) (deserialize_envelope from_value raw)) _
            h1 in
        let (version, h3) = >>-eq-ok (guard (str_eq f.version version_draft_01) _) _ h2 in
        let same : f ≡ e = ok-injective h3 in
        record {
          raw = raw;
          placed = (located_Placed value _ _ raw).0 found;
          read = (deserialize_iff from_value raw e).0 (map_err-eq-ok _ _ read ∙ ap ok same);
          version =
              ap (λ g. g.version) (sym same)
              ∙ (str_eq_iff f.version version_draft_01).0 (guard-eq-ok _ _ version);
        }),
  λ r.
      (let found = (located_Placed value _ _ r.raw).1 r.placed in
        let read = (deserialize_iff from_value r.raw e).1 r.read in
        ground (arith, found, read, r.version, str_eq_iff e.version version_draft_01)),
)

pub draft02_request_reads :
    (from_value : FromValue Draft02RequestEnvelope) (value : Value) (e : Draft02RequestEnvelope)
    → (extract_draft02_request_envelope from_value value ≡ ok e)
      ↔ Draft02RequestReads from_value value e
unfolding extract_draft02_request_envelope
draft02_request_reads from_value value e = (
  λ h.
      (let (raw, found, h1) =
          >>=-eq-ok (locate_envelope value (codes "params") request_meta_key) _ h in
        let (version, h2) = >>-eq-ok (require_draft02_version raw) _ h1 in
        let (id, h3) = >>-eq-ok (check_canonicalization_id raw) _ h2 in
        let (binding, h4) = >>-eq-ok (check_authorization_binding raw) _ h3 in
        record {
          raw = raw;
          placed = (located_Placed value _ _ raw).0 found;
          draft02 = (Draft02-iff raw).0 (version, id);
          binding = binding;
          read = (deserialize_iff from_value raw e).0 (map_err-eq-ok _ _ h4);
        }),
  λ r.
      (let found = (located_Placed value _ _ r.raw).1 r.placed in
        let (version, id) = (Draft02-iff r.raw).1 r.draft02 in
        let read = (deserialize_iff from_value r.raw e).1 r.read in
        rw (found, version, id, r.binding, read) refl),
)

pub response_reads :
    (from_value : FromValue ResponseEnvelope) (value : Value) (e : ResponseEnvelope)
    → (extract_response_envelope from_value value ≡ ok e) ↔ ResponseReads from_value value e
unfolding extract_response_envelope
response_reads from_value value e = (
  λ h.
      (let (raw, found, h1) =
          >>=-eq-ok (locate_envelope value (codes "result") response_meta_key) _ h in
        record {
          raw = raw;
          placed = (located_Placed value _ _ raw).0 found;
          read = (deserialize_iff from_value raw e).0 h1;
        }),
  λ r.
      (let found = (located_Placed value _ _ r.raw).1 r.placed in
        rw found ((deserialize_iff from_value r.raw e).1 r.read)),
)

pub draft02_response_reads :
    (from_value : FromValue Draft02ResponseEnvelope) (value : Value) (e : Draft02ResponseEnvelope)
    → (extract_draft02_response_envelope from_value value ≡ ok e)
      ↔ Draft02ResponseReads from_value value e
unfolding extract_draft02_response_envelope
draft02_response_reads from_value value e = (
  λ h.
      (let (raw, found, h1) =
          >>=-eq-ok (locate_envelope value (codes "result") response_meta_key) _ h in
        let (version, h2) = >>-eq-ok (require_draft02_version raw) _ h1 in
        let (id, h3) = >>-eq-ok (check_canonicalization_id raw) _ h2 in
        record {
          raw = raw;
          placed = (located_Placed value _ _ raw).0 found;
          draft02 = (Draft02-iff raw).0 (version, id);
          read = (deserialize_iff from_value raw e).0 h3;
        }),
  λ r.
      (let found = (located_Placed value _ _ r.raw).1 r.placed in
        let (version, id) = (Draft02-iff r.raw).1 r.draft02 in
        rw (found, version, id) ((deserialize_iff from_value r.raw e).1 r.read)),
)
