-- ===== src/Core/Response/Absent.antt =====
-- When the draft-02 verifier of responses of mcps-core/src/pipeline.rs says that there is no envelope.
use mcps.Prelude.{
  codes, some, none, Result, ok, err, ◌≡◌, ◌↔◌, ◌⊎◌, inl, inr, arith, Option-cases, Bool, guard,
  FailsOnly-guard, >>=-eq-err, sym, ◌≢◌,
}
use mcps.Core.Error.{McpsError, missing_envelope}
use mcps.Core.Ids.{response_meta_key}
use mcps.Core.Json.{Value, get, as_object}
use mcps.Core.Constraints.{
  FromValue, locate_envelope, require_draft02_version, check_canonicalization_id,
  classify_canonicalization_id, deserialize_envelope, extract_draft02_response_envelope,
}
use mcps.Core.Canonical.Fails.{canonicalize_json_value-Fails}
use mcps.Core.Envelope.{Draft02ResponseEnvelope}
use mcps.Core.Signing.{
  strip_signature_value, strip_observability_meta, signing_preimage, response, container_key,
  meta_key,
}

-- The value at the place of the envelope of a response.
pub record EnvelopeAt (value envelope : Value) : Type 0 where
  pub container : Value
  pub meta : Value
  pub in_message : get value (codes "result") ≡ some container
  pub in_container : get container (codes "_meta") ≡ some meta
  pub in_meta : get meta response_meta_key ≡ some envelope

-- The `signature` member of the envelope is absent or is not an object.
abbrev pub Blockless : Value → Type 0
Blockless envelope =
    (block : Value) → get envelope (codes "signature") ≡ some block → as_object block ≡ none

module _ (value : Value) where
  abbrev located : Result McpsError Value
  located = locate_envelope value (codes "result") response_meta_key

  pub located_cases :
      ((envelope : Value) × EnvelopeAt value envelope × (located ≡ ok envelope))
      ⊎ (((envelope : Value) → ¬ EnvelopeAt value envelope) × (located ≡ err missing_envelope))
  unfolding locate_envelope
  located_cases = elim (Option-cases (get value (codes "result"))) [
    | inl p ↦ inr ((λ e at. let q = at.in_message in cc), ground (arith, p))
    | inr (container, p) ↦ elim (Option-cases (get container (codes "_meta"))) [
      | inl q ↦ inr (
        (λ e at.
            let r = at.in_message in
            let same : at.container ≡ container = cc in let t = rw same at at.in_container in cc),
        ground (arith, p, q),
      )
      | inr (meta, q) ↦ elim (Option-cases (get meta response_meta_key)) [
        | inl r ↦ inr (
          (λ e at.
              let p' = at.in_message in
              let same : at.container ≡ container = cc in
              let q' = rw same at at.in_container in
              let same' : at.meta ≡ meta = cc in let r' = rw same' at at.in_meta in cc),
          ground (arith, p, q, r),
        )
        | inr (envelope, r) ↦ inl (
          envelope,
          record {
            container = container;
            meta = meta;
            in_message = p;
            in_container = q;
            in_meta = r;
          },
          ground (arith, p, q, r),
        )
      ]
    ]
  ]

  -- The preimage is missing exactly when the block is.
  pub preimage_missing :
      (envelope : Value)
      → EnvelopeAt value envelope
      → (signing_preimage response value ≡ err missing_envelope) ↔ Blockless envelope
  unfolding signing_preimage strip_signature_value container_key meta_key
  preimage_missing envelope at = elim (Option-cases (get envelope (codes "signature"))) [
    | inl p ↦
        ((λ h block q. cc), (λ h. ground (arith, at.in_message, at.in_container, at.in_meta, p)))
    | inr (block, p) ↦ elim (Option-cases (as_object block)) [
      | inl q ↦ (
        (λ h other r. (let same : other ≡ block = cc in rw same q)),
        (λ h. ground (arith, at.in_message, at.in_container, at.in_meta, p, q)),
      )
      | inr (fields, q) ↦ (
        (λ h. elim (>>=-eq-err (strip_signature_value response value) _ h) [
          | inl missing ↦ absurd (ground (arith, at.in_message, at.in_container, at.in_meta, p, q))
          | inr (stripped, there, fails) ↦ absurd (
              let e =
                (canonicalize_json_value-Fails (strip_observability_meta response stripped)).at _
                  fails in
              cc)
        ]),
        (λ h. absurd (let r = h block p in cc)),
      )
    ]
  ]

-- No other step of the extraction says that the envelope is missing.
differs : (b : Bool) (e : McpsError) → guard b e ≡ err missing_envelope → e ≡ missing_envelope
differs b e h = sym ((FailsOnly-guard b).at _ h)

version_found : (raw : Value) → require_draft02_version raw ≢ err missing_envelope
unfolding require_draft02_version
version_found raw h = ground arith

id_found : (raw : Value) → check_canonicalization_id raw ≢ err missing_envelope
unfolding check_canonicalization_id classify_canonicalization_id
id_found raw h = ground arith

deserialized_found :
    {A : Type 0} (from_value : FromValue A) (raw : Value)
    → deserialize_envelope from_value raw ≢ err missing_envelope
unfolding deserialize_envelope
deserialized_found from_value raw h = ground arith

pub extract_missing :
    (from_value : FromValue Draft02ResponseEnvelope) (value : Value)
    → (extract_draft02_response_envelope from_value value ≡ err missing_envelope)
      ↔ ((envelope : Value) → ¬ EnvelopeAt value envelope)
unfolding extract_draft02_response_envelope
extract_missing from_value value = elim (located_cases value) [
  | inr (none_there, p) ↦ ((λ h. none_there), (λ h. ground (arith, p)))
  | inl (envelope, at, p) ↦ (
    (λ h. elim (>>=-eq-err (locate_envelope value (codes "result") response_meta_key) _ h) [
      | inl q ↦ absurd cc
      | inr (raw, q, h1) ↦ elim (>>=-eq-err (require_draft02_version raw) _ h1) [
        | inl fails ↦ absurd (version_found raw fails)
        | inr (u, r, h2) ↦ elim (>>=-eq-err (check_canonicalization_id raw) _ h2) [
          | inl fails ↦ absurd (id_found raw fails)
          | inr (u', r', fails) ↦ absurd (deserialized_found from_value raw fails)
        ]
      ]
    ]),
    (λ h. absurd (h envelope at)),
  )
]
