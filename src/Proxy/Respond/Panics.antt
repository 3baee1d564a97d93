-- ===== src/Proxy/Respond/Panics.antt =====
-- When the proxy of mcps-proxy/src/proxy.rs panics over the answer of the inner server.
use mcps.Prelude.{
  ℕ, Str, codes, str_eq, List, ◌≡◌, ◌↔◌, ◌≢◌, refl, ap, Bool, true, false, Option, some, none,
  Option-cases, Result-cases, inl, inr, Result, ok, err, arith,
}
use mcps.Prelude.Int.{ℤ}
use mcps.Core.Ids.{response_meta_key, response_wrap_value_key, response_wrap_inner_error_key}
use mcps.Core.Json.{
  Value, Members, null, bool, number, string, array, object, no_members, member, get, get_member,
  index_mut, insert_member, value_or_null,
}
use mcps.Core.Signing.{signing_preimage, response}
use mcps.Core.Signing.Preimage.{rebuilt}
use mcps.Core.Pipeline.{VerifiedRequest}
use mcps.Core.Failure.{Failure, panicked, or_refuse, or_panic, or_refused}
use mcps.Core.Libraries.{Libraries}
use mcps.Proxy.Scrub.{scrub_proxy_owned_meta, scrub_value, scrub_members}
use mcps.Proxy.Respond.{
  wrap_result, signature_members, build_response_envelope, response_object, at_envelope,
  with_envelope, build_signed_response,
}
use mcps.Proxy.Respond.Signed.{envelope-Names, unsigned-PathTo, with_signature_path}

-- The values that a member can be written to.
abbrev pub is_indexable : Value → Bool
is_indexable null = true
is_indexable (object ms) = true
is_indexable _ = false

index_mut_total :
    (key : Str) (v o : Value) → (index_mut key (λ old. some v) o ≡ none) ↔ (is_indexable o ≡ false)
unfolding index_mut
index_mut_total key v null = ((λ h. cc), (λ h. cc))
index_mut_total key v (object ms) = ((λ h. cc), (λ h. cc))
index_mut_total key v (bool b) = ((λ h. refl), (λ h. refl))
index_mut_total key v (number n) = ((λ h. refl), (λ h. refl))
index_mut_total key v (string s) = ((λ h. refl), (λ h. refl))
index_mut_total key v (array vs) = ((λ h. refl), (λ h. refl))

index_mut_object :
    (key : Str) (f : Value → Option Value) (ms : Members)
    → (index_mut key f (object ms) ≡ none) ↔ (f (value_or_null (get_member ms key)) ≡ none)
unfolding index_mut
index_mut_object key f ms = elim (Option-cases (f (value_or_null (get_member ms key)))) [
  | inl p ↦ ((λ h. p), (λ h. ground (arith, p)))
  | inr (v, p) ↦ ((λ h. absurd (ground (arith, p, h))), (λ h. absurd (cc)))
]

with_envelope_panics :
    (envelope id : Value) (ms : Members)
    → (with_envelope envelope (response_object id (object ms)) ≡ none)
      ↔ (is_indexable (value_or_null (get_member ms (codes "_meta"))) ≡ false)
unfolding with_envelope at_envelope response_object get_member str_eq codes
with_envelope_panics envelope id ms =
    let at_response = index_mut response_meta_key (λ old. some envelope) in
    let outer = index_mut_object (codes "result") (index_mut (codes "_meta") at_response) (
      member (codes "jsonrpc") (string (codes "2.0"))
        (member (codes "id") id (member (codes "result") (object ms) no_members))) in
    let middle = index_mut_object (codes "_meta") at_response ms in
    let innermost =
      index_mut_total response_meta_key envelope (value_or_null (get_member ms (codes "_meta"))) in
    (λ h. innermost.0 (middle.0 (outer.0 h)), λ h. outer.1 (middle.1 (innermost.1 h)))

abbrev wrapped : Value → Members
wrapped v = member response_wrap_value_key v no_members

wrap_result-some :
    (inner v : Value)
    → get inner (codes "result") ≡ some v
    → (ms : Members) × (wrap_result inner ≡ object ms)
unfolding wrap_result
wrap_result-some inner (object ms) p = (ms, ground (arith, p))
wrap_result-some inner null p = (wrapped null, ground (arith, p))
wrap_result-some inner (bool b) p = (wrapped (bool b), ground (arith, p))
wrap_result-some inner (number n) p = (wrapped (number n), ground (arith, p))
wrap_result-some inner (string s) p = (wrapped (string s), ground (arith, p))
wrap_result-some inner (array vs) p = (wrapped (array vs), ground (arith, p))

wrap_result_object : (inner : Value) → (ms : Members) × (wrap_result inner ≡ object ms)
unfolding wrap_result
wrap_result_object inner = elim (Option-cases (get inner (codes "result"))) [
  | inl p ↦ (member response_wrap_inner_error_key inner no_members, ground (arith, p))
  | inr (v, p) ↦ wrap_result-some inner v p
]

scrubbed_object :
    (inner : Value) → (ms : Members) × (scrub_proxy_owned_meta (wrap_result inner) ≡ object ms)
unfolding scrub_proxy_owned_meta scrub_value
scrubbed_object inner =
    let (ms, e) = wrap_result_object inner in (scrub_members false ms, ap scrub_proxy_owned_meta e)

-- The `_meta` of the result that is signed, null when it is absent.
unfoldable pub meta_of_answer : Value → Value
meta_of_answer inner =
    value_or_null (get (scrub_proxy_owned_meta (wrap_result inner)) (codes "_meta"))

answer_panics :
    (envelope id inner : Value)
    → (with_envelope envelope (response_object id (scrub_proxy_owned_meta (wrap_result inner)))
        ≡ none)
      ↔ (is_indexable (meta_of_answer inner) ≡ false)
unfolding meta_of_answer get
answer_panics envelope id inner =
    let (ms, e) = scrubbed_object inner in rw e (with_envelope_panics envelope id ms)

module _ (l : Libraries) (sign_response : List ℕ → Option Str) (server_signer key_id : Str)
    (inner_response : List ℕ) (verified : VerifiedRequest) (now : ℤ) (id inner envelope : Value)
    (parsed : l.externals.from_slice inner_response ≡ some inner)
    (built : build_response_envelope server_signer key_id verified now ≡ ok envelope) where
  abbrev answer : Result Failure (List ℕ)
  answer = build_signed_response l sign_response server_signer key_id inner_response verified now id

  -- Behind the envelope, nothing panics.
  answer_envelope :
      (unsigned : Value)
      → with_envelope envelope (response_object id (scrub_proxy_owned_meta (wrap_result inner)))
        ≡ some unsigned
      → answer ≢ err panicked
  unfolding build_signed_response or_refuse or_panic or_refused
  answer_envelope unsigned written h =
      let names = envelope-Names server_signer key_id verified now envelope _ refl built in
      let result = scrub_proxy_owned_meta (wrap_result inner) in
      let (container, meta, path) =
        unsigned-PathTo server_signer key_id verified now id result envelope unsigned names
          written in
      elim (Result-cases (signing_preimage response unsigned)) [
        | inr (e, p) ↦ absurd (ground (arith, parsed, built, written, p, h))
        | inl (preimage, p) ↦ elim (Option-cases (sign_response preimage)) [
          | inl q ↦ absurd (ground (arith, parsed, built, written, p, q, h))
          | inr (signature, q) ↦
              let signed_as =
                with_signature_path signature unsigned container meta envelope
                  (signature_members key_id) path in
              let signed =
                rebuilt response unsigned container meta envelope
                  (insert_member (codes "value") (string signature) (signature_members key_id)) in
              elim (Option-cases (l.to_vec signed)) [
                | inl r ↦ absurd (ground (arith, parsed, built, written, p, q, signed_as, r, h))
                | inr (bytes, r) ↦
                    absurd (ground (arith, parsed, built, written, p, q, signed_as, r, h))
              ]
        ]
      ]

  -- Over an answer of the inner server that is JSON, for which the envelope is built, the signing
  -- of the response panics exactly when the `_meta` of the scrubbed and wrapped answer is there and
  -- is neither null nor an object.
  pub response_panics : (answer ≡ err panicked) ↔ (is_indexable (meta_of_answer inner) ≡ false)
  unfolding build_signed_response or_refuse or_panic or_refused
  response_panics =
      elim (Option-cases (
        with_envelope envelope (response_object id (scrub_proxy_owned_meta (wrap_result inner))))) [
          | inl p ↦
              (λ h. (answer_panics envelope id inner).0 p, λ h. ground (arith, parsed, built, p))
          | inr (unsigned, p) ↦ (
            λ h. absurd (answer_envelope unsigned p h),
            λ h.
                (let no_write = (answer_panics envelope id inner).1 h in
                  absurd (ground (arith, p, no_write))),
          )
        ]
