-- ===== src/Client/Request/Returns.antt =====
-- The construction of a request in mcps-client-core/src/request.rs ends without a panic.
use mcps.Prelude.{
  ℕ, Str, List, some, Option-cases, Result, Result-cases, ok, err, ◌≡◌, ◌≢◌, inl, inr, arith,
}
use mcps.Core.Error.{McpsError}
use mcps.Core.Json.{Value, Members}
use mcps.Core.Signing.{signing_preimage, request_hash, request}
use mcps.Core.Signing.Written.{write_signature, write_signature_path}
use mcps.Core.Libraries.{Libraries}
use mcps.Core.Failure.{panicked, or_refuse, or_refused, or_panic}
use mcps.Client.Request.{RequestSigningInputs, check_canonicalization_id, build_signed_request_with}
use mcps.Client.Request.Signed.{unsigned_of, unsigned_path}

module _ (l : Libraries) (id : Value) (method : Str) (params : Members)
    (inputs : RequestSigningInputs) (sign : List ℕ → Result McpsError Str) where
  -- Behind the signature, nothing panics.
  written_returns :
      (binding signed : Value) (preimage : List ℕ) (signature : Str)
      → l.binding_to_value inputs.authorization_binding ≡ some binding
      → check_canonicalization_id inputs.canonicalization_id ≡ ok tt
      → signing_preimage request (unsigned_of l id method params inputs sign binding) ≡ ok preimage
      → sign preimage ≡ ok signature
      → write_signature request signature (unsigned_of l id method params inputs sign binding)
        ≡ some signed
      → build_signed_request_with l id method params inputs sign ≢ err panicked
  unfolding build_signed_request_with or_refuse or_refused or_panic
  written_returns binding signed preimage signature bound p q r w h =
      elim (Result-cases (request_hash l.externals signed)) [
        | inr (e, k) ↦ absurd (ground (arith, p, bound, q, r, w, k, h))
        | inl (hash, k) ↦ elim (Option-cases (l.to_vec signed)) [
          | inl m ↦ absurd (ground (arith, p, bound, q, r, w, k, m, h))
          | inr (bytes, m) ↦ absurd (ground (arith, p, bound, q, r, w, k, m, h))
        ]
      ]

  -- Nothing panics when the binding has a JSON value.
  pub build_signed_request-returns :
      (binding : Value)
      → l.binding_to_value inputs.authorization_binding ≡ some binding
      → build_signed_request_with l id method params inputs sign ≢ err panicked
  unfolding build_signed_request_with or_refuse or_refused or_panic
  build_signed_request-returns binding bound h =
      elim (Result-cases (check_canonicalization_id inputs.canonicalization_id)) [
        | inr (e, p) ↦ absurd (ground (arith, p, h))
        | inl (_, p) ↦
            elim (Result-cases
              (signing_preimage request (unsigned_of l id method params inputs sign binding))) [
                | inr (e, q) ↦ absurd (ground (arith, p, bound, q, h))
                | inl (preimage, q) ↦ elim (Result-cases (sign preimage)) [
                  | inr (e, r) ↦ absurd (ground (arith, p, bound, q, r, h))
                  | inl (signature, r) ↦
                      written_returns binding _ preimage signature bound p q r
                        (write_signature_path request signature
                          (unsigned_path l id method params inputs sign binding))
                        h
                ]
              ]
      ]
