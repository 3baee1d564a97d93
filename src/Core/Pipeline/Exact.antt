-- ===== src/Core/Pipeline/Exact.antt =====
-- The exact sets of requests that the two verifiers of mcps-core/src/pipeline.rs accept.
use mcps.Prelude.{ℕ, Str, List, ok, ◌≡◌, ◌↔◌, sym, ap, ◌∙◌, subst}
use mcps.Prelude.Int.{ℤ}
use mcps.Core.Json.{Value}
use mcps.Core.Envelope.{RequestEnvelope, Draft02RequestEnvelope}
use mcps.Core.Replay.{ReplayCache}
use mcps.Core.Resolver.{TrustResolver}
use mcps.Core.Crypto.{Externals}
use mcps.Core.Pipeline.{
  VerificationConfig, VerifiedRequest, verified01, verified02, verify_request,
  verify_request_draft02,
}
use mcps.Core.Pipeline.Accepts.{view01, view02}
use mcps.Core.Constraints.Reads.{request_reads, draft02_request_reads}
use mcps.Core.Pipeline.Accepted.{
  Reports, Accepted01, Accepted02, verify_request-Accepted, verify_request_draft02-Accepted,
}
use mcps.Core.Pipeline.Complete.{verify_request_complete, verify_request_draft02_complete}

Reports-verified01 :
    (e : RequestEnvelope) (vr : VerifiedRequest) (hash : Str)
    → Reports (view01 e) vr
    → vr.request_hash ≡ hash
    → verified01 e hash ≡ vr
unfolding verified01
Reports-verified01 e vr hash r h = λ i. record {
  verified_signer = sym r.signer i;
  key_id = sym r.key_id i;
  on_behalf_of = sym r.on_behalf_of i;
  audience = sym r.audience i;
  authorization = sym r.authorization i;
  request_hash = sym h i;
  nonce = sym r.nonce i;
  issued_at = sym r.issued_at i;
  expires_at = sym r.expires_at i;
  canonicalization_id = sym r.canonicalization_id i;
}

Reports-verified02 :
    (e : Draft02RequestEnvelope) (vr : VerifiedRequest) (hash : Str)
    → Reports (view02 e) vr
    → vr.request_hash ≡ hash
    → verified02 e hash ≡ vr
unfolding verified02
Reports-verified02 e vr hash r h = λ i. record {
  verified_signer = sym r.signer i;
  key_id = sym r.key_id i;
  on_behalf_of = sym r.on_behalf_of i;
  audience = sym r.audience i;
  authorization = sym r.authorization i;
  request_hash = sym h i;
  nonce = sym r.nonce i;
  issued_at = sym r.issued_at i;
  expires_at = sym r.expires_at i;
  canonicalization_id = sym r.canonicalization_id i;
}

module _ (x : Externals) (resolver : TrustResolver x.VerificationKey) {S : Type 0}
    (cache : ReplayCache S) (config : VerificationConfig) (s : S) (raw : List ℕ) (now : ℤ)
    (vr : VerifiedRequest) (s' : S) where
  -- The draft-01 verifier accepts, with this evidence and this state of the cache, exactly when the
  -- bytes parse as a message with an id, no batch, in the domain of canonical JSON, whose draft-01
  -- envelope has a hash of an authorization that starts with `sha256:`, names a principal, the
  -- expected audience, the algorithm Ed25519 and a window that holds the clock, and carries a
  -- signature that verifies over the preimage under the key that the resolver gives for its signer
  -- and key id; the cache takes its triple as fresh up to its expiry and leaves this state; and
  -- each field of the evidence is that of the envelope, with the hash of the preimage.
  pub verify_request_exact :
      (verify_request x resolver cache config s raw now ≡ (ok vr, s'))
      ↔ ((value : Value) × Accepted01 x resolver cache config s raw now value vr s')
  verify_request_exact = (
    λ h.
        (let (value, a) =
            verify_request-Accepted x resolver cache config s raw now vr (ap (λ r. r.0) h) in
          (
            value,
            subst (λ t. Accepted01 x resolver cache config s raw now value vr t) (ap (λ r. r.1) h)
                a,
          )),
    λ (value, (e, found, prefixed, a)).
        (let done =
            verify_request_complete x resolver cache config s raw now value e a.checked
              ((request_reads _ value e).1 found) prefixed a.unseen in
          let same = Reports-verified01 e vr _ a.reports a.hash in
          done ∙ λ i. (ok (same i), a.stored i)),
  )

  -- The draft-02 verifier accepts, with this evidence and this state of the cache, exactly when the
  -- bytes parse as a message with an id, no batch, in the domain of canonical JSON, whose draft-02
  -- envelope names a principal, the expected audience, the algorithm Ed25519 and a window that
  -- holds the clock, and carries a signature that verifies over the preimage under the key that the
  -- resolver gives for its signer and key id; the cache takes its triple as fresh up to its expiry
  -- and leaves this state; and each field of the evidence is that of the envelope, with the hash of
  -- the preimage.
  pub verify_request_draft02_exact :
      (verify_request_draft02 x resolver cache config s raw now ≡ (ok vr, s'))
      ↔ ((value : Value) × Accepted02 x resolver cache config s raw now value vr s')
  verify_request_draft02_exact = (
    λ h.
        (let (value, a) =
            verify_request_draft02-Accepted x resolver cache config s raw now vr
              (ap (λ r. r.0) h) in
          (
            value,
            subst (λ t. Accepted02 x resolver cache config s raw now value vr t) (ap (λ r. r.1) h)
                a,
          )),
    λ (value, (e, found, a)).
        (let done =
            verify_request_draft02_complete x resolver cache config s raw now value e a.checked
              ((draft02_request_reads _ value e).1 found) a.unseen in
          let same = Reports-verified02 e vr _ a.reports a.hash in
          done ∙ λ i. (ok (same i), a.stored i)),
  )
