-- ===== src/Proxy/Handle/Admitted.antt =====
-- What it takes for mcps-proxy/src/proxy.rs to hand a request to the inner server.
use mcps.Prelude.{
  ℕ, Str, Bool, false, Bool-cases, Option, none, some, Option-cases, List, ◌≡◌, ◌⊎◌, inl, inr, refl,
  Result, Result-cases, ok, err, arith, >>=-eq-ok, >>-eq-ok, ap, ◌∙◌,
}
use mcps.Prelude.Int.{ℤ}
use mcps.Core.Json.{Value}
use mcps.Core.Constraints.{Check}
use mcps.Core.Pipeline.{VerifiedRequest}
use mcps.Core.Dispatch.{verify_request_dispatch}
use mcps.Policy.Error.{AuthorizationDecision, allow, deny}
use mcps.Policy.Evaluator.{evaluate}
use mcps.Core.Libraries.{Libraries}
use mcps.Proxy.Proxying.{Proxy, PolicyEnforcement}
use mcps.Proxy.Forward.{build_forwarded_request}
use mcps.Proxy.Handle.{
  Refusal, verify, enforce_policy, assert_identity, or_else, by_core_of, bind_transport, admit,
  dispatch_and_sign, handle_verified, handle_with_transport,
}

module _ (l : Libraries) {S Identity : Type 0} (p : Proxy l S Identity) where
  -- The policy allows the request, when one is enforced.
  pub record Allowed (enforcement : PolicyEnforcement l.externals.VerificationKey) (raw : List ℕ)
      (verified : VerifiedRequest) (now : ℤ) : Type 0 where
    pub request : Value
    pub parsed : l.externals.from_slice raw ≡ some request
    pub allowed :
        evaluate l.externals enforcement.evaluator (record {
          verified = verified;
          request = request;
          resolver = p.resolver;
          revocation = enforcement.revocation;
          now_unix = now;
        })
        ≡ allow

  -- The identity that the signer is bound to: the asserted one, or that of the channel.
  pub record Bound (binding : Str → Option Identity → Check) (verified : VerifiedRequest) (now : ℤ)
      (channel : Option Identity) (header : Option Str) : Type 0 where
    pub identity : Option Identity
    pub source :
        ((p.lb_assertion ≡ none) × (identity ≡ channel))
        ⊎ ((lb : Str → Str → ℤ → Option Identity) × (value : Str) × (asserted : Identity)
            × (p.lb_assertion ≡ some lb)
            × (header ≡ some value)
            × (lb value verified.request_hash now ≡ some asserted)
            × (identity ≡ some asserted))
    pub checked : binding verified.verified_signer identity ≡ ok tt

  pub record Admitted (s : S) (raw : List ℕ) (now : ℤ) (channel : Option Identity)
      (header : Option Str) (forwarded : List ℕ) : Type 0 where
    pub verified : VerifiedRequest
    pub accepted :
        (verify_request_dispatch l.externals p.resolver p.replay p.version_policy p.config s raw
          now).0
        ≡ ok verified
    pub policy :
        (enforcement : PolicyEnforcement l.externals.VerificationKey)
        → p.policy ≡ some enforcement
        → Allowed enforcement raw verified now
    pub transport :
        (binding : Str → Option Identity → Check)
        → p.transport_binding ≡ some binding
        → Bound binding verified now channel header
    pub built : build_forwarded_request l p.server_signer raw verified now ≡ ok forwarded

  enforce_policy-Allowed :
      (raw : List ℕ) (verified : VerifiedRequest) (now : ℤ)
      (enforcement : PolicyEnforcement l.externals.VerificationKey)
      → enforce_policy l p (l.externals.from_slice raw) verified now ≡ ok tt
      → p.policy ≡ some enforcement
      → Allowed enforcement raw verified now
  unfolding enforce_policy
  enforce_policy-Allowed raw verified now enforcement h q =
      elim (Option-cases (l.externals.from_slice raw)) [
        | inl none_there ↦ absurd (ground (arith, q, none_there))
        | inr (request, there) ↦ record {
          request = request;
          parsed = there;
          allowed = decided _ (rw (q, there) at h);
        }
      ]
    where
      decided :
          (d : AuthorizationDecision)
          → ◌≡◌ {A = Result Refusal (Unit {0})}
              (elim d [ allow ↦ ok tt | deny e ↦ err (Refusal.by_policy e) ])
              (ok tt)
          → d ≡ allow
      decided allow k = refl
      decided (deny e) k = cc

  by_core_of-ok : (c : Check) → by_core_of c ≡ ok tt → c ≡ ok tt
  unfolding by_core_of
  by_core_of-ok (ok _) h = refl
  by_core_of-ok (err e) h = cc

  transport-Bound :
      (verified : VerifiedRequest) (now : ℤ) (channel : Option Identity) (header : Option Str)
      (asserted : Option Identity) (binding : Str → Option Identity → Check)
      → assert_identity l p header verified now ≡ ok asserted
      → bind_transport l p asserted verified channel ≡ ok tt
      → p.transport_binding ≡ some binding
      → Bound binding verified now channel header
  unfolding assert_identity bind_transport or_else
  transport-Bound verified now channel header asserted binding h k q =
      let checked = by_core_of-ok _ (rw (q, bind_transport) at k) in
      elim (Option-cases p.lb_assertion) [
        | inl none_there ↦
            let none_asserted : asserted ≡ none = ground (arith, h, none_there) in
            record {
              identity = or_else asserted channel;
              source = inl (none_there, rw none_asserted refl);
              checked = checked;
            }
        | inr (lb, there) ↦ elim (Option-cases header) [
          | inl no_header ↦ absurd (ground (arith, h, there, q, no_header))
          | inr (value, given) ↦ elim (Option-cases (lb value verified.request_hash now)) [
            | inl rejected ↦ absurd (ground (arith, h, there, q, given, rejected))
            | inr (identity, vouched) ↦
                let same : asserted ≡ some identity = ground (arith, h, there, q, given, vouched) in
                record {
                  identity = or_else asserted channel;
                  source = inr (lb, value, identity, there, given, vouched, rw same refl);
                  checked = checked;
                }
          ]
        ]
      ]

  admitted :
      (s : S) (raw : List ℕ) (now : ℤ) (channel : Option Identity) (header : Option Str)
      (verified : VerifiedRequest) (forwarded : List ℕ)
      → (verify_request_dispatch l.externals p.resolver p.replay p.version_policy p.config s raw
          now).0
        ≡ ok verified
      → (handle_verified l p raw verified now channel header).forwarded ≡ some forwarded
      → Admitted s raw now channel header forwarded
  unfolding handle_verified dispatch_and_sign admit
  admitted s raw now channel header verified forwarded v h =
      elim (Result-cases (admit l p (l.externals.from_slice raw) verified now channel header)) [
        | inr (refusal, a) ↦ absurd (ground (arith, a, h))
        | inl (_, a) ↦
            elim (Result-cases (build_forwarded_request l p.server_signer raw verified now)) [
              | inr (e, b) ↦ absurd (ground (arith, a, b, h))
              | inl (bytes, b) ↦
                  let same : bytes ≡ forwarded = ground (arith, a, b, h) in
                  let (policy, rest) =
                    >>-eq-ok (enforce_policy l p (l.externals.from_slice raw) verified now) _ a in
                  let (asserted, identity, bound) =
                    >>=-eq-ok (assert_identity l p header verified now) _ rest in
                  record {
                    verified = verified;
                    accepted = v;
                    policy = λ enforcement q.
                        enforce_policy-Allowed raw verified now enforcement policy q;
                    transport = λ binding q.
                        transport-Bound verified now channel header asserted binding identity bound
                          q;
                    built = b ∙ ap ok same;
                  }
            ]
      ]

  -- The proxy hands bytes to the inner server only when the replay cache was not borrowed, the core
  -- accepted the request, the policy that is enforced allows it, the binding that is configured
  -- passes for the signer and the identity of the channel, or the one that the load balancer
  -- asserts for the hash of this request, and the bytes are the request that is built for the inner
  -- server.
  pub handle-Admitted :
      (borrowed : Bool) (s : S) (raw : List ℕ) (now : ℤ) (channel : Option Identity)
      (header : Option Str) (forwarded : List ℕ)
      → (handle_with_transport l p borrowed s raw now channel header).0.forwarded ≡ some forwarded
      → (borrowed ≡ false) × Admitted s raw now channel header forwarded
  unfolding handle_with_transport verify
  handle-Admitted borrowed s raw now channel header forwarded h = elim (Bool-cases borrowed) [
    | inl busy ↦ absurd (ground (arith, busy, h))
    | inr idle ↦
        elim (Result-cases
          (verify_request_dispatch l.externals p.resolver p.replay p.version_policy p.config s raw
            now).0) [
              | inr (e, v) ↦ absurd (ground (arith, idle, v, h))
              | inl (verified, v) ↦ (
                idle,
                admitted s raw now channel header verified forwarded v (ground (arith, idle, v, h)),
              )
            ]
  ]
