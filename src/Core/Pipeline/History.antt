-- ===== src/Core/Pipeline/History.antt =====
-- Histories of a verifier: requests and prunings of its cache in memory, at whatever instants, under
-- whatever policy and trust. No history lets the same bytes in twice.
use mcps.Prelude.{
  ℕ, Str, List, [], ◌∷◌, All, ◌≡◌, refl, sym, ◌∙◌, ap, ◌⊎◌, inl, inr, some, Result, ok, arith,
  Result-cases, ok-injective,
}
use mcps.Prelude.Int.{ℤ, ◌≤ℤ◌, ◌<ℤ◌, saturating_add}
use mcps.Core.Error.{McpsError}
use mcps.Core.Time.{parse_rfc3339_utc}
use mcps.Core.Replay.{InMemoryReplayCache, ReplayKey, in_memory, check_and_insert, prune, fresh}
use mcps.Core.Replay.Pruning.{
  check_and_insert_keeps, check_and_insert_records, check_and_insert_refuses, prune_keeps,
}
use mcps.Core.Resolver.{TrustResolver}
use mcps.Core.Crypto.{Externals}
use mcps.Core.Pipeline.{
  VerificationConfig, VerifiedRequest, admit, check_request, check_request_draft02, verify_request,
  verify_request_draft02,
}
use mcps.Core.Dispatch.{ExpectedVersionPolicy, verify_request_dispatch}
use mcps.Core.Pipeline.Cache.{dispatch-Authentic, dispatch_cases, Authentic-live}
use mcps.Core.Pipeline.Claims.{Claims, claims, claims_of, dispatch-claims, select_version_unique}

-- The cache as it was, or after one check.
abbrev Effect : InMemoryReplayCache → InMemoryReplayCache → Type 0
Effect c c' = (c' ≡ c) ⊎ ((k : ReplayKey) × (t : ℤ) × (c' ≡ (check_and_insert c k t).1))

admit-Effect :
    {A : Type 0} (c : InMemoryReplayCache) (signer audience nonce expires_at : Str)
    (done : Result McpsError A)
    → Effect c (admit in_memory c signer audience nonce expires_at done).1
unfolding admit
admit-Effect c signer audience nonce expires_at done =
    elim (Result-cases (parse_rfc3339_utc expires_at)) [
      | inl (t, p) ↦ inr ((signer, audience, nonce), t, ground (arith, p))
      | inr (e, p) ↦ inl (ground (arith, p))
    ]

module _ (x : Externals) (config : VerificationConfig) where
  pub data Event : Type 0 where
    verifies : TrustResolver x.VerificationKey → ExpectedVersionPolicy → List ℕ → ℤ → Event
    prunes : ℤ → Event

  abbrev pub instant : Event → ℤ
  instant (verifies resolver policy raw now) = now
  instant (prunes now) = now

  abbrev pub verdict :
      TrustResolver x.VerificationKey
      → ExpectedVersionPolicy
      → InMemoryReplayCache
      → List ℕ
      → ℤ
      → Result McpsError VerifiedRequest × InMemoryReplayCache
  verdict resolver policy = verify_request_dispatch x resolver in_memory policy config

  after : InMemoryReplayCache → Event → InMemoryReplayCache
  after c (verifies resolver policy raw now) = (verdict resolver policy c raw now).1
  after c (prunes now) = prune c now

  pub history : InMemoryReplayCache → List Event → InMemoryReplayCache
  history c [] = c
  history c (e ∷ es) = history (after c e) es

  verdict-Effect :
      (resolver : TrustResolver x.VerificationKey) (policy : ExpectedVersionPolicy)
      (c : InMemoryReplayCache) (raw : List ℕ) (now : ℤ)
      → Effect c (verdict resolver policy c raw now).1
  unfolding verify_request verify_request_draft02
  verdict-Effect resolver policy c raw now =
      dispatch_cases x resolver in_memory config c raw now policy (λ r. Effect c r.1)
        (λ e. inl refl)
        (elim (Result-cases (check_request x resolver config raw now)) [
          | inr (e, p) ↦ inl (ground (arith, p))
          | inl ((value, e), p) ↦ rw (p, verify_request) (admit-Effect c _ _ _ _ _)
        ])
        (elim (Result-cases (check_request_draft02 x resolver config raw now)) [
          | inr (e, p) ↦ inl (ground (arith, p))
          | inl ((value, e), p) ↦ rw (p, verify_request_draft02) (admit-Effect c _ _ _ _ _)
        ])

  -- The triple is still recorded until `r`, or that instant has passed.
  abbrev Held : ReplayKey → ℤ → ℤ → InMemoryReplayCache → Type 0
  Held k r later c = (c.seen k ≡ some r) ⊎ (r <ℤ later)

  Effect-Held :
      (k : ReplayKey) (r later : ℤ) (c c' : InMemoryReplayCache)
      → Effect c c'
      → Held k r later c
      → Held k r later c'
  Effect-Held k r later c c' effect (inr past) = inr past
  Effect-Held k r later c c' (inl same) (inl held) = inl (rw same held)
  Effect-Held k r later c c' (inr (j, t, checked)) (inl held) =
      inl (rw checked (check_and_insert_keeps c k j t r held))

  after-Held :
      (k : ReplayKey) (r later : ℤ) (c : InMemoryReplayCache) (e : Event)
      → instant e ≤ℤ later
      → Held k r later c
      → Held k r later (after c e)
  unfolding after
  after-Held k r later c (verifies resolver policy raw now) h held =
      Effect-Held k r later c _ (verdict-Effect resolver policy c raw now) held
  after-Held k r later c (prunes now) h (inr past) = inr past
  after-Held k r later c (prunes now) h (inl held) = elim (prune_keeps c k now r held) [
    | inl kept ↦ inl kept
    | inr gone ↦ inr (omega arith)
  ]

  history-Held :
      (k : ReplayKey) (r later : ℤ) (c : InMemoryReplayCache) (es : List Event)
      → All (λ e. instant e ≤ℤ later) es
      → Held k r later c
      → Held k r later (history c es)
  unfolding history
  history-Held k r later c [] h held = held
  history-Held k r later c (e ∷ es) h held =
      history-Held k r later (after c e) es h.1 (after-Held k r later c e h.0 held)

  fresh_is_late :
      (k : ReplayKey) (r later t : ℤ) (c : InMemoryReplayCache)
      → Held k r later c
      → (check_and_insert c k t).0 ≡ ok fresh
      → r <ℤ later
  fresh_is_late k r later t c (inr past) h = past
  fresh_is_late k r later t c (inl held) h = absurd (check_and_insert_refuses c k t r held h)

  -- Once the bytes of a request are accepted, no history of requests and prunings, none of them
  -- after `later`, lets the same bytes in again at `later`, under whatever policies and resolvers,
  -- when the cache in memory is made with the skew of the configuration.
  pub no_second_accept :
      (resolver resolver' : TrustResolver x.VerificationKey)
      (policy policy' : ExpectedVersionPolicy) (c : InMemoryReplayCache) (raw : List ℕ)
      (now later : ℤ) (es : List Event) (vr vr' : VerifiedRequest)
      → c.max_clock_skew_secs ≡ config.max_clock_skew_secs
      → (verdict resolver policy c raw now).0 ≡ ok vr
      → All (λ e. instant e ≤ℤ later) es
      → ¬ (
          (verdict resolver' policy' (history (verdict resolver policy c raw now).1 es) raw later).0
          ≡ ok vr')
  no_second_accept resolver resolver' policy policy' c raw now later es vr vr' skew first timely
        second =
      let c1 = (verdict resolver policy c raw now).1 in
      let c2 = history c1 es in
      let (one, took1) = dispatch-claims x resolver config c raw now vr policy first in
      let (two, took2) = dispatch-claims x resolver' config c2 raw later vr' policy' second in
      let same_version : one.0 ≡ two.0 =
        select_version_unique x policy policy' raw one.0 two.0 one.1 two.1 in
      let same_claims : claims vr ≡ claims vr' =
        ok-injective (sym one.2 ∙ ap (λ v. claims_of x v raw) same_version ∙ two.2) in
      let (t, pt, unseen, recorded) = took1 in
      let (t', pt', unseen', _) = took2 in
      let k : ReplayKey = (vr.verified_signer, vr.audience, vr.nonce) in
      let r = saturating_add t c.max_clock_skew_secs in
      let held : Held k r later c2 =
        history-Held k r later c1 es timely
          (inl (rw recorded (check_and_insert_records c k t unseen))) in
      let same_key : (vr'.verified_signer, vr'.audience, vr'.nonce) ≡ k =
        ap (λ (c : Claims). (c.0, c.1, c.2)) (sym same_claims) in
      let late : r <ℤ later = fresh_is_late k r later t' c2 held (rw same_key at unseen') in
      let (t'', pt'', live) =
        Authentic-live x resolver' in_memory config c2 raw later vr' _
          (dispatch-Authentic x resolver' in_memory config c2 raw later policy' vr' second) in
      let same_end : t ≡ t'' =
        ok-injective
          (sym pt ∙ ap parse_rfc3339_utc (ap (λ (c : Claims). c.3) same_claims) ∙ pt'') in
      let early : later ≤ℤ r = rw (skew, same_end) live in omega arith
