-- ===== src/Host/Session/Once.antt =====
-- A session of mcps-host/src/session.rs accepts one response for a request, the one that is bound to it.
use mcps.Prelude.{
  ℕ, Str, str_eq, List, [], ◌∷◌, Option, some, none, Option-cases, Result-cases, ok, err, >>=-eq-ok,
  ok_or, ok_or-eq-ok, ◌≡◌, sym, ap, ◌∙◌, inl, inr, subst, false, arith,
}
use mcps.Prelude.Int.{ℤ}
use mcps.Prelude.Assoc.{find, find-set_other, find-erase_self, find-erase-none, find-keep-none}
use mcps.Core.Error.{missing_envelope}
use mcps.Core.Json.{Value, Members}
use mcps.Core.Resolver.{TrustResolver, str_key_eq}
use mcps.Core.Response.{VerifiedResponse, verify_response}
use mcps.Core.Response.Binding.{Answers, Carries01, verify_response-Answers}
use mcps.Core.Libraries.{Libraries}
use mcps.Host.Signer.{Claims}
use mcps.Host.Session.{
  HostSession, PendingRequest, id_key, response_id, signed_entry, sign_request, checked_response,
  verify_response_of, cancel_request, expire_pending,
}

module _ (l : Libraries) (to_string : Value → Option Str) where
  -- The calls that change a session.
  pub data Call : Type 0 where
    signs : List ℕ → ℤ → Value → Str → Members → Claims → Call
    verifies : TrustResolver l.externals.VerificationKey → List ℕ → Call
    cancels : Value → Call
    expires : ℤ → Call

  unfoldable pub after : HostSession → Call → HostSession
  after s (signs random now id method params c) =
      (sign_request l to_string s random now id method params c).1
  after s (verifies resolver bytes) = (verify_response_of l to_string resolver s bytes).1
  after s (cancels id) = (cancel_request l to_string s id).1
  after s (expires now) = (expire_pending s now).1

  unfoldable pub history : HostSession → List Call → HostSession
  history s [] = s
  history s (c ∷ cs) = history (after s c) cs

  -- A call that does not sign a request with an id of this key.
  abbrev pub SignsOther : Str → Call → Type 0
  SignsOther key (signs random now id method params c) = str_eq (id_key l to_string id) key ≡ false
  SignsOther key (verifies resolver bytes) = Unit {0}
  SignsOther key (cancels id) = Unit {0}
  SignsOther key (expires now) = Unit {0}

  abbrev pub AllSignOther : Str → List Call → Type 0
  AllSignOther key [] = Unit {0}
  AllSignOther key (c ∷ cs) = SignsOther key c × AllSignOther key cs

  after-none :
      (key : Str) (s : HostSession) (c : Call)
      → SignsOther key c
      → find key s.pending ≡ none
      → find key (after s c).pending ≡ none
  unfolding after sign_request verify_response_of cancel_request expire_pending
  after-none key s (signs random now id method params c) other h =
      elim (Option-cases (find (id_key l to_string id) s.pending)) [
        | inr (waiting, p) ↦ ground (arith, p, h)
        | inl p ↦ elim (Result-cases (signed_entry l s random now id method params c)) [
          | inr (e, q) ↦ ground (arith, p, q, h)
          | inl ((bytes, entry), q) ↦
              let kept = find-set_other key (id_key l to_string id) entry s.pending other in
              ground (arith, p, q, h, kept)
        ]
      ]
  after-none key s (verifies resolver bytes) other h =
      elim (Result-cases (checked_response l to_string resolver s bytes)) [
        | inr (e, q) ↦ ground (arith, q, h)
        | inl ((k, v), q) ↦ ground (arith, q, find-erase-none key k s.pending h)
      ]
  after-none key s (cancels id) other h = find-erase-none key (id_key l to_string id) s.pending h
  after-none key s (expires now) other h = find-keep-none _ key s.pending h

  history-none :
      (key : Str) (s : HostSession) (cs : List Call)
      → AllSignOther key cs
      → find key s.pending ≡ none
      → find key (history s cs).pending ≡ none
  unfolding history
  history-none key s [] other h = h
  history-none key s (c ∷ cs) (o, other) h =
      history-none key (after s c) cs other (after-none key s c o h)

  -- A response to an id for which nothing waits is refused.
  refused_unasked :
      (s : HostSession) (resolver : TrustResolver l.externals.VerificationKey) (bytes : List ℕ)
      (id : Value)
      → response_id l bytes ≡ ok id
      → find (id_key l to_string id) s.pending ≡ none
      → verify_response_of l to_string resolver s bytes ≡ (err missing_envelope, s)
  unfolding verify_response_of checked_response
  refused_unasked s resolver bytes id named h = ground (arith, named, h)

  checked_response-Answers :
      (s : HostSession) (resolver : TrustResolver l.externals.VerificationKey) (bytes : List ℕ)
      (id : Value) (key : Str) (v : VerifiedResponse)
      → response_id l bytes ≡ ok id
      → checked_response l to_string resolver s bytes ≡ ok (key, v)
      → (id_key l to_string id ≡ key)
        × ((entry : PendingRequest) × (find (id_key l to_string id) s.pending ≡ some entry)
            × Answers l.externals resolver (Carries01 l.externals) bytes entry.hash v)
  unfolding checked_response
  checked_response-Answers s resolver bytes id key v named h =
      let (id', named', h1) = >>=-eq-ok (response_id l bytes) _ h in
      let same : id' ≡ id = cc in
      let (entry, there, h2) =
        >>=-eq-ok (ok_or (find (id_key l to_string id') s.pending) missing_envelope) _ h1 in
      let (verified, checked, h3) =
        >>=-eq-ok (verify_response l.externals resolver bytes entry.hash) _ h2 in
      let key_is : id_key l to_string id' ≡ key = cc in
      let verified_is : verified ≡ v = cc in
      let found : find (id_key l to_string id) s.pending ≡ some entry =
        subst (λ i. find (id_key l to_string i) s.pending ≡ some entry) same
          (ok_or-eq-ok (find (id_key l to_string id') s.pending) missing_envelope there) in
      (
        ap (id_key l to_string) (sym same) ∙ key_is,
        (
          entry,
          found,
          verify_response-Answers l.externals resolver bytes entry.hash v
              (checked ∙ ap ok verified_is),
        ),
      )

  -- A response that a session accepts answers the request that waits under its id, bound to the
  -- hash of that request; and after it, whatever calls are made that do not sign that id again, a
  -- response of the id is refused as one that nothing asked for, and changes nothing.
  pub session_once :
      (s : HostSession) (resolver later : TrustResolver l.externals.VerificationKey)
      (bytes bytes' : List ℕ) (id id' : Value) (v : VerifiedResponse) (cs : List Call)
      → response_id l bytes ≡ ok id
      → response_id l bytes' ≡ ok id'
      → id_key l to_string id' ≡ id_key l to_string id
      → (verify_response_of l to_string resolver s bytes).0 ≡ ok v
      → AllSignOther (id_key l to_string id) cs
      → ((entry : PendingRequest) × (find (id_key l to_string id) s.pending ≡ some entry)
          × Answers l.externals resolver (Carries01 l.externals) bytes entry.hash v)
        × (verify_response_of l to_string later
              (history (verify_response_of l to_string resolver s bytes).1 cs)
              bytes'
            ≡ (
              err missing_envelope,
              history (verify_response_of l to_string resolver s bytes).1 cs,
            ))
  unfolding verify_response_of
  session_once s resolver later bytes bytes' id id' v cs named named' same h other =
      elim (Result-cases (checked_response l to_string resolver s bytes)) [
        | inr (e, q) ↦ absurd (ground (arith, q, h))
        | inl ((key, w), q) ↦
            let w_is : w ≡ v = ground (arith, q, h) in
            let (key_is, answers) = checked_response-Answers s resolver bytes id key w named q in
            let s' = (verify_response_of l to_string resolver s bytes).1 in
            let gone : find (id_key l to_string id) s'.pending ≡ none =
              ground (arith, q, key_is, find-erase_self key s.pending) in
            let left = history-none (id_key l to_string id) s' cs other gone in
            (
              subst
                  (λ u.
                    (entry : PendingRequest) × (find (id_key l to_string id) s.pending ≡ some entry)
                    × Answers l.externals resolver (Carries01 l.externals) bytes entry.hash u)
                  w_is answers,
              refused_unasked (history s' cs) later bytes' id' named'
                  (ap (λ k. find k (history s' cs).pending) same ∙ left),
            )
      ]
