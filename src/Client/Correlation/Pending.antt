-- ===== src/Client/Correlation/Pending.antt =====
-- The pending requests: the entries stay keyed by their ids, and each answers one response at most.
use mcps.Prelude.{
  Str, Bool, ◌≡◌, refl, false, List, [], ◌∷◌, All, sym, ap, ◌∙◌, some, none, Option-cases,
  Bool-cases, inl, inr, ok, err, arith, str_eq, str_eq_iff,
}
use mcps.Prelude.Int.{ℤ, ◌≤ℤ◌, ltb_ℤ}
use mcps.Client.Correlation.{
  CorrelationStore, PendingRequest, Entries, uncorrelatable, register, take_for_response, cancel,
  sweep_expired, find, erase, keep, in_window,
}
use mcps.Client.Correlation.Nonces.{Event, registers, takes, cancels, sweeps, after, history}

-- Each entry stands under the id of its request, and no id stands twice.
unfoldable pub IsKeyed : Entries → Type 0
IsKeyed [] = Unit
IsKeyed ((k, r) ∷ es) = (k ≡ r.correlation_id) × (find k es ≡ none) × IsKeyed es

find-erase : (id : Str) (es : Entries) → find id (erase id es) ≡ none
unfolding find erase
find-erase id [] = refl
find-erase id ((k, r) ∷ es) = ground (arith, find-erase id es)

find-erase-none : (id j : Str) (es : Entries) → find j es ≡ none → find j (erase id es) ≡ none
unfolding find erase
find-erase-none id j [] h = refl
find-erase-none id j ((k, r) ∷ es) h = ground (arith, find-erase-none id j es)

find-erase_other :
    (id j : Str) (es : Entries) → str_eq id j ≡ false → find j (erase id es) ≡ find j es
unfolding find erase
find-erase_other id j [] h = refl
find-erase_other id j ((k, r) ∷ es) h =
    ground (arith, find-erase_other id j es h, str_eq_iff k id, str_eq_iff k j, str_eq_iff id j)

find-keep-none :
    (p : PendingRequest → Bool) (j : Str) (es : Entries)
    → find j es ≡ none
    → find j (keep p es) ≡ none
unfolding find keep
find-keep-none p j [] h = refl
find-keep-none p j ((k, r) ∷ es) h = ground (arith, find-keep-none p j es)

erase-IsKeyed : (id : Str) (es : Entries) → IsKeyed es → IsKeyed (erase id es)
unfolding IsKeyed erase
erase-IsKeyed id [] h = tt
erase-IsKeyed id ((k, r) ∷ es) (named, unique, rest) = elim (Bool-cases (str_eq k id)) [
  | inl p ↦ rw p (erase-IsKeyed id es rest)
  | inr p ↦ rw p (named, find-erase-none id k es unique, erase-IsKeyed id es rest)
]

keep-IsKeyed : (p : PendingRequest → Bool) (es : Entries) → IsKeyed es → IsKeyed (keep p es)
unfolding IsKeyed keep
keep-IsKeyed p [] h = tt
keep-IsKeyed p ((k, r) ∷ es) (named, unique, rest) = elim (Bool-cases (p r)) [
  | inl q ↦ rw q (named, find-keep-none p k es unique, keep-IsKeyed p es rest)
  | inr q ↦ rw q (keep-IsKeyed p es rest)
]

register-IsKeyed :
    (s : CorrelationStore) (request : PendingRequest) (now_unix : ℤ)
    → IsKeyed s.pending
    → IsKeyed (register s request now_unix).1.pending
unfolding register IsKeyed
register-IsKeyed s request now_unix h =
    elim (Option-cases (find request.correlation_id s.pending)) [
      | inr (r, p) ↦ rw (p, register) h
      | inl p ↦ elim (Bool-cases (in_window (s.nonce_window request.nonce) now_unix)) [
        | inl q ↦ rw (p, register) (rw q h)
        | inr q ↦ rw (p, register) (rw q (refl, p, h))
      ]
    ]

take_for_response-IsKeyed :
    (s : CorrelationStore) (id : Str) (now_unix : ℤ)
    → IsKeyed s.pending
    → IsKeyed (take_for_response s id now_unix).1.pending
unfolding take_for_response
take_for_response-IsKeyed s id now_unix h =
    let less = erase-IsKeyed id s.pending h in
    elim (Option-cases (find id s.pending)) [
      | inl p ↦ rw (p, take_for_response) h
      | inr (entry, p) ↦ elim (Bool-cases (ltb_ℤ entry.deadline_unix now_unix)) [
        | inl q ↦ rw (p, take_for_response) (rw q less)
        | inr q ↦ rw (p, take_for_response) (rw q less)
      ]
    ]

-- Every call of the store keeps its entries keyed by the ids of their requests, each id once.
pub after-IsKeyed :
    (s : CorrelationStore) (e : Event) → IsKeyed s.pending → IsKeyed (after s e).pending
unfolding after cancel sweep_expired
after-IsKeyed s (registers request now_unix) h = register-IsKeyed s request now_unix h
after-IsKeyed s (takes id now_unix) h = take_for_response-IsKeyed s id now_unix h
after-IsKeyed s (cancels id) h = erase-IsKeyed id s.pending h
after-IsKeyed s (sweeps now_unix) h = keep-IsKeyed _ s.pending h

find_named :
    (id : Str) (r : PendingRequest) (es : Entries)
    → IsKeyed es
    → find id es ≡ some r
    → r.correlation_id ≡ id
unfolding IsKeyed find
find_named id r [] h f = cc
find_named id r ((k, q) ∷ es) (named, unique, rest) f = elim (Bool-cases (str_eq k id)) [
  | inl p ↦
      let same : k ≡ id = (str_eq_iff k id).0 p in
      let this : q ≡ r = ground arith in rw (← this) (sym named ∙ same)
  | inr p ↦ find_named id r es rest (ground arith)
]

-- The event is no registration under the id.
abbrev pub Leaves : Str → Event → Type 0
Leaves id (registers request now_unix) = str_eq request.correlation_id id ≡ false
Leaves id (takes j now_unix) = Unit
Leaves id (cancels j) = Unit
Leaves id (sweeps now_unix) = Unit

after_absent :
    (s : CorrelationStore) (id : Str) (e : Event)
    → Leaves id e
    → find id s.pending ≡ none
    → find id (after s e).pending ≡ none
unfolding after register take_for_response cancel sweep_expired find
after_absent s id (registers request now_unix) l h = ground (arith, l, h)
after_absent s id (takes j now_unix) l h =
    let less = find-erase-none j id s.pending h in
    elim (Option-cases (find j s.pending)) [
      | inl p ↦ ground (arith, p, h)
      | inr (entry, p) ↦ ground (arith, p, h, less)
    ]
after_absent s id (cancels j) l h = find-erase-none j id s.pending h
after_absent s id (sweeps now_unix) l h = find-keep-none _ id s.pending h

history_absent :
    (s : CorrelationStore) (id : Str) (es : List Event)
    → All (Leaves id) es
    → find id s.pending ≡ none
    → find id (history s es).pending ≡ none
unfolding history
history_absent s id [] l h = h
history_absent s id (e ∷ es) l h = history_absent (after s e) id es l.1 (after_absent s id e l.0 h)

taken :
    (s : CorrelationStore) (id : Str) (now_unix : ℤ) (r : PendingRequest)
    → (take_for_response s id now_unix).0 ≡ ok r
    → (find id s.pending ≡ some r)
      × (now_unix ≤ℤ r.deadline_unix)
      × (find id (take_for_response s id now_unix).1.pending ≡ none)
unfolding take_for_response
taken s id now_unix r h =
    let gone = find-erase id s.pending in
    elim (Option-cases (find id s.pending)) [
      | inl p ↦ absurd (ground (arith, p))
      | inr (entry, p) ↦ elim (Bool-cases (ltb_ℤ entry.deadline_unix now_unix)) [
        | inl q ↦ absurd (ground (arith, p, q))
        | inr q ↦
            let this : entry ≡ r = ground (arith, p, q) in
            (p ∙ ap some this, rw (← this) (ground (arith, q)), ground (arith, p, q, gone))
      ]
    ]

take_for_response_unknown :
    (s : CorrelationStore) (id : Str) (now_unix : ℤ)
    → find id s.pending ≡ none
    → take_for_response s id now_unix ≡ (err uncorrelatable, s)
unfolding take_for_response
take_for_response_unknown s id now_unix p = rw (p, take_for_response) refl

-- A response is correlated in time, with the request of its own id, and once: after it, whatever
-- calls are made that do not register the id again, the id is not correlatable, and asking for it
-- changes nothing; the entries of the store are keyed by the ids of their requests.
pub correlated_once :
    (s : CorrelationStore) (id : Str) (now_unix later : ℤ) (r : PendingRequest) (es : List Event)
    → IsKeyed s.pending
    → (take_for_response s id now_unix).0 ≡ ok r
    → All (Leaves id) es
    → (r.correlation_id ≡ id)
      × (now_unix ≤ℤ r.deadline_unix)
      × (take_for_response (history (take_for_response s id now_unix).1 es) id later
          ≡ (err uncorrelatable, history (take_for_response s id now_unix).1 es))
correlated_once s id now_unix later r es keyed h leaves =
    let (found, timely, gone) = taken s id now_unix r h in
    let absent = history_absent (take_for_response s id now_unix).1 id es leaves gone in
    (find_named id r s.pending keyed found, timely, take_for_response_unknown _ id later absent)
