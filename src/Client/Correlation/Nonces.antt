-- ===== src/Client/Correlation/Nonces.antt =====
-- A nonce is not used again while its window is open.
use mcps.Prelude.{
  Str, ◌≡◌, List, [], ◌∷◌, All, some, Option-cases, inl, inr, ok, arith, str_eq_iff, str_eq_refl,
}
use mcps.Prelude.Int.{ℤ, ◌<ℤ◌}
use mcps.Client.Correlation.{
  CorrelationStore, PendingRequest, register, take_for_response, cancel, sweep_expired, find,
}

pub data Event : Type 0 where
  registers : PendingRequest → ℤ → Event
  takes : Str → ℤ → Event
  cancels : Str → Event
  sweeps : ℤ → Event

unfoldable pub after : CorrelationStore → Event → CorrelationStore
after s (registers request now_unix) = (register s request now_unix).1
after s (takes id now_unix) = (take_for_response s id now_unix).1
after s (cancels id) = (cancel s id).1
after s (sweeps now_unix) = (sweep_expired s now_unix).1

unfoldable pub history : CorrelationStore → List Event → CorrelationStore
unfolding after
history s [] = s
history s (e ∷ es) = history (after s e) es

-- The event happens before the instant; a cancellation reads no clock.
abbrev pub Before : ℤ → Event → Type 0
Before end (registers request now_unix) = now_unix <ℤ end
Before end (takes id now_unix) = now_unix <ℤ end
Before end (cancels id) = Unit
Before end (sweeps now_unix) = now_unix <ℤ end

after_keeps :
    (s : CorrelationStore) (nonce : Str) (end : ℤ) (e : Event)
    → Before end e
    → s.nonce_window nonce ≡ some end
    → (after s e).nonce_window nonce ≡ some end
unfolding after register take_for_response cancel sweep_expired
after_keeps s nonce end (registers request now_unix) b h =
    ground (arith, str_eq_iff request.nonce nonce)
after_keeps s nonce end (takes id now_unix) b h = elim (Option-cases (find id s.pending)) [
  | inl p ↦ ground arith
  | inr (entry, p) ↦ ground arith
]
after_keeps s nonce end (cancels id) b h = h
after_keeps s nonce end (sweeps now_unix) b h = ground arith

history_keeps :
    (s : CorrelationStore) (nonce : Str) (end : ℤ) (es : List Event)
    → All (Before end) es
    → s.nonce_window nonce ≡ some end
    → (history s es).nonce_window nonce ≡ some end
unfolding history
history_keeps s nonce end [] b h = h
history_keeps s nonce end (e ∷ es) b h =
    history_keeps (after s e) nonce end es b.1 (after_keeps s nonce end e b.0 h)

register_records :
    (s : CorrelationStore) (request : PendingRequest) (now_unix : ℤ)
    → (register s request now_unix).0 ≡ ok tt
    → (register s request now_unix).1.nonce_window request.nonce ≡ some request.deadline_unix
unfolding register
register_records s request now_unix h = ground (arith, str_eq_refl request.nonce)

register_refuses :
    (s : CorrelationStore) (request : PendingRequest) (now_unix end : ℤ)
    → s.nonce_window request.nonce ≡ some end
    → now_unix <ℤ end
    → ¬ ((register s request now_unix).0 ≡ ok tt)
unfolding register
register_refuses s request now_unix end h b e = ground arith

-- After a registration, and any calls of the store before the deadline of its request, no request
-- with the same nonce is registered before that deadline: neither a completion nor a cancellation
-- nor a sweep opens the nonce again.
pub no_nonce_reuse :
    (s : CorrelationStore) (request request' : PendingRequest) (now_unix later : ℤ)
    (es : List Event)
    → (register s request now_unix).0 ≡ ok tt
    → All (Before request.deadline_unix) es
    → request'.nonce ≡ request.nonce
    → later <ℤ request.deadline_unix
    → ¬ ((register (history (register s request now_unix).1 es) request' later).0 ≡ ok tt)
no_nonce_reuse s request request' now_unix later es first before same early =
    register_refuses _ request' later request.deadline_unix
      (rw same (
        history_keeps _ request.nonce request.deadline_unix es before
          (register_records s request now_unix first)))
      early
