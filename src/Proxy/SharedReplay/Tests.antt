-- ===== src/Proxy/SharedReplay/Tests.antt =====
-- Runs and witnesses for mcps-proxy/src/shared_replay.rs.
use mcps.Prelude.{
  ℕ, ap, Str, codes, as_bytes, ◌≡◌, ◌≢◌, ◌⊎◌, inl, inr, refl, sym, ok, err, str_eq, List, [], ◌∷◌,
  All, arith,
}
use mcps.Prelude.Int.{pos, ◌+ℤ◌, ◌-ℤ◌, saturating_sub, saturating_add}
use mcps.Prelude.Assoc.{find, set}
use mcps.Core.Crypto.{sha256_hash_id}
use mcps.Core.Replay
use mcps.Core.Replay.{ReplayKey, fresh, replay, check_and_insert}
use mcps.Core.Pipeline.Sample.{toy}
use mcps.Proxy.SharedReplay.{
  new, in_memory_store, insert_if_absent, is_stale_pre_store, unavailable, capacity_details,
  key_preimage, shared_check_and_insert,
}
use mcps.Proxy.SharedReplay.Keys.{Sized}
use mcps.Proxy.SharedReplay.Agreement.{
  Event, asks, prunes, Apart, Usual, shared_history, reference_history, shared_agrees,
}

first_time : (insert_if_absent new (codes "k") (pos 10) (pos 0)).0 ≡ ok fresh
unfolding insert_if_absent new is_stale_pre_store saturating_sub ◌-ℤ◌ find
first_time = refl

again :
    (insert_if_absent
      (insert_if_absent new (codes "k") (pos 10) (pos 0)).1
      (codes "k")
      (pos 99)
      (pos 0)).0
    ≡ ok replay
unfolding insert_if_absent new is_stale_pre_store saturating_sub ◌-ℤ◌ find set codes str_eq
again = refl

-- A store with room for none.
full :
    (insert_if_absent (record new { max_entries = 0 }) (codes "k") (pos 10) (pos 0)).0
    ≡ err (unavailable (capacity_details 0))
unfolding insert_if_absent new is_stale_pre_store saturating_sub ◌-ℤ◌ find
full = refl

abbrev first : ReplayKey
first = (codes "did:a", codes "did:s", codes "n1")

abbrev second : ReplayKey
second = (codes "did:a", codes "did:s", codes "n10")

abbrev InUse : ReplayKey → Type 0
InUse k = (k ≡ first) ⊎ (k ≡ second)

small : (k : ReplayKey) → InUse k → Sized k
unfolding codes as_bytes
small k (inl p) =
    rw p (record { signer = omega arith; audience = omega arith; nonce = omega arith })
small k (inr p) =
    rw p (record { signer = omega arith; audience = omega arith; nonce = omega arith })

abbrev digest : ReplayKey → Str
digest k = sha256_hash_id toy (as_bytes (key_preimage k.0 k.1 k.2))

-- What follows the prefix `sha256:`.
after_prefix : Str → ℕ
after_prefix (_ ∷ _ ∷ _ ∷ _ ∷ _ ∷ _ ∷ _ ∷ n ∷ rest) = n
after_prefix _ = 0

differ : digest first ≢ digest second
unfolding codes as_bytes key_preimage sha256_hash_id after_prefix
differ h =
    let same : after_prefix (digest first) ≡ after_prefix (digest second) = ap after_prefix h in
    omega arith

InUse-Apart : Apart toy InUse
InUse-Apart = record {
  sized = small;
  no_collision = λ j k (p : InUse j) (q : InUse k) h. apart_text j k p q h;
}
  where
    apart_text :
        (j k : ReplayKey)
        → InUse j
        → InUse k
        → digest j ≡ digest k
        → key_preimage j.0 j.1 j.2 ≡ key_preimage k.0 k.1 k.2
    apart_text j k (inl p) (inl q) h = rw (p, q) refl
    apart_text j k (inl p) (inr q) h = absurd (differ (rw (p, q) at h))
    apart_text j k (inr p) (inl q) h = absurd (differ (sym (rw (p, q) at h)))
    apart_text j k (inr p) (inr q) h = rw (p, q) refl

-- Both triples are asked for, and the caches are pruned at the last instant at which they are retained.
abbrev events : List Event
events = asks first (pos 100) ∷ asks second (pos 100) ∷ prunes (pos 130) ∷ []

usual : All (Usual InUse (pos 30)) events
unfolding is_stale_pre_store saturating_sub saturating_add ◌-ℤ◌ ◌+ℤ◌
usual = ((inl refl, refl), ((inr refl, refl), (tt, tt)))

here : Usual InUse (pos 30) (asks first (pos 200))
unfolding is_stale_pre_store saturating_sub saturating_add ◌-ℤ◌ ◌+ℤ◌
here = (inl refl, refl)

shared_agrees_example :
    (shared_check_and_insert toy in_memory_store
      (pos 30)
      (shared_history toy (pos 30) new events)
      first
      (pos 200)).0
    ≡ (check_and_insert (reference_history (Replay.new (pos 30)) events) first (pos 200)).0
shared_agrees_example =
    shared_agrees toy InUse (pos 30) events first (pos 200) InUse-Apart usual here (omega arith)
