-- ===== src/Core/Replay/Pruning.antt =====
-- `InMemoryReplayCache::prune`: what it forgets, and that a recorded triple is never overwritten.
use mcps.Prelude.{◌≡◌, ◌⊎◌, some, arith}
use mcps.Prelude.Int.{ℤ, ◌≤ℤ◌, ◌<ℤ◌, saturating_add}
use mcps.Core.Replay.{InMemoryReplayCache, ReplayKey, fresh, check_and_insert, prune, key_eq_iff}
use mcps.Prelude.{ok}

-- A triple that is recorded until `r` stays so, whatever triple is checked next.
pub check_and_insert_keeps :
    (c : InMemoryReplayCache) (j k : ReplayKey) (t r : ℤ)
    → c.seen j ≡ some r
    → (check_and_insert c k t).1.seen j ≡ some r
unfolding check_and_insert
check_and_insert_keeps c j k t r h = ground (arith, key_eq_iff k j)

-- A fresh triple is recorded until its expiry, extended by the skew.
pub check_and_insert_records :
    (c : InMemoryReplayCache) (k : ReplayKey) (t : ℤ)
    → (check_and_insert c k t).0 ≡ ok fresh
    → (check_and_insert c k t).1.seen k ≡ some (saturating_add t c.max_clock_skew_secs)
unfolding check_and_insert
check_and_insert_records c k t h = ground (arith, key_eq_iff k k)

-- A recorded triple is not fresh.
pub check_and_insert_refuses :
    (c : InMemoryReplayCache) (k : ReplayKey) (t r : ℤ)
    → c.seen k ≡ some r
    → ¬ ((check_and_insert c k t).0 ≡ ok fresh)
unfolding check_and_insert
check_and_insert_refuses c k t r h e = ground arith

-- `prune` forgets a triple only after the instant until which it is retained.
pub prune_keeps :
    (c : InMemoryReplayCache) (k : ReplayKey) (now r : ℤ)
    → c.seen k ≡ some r
    → ((prune c now).seen k ≡ some r) ⊎ (r <ℤ now)
unfolding prune
prune_keeps c k now r h = ground arith

-- `prune` never changes the skew, nor does a check.
pub skew-prune :
    (c : InMemoryReplayCache) (now : ℤ) → (prune c now).max_clock_skew_secs ≡ c.max_clock_skew_secs
unfolding prune
skew-prune c now = ground arith

pub skew-check_and_insert :
    (c : InMemoryReplayCache) (k : ReplayKey) (t : ℤ)
    → (check_and_insert c k t).1.max_clock_skew_secs ≡ c.max_clock_skew_secs
unfolding check_and_insert
skew-check_and_insert c k t = ground arith

-- `prune` drops exactly the triples whose instant has passed, and keeps every other as it was.
pub prune_exact :
    (c : InMemoryReplayCache) (k : ReplayKey) (now r : ℤ)
    → ((prune c now).seen k ≡ some r → (c.seen k ≡ some r) × (now ≤ℤ r))
      × ((c.seen k ≡ some r) × (now ≤ℤ r) → (prune c now).seen k ≡ some r)
unfolding prune
prune_exact c k now r = (λ h. ground arith, λ h. ground arith)
