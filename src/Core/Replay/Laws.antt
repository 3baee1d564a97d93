-- ===== src/Core/Replay/Laws.antt =====
-- What the documentation of the trait promises, and that the reference cache keeps it.
use mcps.Prelude.{◌≡◌, Bool, true, false, ok, arith}
use mcps.Prelude.Int.{ℤ}
use mcps.Prelude.Map.{contains_key}
use mcps.Core.Replay.{
  ReplayCache, ReplayKey, fresh, key_eq_iff, check_and_insert, in_memory, InMemoryReplayCache,
}

-- `seen` is the abstract content of a cache: the triples that it has recorded.
pub record IsReplayCache {S : Type 0} (c : ReplayCache S) (seen : S → ReplayKey → Bool)
    : Type 0 where
  pub fresh_unseen :
      (s : S) (k : ReplayKey) (t : ℤ) → (c.check_and_insert s k t).0 ≡ ok fresh → seen s k ≡ false
  pub fresh_recorded :
      (s : S) (k : ReplayKey) (t : ℤ)
      → (c.check_and_insert s k t).0 ≡ ok fresh
      → seen (c.check_and_insert s k t).1 k ≡ true
  pub seen_kept :
      (s : S) (k j : ReplayKey) (t : ℤ)
      → seen s j ≡ true
      → seen (c.check_and_insert s k t).1 j ≡ true

pub in_memory_seen : InMemoryReplayCache → ReplayKey → Bool
unfolding contains_key
in_memory_seen c k = contains_key c.seen k

-- The reference cache answers "fresh" only for a triple that it has not recorded, records it then,
-- and forgets no triple when it is asked about another.
pub in_memory-IsReplayCache : IsReplayCache in_memory in_memory_seen
unfolding in_memory_seen check_and_insert
in_memory-IsReplayCache = record {
  fresh_unseen = λ s k t h. ground arith;
  fresh_recorded = λ s k t h. ground (arith, key_eq_iff k k);
  seen_kept = λ s k j t h. ground arith;
}
