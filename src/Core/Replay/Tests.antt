-- ===== src/Core/Replay/Tests.antt =====
-- Tests for mcps-core/src/replay.rs.
use mcps.Prelude.{String, ◌≡◌, refl, codes, ok, str_eq, true}
use mcps.Prelude.Int.{◌+ℤ◌, pos, saturating_add}
use mcps.Core.Replay.{
  ReplayKey, InMemoryReplayCache, new, prune, check_and_insert, in_memory,
  is_single_process_reference, fresh, replay, key_eq,
}

abbrev nonce : String → ReplayKey
nonce n = (codes "did:a", codes "did:s", codes n)

abbrev once : InMemoryReplayCache
once = (check_and_insert (new (pos 30)) (nonce "n1") (pos 100)).1

second_is_replay : (check_and_insert once (nonce "n1") (pos 100)).0 ≡ ok replay
unfolding check_and_insert new codes str_eq key_eq
second_is_replay = refl

pruned_is_fresh : (check_and_insert (prune once (pos 131)) (nonce "n1") (pos 100)).0 ≡ ok fresh
unfolding check_and_insert new prune codes str_eq key_eq saturating_add ◌+ℤ◌
pruned_is_fresh = refl

flagged_as_reference : is_single_process_reference in_memory once ≡ true
unfolding is_single_process_reference
flagged_as_reference = refl
