-- ===== src/Proxy/SharedReplay.antt =====
-- mcps-proxy/src/shared_replay.rs: the replay cache over a store that processes share, whose one
-- atomic operation is the interface `AtomicReplayStore`, and the store in memory.
pub mod Keys
pub mod Agreement
mod Tests
use mcps.Prelude.{
  ℕ, Str, codes, as_bytes, length, ◌++◌, List, [], ◌∷◌, Bool, false, Option, some, none, Result, ok,
  err, map_err, leb, if◌then◌else◌,
}
use mcps.Prelude.Decimal.{decimal}
use mcps.Prelude.Int.{ℤ, pos, leb_ℤ, saturating_add, saturating_sub}
use mcps.Prelude.Map.{Eq}
use mcps.Prelude.Assoc.{find, set, keep}
use mcps.Core.Canonical.{write_integer}
use mcps.Core.Crypto.{Externals, sha256_hash_id}
use mcps.Core.Resolver.{str_key_eq}
use mcps.Core.Replay.{
  ReplayCache, ReplayCacheError, ReplayDecision, ReplayDurabilityClass, fresh, replay,
  single_process_reference,
}
use mcps.Core.Replay

pub data ReplayStoreError : Type 0 where
  unavailable : Str → ReplayStoreError

-- `From<ReplayStoreError> for ReplayCacheError`.
unfoldable pub to_cache_error : ReplayStoreError → ReplayCacheError
to_cache_error (unavailable details) = Replay.unavailable details

unfoldable pub is_stale_pre_store : ℤ → ℤ → Bool
unfolding saturating_sub
is_stale_pre_store retain_until_unix now_unix =
    leb_ℤ (saturating_sub retain_until_unix now_unix) (pos 0)

-- The trait: a store is shared, so what a call changes is the new state beside its result.
pub record AtomicReplayStore (S : Type 0) : Type 0 where
  pub insert_if_absent : S → Str → ℤ → ℤ → Result ReplayStoreError ReplayDecision × S
  pub durability_class : S → ReplayDurabilityClass

-- `format!("{}:{}|{}:{}|{}:{}", ...)`, with lengths in bytes.
unfoldable pub key_preimage : Str → Str → Str → Str
unfolding decimal
key_preimage signer audience nonce =
    decimal (length (as_bytes signer))
    ++ b':'
      ∷ (signer
          ++ b'|'
            ∷ (decimal (length (as_bytes audience))
                ++ b':' ∷ (audience ++ b'|' ∷ (decimal (length (as_bytes nonce)) ++ b':' ∷ nonce))))

module _ (x : Externals) where
  unfoldable pub composite_key : Str → Str → Str → Str
  composite_key signer audience nonce =
      sha256_hash_id x (as_bytes (key_preimage signer audience nonce))

  -- `SharedReplayCache` with its store and its skew, as an implementation of the trait.
  unfoldable pub shared_check_and_insert :
      {S : Type 0}
      → AtomicReplayStore S
      → ℤ
      → S
      → Str × Str × Str
      → ℤ
      → Result ReplayCacheError ReplayDecision × S
  shared_check_and_insert store max_clock_skew_secs s (signer, audience, nonce) expires_at_unix =
      let retain_until = saturating_add expires_at_unix max_clock_skew_secs in
      let (answer, s') =
        store.insert_if_absent s (composite_key signer audience nonce) retain_until (pos 0) in
      (map_err to_cache_error answer, s')

  abbrev pub shared_replay_cache : {S : Type 0} → AtomicReplayStore S → ℤ → ReplayCache S
  shared_replay_cache store max_clock_skew_secs = record {
    check_and_insert = shared_check_and_insert store max_clock_skew_secs;
    durability_class = store.durability_class;
  }

abbrev pub max_atomic_store_entries : ℕ
max_atomic_store_entries = 1000000

-- The lock of the map is poisoned, or it is not.
pub record InMemoryAtomicReplayStore : Type 0 where
  pub poisoned : Bool
  pub seen : List (Str × ℤ)
  pub max_entries : ℕ

unfoldable pub new : InMemoryAtomicReplayStore
new = record { poisoned = false; seen = []; max_entries = max_atomic_store_entries }

unfoldable pub prune : InMemoryAtomicReplayStore → ℤ → InMemoryAtomicReplayStore
unfolding keep
prune s now_unix =
    if s.poisoned
    then s
    else record s { seen = keep (λ retain_until. leb_ℤ now_unix retain_until) s.seen }

unfoldable pub len : InMemoryAtomicReplayStore → ℕ
len s = if s.poisoned then 0 else length s.seen

unfoldable pub stale_details : ℤ → ℤ → Str
unfolding codes write_integer
stale_details expires_at_unix now_unix =
    codes "replay request already stale: retain_until ("
    ++ (write_integer expires_at_unix
        ++ (codes ") is at or before now ("
            ++ (write_integer now_unix
                ++ codes
                    ") — rejected pre-store (MCPS-08, fail closed) rather than recorded as Fresh")))

unfoldable pub capacity_details : ℕ → Str
unfolding codes decimal
capacity_details max_entries =
    codes "in-memory shared replay store at capacity ("
    ++ (decimal max_entries
        ++ codes " entries); refusing further nonces until expired entries are pruned")

unfoldable pub insert_if_absent :
    InMemoryAtomicReplayStore
    → Str
    → ℤ
    → ℤ
    → Result ReplayStoreError ReplayDecision × InMemoryAtomicReplayStore
unfolding codes
insert_if_absent s key expires_at_unix now_unix =
    if is_stale_pre_store expires_at_unix now_unix
    then (err (unavailable (stale_details expires_at_unix now_unix)), s)
    else if s.poisoned
    then (
      err (
          unavailable
            (codes "shared store mutex poisoned: poisoned lock: another task failed inside")),
      s,
    )
    else elim (find key s.seen) [
      | some retained ↦ (ok replay, s)
      | none ↦
          if leb s.max_entries (length s.seen)
          then (err (unavailable (capacity_details s.max_entries)), s)
          else (ok fresh, record s { seen = set key expires_at_unix s.seen })
    ]

abbrev pub in_memory_store : AtomicReplayStore InMemoryAtomicReplayStore
in_memory_store = record {
  insert_if_absent = insert_if_absent;
  durability_class = λ s. single_process_reference;
}
