-- ===== src/Core/Replay.antt =====
-- mcps-core/src/replay.rs: the `ReplayCache` trait as an interface with the laws that its
-- documentation promises, and the reference cache in memory.
pub mod Laws
pub mod Pruning
mod Tests
use mcps.Prelude.{
  Str, str_eq, str_eq_iff, ◌≡◌, Bool, true, false, ◌&&◌, Option, some, none, Result, ok, err, arith,
  if◌then◌else◌, ◌↔◌,
}
use mcps.Prelude.Int.{ℤ, leb_ℤ, saturating_add}
use mcps.Prelude.Map.{Eq, Map, empty, contains_key, insert, retain}
use mcps.Core.Error.{McpsError, replay_cache_unavailable}

pub data ReplayDurabilityClass : Type 0 where
  single_process_reference durable : ReplayDurabilityClass

pub data ReplayDecision : Type 0 where
  fresh replay : ReplayDecision

pub data ReplayCacheError : Type 0 where
  unavailable : Str → ReplayCacheError

unfoldable pub to_mcps_error : ReplayCacheError → McpsError
to_mcps_error (unavailable details) = replay_cache_unavailable

-- `(signer, audience, nonce)`.
abbrev pub ReplayKey : Type 0
ReplayKey = Str × Str × Str

unfoldable pub key_eq : ReplayKey → ReplayKey → Bool
key_eq (s, a, n) (t, b, m) = str_eq s t && (str_eq a b && str_eq n m)

pub key_eq_iff : (j k : ReplayKey) → (key_eq j k ≡ true) ↔ (j ≡ k)
unfolding key_eq
key_eq_iff (s, a, n) (t, b, m) = ground (arith, str_eq_iff s t, str_eq_iff a b, str_eq_iff n m)

instance abbrev pub replay_key_eq : Eq ReplayKey
replay_key_eq = record { beq = key_eq; beq_iff = key_eq_iff }

-- The trait: a method that mutates the cache returns the new cache beside its result.
pub record ReplayCache (S : Type 0) : Type 0 where
  pub check_and_insert : S → ReplayKey → ℤ → Result ReplayCacheError ReplayDecision × S
  pub durability_class : S → ReplayDurabilityClass

unfoldable pub is_single_process_reference : {S : Type 0} → ReplayCache S → S → Bool
is_single_process_reference c s = elim (c.durability_class s) [
  | single_process_reference ↦ true
  | durable ↦ false
]

pub record InMemoryReplayCache : Type 0 where
  pub max_clock_skew_secs : ℤ
  pub seen : Map ReplayKey ℤ

unfoldable pub new : ℤ → InMemoryReplayCache
unfolding empty
new max_clock_skew_secs = record { max_clock_skew_secs = max_clock_skew_secs; seen = empty }

unfoldable pub prune : InMemoryReplayCache → ℤ → InMemoryReplayCache
unfolding retain
prune c now_unix = record c { seen = retain (λ _ retain_until. leb_ℤ now_unix retain_until) c.seen }

unfoldable pub check_and_insert :
    InMemoryReplayCache
    → ReplayKey
    → ℤ
    → Result ReplayCacheError ReplayDecision × InMemoryReplayCache
unfolding contains_key insert
check_and_insert c key expires_at_unix =
    if contains_key c.seen key
    then (ok replay, c)
    else (ok fresh, record c { seen = insert key retain_until c.seen })
  where
    retain_until : ℤ
    retain_until = saturating_add expires_at_unix c.max_clock_skew_secs

abbrev pub in_memory : ReplayCache InMemoryReplayCache
in_memory = record {
  check_and_insert = check_and_insert;
  durability_class = λ _. single_process_reference;
}
