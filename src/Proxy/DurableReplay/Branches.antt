-- ===== src/Proxy/DurableReplay/Branches.antt =====
-- The branches of a call of mcps-proxy/src/durable_replay.rs, as equations.
use mcps.Prelude.{
  Str, codes, ◌++◌, ◌≡◌, true, false, some, none, ok, err, arith, leb, length, Result, Bool-cases,
  inl, inr, ◌⊎◌,
}
use mcps.Prelude.Int.{ℤ, leb_ℤ, saturating_add}
use mcps.Prelude.Assoc.{find, set, erase, find-keep-none}
use mcps.Core.Replay.{ReplayKey, unavailable, fresh, replay, replay_key_eq}
use mcps.Proxy.DurableReplay.{
  DurableReplayCache, Disk, Serde, WriteOutcome, persist, prune_in_cadence, prune_every_n_inserts,
  count_insert, live_entries, capacity_details, record_fresh, check_and_insert,
}

abbrev pub State : Type 0
State = DurableReplayCache × Disk

-- The state behind a call.
abbrev pub after : {A : Type 0} → A × DurableReplayCache × Disk → State
after (answer, c, disk) = (c, disk)

pub prune_in_cadence_entries :
    (now : ℤ) (c : DurableReplayCache)
    → ((prune_in_cadence now c).entries ≡ live_entries now c.entries)
      ⊎ ((prune_in_cadence now c).entries ≡ c.entries)
unfolding prune_in_cadence
prune_in_cadence_entries now c =
    elim (Bool-cases (leb prune_every_n_inserts (count_insert c.inserts_since_prune))) [
      | inl p ↦ inl (ground (arith, p))
      | inr p ↦ inr (ground (arith, p))
    ]

pub swept_none :
    (now : ℤ) (k : ReplayKey) (c : DurableReplayCache)
    → find k c.entries ≡ none
    → find k (prune_in_cadence now c).entries ≡ none
unfolding live_entries
swept_none now k c h = elim (prune_in_cadence_entries now c) [
  | inl p ↦ rw p (find-keep-none (λ t. leb_ℤ now t) k c.entries h)
  | inr p ↦ rw p h
]

pub swept_skew :
    (now : ℤ) (c : DurableReplayCache)
    → (prune_in_cadence now c).max_clock_skew_secs ≡ c.max_clock_skew_secs
unfolding prune_in_cadence
swept_skew now c = ground arith

-- The branches of a call.
module _ (serde : Serde) (outcome : WriteOutcome) (key : ReplayKey) (t : ℤ) (c : DurableReplayCache)
    (disk : Disk) where
  abbrev pub recorded : Result Str (Unit {0}) × Disk
  recorded = persist serde outcome (set key t c.entries) disk

  pub record_fresh_written :
      recorded.0 ≡ ok tt
      → record_fresh serde outcome key t c disk
        ≡ (ok fresh, record c { entries = set key t c.entries }, recorded.1)
  unfolding record_fresh
  record_fresh_written p = ground (arith, p)

  pub record_fresh_failed :
      (e : Str)
      → recorded.0 ≡ err e
      → record_fresh serde outcome key t c disk ≡ (
        err (unavailable (codes "persist failed: " ++ e)),
        record c { entries = erase key (set key t c.entries) },
        recorded.1,
      )
  unfolding record_fresh
  record_fresh_failed e p = ground (arith, p)

module _ (serde : Serde) (outcome : WriteOutcome) (now : ℤ) (key : ReplayKey) (expires_at : ℤ)
    (c : DurableReplayCache) (disk : Disk) where
  pub check_and_insert_seen :
      (t : ℤ)
      → find key c.entries ≡ some t
      → check_and_insert serde outcome now key expires_at c disk ≡ (ok replay, c, disk)
  unfolding check_and_insert
  check_and_insert_seen t p = ground (arith, p)

  module _ (p : find key c.entries ≡ none) where
    abbrev pub swept : DurableReplayCache
    swept = prune_in_cadence now c

    pub check_and_insert_full :
        leb swept.capacity (length swept.entries) ≡ true
        → check_and_insert serde outcome now key expires_at c disk
          ≡ (err (unavailable (capacity_details swept.capacity)), swept, disk)
    unfolding check_and_insert
    check_and_insert_full q = ground (arith, p, q)

    pub check_and_insert_new :
        leb swept.capacity (length swept.entries) ≡ false
        → check_and_insert serde outcome now key expires_at c disk
          ≡ record_fresh serde outcome key
              (saturating_add expires_at swept.max_clock_skew_secs)
              swept
              disk
    unfolding check_and_insert
    check_and_insert_new q = ground (arith, p, q)
