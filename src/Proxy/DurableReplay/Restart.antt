-- ===== src/Proxy/DurableReplay/Restart.antt =====
-- A triple that mcps-proxy/src/durable_replay.rs took as fresh stays taken, also across restarts.
use mcps.Prelude.{Str, List, [], ◌∷◌, ◌≡◌, refl, ap, inl, Result, ok, ◌>>=◌, arith, All}
use mcps.Prelude.Int.{ℤ, ◌≤ℤ◌, saturating_add}
use mcps.Core.Replay.{ReplayKey, fresh, replay, replay_key_eq}
use mcps.Proxy.DurableReplay.{
  DurableReplayCache, Disk, Serde, WriteOutcome, open_cache, prune, live_entries, check_and_insert,
}
use mcps.Proxy.DurableReplay.Loading.{IsFaithful}
use mcps.Proxy.DurableReplay.Branches.{State, after, check_and_insert_seen}
use mcps.Proxy.DurableReplay.Retention.{
  Retains, persist-DiskHolds, load_held, live_entries_held, check_and_insert-Retains, fresh-Retains,
}

-- What a process and its disk do, one after another: a call at an instant of the clock, with the way
-- its write ends, a pruning, or a restart of the process.
pub data Event : Type 0 where
  called : WriteOutcome → ℤ → ReplayKey → ℤ → Event
  pruned : WriteOutcome → ℤ → Event
  restarted : Event

-- A restart fails when the file cannot be loaded.
unfoldable pub step : Serde → Event → State → Result Str State
step serde (called outcome now key expires_at) (c, disk) =
    ok (after (check_and_insert serde outcome now key expires_at c disk))
step serde (pruned outcome now) (c, disk) = ok (after (prune serde outcome now c disk))
step serde restarted (c, disk) = do c' ← open_cache serde disk c.max_clock_skew_secs; ok (c', disk)

pub run : Serde → List Event → State → Result Str State
run serde [] s = ok s
run serde (e ∷ es) s = do s' ← step serde e s; run serde es s'

-- The clock of an event has not passed the instant.
abbrev pub NotAfter : ℤ → Event → Type 0
NotAfter r (called outcome now key expires_at) = now ≤ℤ r
NotAfter r (pruned outcome now) = now ≤ℤ r
NotAfter r restarted = Unit

module _ (serde : Serde) (f : IsFaithful serde) (k : ReplayKey) (r : ℤ) where
  step-Retains :
      (e : Event) (s : State)
      → NotAfter r e
      → Retains serde f k r s
      → (s' : State) × (step serde e s ≡ ok s') × Retains serde f k r s'
  unfolding step prune
  step-Retains (called outcome now key expires_at) (c, disk) h held =
      (_, refl, check_and_insert-Retains serde f k r outcome now key expires_at c disk h held)
  step-Retains (pruned outcome now) (c, disk) h held =
      let kept = live_entries_held serde f k r now c.entries h held.memory in
      (
        _,
        refl,
        record {
          memory = kept;
          file =
              persist-DiskHolds serde f k r outcome (live_entries now c.entries) disk kept
                (inl held.file);
        },
      )
  step-Retains restarted (c, disk) h held =
      let (c', opened_as, memory) = load_held serde f k r disk c.max_clock_skew_secs held.file in
      ((c', disk), ground (arith, opened_as), record { memory = memory; file = held.file })

  run-Retains :
      (es : List Event) (s : State)
      → All (NotAfter r) es
      → Retains serde f k r s
      → (s' : State) × (run serde es s ≡ ok s') × Retains serde f k r s'
  unfolding run
  run-Retains [] s h held = (s, refl, held)
  run-Retains (e ∷ es) s (h, hs) held =
      let (s1, ran, held1) = step-Retains e s h held in
      let (s2, done, held2) = run-Retains es s1 hs held1 in (s2, ground (arith, ran, done), held2)

-- Once the durable cache has answered "fresh" for a triple, then whatever calls, prunings and
-- restarts follow, with writes that end well or not, at instants that the skewed expiry has not
-- left behind, every restart loads the file, and the triple is a replay; the JSON library reads
-- back what it writes.
pub no_replay_across_restarts :
    (serde : Serde) (f : IsFaithful serde) (outcome : WriteOutcome) (now : ℤ) (k : ReplayKey)
    (expires_at : ℤ) (c : DurableReplayCache) (disk : Disk) (events : List Event)
    (outcome' : WriteOutcome) (now' expires_at' : ℤ)
    → (check_and_insert serde outcome now k expires_at c disk).0 ≡ ok fresh
    → All (NotAfter (saturating_add expires_at c.max_clock_skew_secs)) events
    → (s' : State) × (run serde events
          (after (check_and_insert serde outcome now k expires_at c disk))
        ≡ ok s')
      × ((check_and_insert serde outcome' now' k expires_at' s'.0 s'.1).0 ≡ ok replay)
no_replay_across_restarts serde f outcome now k expires_at c disk events outcome' now' expires_at' h
      in_time =
    let until = saturating_add expires_at c.max_clock_skew_secs in
    let held = fresh-Retains serde f outcome now k expires_at c disk h in
    let (s', ran, still) = run-Retains serde f k until events _ in_time held in
    (
      s',
      ran,
      ap (λ x. x.0)
          (check_and_insert_seen serde outcome' now' k expires_at' s'.0 s'.1 until
            still.memory.found),
    )
