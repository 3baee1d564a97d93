-- ===== src/Proxy/DurableReplay/Retention.antt =====
-- An entry that is in memory and in the file of mcps-proxy/src/durable_replay.rs stays there.
use mcps.Prelude.{
  ℕ, List, [], ◌≡◌, ◌≢◌, sym, ap, ◌∙◌, ◌⊎◌, false, some, none, Option-cases, Bool-cases,
  Result-cases, inl, inr, ok, arith, leb, length,
}
use mcps.Prelude.Int.{ℤ, ◌≤ℤ◌, leb_ℤ, saturating_add}
use mcps.Prelude.Assoc.{
  find, set, Holds, Holds-set_new, Holds-set_other, Holds-erase_other, Holds-keep,
}
use mcps.Core.Json.{array}
use mcps.Core.Replay.{ReplayKey, fresh, replay_key_eq, key_eq, key_eq_iff}
use mcps.Proxy.DurableReplay.{
  DurableReplayCache, Disk, Entries, Serde, WriteOutcome, not_renamed, unsynced, written, persist,
  entry_values, load, opened, open_cache, live_entries, prune_in_cadence, record_fresh,
  check_and_insert,
}
use mcps.Proxy.DurableReplay.Loading.{IsFaithful, load_entries_held}
use mcps.Proxy.DurableReplay.Branches.{
  State, after, prune_in_cadence_entries, swept_none, swept_skew, record_fresh_written,
  record_fresh_failed, check_and_insert_seen, check_and_insert_full, check_and_insert_new,
}

module _ (serde : Serde) (f : IsFaithful serde) (k : ReplayKey) (r : ℤ) where
  pub record DiskHolds (disk : Disk) : Type 0 where
    bytes : List ℕ
    there : disk ≡ some bytes
    items : Entries
    stored : serde.from_slice bytes ≡ some (array (entry_values items))
    held : Holds k r items

  pub record Retains (s : State) : Type 0 where
    pub memory : Holds k r s.0.entries
    pub file : DiskHolds s.1

  -- The file is as it was, or it is the entries.
  persist_disk :
      (outcome : WriteOutcome) (es : Entries) (disk : Disk)
      → (((persist serde outcome es disk).1 ≡ disk) × ((persist serde outcome es disk).0 ≢ ok tt))
        ⊎ ((bytes : List ℕ) × (serde.to_vec (array (entry_values es)) ≡ some bytes)
            × ((persist serde outcome es disk).1 ≡ some bytes))
  unfolding persist
  persist_disk outcome es disk = elim (Option-cases (serde.to_vec (array (entry_values es)))) [
    | inl p ↦ inl (ground (arith, p), λ h. ground (arith, p))
    | inr (bytes, p) ↦ by_outcome outcome bytes p
  ]
    where
      by_outcome :
          (o : WriteOutcome) (bytes : List ℕ)
          → serde.to_vec (array (entry_values es)) ≡ some bytes
          → (((persist serde o es disk).1 ≡ disk) × ((persist serde o es disk).0 ≢ ok tt))
            ⊎ ((bytes : List ℕ) × (serde.to_vec (array (entry_values es)) ≡ some bytes)
                × ((persist serde o es disk).1 ≡ some bytes))
      by_outcome (not_renamed details) bytes p = inl (ground (arith, p), λ h. ground (arith, p))
      by_outcome (unsynced details) bytes p = inr (bytes, p, ground (arith, p))
      by_outcome written bytes p = inr (bytes, p, ground (arith, p))

  pub persist-DiskHolds :
      (outcome : WriteOutcome) (es : Entries) (disk : Disk)
      → Holds k r es
      → DiskHolds disk ⊎ ((persist serde outcome es disk).0 ≡ ok tt)
      → DiskHolds (persist serde outcome es disk).1
  persist-DiskHolds outcome es disk h d = elim (persist_disk outcome es disk) [
    | inr (bytes, written_as, after_it) ↦ record {
      bytes = bytes;
      there = after_it;
      items = es;
      stored = f.read_back _ bytes written_as;
      held = h;
    }
    | inl (same, failed) ↦ elim d [ inl before ↦ rw same before | inr well ↦ absurd (failed well) ]
  ]

  pub load_held :
      (disk : Disk) (skew : ℤ)
      → DiskHolds disk
      → (c : DurableReplayCache) × (open_cache serde disk skew ≡ ok c) × Holds k r c.entries
  unfolding open_cache load opened
  load_held disk skew d =
      let (out, loaded, held) =
        load_entries_held k r d.items [] d.held.only tt (inr d.held.found) in
      (opened skew out, ground (arith, d.there, d.stored, loaded), held)

  pub live_entries_held :
      (now : ℤ) (es : Entries) → now ≤ℤ r → Holds k r es → Holds k r (live_entries now es)
  unfolding live_entries
  live_entries_held now es h held = Holds-keep (λ t. leb_ℤ now t) k r es (ground arith) held

  prune_in_cadence_held :
      (now : ℤ) (c : DurableReplayCache)
      → now ≤ℤ r
      → Holds k r c.entries
      → Holds k r (prune_in_cadence now c).entries
  prune_in_cadence_held now c h held = elim (prune_in_cadence_entries now c) [
    | inl p ↦ rw p (live_entries_held now c.entries h held)
    | inr p ↦ rw p held
  ]

  record_fresh-Retains :
      (outcome : WriteOutcome) (key : ReplayKey) (t : ℤ) (c : DurableReplayCache) (disk : Disk)
      → key_eq key k ≡ false
      → Retains (c, disk)
      → Retains (after (record_fresh serde outcome key t c disk))
  record_fresh-Retains outcome key t c disk other held =
      elim (Result-cases (persist serde outcome (set key t c.entries) disk).0) [
        | inl (done, p) ↦
            rw (record_fresh_written serde outcome key t c disk p)
              (record { memory = inserted; file = file })
        | inr (e, p) ↦ rw (record_fresh_failed serde outcome key t c disk e p) (record {
          memory = Holds-erase_other k key r (set key t c.entries) other inserted;
          file = file;
        })
      ]
    where
      inserted : Holds k r (set key t c.entries)
      inserted = Holds-set_other k key r t c.entries other held.memory

      file : DiskHolds (persist serde outcome (set key t c.entries) disk).1
      file = persist-DiskHolds outcome (set key t c.entries) disk inserted (inl held.file)

  pub check_and_insert-Retains :
      (outcome : WriteOutcome) (now : ℤ) (key : ReplayKey) (expires_at : ℤ) (c : DurableReplayCache)
      (disk : Disk)
      → now ≤ℤ r
      → Retains (c, disk)
      → Retains (after (check_and_insert serde outcome now key expires_at c disk))
  check_and_insert-Retains outcome now key expires_at c disk h held =
      elim (Option-cases (find key c.entries)) [
        | inr (retained, p) ↦
            rw (check_and_insert_seen serde outcome now key expires_at c disk retained p) held
        | inl p ↦ elim (Bool-cases (leb c'.capacity (length c'.entries))) [
          | inl q ↦
              rw (check_and_insert_full serde outcome now key expires_at c disk p q) pruned_state
          | inr q ↦
              rw (check_and_insert_new serde outcome now key expires_at c disk p q)
                (record_fresh-Retains outcome key _ c' disk (other p) pruned_state)
        ]
      ]
    where
      c' : DurableReplayCache
      c' = prune_in_cadence now c

      pruned_state : Retains (c', disk)
      pruned_state = record { memory = prune_in_cadence_held now c h held.memory; file = held.file }

      other : find key c.entries ≡ none → key_eq key k ≡ false
      other p = ground (arith, key_eq_iff key k, held.memory.found, p)

module _ (serde : Serde) (f : IsFaithful serde) (outcome : WriteOutcome) (now : ℤ) (k : ReplayKey)
    (expires_at : ℤ) (c : DurableReplayCache) (disk : Disk) where
  abbrev retained_until : ℤ
  retained_until = saturating_add expires_at c.max_clock_skew_secs

  -- A fresh answer means that the entry is in memory and in the file.
  pub fresh-Retains :
      (check_and_insert serde outcome now k expires_at c disk).0 ≡ ok fresh
      → Retains serde f k retained_until
          (after (check_and_insert serde outcome now k expires_at c disk))
  fresh-Retains h = elim (Option-cases (find k c.entries)) [
    | inr (retained, p) ↦
        absurd
          (ground (arith, check_and_insert_seen serde outcome now k expires_at c disk retained p))
    | inl p ↦ elim (Bool-cases (leb swept'.capacity (length swept'.entries))) [
      | inl q ↦
          absurd (ground (arith, check_and_insert_full serde outcome now k expires_at c disk p q))
      | inr q ↦
          let new =
            check_and_insert_new serde outcome now k expires_at c disk p q
            ∙ ap (λ skew. record_fresh serde outcome k (saturating_add expires_at skew) swept' disk)
                (swept_skew now c) in
          rw new (recorded_fresh p (ap (λ x. x.0) (sym new) ∙ h))
    ]
  ]
    where
      swept' : DurableReplayCache
      swept' = prune_in_cadence now c

      recorded_fresh :
          find k c.entries ≡ none
          → (record_fresh serde outcome k retained_until swept' disk).0 ≡ ok fresh
          → Retains serde f k retained_until
              (after (record_fresh serde outcome k retained_until swept' disk))
      recorded_fresh p done =
          elim (Result-cases (persist serde outcome (set k retained_until swept'.entries) disk).0) [
            | inr (e, q) ↦
                absurd (
                  ground
                    (arith, record_fresh_failed serde outcome k retained_until swept' disk e q))
            | inl (_, q) ↦
                let inserted =
                  Holds-set_new k retained_until swept'.entries (swept_none now k c p) in
                rw (record_fresh_written serde outcome k retained_until swept' disk q) (record {
                  memory = inserted;
                  file = persist-DiskHolds serde f k retained_until outcome _ disk inserted (inr q);
                })
          ]
