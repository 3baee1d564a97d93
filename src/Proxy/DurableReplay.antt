-- ===== src/Proxy/DurableReplay.antt =====
-- mcps-proxy/src/durable_replay.rs: the replay cache that keeps its entries in a file. The file is
-- its bytes, or it is not there; what the operating system does with a write, and the time of the
-- clock, are what a call reads. `to_vec` and `from_slice` stand for those of `serde_json`.
pub mod Loading
pub mod Branches
pub mod Retention
pub mod Restart
mod Tests
use mcps.Prelude.{
  ℕ, suc, Str, codes, length, ◌++◌, List, [], ◌∷◌, Bool, true, false, Option, some, none, Result,
  ok, err, ◌>>=◌, ok_or, ltb, leb, if◌then◌else◌,
}
use mcps.Prelude.Decimal.{decimal}
use mcps.Prelude.Int.{ℤ, pos, negsuc, leb_ℤ, saturating_add}
use mcps.Prelude.Assoc.{find, set, erase, keep}
use mcps.Core.Json.{
  Value, Items, Number, number, string, array, object, no_items, item, no_members, member, get,
  as_str,
}
use mcps.Core.Replay.{
  ReplayKey, ReplayCacheError, ReplayDecision, unavailable, fresh, replay, replay_key_eq,
}

abbrev pub Entries : Type 0
Entries = List (ReplayKey × ℤ)

abbrev pub prune_every_n_inserts : ℕ
prune_every_n_inserts = 64

abbrev pub max_entries : ℕ
max_entries = 1000000

pub record DurableReplayCache : Type 0 where
  pub max_clock_skew_secs : ℤ
  pub entries : Entries
  pub inserts_since_prune : ℕ
  pub capacity : ℕ

abbrev pub Disk : Type 0
Disk = Option (List ℕ)

-- How a write ends: with an error before the rename, with an error after it, or well.
pub data WriteOutcome : Type 0 where
  not_renamed unsynced : Str → WriteOutcome
  written : WriteOutcome

pub record Serde : Type 0 where
  pub to_vec : Value → Option (List ℕ)
  pub from_slice : List ℕ → Option Value

abbrev i64_value : ℤ → Value
i64_value (pos n) = number (record { as_i64 = some (pos n); as_u64 = some n })
i64_value (negsuc n) = number (record { as_i64 = some (negsuc n); as_u64 = none })

unfoldable pub entry_value : ReplayKey → ℤ → Value
unfolding codes
entry_value (signer, audience, nonce) retain_until = object (
    member (codes "signer") (string signer) (
      member (codes "audience") (string audience) (
        member (codes "nonce") (string nonce)
          (member (codes "retain_until") (i64_value retain_until) no_members))))

unfoldable pub entry_values : Entries → Items
entry_values [] = no_items
entry_values ((key, retain_until) ∷ es) = item (entry_value key retain_until) (entry_values es)

unfoldable pub persist : Serde → WriteOutcome → Entries → Disk → Result Str (Unit {0}) × Disk
unfolding codes
persist serde outcome entries disk = elim (serde.to_vec (array (entry_values entries))) [
  | none ↦ (err (codes "serialization failed"), disk)
  | some bytes ↦ elim outcome [
    | not_renamed details ↦ (err details, disk)
    | unsynced details ↦ (err details, some bytes)
    | written ↦ (ok tt, some bytes)
  ]
]

abbrev and_then_str : Option Value → Option Str
and_then_str none = none
and_then_str (some v) = as_str v

abbrev and_then_i64 : Option Value → Option ℤ
and_then_i64 (some (number n)) = n.as_i64
and_then_i64 _ = none

-- `entry["signer"]` and the rest: a member that is absent is null.
unfoldable pub load_entry : Value → Result Str (ReplayKey × ℤ)
unfolding codes get
load_entry entry = do
  let malformed = codes "malformed replay cache entry"
  signer ← ok_or (and_then_str (get entry (codes "signer"))) malformed
  audience ← ok_or (and_then_str (get entry (codes "audience"))) malformed
  nonce ← ok_or (and_then_str (get entry (codes "nonce"))) malformed
  retain_until ← ok_or (and_then_i64 (get entry (codes "retain_until"))) malformed
  ok ((signer, audience, nonce), retain_until)

unfoldable pub load_entries : Items → Entries → Result Str Entries
load_entries no_items entries = ok entries
load_entries (item entry rest) entries = do
  (key, retain_until) ← load_entry entry
  load_entries rest (set key retain_until entries)

abbrev as_array : Value → Option Items
as_array (array items) = some items
as_array _ = none

unfoldable pub load : Serde → List ℕ → Result Str Entries
unfolding codes
load serde bytes = do
  value ← ok_or (serde.from_slice bytes) (codes "invalid JSON")
  items ← ok_or (as_array value) (codes "replay cache is not a JSON array")
  load_entries items []

unfoldable pub opened : ℤ → Entries → DurableReplayCache
opened max_clock_skew_secs entries = record {
  max_clock_skew_secs = max_clock_skew_secs;
  entries = entries;
  inserts_since_prune = 0;
  capacity = max_entries;
}

unfoldable pub open_cache : Serde → Disk → ℤ → Result Str DurableReplayCache
open_cache serde none max_clock_skew_secs = ok (opened max_clock_skew_secs [])
open_cache serde (some bytes) max_clock_skew_secs = do
  entries ← load serde bytes
  ok (opened max_clock_skew_secs entries)

unfoldable pub live_entries : ℤ → Entries → Entries
live_entries now_unix entries = keep (λ retain_until. leb_ℤ now_unix retain_until) entries

-- A call of `prune` and what it leaves on the disk.
unfoldable pub prune :
    Serde
    → WriteOutcome
    → ℤ
    → DurableReplayCache
    → Disk
    → Result Str (Unit {0}) × DurableReplayCache × Disk
prune serde outcome now_unix c disk =
    let entries = live_entries now_unix c.entries in
    let (answer, disk') = persist serde outcome entries disk in
    (answer, record c { entries = entries }, disk')

-- `saturating_add(1)` on a u64.
unfoldable pub count_insert : ℕ → ℕ
count_insert n = if ltb n 18446744073709551615 then suc n else n

-- The pruning that one insertion in `prune_every_n_inserts` does.
unfoldable pub prune_in_cadence : ℤ → DurableReplayCache → DurableReplayCache
prune_in_cadence now c =
    let inserts = count_insert c.inserts_since_prune in
    if leb prune_every_n_inserts inserts
    then record c { inserts_since_prune = 0; entries = live_entries now c.entries }
    else record c { inserts_since_prune = inserts }

unfoldable pub capacity_details : ℕ → Str
unfolding codes decimal
capacity_details capacity =
    codes "replay cache at capacity ("
    ++ (decimal capacity
        ++ codes " entries); refusing to admit further nonces until expired entries drain")

-- The insertion: the entry is taken back when the write fails.
unfoldable pub record_fresh :
    Serde
    → WriteOutcome
    → ReplayKey
    → ℤ
    → DurableReplayCache
    → Disk
    → Result ReplayCacheError ReplayDecision × DurableReplayCache × Disk
unfolding codes
record_fresh serde outcome key retain_until c disk =
    let entries = set key retain_until c.entries in
    let (answer, disk') = persist serde outcome entries disk in
    elim answer [
      | ok _ ↦ (ok fresh, record c { entries = entries }, disk')
      | err e ↦ (
        err (unavailable (codes "persist failed: " ++ e)),
        record c { entries = erase key entries },
        disk',
      )
    ]

unfoldable pub check_and_insert :
    Serde
    → WriteOutcome
    → ℤ
    → ReplayKey
    → ℤ
    → DurableReplayCache
    → Disk
    → Result ReplayCacheError ReplayDecision × DurableReplayCache × Disk
check_and_insert serde outcome now key expires_at_unix c disk = elim (find key c.entries) [
  | some retained ↦ (ok replay, c, disk)
  | none ↦
      let c' = prune_in_cadence now c in
      if leb c'.capacity (length c'.entries)
      then (err (unavailable (capacity_details c'.capacity)), c', disk)
      else record_fresh serde outcome key (saturating_add expires_at_unix c'.max_clock_skew_secs) c'
          disk
]
