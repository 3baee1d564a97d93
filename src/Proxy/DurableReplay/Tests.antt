-- ===== src/Proxy/DurableReplay/Tests.antt =====
-- Runs and witnesses for mcps-proxy/src/durable_replay.rs, with a file format that holds one value.
use mcps.Prelude.{ℕ, codes, [], ◌∷◌, ◌≡◌, refl, Option, some, none, ok, err, All, arith, str_eq}
use mcps.Prelude.{ap, sym, Bool, true, false, ◌==◌, ◌&&◌, if◌then◌else◌, str_eq_iff}
use mcps.Prelude.Int.{◌+ℤ◌, ℤ, pos, saturating_add}
use mcps.Prelude.Assoc.{find, set, erase}
use mcps.Core.Json.{Value, array, object, string, number, item, no_items, member, no_members}
use mcps.Core.Replay.{ReplayKey, fresh, replay, unavailable, replay_key_eq}
use mcps.Proxy.DurableReplay.{
  DurableReplayCache, Serde, not_renamed, unsynced, written, opened, check_and_insert, persist,
  entry_values, entry_value, record_fresh, prune_in_cadence, count_insert, live_entries,
}
use mcps.Proxy.DurableReplay.Loading.{IsFaithful}
use mcps.Proxy.DurableReplay.Branches.{State, after}
use mcps.Proxy.DurableReplay.Restart.{pruned, restarted, run, NotAfter, no_replay_across_restarts}

abbrev key : ReplayKey
key = (codes "did:a", codes "did:s", codes "n1")

-- The array with the one entry of the key, on one byte: all that this format can write.
abbrev one_entry : Value
one_entry = array (entry_values ((key, pos 130) ∷ []))

is_130 : Option ℤ → Option ℕ → Bool
is_130 (some (pos n)) (some m) = (n == 130) && (m == 130)
is_130 _ _ = false

-- Whether a value is that array.
is_one_entry : Value → Bool
is_one_entry
      (array (
        item
          (object (
            member a
              (string s)
              (member b (string t) (member c (string u) (member d (number n) no_members)))))
          no_items)) =
    str_eq a (codes "signer")
    && (str_eq s (codes "did:a")
        && (str_eq b (codes "audience")
            && (str_eq t (codes "did:s")
                && (str_eq c (codes "nonce")
                    && (str_eq u (codes "n1")
                        && (str_eq d (codes "retain_until") && is_130 n.as_i64 n.as_u64))))))
is_one_entry _ = false

is_130_sound :
    (a : Option ℤ) (b : Option ℕ) → is_130 a b ≡ true → (a ≡ some (pos 130)) × (b ≡ some 130)
unfolding is_130
is_130_sound (some (pos n)) (some m) h = ground arith
is_130_sound _ _ h = ground arith

is_one_entry_sound : (v : Value) → is_one_entry v ≡ true → v ≡ one_entry
unfolding is_one_entry entry_values entry_value
is_one_entry_sound
      (array (
        item
          (object (
            member a
              (string s)
              (member b (string t) (member c (string u) (member d (number n) no_members)))))
          no_items))
      h =
    ground (
      arith,
      is_130_sound n.as_i64 n.as_u64,
      str_eq_iff a (codes "signer"),
      str_eq_iff s (codes "did:a"),
      str_eq_iff b (codes "audience"),
      str_eq_iff t (codes "did:s"),
      str_eq_iff c (codes "nonce"),
      str_eq_iff u (codes "n1"),
      str_eq_iff d (codes "retain_until"),
    )
is_one_entry_sound _ h = cc

abbrev format : Serde
format = record {
  to_vec = λ v. if is_one_entry v then some (1 ∷ []) else none;
  from_slice = λ bytes. some one_entry;
}

format-IsFaithful : IsFaithful format
format-IsFaithful = record {
  read_back = λ v bytes h. ap some (sym (is_one_entry_sound v (ground arith)));
}

abbrev cache : DurableReplayCache
cache = opened (pos 30) []

first_time : (check_and_insert format written (pos 90) key (pos 100) cache none).0 ≡ ok fresh
unfolding check_and_insert find set erase prune_in_cadence count_insert live_entries opened persist
    entry_values entry_value record_fresh is_one_entry is_130 codes str_eq saturating_add ◌+ℤ◌
first_time = refl

-- A write that fails leaves no entry, so the call can be made again.
retried :
    (check_and_insert format (not_renamed (codes "full")) (pos 90) key (pos 100) cache none).0
    ≡ err (unavailable (codes "persist failed: full"))
unfolding check_and_insert find set erase prune_in_cadence count_insert live_entries opened persist
    entry_values entry_value record_fresh is_one_entry is_130 codes str_eq saturating_add ◌+ℤ◌
retried = refl

in_time :
    All
      (NotAfter (saturating_add (pos 100) cache.max_clock_skew_secs))
      (restarted ∷ pruned (unsynced (codes "io")) (pos 110) ∷ restarted ∷ [])
unfolding saturating_add opened ◌+ℤ◌
in_time = (tt, (omega arith, (tt, tt)))

no_replay_across_restarts_example :
    (s' : State) × (run format
        (restarted ∷ pruned (unsynced (codes "io")) (pos 110) ∷ restarted ∷ [])
        (after (check_and_insert format written (pos 90) key (pos 100) cache none))
      ≡ ok s')
    × ((check_and_insert format written (pos 120) key (pos 100) s'.0 s'.1).0 ≡ ok replay)
no_replay_across_restarts_example =
    no_replay_across_restarts format format-IsFaithful written (pos 90) key (pos 100) cache none
      (restarted ∷ pruned (unsynced (codes "io")) (pos 110) ∷ restarted ∷ []) written (pos 120)
      (pos 100) first_time in_time
