-- ===== src/Proxy/DurableReplay/Loading.antt =====
-- What the file of mcps-proxy/src/durable_replay.rs holds is what is loaded from it.
use mcps.Prelude.{
  ℕ, codes, str_eq, List, [], ◌∷◌, ◌≡◌, refl, ◌∙◌, ◌⊎◌, true, some, Bool-cases, inl, inr, ok, arith,
}
use mcps.Prelude.Int.{ℤ, pos, negsuc}
use mcps.Prelude.Assoc.{find, set, Only, Only-set, Holds, find-set_self, find-set_other}
use mcps.Core.Json.{Value, get, get_member, as_str}
use mcps.Core.Replay.{ReplayKey, replay_key_eq, key_eq, key_eq_iff}
use mcps.Proxy.DurableReplay.{Entries, Serde, entry_value, entry_values, load_entry, load_entries}

-- What `serde_json` documents: what it has written, it reads back.
pub record IsFaithful (serde : Serde) : Type 0 where
  pub read_back :
      (v : Value) (bytes : List ℕ) → serde.to_vec v ≡ some bytes → serde.from_slice bytes ≡ some v

load_entry-entry_value : (key : ReplayKey) (t : ℤ) → load_entry (entry_value key t) ≡ ok (key, t)
unfolding load_entry entry_value get get_member as_str codes str_eq
load_entry-entry_value (signer, audience, nonce) (pos n) = refl
load_entry-entry_value (signer, audience, nonce) (negsuc n) = refl

module _ (k : ReplayKey) (r : ℤ) where
  set_keeps_found :
      (key : ReplayKey) (t : ℤ) (acc : Entries)
      → (replay_key_eq.beq key k ≡ true → t ≡ r)
      → find k acc ≡ some r
      → find k (set key t acc) ≡ some r
  set_keeps_found key t acc here h = elim (Bool-cases (key_eq key k)) [
    | inl p ↦
        let t_is_r : t ≡ r = here p in rw ((key_eq_iff key k).0 p, t_is_r) (find-set_self k r acc)
    | inr p ↦ find-set_other k key t acc p ∙ h
  ]

  pub load_entries_held :
      (es acc : Entries)
      → Only k r es
      → Only k r acc
      → (find k acc ≡ some r) ⊎ (find k es ≡ some r)
      → (out : Entries) × (load_entries (entry_values es) acc ≡ ok out) × Holds k r out
  unfolding load_entries entry_values find
  load_entries_held [] acc only clean (inl h) = (acc, refl, record { found = h; only = clean })
  load_entries_held [] acc only clean (inr h) = absurd (cc)
  load_entries_held ((key, t) ∷ es) acc (here, there) clean held =
      rw (load_entry-entry_value key t)
        (load_entries_held es (set key t acc) there (Only-set k key r t acc here clean) still)
    where
      still : (find k (set key t acc) ≡ some r) ⊎ (find k es ≡ some r)
      still = elim held [
        | inl h ↦ inl (set_keeps_found key t acc here h)
        | inr h ↦ elim (Bool-cases (key_eq key k)) [
          | inl p ↦
              let t_is_r : t ≡ r = here p in
              inl (rw ((key_eq_iff key k).0 p, t_is_r) (find-set_self k r acc))
          | inr p ↦ inr (ground (arith, h, p))
        ]
      ]
