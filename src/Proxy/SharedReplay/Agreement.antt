-- ===== src/Proxy/SharedReplay/Agreement.antt =====
-- The shared replay cache of mcps-proxy/src/shared_replay.rs over the store in memory agrees with the
-- reference cache of the core.
use mcps.Prelude.{
  ℕ, suc, ◌<◌, ◌≤◌, ◌+◌, Str, str_eq, str_eq_iff, as_bytes, length, List, [], ◌∷◌, All,
  Option-cases, some, none, Bool-cases, true, false, ◌≡◌, refl, ◌∙◌, inl, inr, arith,
}
use mcps.Prelude.Int.{ℤ, pos, leb_ℤ, saturating_add}
use mcps.Prelude.Map.{contains_key, insert, retain, empty}
use mcps.Prelude.Assoc.{
  find, set, keep, Holds, Holds-set_new, Holds-set_other, Holds-keep, find-set_other,
  find-keep-none,
}
use mcps.Core.Crypto.{Externals, sha256_hash_id}
use mcps.Core.Resolver.{str_key_eq}
use mcps.Core.Replay
use mcps.Core.Replay.{
  ReplayKey, ReplayDecision, InMemoryReplayCache, key_eq, key_eq_iff, replay_key_eq,
  check_and_insert,
}
use mcps.Proxy.SharedReplay.{
  InMemoryAtomicReplayStore, new, prune, insert_if_absent, in_memory_store, is_stale_pre_store,
  key_preimage, composite_key, shared_check_and_insert, max_atomic_store_entries,
}
use mcps.Proxy.SharedReplay.Keys.{
  Sized, key_preimage_injective, length-set, length-keep, find-keep_gone, kept_if,
}

-- What is asked of a cache over time.
pub data Event : Type 0 where
  asks : ReplayKey → ℤ → Event
  prunes : ℤ → Event

-- The shared cache and the reference cache after the same events.
pub shared_history :
    Externals → ℤ → InMemoryAtomicReplayStore → List Event → InMemoryAtomicReplayStore
shared_history x skew s [] = s
shared_history x skew s (asks k t ∷ es) =
    shared_history x skew (shared_check_and_insert x in_memory_store skew s k t).1 es
shared_history x skew s (prunes now ∷ es) = shared_history x skew (prune s now) es

pub reference_history : InMemoryReplayCache → List Event → InMemoryReplayCache
reference_history c [] = c
reference_history c (asks k t ∷ es) = reference_history (check_and_insert c k t).1 es
reference_history c (prunes now ∷ es) = reference_history (Replay.prune c now) es

-- The texts of the triples in use are told apart by their digests, and the sizes fit.
pub record Apart (x : Externals) (used : ReplayKey → Type 0) : Type 0 where
  pub sized : (k : ReplayKey) → used k → Sized k
  pub no_collision :
      (j k : ReplayKey)
      → used j
      → used k
      → sha256_hash_id x (as_bytes (key_preimage j.0 j.1 j.2))
        ≡ sha256_hash_id x (as_bytes (key_preimage k.0 k.1 k.2))
      → key_preimage j.0 j.1 j.2 ≡ key_preimage k.0 k.1 k.2

-- A call for a triple in use whose retention does not end before the epoch.
abbrev pub Usual : (ReplayKey → Type 0) → ℤ → Event → Type 0
Usual used skew (asks k t) = used k × (is_stale_pre_store (saturating_add t skew) (pos 0) ≡ false)
Usual used skew (prunes now) = Unit

module _ (x : Externals) (used : ReplayKey → Type 0) (apart : Apart x used) (skew : ℤ) where
  abbrev key_of : ReplayKey → Str
  key_of (s, a, n) = composite_key x s a n

  key_of_injective : (j k : ReplayKey) → used j → used k → key_of j ≡ key_of k → j ≡ k
  unfolding composite_key
  key_of_injective j k uj uk e =
      key_preimage_injective j k (apart.sized j uj) (apart.sized k uk)
        (apart.no_collision j k uj uk e)

  apart_keys :
      (k j : ReplayKey)
      → used k
      → used j
      → key_eq k j ≡ false
      → str_eq (key_of k) (key_of j) ≡ false
  apart_keys k j uk uj h = elim (Bool-cases (str_eq (key_of k) (key_of j))) [
    | inl q ↦ absurd (
        let same : k ≡ j = key_of_injective k j uk uj ((str_eq_iff _ _).0 q) in
        let hit = (key_eq_iff k j).1 same in cc)
    | inr q ↦ q
  ]

  record Agrees (n : ℕ) (s : InMemoryAtomicReplayStore) (c : InMemoryReplayCache) : Type 0 where
    unpoisoned : s.poisoned ≡ false
    room : s.max_entries ≡ max_atomic_store_entries
    count : length s.seen ≤ n
    same_skew : c.max_clock_skew_secs ≡ skew
    absent : (k : ReplayKey) → used k → c.seen k ≡ none → find (key_of k) s.seen ≡ none
    held : (k : ReplayKey) (v : ℤ) → used k → c.seen k ≡ some v → Holds (key_of k) v s.seen

  starts : Agrees 0 new (Replay.new skew)
  unfolding new Replay.new empty find
  starts = record {
    unpoisoned = refl;
    room = refl;
    count = omega arith;
    same_skew = refl;
    absent = λ k u h. refl;
    held = λ k v u h. cc;
  }

  module _ (n : ℕ) (s : InMemoryAtomicReplayStore) (c : InMemoryReplayCache)
      (a : Agrees n s c) where
    pruned : (now : ℤ) → prune s now ≡ record s { seen = keep (leb_ℤ now) s.seen }
    unfolding prune
    pruned now = rw a.unpoisoned refl

    prunes-Agrees : (now : ℤ) → Agrees n (prune s now) (Replay.prune c now)
    unfolding Replay.prune retain
    prunes-Agrees now = rw (pruned now) (record {
      unpoisoned = a.unpoisoned;
      room = a.room;
      count = omega (arith, a.count, length-keep (leb_ℤ now) s.seen);
      same_skew = a.same_skew;
      absent = λ k u h. elim (Option-cases (c.seen k)) [
        | inl p ↦ find-keep-none (leb_ℤ now) (key_of k) s.seen (a.absent k u p)
        | inr (v, p) ↦
            let gone : leb_ℤ now v ≡ false = ground (arith, p) in
            find-keep_gone (leb_ℤ now) (key_of k) v s.seen gone (a.held k v u p).only
      ];
      held = λ k v u h.
          let kept : (c.seen k ≡ some v) × (leb_ℤ now v ≡ true) =
            kept_if (leb_ℤ now) (c.seen k) v h in
          Holds-keep (leb_ℤ now) (key_of k) v s.seen kept.1 (a.held k v u kept.0);
    })

    still : Agrees (suc n) s c
    still = record {
      unpoisoned = a.unpoisoned;
      room = a.room;
      count = omega (arith, a.count);
      same_skew = a.same_skew;
      absent = a.absent;
      held = a.held;
    }

    inserted :
        (k : ReplayKey) (r : ℤ)
        → used k
        → c.seen k ≡ none
        → Agrees
            (suc n)
            (record s { seen = set (key_of k) r s.seen })
            (record c { seen = insert k r c.seen })
    unfolding insert
    inserted k r u p = record {
      unpoisoned = a.unpoisoned;
      room = a.room;
      count = omega (arith, a.count, length-set (key_of k) r s.seen);
      same_skew = a.same_skew;
      absent = λ j uj h.
          let other : (key_eq k j ≡ false) × (c.seen j ≡ none) = ground arith in
          find-set_other (key_of j) (key_of k) r s.seen (apart_keys k j u uj other.0)
          ∙ a.absent j uj other.1;
      held = λ j v uj h. elim (Bool-cases (key_eq k j)) [
        | inl q ↦
            let same : k ≡ j = (key_eq_iff k j).0 q in
            let value : r ≡ v = ground (arith, q) in
            rw (← same, ← value) (Holds-set_new (key_of k) r s.seen (a.absent k u p))
        | inr q ↦
            let there : c.seen j ≡ some v = ground (arith, q) in
            Holds-set_other (key_of j) (key_of k) v r s.seen (apart_keys k j u uj q)
              (a.held j v uj there)
      ];
    }

    module _ (k : ReplayKey) (t : ℤ) (usual : Usual used skew (asks k t))
        (few : n < max_atomic_store_entries) where
      same_answer :
          (shared_check_and_insert x in_memory_store skew s k t).0 ≡ (check_and_insert c k t).0
      unfolding shared_check_and_insert insert_if_absent check_and_insert contains_key
      same_answer = elim (Option-cases (c.seen k)) [
        | inl p ↦ ground (arith, p, usual.1, a.unpoisoned, a.room, a.count, a.absent k usual.0 p)
        | inr (v, p) ↦ ground (arith, p, usual.1, a.unpoisoned, (a.held k v usual.0 p).found)
      ]

      asks-Agrees :
          Agrees
            (suc n)
            (shared_check_and_insert x in_memory_store skew s k t).1
            (check_and_insert c k t).1
      unfolding shared_check_and_insert insert_if_absent check_and_insert contains_key insert
      asks-Agrees = elim (Option-cases (c.seen k)) [
        | inl p ↦
            let stored : (shared_check_and_insert x in_memory_store skew s k t).1
                ≡ record s { seen = set (key_of k) (saturating_add t skew) s.seen } =
              ground (arith, usual.1, a.unpoisoned, a.room, a.count, a.absent k usual.0 p) in
            let recorded : (check_and_insert c k t).1
                ≡ record c { seen = insert k (saturating_add t skew) c.seen } =
              ground (arith, p, a.same_skew) in
            rw (stored, recorded) (inserted k (saturating_add t skew) usual.0 p)
        | inr (v, p) ↦
            let same : (shared_check_and_insert x in_memory_store skew s k t).1 ≡ s =
              ground (arith, usual.1, a.unpoisoned, (a.held k v usual.0 p).found) in
            let same' : (check_and_insert c k t).1 ≡ c = ground (arith, p) in rw (same, same') still
      ]

  agrees_after :
      (n : ℕ) (s : InMemoryAtomicReplayStore) (c : InMemoryReplayCache) (events : List Event)
      → Agrees n s c
      → n + length events ≤ max_atomic_store_entries
      → All (Usual used skew) events
      → (m : ℕ) × (m ≤ n + length events)
        × Agrees m (shared_history x skew s events) (reference_history c events)
  unfolding shared_history reference_history
  agrees_after n s c [] a few usual = (n, omega arith, a)
  agrees_after n s c (asks k t ∷ es) a few usual =
      let few' : n < max_atomic_store_entries = omega (arith, few) in
      let (m, bound, rest) =
        agrees_after (suc n) _ _ es (asks-Agrees n s c a k t usual.0 few') (omega (arith, few))
          usual.1 in
      (m, omega (arith, bound), rest)
  agrees_after n s c (prunes now ∷ es) a few usual =
      let (m, bound, rest) =
        agrees_after n _ _ es (prunes-Agrees n s c a now) (omega (arith, few)) usual.1 in
      (m, omega (arith, bound), rest)

-- Over the store in memory, the shared cache answers every call as the reference cache of the core
-- with the same skew does, after whatever calls and prunings of both: for triples whose fields have
-- sizes that a `usize` holds, of which no two key texts have the same digest, with retentions that
-- end after the epoch, and with fewer events than the store has room for.
pub shared_agrees :
    (x : Externals) (used : ReplayKey → Type 0) (skew : ℤ) (events : List Event) (k : ReplayKey)
    (t : ℤ)
    → Apart x used
    → All (Usual used skew) events
    → Usual used skew (asks k t)
    → length events < max_atomic_store_entries
    → (shared_check_and_insert x in_memory_store skew (shared_history x skew new events) k t).0
      ≡ (check_and_insert (reference_history (Replay.new skew) events) k t).0
shared_agrees x used skew events k t apart usual here few =
    let (m, bound, a) =
      agrees_after x used apart skew 0 new (Replay.new skew) events (starts x used apart skew)
        (omega (arith, few)) usual in
    same_answer x used apart skew m _ _ a k t here (omega (arith, bound, few))
