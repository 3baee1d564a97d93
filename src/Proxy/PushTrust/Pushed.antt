-- ===== src/Proxy/PushTrust/Pushed.antt =====
-- A revocation that is pushed to the channel of mcps-proxy/src/push_trust.rs.
use mcps.Prelude.{ℕ, Str, List, [], ◌∷◌, ◌++◌, false, none, ◌≡◌, arith, str_eq_refl}
use mcps.Prelude.Int.{ℤ}
use mcps.Prelude.Map.{remove}
use mcps.Core.Resolver.{TrustResolver, compose_key, str_key_eq}
use mcps.Proxy.TrustCache.{BoundedTrustCache, evict}
use mcps.Proxy.TrustCache.Windows.{resolve_absent}
use mcps.Proxy.PushTrust.{
  InvalidationEvent, InMemoryInvalidationChannel, PushInvalidationTrustCache, in_memory_channel,
  drain_pending, evict_all, apply_pending_invalidations, resolve,
}

module _ {Key : Type 0} where
  -- No entry is left under the name, and the lock is sound.
  abbrev Cleared : Str → BoundedTrustCache Key → Type 0
  Cleared name c = (c.cache name ≡ none) × (c.poisoned ≡ false)

  evict-Cleared :
      (name s k : Str) (c : BoundedTrustCache Key) → Cleared name c → Cleared name (evict c s k).1
  unfolding evict remove
  evict-Cleared name s k c (gone, sound) = (ground arith, ground arith)

  evict_self :
      (s k : Str) (c : BoundedTrustCache Key)
      → c.poisoned ≡ false
      → Cleared (compose_key s k) (evict c s k).1
  unfolding evict remove
  evict_self s k c sound = (ground (arith, str_eq_refl (compose_key s k)), ground arith)

  evict_sound :
      (s k : Str) (c : BoundedTrustCache Key)
      → c.poisoned ≡ false
      → (evict c s k).1.poisoned ≡ false
  unfolding evict
  evict_sound s k c sound = ground arith

  evict_all-Cleared :
      (name : Str) (events : List InvalidationEvent) (c : BoundedTrustCache Key) (n : ℕ)
      → Cleared name c
      → Cleared name (evict_all events c n).1
  unfolding evict_all
  evict_all-Cleared name [] c n h = h
  evict_all-Cleared name (e ∷ events) c n h =
      evict_all-Cleared name events (evict c e.signer e.key_id).1 _
        (evict-Cleared name e.signer e.key_id c h)

  evict_all_waiting :
      (s k : Str) (before after : List InvalidationEvent) (c : BoundedTrustCache Key) (n : ℕ)
      → c.poisoned ≡ false
      → Cleared
          (compose_key s k)
          (evict_all (before ++ record { signer = s; key_id = k } ∷ after) c n).1
  unfolding evict_all
  evict_all_waiting s k [] after c n sound =
      evict_all-Cleared (compose_key s k) after (evict c s k).1 _ (evict_self s k c sound)
  evict_all_waiting s k (e ∷ before) after c n sound =
      evict_all_waiting s k before after (evict c e.signer e.key_id).1 _
        (evict_sound e.signer e.key_id c sound)

  -- When the revocation of a pair waits in the channel, wherever in the queue, and no lock is
  -- poisoned, the next call for the pair gives what the inner resolver answers then, whatever the
  -- cache held, and leaves the queue empty.
  pub resolve_pushed :
      (p : PushInvalidationTrustCache Key InMemoryInvalidationChannel) (inner : TrustResolver Key)
      (now : ℤ) (s k : Str) (before after : List InvalidationEvent)
      → p.channel.pending ≡ before ++ record { signer = s; key_id = k } ∷ after
      → p.channel.pending_poisoned ≡ false
      → p.cache.poisoned ≡ false
      → ((resolve in_memory_channel p inner now s k).0 ≡ inner s k)
        × ((resolve in_memory_channel p inner now s k).1.channel.pending ≡ [])
  unfolding resolve apply_pending_invalidations drain_pending
  resolve_pushed p inner now s k before after waiting usable sound =
      let cleared : Cleared (compose_key s k) (evict_all p.channel.pending p.cache 0).1 =
        rw waiting (evict_all_waiting s k before after p.cache 0 sound) in
      let answer =
        resolve_absent (evict_all p.channel.pending p.cache 0).1 inner now s k cleared.0
          cleared.1 in
      (ground (arith, answer, usable), ground (arith, usable))
