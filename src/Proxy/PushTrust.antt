-- ===== src/Proxy/PushTrust.antt =====
-- mcps-proxy/src/push_trust.rs: the trust cache whose entries a channel of invalidations evicts, and
-- the channel in memory. Each lock of the channel is poisoned, or it is not.
pub mod Pushed
mod Tests
use mcps.Prelude.{ℕ, suc, Str, List, [], ◌∷◌, ◌++◌, Bool, true, false, Result, if◌then◌else◌}
use mcps.Prelude.Int.{ℤ}
use mcps.Core.Resolver.{TrustResolver, TrustResolverError}
use mcps.Proxy.TrustCache.{BoundedTrustCache, evict}
use mcps.Proxy.TrustCache

pub record InvalidationEvent : Type 0 where
  pub signer : Str
  pub key_id : Str

-- The trait: a drain takes what is pending.
pub record InvalidationChannel (S : Type 0) : Type 0 where
  pub drain_pending : S → List InvalidationEvent × S
  pub is_healthy : S → Bool

pub record InMemoryInvalidationChannel : Type 0 where
  pub pending : List InvalidationEvent
  pub pending_poisoned : Bool
  pub healthy : Bool
  pub healthy_poisoned : Bool

unfoldable pub new_channel : InMemoryInvalidationChannel
new_channel = record {
  pending = [];
  pending_poisoned = false;
  healthy = true;
  healthy_poisoned = false;
}

unfoldable pub push_revocation :
    InMemoryInvalidationChannel → Str → Str → InMemoryInvalidationChannel
push_revocation q signer key_id =
    if q.pending_poisoned
    then q
    else record q { pending = q.pending ++ record { signer = signer; key_id = key_id } ∷ [] }

unfoldable pub set_healthy : InMemoryInvalidationChannel → Bool → InMemoryInvalidationChannel
set_healthy q healthy = if q.healthy_poisoned then q else record q { healthy = healthy }

unfoldable pub drain_pending :
    InMemoryInvalidationChannel → List InvalidationEvent × InMemoryInvalidationChannel
drain_pending q = if q.pending_poisoned then ([], q) else (q.pending, record q { pending = [] })

unfoldable pub is_healthy : InMemoryInvalidationChannel → Bool
is_healthy q = if q.healthy_poisoned then false else q.healthy

abbrev pub in_memory_channel : InvalidationChannel InMemoryInvalidationChannel
in_memory_channel = record { drain_pending = drain_pending; is_healthy = is_healthy }

-- `PushInvalidationTrustCache`: the bounded cache and the state of its channel.
pub record PushInvalidationTrustCache (Key S : Type 0) : Type 0 where
  pub cache : BoundedTrustCache Key
  pub channel : S

module _ {Key : Type 0} where
  -- The loop over the drained events, with the number of the entries that were there.
  unfoldable pub evict_all :
      List InvalidationEvent → BoundedTrustCache Key → ℕ → ℕ × BoundedTrustCache Key
  evict_all [] c evicted = (evicted, c)
  evict_all (event ∷ events) c evicted =
      let (was_there, c') = evict c event.signer event.key_id in
      evict_all events c' (if was_there then suc evicted else evicted)

  module _ {S : Type 0} (channel : InvalidationChannel S) where
    unfoldable pub new : ℤ → ℤ → S → PushInvalidationTrustCache Key S
    new t_secs negative_ttl_secs s = record {
      cache = TrustCache.new t_secs negative_ttl_secs;
      channel = s;
    }

    unfoldable pub apply_pending_invalidations :
        PushInvalidationTrustCache Key S → ℕ × PushInvalidationTrustCache Key S
    apply_pending_invalidations p =
        let (events, s) = channel.drain_pending p.channel in
        let (evicted, c) = evict_all events p.cache 0 in
        (evicted, record { cache = c; channel = s })

    unfoldable pub channel_is_healthy : PushInvalidationTrustCache Key S → Bool
    channel_is_healthy p = channel.is_healthy p.channel

    unfoldable pub resolve :
        PushInvalidationTrustCache Key S
        → TrustResolver Key
        → ℤ
        → Str
        → Str
        → Result TrustResolverError Key × PushInvalidationTrustCache Key S
    resolve p inner now signer key_id =
        let (evicted, p') = apply_pending_invalidations p in
        let (answer, c) = TrustCache.resolve p'.cache inner now signer key_id in
        (answer, record p' { cache = c })
