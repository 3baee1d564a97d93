-- ===== src/Proxy/PushTrust/Tests.antt =====
-- Runs and witnesses for mcps-proxy/src/push_trust.rs.
use mcps.Prelude.{ℕ, codes, [], ◌∷◌, ◌++◌, false, ◌≡◌, refl, ok, err}
use mcps.Prelude.Int.{pos}
use mcps.Core.Resolver.{TrustResolver, TrustResolverError}
use mcps.Proxy.TrustCache
use mcps.Proxy.PushTrust.{
  InMemoryInvalidationChannel, PushInvalidationTrustCache, in_memory_channel, new, new_channel,
  push_revocation, resolve, apply_pending_invalidations, drain_pending, evict_all,
}
use mcps.Proxy.PushTrust.Pushed.{resolve_pushed}

abbrev trusting : TrustResolver ℕ
trusting signer key_id = ok 7

abbrev revoking : TrustResolver ℕ
revoking signer key_id = err TrustResolverError.revoked

-- A cache that has remembered the key, behind a channel with the revocation of its pair.
abbrev remembered : PushInvalidationTrustCache ℕ InMemoryInvalidationChannel
remembered =
    let p =
      (resolve in_memory_channel (new in_memory_channel (pos 300) (pos 30) new_channel) trusting
        (pos 0) (codes "a") (codes "k")).1 in
    record p { channel = push_revocation p.channel (codes "a") (codes "k") }

waiting : remembered.channel.pending ≡ [] ++ record { signer = codes "a"; key_id = codes "k" } ∷ []
unfolding resolve new new_channel push_revocation apply_pending_invalidations drain_pending
    evict_all TrustCache.resolve TrustCache.new TrustCache.cached TrustCache.remember
    TrustCache.store
waiting = refl

usable : remembered.channel.pending_poisoned ≡ false
unfolding resolve new new_channel push_revocation apply_pending_invalidations drain_pending
    evict_all TrustCache.resolve TrustCache.new TrustCache.cached TrustCache.remember
    TrustCache.store
usable = refl

sound : remembered.cache.poisoned ≡ false
unfolding resolve new new_channel push_revocation apply_pending_invalidations drain_pending
    evict_all TrustCache.resolve TrustCache.new TrustCache.cached TrustCache.remember
    TrustCache.store
sound = refl

resolve_pushed_example :
    ((resolve in_memory_channel remembered revoking (pos 1) (codes "a") (codes "k")).0
      ≡ revoking (codes "a") (codes "k"))
    × ((resolve in_memory_channel remembered revoking
          (pos 1)
          (codes "a")
          (codes "k")).1.channel.pending
        ≡ [])
resolve_pushed_example =
    resolve_pushed remembered revoking (pos 1) (codes "a") (codes "k") [] [] waiting usable sound
