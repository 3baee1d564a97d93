-- ===== src/Proxy/TrustCache/Tests.antt =====
-- Tests and witnesses for mcps-proxy/src/trust_cache.rs: a key that is active at 100, revoked at 130,
-- and a window of 60 seconds.
use mcps.Prelude.{
  ℕ, ◌<◌, ◌^◌, ◌≡◌, ◌⊎◌, refl, codes, as_bytes, length, str_eq, List, [], ◌∷◌, All, ok, err, arith,
}
use mcps.Prelude.Int.{ℤ, pos, negsuc, ◌<ℤ◌, ◌≤ℤ◌, saturating_add, ◌+ℤ◌}
use mcps.Core.Resolver.{TrustResolver, TrustResolverError, compose_key}
use mcps.Proxy.TrustCache.{
  BoundedTrustCache, new, resolve, store, cached, remember, clamp_negative, strictest_applicable_t,
}
use mcps.Proxy.TrustCache.Staleness.{Event, Answered, resolves, history, resolve_fresh}
use mcps.Proxy.TrustCache.Windows.{Within, OneOf, strictest_applicable_t_exact}

abbrev trusting : TrustResolver ℕ
trusting signer key_id = ok 7

abbrev revoking : TrustResolver ℕ
revoking signer key_id = err TrustResolverError.revoked

abbrev calls : List (Event ℕ)
calls = resolves trusting (pos 100) (codes "did:a") (codes "k") ∷ []

abbrev before : BoundedTrustCache ℕ
before = history (new (pos 60) (pos 5)) calls

serves_within_the_window : (resolve before revoking (pos 130) (codes "did:a") (codes "k")).0 ≡ ok 7
unfolding resolve history new cached remember store compose_key codes as_bytes str_eq clamp_negative
    saturating_add ◌+ℤ◌
serves_within_the_window = refl

asks_again_at_its_end :
    (resolve before revoking (pos 160) (codes "did:a") (codes "k")).0
    ≡ err TrustResolverError.revoked
unfolding resolve history new cached remember store compose_key codes as_bytes str_eq clamp_negative
    saturating_add ◌+ℤ◌
asks_again_at_its_end = refl

strictest_ignores_negatives :
    strictest_applicable_t (pos 60) (pos 30 ∷ negsuc 4 ∷ pos 45 ∷ []) ≡ pos 30
unfolding strictest_applicable_t
strictest_ignores_negatives = refl

small : length (as_bytes (codes "did:a")) < 2 ^ 64
unfolding codes as_bytes
small = ground arith

resolve_fresh_example :
    (revoking (codes "did:a") (codes "k") ≡ ok 7)
    ⊎ ((since : ℤ) × Answered (codes "did:a") (codes "k") 7 since calls
        × (pos 130 <ℤ saturating_add since (clamp_negative (pos 60))))
resolve_fresh_example =
    resolve_fresh (pos 60) (pos 5) calls revoking (pos 130) (codes "did:a") (codes "k") 7
      (small, tt) small serves_within_the_window

strictest_applicable_t_exact_example :
    (strictest_applicable_t (pos 60) (pos 30 ∷ []) ≤ℤ clamp_negative (pos 60))
    × All (Within (strictest_applicable_t (pos 60) (pos 30 ∷ []))) (pos 30 ∷ [])
    × ((strictest_applicable_t (pos 60) (pos 30 ∷ []) ≡ clamp_negative (pos 60))
        ⊎ OneOf (strictest_applicable_t (pos 60) (pos 30 ∷ [])) (pos 30 ∷ []))
strictest_applicable_t_exact_example = strictest_applicable_t_exact (pos 60) (pos 30 ∷ [])
