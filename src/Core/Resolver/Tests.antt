-- ===== src/Core/Resolver/Tests.antt =====
-- Tests and witnesses for mcps-core/src/resolver.rs.
use mcps.Prelude.{ℕ, ◌<◌, ◌≡◌, refl, ◌^◌, codes, as_bytes, length, ok, err, arith, str_eq}
use mcps.Core.Resolver.{
  InMemoryTrustResolver, TrustResolverError, new, insert_key, revoke, resolve, compose_key,
  not_found,
}
use mcps.Core.Resolver.Bindings.{compose_key_injective}

abbrev resolver : InMemoryTrustResolver ℕ
resolver = revoke (insert_key new (codes "did:a") (codes "k1") 7) (codes "did:b") (codes "k1")

finds_the_key : resolve resolver (codes "did:a") (codes "k1") ≡ ok 7
unfolding resolve insert_key revoke new compose_key codes str_eq as_bytes
finds_the_key = refl

knows_revocations : resolve resolver (codes "did:b") (codes "k1") ≡ err TrustResolverError.revoked
unfolding resolve insert_key revoke new compose_key codes str_eq as_bytes
knows_revocations = refl

misses_others : resolve resolver (codes "did:a") (codes "k2") ≡ err not_found
unfolding resolve insert_key revoke new compose_key codes str_eq as_bytes
misses_others = refl

short : length (as_bytes (codes "did:b")) < 2 ^ 64
unfolding codes as_bytes
short = ground arith

compose_key_injective_example : (codes "did:b" ≡ codes "did:b") × (codes "k1" ≡ codes "k1")
compose_key_injective_example =
    compose_key_injective (codes "did:b") (codes "did:b") (codes "k1") (codes "k1") short short refl
