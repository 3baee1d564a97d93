-- ===== src/Proxy/LiveTrust.antt =====
-- mcps-proxy/src/live_trust.rs: the tier that caches no trust, with a second authority of revocations
-- when one is wired.
use mcps.Prelude.{Str, codes, ◌++◌, Option, some, none, Result, ok, err, ◌>>=◌}
use mcps.Core.Resolver.{TrustResolver, TrustResolverError, unavailable}
use mcps.Policy.Revocation.{
  RevocationSource, RevocationStatus, RevocationUnavailable, not_revoked, revoked,
}

pub record LiveTrustResolver (Key : Type 0) : Type 0 where
  pub inner : TrustResolver Key
  pub revocation : Option RevocationSource

module _ {Key : Type 0} where
  unfoldable pub new : TrustResolver Key → LiveTrustResolver Key
  new inner = record { inner = inner; revocation = none }

  unfoldable pub with_revocation_source :
      TrustResolver Key → RevocationSource → LiveTrustResolver Key
  with_revocation_source inner revocation = record { inner = inner; revocation = some revocation }

  -- The match on the answer of the second authority, for a key that the first one gave.
  unfoldable pub confirmed :
      Key → Result RevocationUnavailable RevocationStatus → Result TrustResolverError Key
  unfolding codes
  confirmed key (ok not_revoked) = ok key
  confirmed key (ok revoked) = err TrustResolverError.revoked
  confirmed key (err u) = err (unavailable (codes "revocation source unavailable: " ++ u.details))

  unfoldable pub resolve_with_revocation_id :
      LiveTrustResolver Key → Str → Str → Str → Result TrustResolverError Key
  resolve_with_revocation_id r signer key_id revocation_id = do
    key ← r.inner signer key_id
    elim r.revocation [ none ↦ ok key | some source ↦ confirmed key (source revocation_id) ]

  unfoldable pub resolve : LiveTrustResolver Key → TrustResolver Key
  resolve r signer key_id = r.inner signer key_id
