-- ===== src/Policy/Revocation.antt =====
-- mcps-policy/src/revocation.rs: what a source of revocations answers, and the source in memory.
use mcps.Prelude.{Str, Result, ok, if◌then◌else◌}
use mcps.Prelude.Map.{Map, empty, insert, contains_key}
use mcps.Core.Resolver.{str_key_eq}

pub data RevocationStatus : Type 0 where
  not_revoked revoked : RevocationStatus

pub record RevocationUnavailable : Type 0 where
  pub details : Str

-- The trait: its one method reads `&self`.
abbrev pub RevocationSource : Type 0
RevocationSource = Str → Result RevocationUnavailable RevocationStatus

-- A `BTreeSet<String>` as a map to nothing.
pub record InMemoryRevocationSource : Type 0 where
  pub revoked_ids : Map Str (Unit {0})

unfoldable pub new : InMemoryRevocationSource
unfolding empty
new = record { revoked_ids = empty }

unfoldable pub revoke : InMemoryRevocationSource → Str → InMemoryRevocationSource
unfolding insert
revoke source revocation_id = record { revoked_ids = insert revocation_id tt source.revoked_ids }

unfoldable pub revocation_status : InMemoryRevocationSource → RevocationSource
unfolding contains_key
revocation_status source revocation_id =
    if contains_key source.revoked_ids revocation_id then ok revoked else ok not_revoked
