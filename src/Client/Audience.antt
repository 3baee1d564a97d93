-- ===== src/Client/Audience.antt =====
-- mcps-client-core/src/audience.rs: the audience of a request, which names the server, the tenant and
-- the route that it is meant for, and which the policy of the deployment pins to a signer.
pub mod Spelling
use mcps.Prelude.{
  ℕ, Str, codes, str_eq, is_empty, List, [], ◌∷◌, ◌++◌, ◌==◌, if◌then◌else◌, Option, some, none,
  Result, ok, err, ok_or, guard, ◌>>=◌, ◌>>◌, ◌||◌, not,
}
use mcps.Prelude.Decimal.{decimal}
use mcps.Prelude.Assoc.{find, set}
use mcps.Core.Resolver.{str_key_eq}
use mcps.Core.Error.{McpsError, invalid_audience, transport_binding_failed}
use mcps.Core.Constraints.{Check}

pub record AudienceTuple : Type 0 where
  pub scheme : Str
  pub host : Str
  pub port : ℕ
  pub tenant_id : Str
  pub route_id : Str
  pub realm : Str

-- `str::replace` of a character.
unfoldable pub replace : ℕ → Str → Str → Str
replace c by [] = []
replace c by (x ∷ s) = let rest = replace c by s in if x == c then by ++ rest else x ∷ rest

unfoldable pub escape_field : Str → Str
unfolding codes
escape_field value =
    replace b'=' (codes "%3D") (replace b';' (codes "%3B") (replace b'%' (codes "%25") value))

unfoldable pub new : Str → Str → ℕ → Str → Str → Str → Result McpsError AudienceTuple
new scheme host port tenant_id route_id realm = do
  guard (not (is_empty tenant_id || is_empty route_id)) invalid_audience
  ok (record {
    scheme = scheme;
    host = host;
    port = port;
    tenant_id = tenant_id;
    route_id = route_id;
    realm = realm;
  })

unfoldable pub to_audience_string : AudienceTuple → Str
to_audience_string a =
    codes "mcps-audience:v1:scheme="
    ++ (escape_field a.scheme
        ++ (codes ";host="
            ++ (escape_field a.host
                ++ (codes ";port="
                    ++ (decimal a.port
                        ++ (codes ";tenant="
                            ++ (escape_field a.tenant_id
                                ++ (codes ";route="
                                    ++ (escape_field a.route_id
                                        ++ (codes ";realm=" ++ escape_field a.realm))))))))))

pub record SignerAudienceBinding : Type 0 where
  pub expected_server_signer : Str
  pub audience : AudienceTuple

unfoldable pub audience_string : SignerAudienceBinding → Str
audience_string b = to_audience_string b.audience

pub record TransportIdentity : Type 0 where
  pub verified_host : Str
  pub verified_identity : Option Str

-- The bindings of a policy by their routes.
pub record SignerAudiencePolicy : Type 0 where
  pub bindings : List (Str × SignerAudienceBinding)

unfoldable pub empty_policy : SignerAudiencePolicy
empty_policy = record { bindings = [] }

unfoldable pub bind : SignerAudiencePolicy → SignerAudienceBinding → SignerAudiencePolicy
bind p binding = record { bindings = set binding.audience.route_id binding p.bindings }

unfoldable pub resolve_signer_audience :
    SignerAudiencePolicy → TransportIdentity → Str → Result McpsError SignerAudienceBinding
resolve_signer_audience policy transport route_id = do
  binding ← ok_or (find route_id policy.bindings) invalid_audience
  guard (str_eq binding.audience.host transport.verified_host) transport_binding_failed
  ok binding

unfoldable pub enforce_request_audience : Str → AudienceTuple → Check
enforce_request_audience request_audience expected =
    if str_eq request_audience (to_audience_string expected) then ok tt else err invalid_audience
