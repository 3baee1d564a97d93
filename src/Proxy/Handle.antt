-- ===== src/Proxy/Handle.antt =====
-- mcps-proxy/src/proxy.rs: `handle_with_transport`, with what it hands to the inner server. The log of
-- events is a sink that nothing reads.
pub mod Admitted
mod Tests
use mcps.Prelude.{
  ℕ, Str, codes, Bool, Option, none, some, List, Result, ok, err, ◌>>=◌, ◌>>◌, if◌then◌else◌,
}
use mcps.Prelude.Int.{ℤ}
use mcps.Core.Error.{
  McpsError, replay_cache_unavailable, canonicalization_failed, transport_binding_failed,
}
use mcps.Core.Json.{Value, null, get}
use mcps.Core.Constraints.{Check}
use mcps.Core.Crypto.{Externals}
use mcps.Core.Pipeline.{VerifiedRequest}
use mcps.Core.Dispatch.{verify_request_dispatch}
use mcps.Core.Wire.{json_rpc_error_object}
use mcps.Policy.Error.{
  PolicyError, AuthorizationDecision, allow, deny, json_rpc_authorization_error,
}
use mcps.Policy.Evaluator.{evaluate}
use mcps.Core.Failure.{Failure, refused, panicked}
use mcps.Core.Libraries.{Libraries}
use mcps.Proxy.Proxying.{Proxy, PolicyEnforcement}
use mcps.Proxy.Forward.{build_forwarded_request}
use mcps.Proxy.Respond.{build_signed_response}

-- Why a request that the core has verified is not handed on.
pub data Refusal : Type 0 where
  by_core : McpsError → Refusal
  by_policy : PolicyError → Refusal

-- `none` is a panic.
pub record Outcome : Type 0 where
  pub reply : Option (List ℕ)
  pub forwarded : Option (List ℕ)

-- `asserted.or(transport_identity)`.
unfoldable pub or_else : {Identity : Type 0} → Option Identity → Option Identity → Option Identity
or_else none identity = identity
or_else (some asserted) identity = some asserted

unfoldable pub by_core_of : Check → Result Refusal (Unit {0})
by_core_of (ok _) = ok tt
by_core_of (err e) = err (by_core e)

unfoldable pub id_of : Option Value → Value
unfolding codes get
id_of none = null
id_of (some request) = elim (get request (codes "id")) [ none ↦ null | some id ↦ id ]

module _ (l : Libraries) {S Identity : Type 0} (p : Proxy l S Identity) where
  -- The verification, unless the replay cache is borrowed.
  unfoldable pub verify : Bool → S → List ℕ → ℤ → Result McpsError VerifiedRequest × S
  verify borrowed s request_bytes now_unix =
      if borrowed
      then (err replay_cache_unavailable, s)
      else verify_request_dispatch l.externals p.resolver p.replay p.version_policy p.config s
          request_bytes now_unix

  unfoldable pub enforce_policy : Option Value → VerifiedRequest → ℤ → Result Refusal (Unit {0})
  enforce_policy parsed verified now_unix = elim p.policy [
    | none ↦ ok tt
    | some enforcement ↦ elim parsed [
      | none ↦ err (by_core canonicalization_failed)
      | some request ↦
          elim (evaluate l.externals enforcement.evaluator (record {
            verified = verified;
            request = request;
            resolver = p.resolver;
            revocation = enforcement.revocation;
            now_unix = now_unix;
          })) [ allow ↦ ok tt | deny e ↦ err (by_policy e) ]
    ]
  ]

  -- The identity that the assertion of a load balancer gives, when one is configured.
  unfoldable pub assert_identity :
      Option Str → VerifiedRequest → ℤ → Result Refusal (Option Identity)
  assert_identity header verified now_unix = elim p.lb_assertion [
    | none ↦ ok none
    | some lb ↦ elim p.transport_binding [
      | none ↦ err (by_core transport_binding_failed)
      | some binding ↦ elim header [
        | none ↦ err (by_core transport_binding_failed)
        | some value ↦ elim (lb value verified.request_hash now_unix) [
          | none ↦ err (by_core transport_binding_failed)
          | some identity ↦ ok (some identity)
        ]
      ]
    ]
  ]

  unfoldable pub bind_transport :
      Option Identity → VerifiedRequest → Option Identity → Result Refusal (Unit {0})
  bind_transport asserted verified transport_identity = elim p.transport_binding [
    | none ↦ ok tt
    | some binding ↦
        by_core_of (binding verified.verified_signer (or_else asserted transport_identity))
  ]

  -- What stands between the verification and the inner server.
  unfoldable pub admit :
      Option Value → VerifiedRequest → ℤ → Option Identity → Option Str → Result Refusal (Unit {0})
  admit parsed verified now_unix transport_identity header = do
    enforce_policy parsed verified now_unix
    asserted ← assert_identity header verified now_unix
    bind_transport asserted verified transport_identity

  unfoldable pub refusal_reply : Refusal → Value → List ℕ
  refusal_reply (by_core e) id = json_rpc_error_object l.to_vec e id
  refusal_reply (by_policy e) id = json_rpc_authorization_error l.to_vec e id

  unfoldable pub reply_of : Result Failure (List ℕ) → Value → Option (List ℕ)
  reply_of (ok bytes) id = some bytes
  reply_of (err (refused e)) id = some (json_rpc_error_object l.to_vec e id)
  reply_of (err panicked) id = none

  unfoldable pub dispatch_and_sign : List ℕ → VerifiedRequest → ℤ → Value → Outcome
  dispatch_and_sign request_bytes verified now_unix id =
      elim (build_forwarded_request l p.server_signer request_bytes verified now_unix) [
        | err e ↦ record { reply = reply_of (err e) id; forwarded = none }
        | ok forwarded ↦ record {
          reply =
              reply_of
                (build_signed_response l p.sign_response p.server_signer p.key_id
                  (p.dispatch forwarded) verified now_unix id)
                id;
          forwarded = some forwarded;
        }
      ]

  -- The branch of a request that the core has verified.
  unfoldable pub handle_verified :
      List ℕ → VerifiedRequest → ℤ → Option Identity → Option Str → Outcome
  handle_verified request_bytes verified now_unix transport_identity header =
      let parsed = l.externals.from_slice request_bytes in
      elim (admit parsed verified now_unix transport_identity header) [
        | err refusal ↦ record {
          reply = some (refusal_reply refusal (id_of parsed));
          forwarded = none;
        }
        | ok _ ↦ dispatch_and_sign request_bytes verified now_unix (id_of parsed)
      ]

  unfoldable pub handle_with_transport :
      Bool → S → List ℕ → ℤ → Option Identity → Option Str → Outcome × S
  handle_with_transport borrowed s request_bytes now_unix transport_identity header =
      let (verdict, s') = verify borrowed s request_bytes now_unix in
      (
        elim verdict [
          | err e ↦ record {
            reply =
                some
                  (json_rpc_error_object l.to_vec e (id_of (l.externals.from_slice request_bytes)));
            forwarded = none;
          }
          | ok verified ↦ handle_verified request_bytes verified now_unix transport_identity header
        ],
        s',
      )

  unfoldable pub handle : Bool → S → List ℕ → ℤ → Outcome × S
  handle borrowed s request_bytes now_unix =
      handle_with_transport borrowed s request_bytes now_unix none none
