-- ===== src/Core/Signing/Tests.antt =====
-- Tests and witnesses for mcps-core/src/signing.rs, on a message with an unsigned signature block and a
-- trace header.
use mcps.Prelude.{codes, str_eq, ◌≡◌, refl, ok}
use mcps.Core.Ids.{request_meta_key}
use mcps.Core.Json.{Value, string, object, get, as_object, no_members, member}
use mcps.Core.Signing.{signing_preimage, request, container_key, meta_key, put}
use mcps.Core.Signing.Preimage.{sign, signing_preimage-sign}

abbrev with_signature : Value → Value
with_signature signature = object (
    member (codes "params")
      (object (
        member (codes "_meta")
          (object (
            member request_meta_key (object (member (codes "signature") signature no_members))
              (member (codes "traceparent") (string (codes "00-1")) no_members)))
          no_members))
      no_members)

abbrev unsigned : Value
unsigned = with_signature (object (member (codes "alg") (string (codes "Ed25519")) no_members))

abbrev signed : Value
signed = with_signature (
    object (
      member (codes "alg") (string (codes "Ed25519"))
        (member (codes "value") (string (codes "sig")) no_members)))

strips_the_signature_and_traces :
    signing_preimage request signed
    ≡ ok (
        codes
          "{\"params\":{\"_meta\":{\"se.syncom/mcps.request\":{\"signature\":{\"alg\":\"Ed25519\"}}}}}")
unfolding signing_preimage codes str_eq
strips_the_signature_and_traces = refl

writes_the_signature : sign request (codes "sig") unsigned ≡ ok signed
unfolding sign codes str_eq get container_key meta_key as_object put
writes_the_signature = refl

signing_preimage-sign_example : signing_preimage request signed ≡ signing_preimage request unsigned
signing_preimage-sign_example =
    signing_preimage-sign request (codes "sig") unsigned signed writes_the_signature
