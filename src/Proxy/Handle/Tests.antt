-- ===== src/Proxy/Handle/Tests.antt =====
-- Runs and witnesses for mcps-proxy/src/proxy.rs, on the messages of the core's samples.
use mcps.Prelude.{
  ℕ, Str, codes, str_eq, is_empty, List, true, false, Option, some, none, ◌≡◌, ◌↔◌, refl, ok, err,
  if◌then◌else◌,
}
use mcps.Prelude.Int.{pos, saturating_add, saturating_sub}
use mcps.Core.Error.{transport_binding_failed}
use mcps.Core.Json.{
  Value, null, bool, object, no_members, member, get, get_member, as_str, as_object, insert_member,
  index_mut, value_or_null,
}
use mcps.Core.Constraints.{
  Check, contains, extract_draft02_request_envelope, locate_envelope, reject_batch,
  reject_notification,
}
use mcps.Core.Replay.{InMemoryReplayCache, in_memory, new, check_and_insert}
use mcps.Core.Crypto.{verify_ed25519_with, ensure_ed25519_alg, sha256_hash_id}
use mcps.Core.Signing.{signing_preimage, request_hash}
use mcps.Core.Canonical.Parser.{canonicalize}
use mcps.Core.Time.{check_freshness}
use mcps.Core.Pipeline.{
  VerifiedRequest, verified01, verified02, verify_request_draft02, check_request_draft02,
  read_message, check_claims, verify_signature, check_on_behalf_of, check_signature_block, admit,
  decide,
}
use mcps.Core.Dispatch.{
  draft01_and_draft02, verify_request_dispatch, select_version, read_request_envelope_version,
  admits,
}
use mcps.Core.Pipeline.Sample.{toy, trust, request01, request02, raw02, one, config, now}
use mcps.Core.Failure.{panicked, or_refuse, or_panic, or_refused}
use mcps.Core.Libraries.{Libraries}
use mcps.Proxy.Proxying.{Proxy}
use mcps.Proxy.Scrub.{scrub_proxy_owned_meta, scrub_value}
use mcps.Proxy.Forward.{
  build_verified_context, context_members, with_context, inject_context, build_forwarded_request,
}
use mcps.Proxy.Forward.Injected.{Injected, build_forwarded_request-Injected}
use mcps.Proxy.Respond.{
  wrap_result, envelope_members, build_response_envelope, build_signed_response,
}
use mcps.Proxy.Respond.Panics.{is_indexable, meta_of_answer, response_panics}
use mcps.Proxy.Handle.{
  Outcome, verify, enforce_policy, assert_identity, or_else, by_core_of, bind_transport, id_of,
  reply_of, dispatch_and_sign, handle_verified, handle_with_transport,
}
use mcps.Proxy.Handle
use mcps.Proxy.Handle.Admitted.{Admitted, handle-Admitted}

-- The answers of two inner servers: a result, and a result whose `_meta` is no object.
abbrev plain_answer : Value
plain_answer =
    object
      (member (codes "result") (object (member (codes "ok") (bool true) no_members)) no_members)

abbrev odd_answer : Value
odd_answer =
    object
      (member (codes "result") (object (member (codes "_meta") (bool true) no_members)) no_members)

abbrev libraries : Libraries
libraries = record {
  externals = record toy {
    from_slice = λ raw.
        if str_eq raw (codes "PLAIN")
        then some plain_answer
        else if str_eq raw (codes "ODD")
        then some odd_answer
        else toy.from_slice raw;
  };
  to_vec = λ v. some (codes "OUT");
  binding_to_value = λ b. some null;
}

abbrev sign : List ℕ → Option Str
sign preimage = some (codes "sig")

-- The signer must be the identity of the channel.
abbrev exact_match : Str → Option Str → Check
exact_match signer none = err transport_binding_failed
exact_match signer (some identity) =
    if str_eq identity signer then ok tt else err transport_binding_failed

abbrev proxy : Proxy libraries InMemoryReplayCache Str
proxy = record {
  sign_response = sign;
  server_signer = codes "did:s";
  key_id = codes "k1";
  resolver = trust;
  config = config;
  version_policy = draft01_and_draft02;
  dispatch = λ forwarded. codes "PLAIN";
  replay = in_memory;
  policy = none;
  transport_binding = some exact_match;
  lb_assertion = none;
}

abbrev cache : InMemoryReplayCache
cache = new (pos 30)

-- A request of the signer is handed on, and one over another channel is not.
handed_on :
    (handle_with_transport libraries proxy false cache raw02 now
      (some (codes "did:a"))
      none).0.forwarded
    ≡ some (codes "OUT")
unfolding handle_with_transport verify handle_verified dispatch_and_sign Handle.admit enforce_policy
    assert_identity bind_transport or_else by_core_of build_forwarded_request build_verified_context
    context_members with_context inject_context scrub_proxy_owned_meta scrub_value or_refuse
    or_panic or_refused index_mut get_member insert_member as_object contains
    verify_request_dispatch verify_request_draft02 check_request_draft02 select_version read_message
    check_claims verify_signature check_on_behalf_of check_signature_block admit decide verified02
    read_request_envelope_version admits verify_ed25519_with ensure_ed25519_alg signing_preimage
    request_hash sha256_hash_id canonicalize extract_draft02_request_envelope locate_envelope
    check_freshness reject_batch reject_notification check_and_insert new codes str_eq is_empty get
    as_str saturating_sub saturating_add
handed_on = refl

other_channel :
    (handle_with_transport libraries proxy false cache raw02 now
      (some (codes "did:b"))
      none).0.forwarded
    ≡ none
unfolding handle_with_transport verify handle_verified dispatch_and_sign Handle.admit enforce_policy
    assert_identity bind_transport or_else by_core_of build_forwarded_request build_verified_context
    context_members with_context inject_context scrub_proxy_owned_meta scrub_value or_refuse
    or_panic or_refused index_mut get_member insert_member as_object contains
    verify_request_dispatch verify_request_draft02 check_request_draft02 select_version read_message
    check_claims verify_signature check_on_behalf_of check_signature_block admit decide verified02
    read_request_envelope_version admits verify_ed25519_with ensure_ed25519_alg signing_preimage
    request_hash sha256_hash_id canonicalize extract_draft02_request_envelope locate_envelope
    check_freshness reject_batch reject_notification check_and_insert new codes str_eq is_empty get
    as_str saturating_sub saturating_add
other_channel = refl

handle-Admitted_example :
    (false ≡ false)
    × Admitted libraries proxy cache raw02 now (some (codes "did:a")) none (codes "OUT")
handle-Admitted_example =
    handle-Admitted libraries proxy false cache raw02 now (some (codes "did:a")) none (codes "OUT")
      handed_on

abbrev verified : VerifiedRequest
verified = verified02 request02 (codes "h")

forwarded : build_forwarded_request libraries (codes "did:s") raw02 verified now ≡ ok (codes "OUT")
unfolding build_forwarded_request build_verified_context context_members with_context inject_context
    scrub_proxy_owned_meta scrub_value or_refuse or_panic or_refused index_mut get_member
    insert_member as_object contains verified02 codes str_eq is_empty
forwarded = refl

build_forwarded_request-Injected_example :
    Injected libraries (codes "did:s") raw02 verified now (codes "OUT")
build_forwarded_request-Injected_example =
    build_forwarded_request-Injected libraries (codes "did:s") raw02 verified now (codes "OUT")
      forwarded

abbrev verified_01 : VerifiedRequest
verified_01 = verified01 request01 (codes "h")

abbrev envelope : Value
envelope = object (envelope_members (codes "did:s") (codes "k1") verified_01 now)

odd_parsed : libraries.externals.from_slice (codes "ODD") ≡ some odd_answer
unfolding codes str_eq
odd_parsed = refl

envelope_built : build_response_envelope (codes "did:s") (codes "k1") verified_01 now ≡ ok envelope
unfolding build_response_envelope verified01
envelope_built = refl

response_panics_example :
    (build_signed_response libraries sign
        (codes "did:s")
        (codes "k1")
        (codes "ODD")
        verified_01
        now
        one
      ≡ err panicked)
    ↔ (is_indexable (meta_of_answer odd_answer) ≡ false)
response_panics_example =
    response_panics libraries sign (codes "did:s") (codes "k1") (codes "ODD") verified_01 now one
      odd_answer envelope odd_parsed envelope_built

-- An answer whose `_meta` is a boolean.
odd_panics :
    build_signed_response libraries sign
      (codes "did:s")
      (codes "k1")
      (codes "ODD")
      verified_01
      now
      one
    ≡ err panicked
unfolding meta_of_answer wrap_result scrub_proxy_owned_meta scrub_value get get_member codes str_eq
    value_or_null contains
odd_panics = response_panics_example.1 refl
