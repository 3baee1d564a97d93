-- ===== src/Lib.antt =====
-- A model of MCP-S, the signing and verification of Model Context Protocol messages: `mcps-core`,
-- the crate that decides whether a message is authentic, fresh and unused, of which every other crate
-- is a client; `mcps-policy`, which decides what a verified request is authorized to do; the request
-- handling of `mcps-proxy` with its caches of trust and of replays; `mcps-client-core`, which signs
-- requests, keeps the ones that wait, and decides over the responses; and the session of `mcps-host`.
--
-- How the parts interact. A host signs the canonical JSON of a request, without the value of the
-- signature and without trace headers, and sends it. The verifier reads the raw bytes, refuses what
-- has no canonical form, extracts the envelope, checks its members, its audience and its window,
-- resolves the key of the signer, verifies the signature, and only then asks the replay cache about
-- the triple of signer, audience and nonce. A dispatcher selects the verifier by the version that the
-- bytes name, within the policy of the deployment. A response is bound to the hash of its request.
-- The proxy verifies a request so, asks the policy, binds the signer to the channel, writes the verified
-- context into the message, and hands it to a server that knows nothing of signatures, whose answer it
-- wraps and signs.
--
-- Which file models which part (paths of the repository):
--   Prelude         what Rust's core library gives: tests, results, lists, texts as code points with
--                   their UTF-8, decimals, `i64` as integers with saturation, maps as functions.
--   Core/Error      mcps-core/src/error.rs, the errors and their wire codes.
--   Core/Ids        mcps-core/src/ids.rs.
--   Core/Json       `serde_json::Value` as far as the code reads it.
--   Core/Envelope   mcps-core/src/envelope.rs, the wire records.
--   Core/Replay     mcps-core/src/replay.rs: `check_and_insert`, `prune`, and the trait `ReplayCache`.
--   Core/Resolver   mcps-core/src/resolver.rs: `resolve`, `insert` (here `insert_key`), `revoke`.
--   Core/Time       mcps-core/src/time.rs: `parse_rfc3339_utc`, `check_freshness`, `unix_to_rfc3339_utc`.
--   Core/Constraints  mcps-core/src/constraints.rs: the structural checks and the extractions.
--   Core/Crypto     mcps-core/src/crypto.rs and hash.rs over `Externals`.
--   Core/Canonical  mcps-core/src/canonical.rs: the writer, and in Lexer and Parser the parser.
--   Core/Signing    mcps-core/src/signing.rs: the preimage and the request hash.
--   Core/Pipeline   mcps-core/src/pipeline.rs: `verify_request`, `verify_request_draft02`.
--   Core/Dispatch   the same file: the version policy and `verify_request_dispatch`.
--   Core/Response   the same file: `verify_response`, `verify_response_draft02`.
--   Core/Unwrap     mcps-core/src/unwrap.rs: `unwrap_verified_result`.
--   Core/Wire       mcps-core/src/wire.rs: `json_rpc_error_object`.
--   Core/Audit      mcps-core/src/audit.rs: the audit records.
--   Policy/Error    mcps-policy/src/error.rs, decision.rs and wire.rs.
--   Policy/Block    mcps-policy/src/block.rs: the authorization block of a request.
--   Policy/Revocation, Policy/Profile  mcps-policy/src/revocation.rs and profile.rs, the traits.
--   Policy/Evaluator  mcps-policy/src/evaluator.rs: the registered profiles and `evaluate`.
--   Policy/Scope, Policy/Reference  mcps-policy/src/reference.rs: `check_scope`, and the profile with
--                   `authorize`; in Mint `mint_reference_grant`.
--   Client/Correlation  mcps-client-core/src/correlation.rs: the requests that wait for a response.
--   Client/Request, Client/Signer, Client/Authz, Client/Audience, Client/Response  the files of
--                   mcps-client-core/src of the same names (request.rs and so on).
--   Client/Enforcement  mcps-client-core/src/enforcement.rs, audit.rs and probe.rs.
--   Host/Signer, Host/Session  mcps-host/src/signer.rs, and session.rs with pending.rs and
--                   verified_result.rs.
--   Core/Failure, Core/Libraries  how the signers of messages fail, and what they call.
--   Proxy/TrustCache  mcps-proxy/src/trust_cache.rs: `resolve`, `prune`, `evict`, the choice of a window.
--   Proxy/LiveTrust, Proxy/PushTrust, Proxy/RevocationTier, Proxy/ReplayTier, Proxy/DurableReplay,
--   Proxy/SharedReplay  the files of mcps-proxy/src of the same names (live_trust.rs and so on).
--   Proxy/Proxying  mcps-proxy/src/proxy.rs: the parts that a proxy is built from.
--   Proxy/Scrub     the same file: `scrub_proxy_owned_meta`.
--   Proxy/Forward   the same file: `build_forwarded_request`, `build_verified_context`.
--   Proxy/Respond   the same file: `build_signed_response`, `build_response_envelope`.
--   Proxy/Handle    the same file: `handle`, `handle_with_transport`, `dispatch_and_sign`.
-- Below each, the modules named for what they prove, and Tests with runs and witnesses.
--
-- State. A cache that Rust mutates through `&mut` is an argument, and the new cache is returned beside
-- the result. The resolver of the core only reads, so it is a function; a cache of trust takes the
-- resolver and the clock of each call. A history of a verifier, of a trust cache, of a session or of a
-- correlation store is a list of events, each a call with what it read. The file of the durable replay cache is a
-- value beside the cache, and the outcome of each write, which says whether the file was replaced, is an
-- argument; a restart opens the file again. A panic over a JSON value is a value of its own.
--
-- Numbers. `i64` is the integers; what the code saturates is written out (`saturating_add`,
-- `saturating_sub`), and the sums of the calendar are of four-digit years, far inside the range.
-- Lengths and code points are natural numbers.
--
-- Fuel. The JSON parser and the writer recurse on the depth that the code itself allows,
-- MAX_PARSE_DEPTH = 128, counted down, so running out is the error of the code. The loops of the parser
-- over one level recurse on the number of characters that are left, and each turn consumes one.
--
-- Parameters. `ed25519_dalek`, `sha2`, `base64` and `serde_json` are the fields of the record
-- `Externals`, and what is written with `serde_json` those of `Libraries`; the policy takes the
-- decoding of a grant and the equality of JSON values. Nothing is assumed of them but where a theorem
-- names it: that a signature made for a key verifies under it, that the JSON library reads back what
-- it writes, and that no two of the key texts in use have the same digest. The instances in the tests
-- are sets of concrete functions. The traits of the proxy (the signer, the inner server, the
-- binding to the channel, the verifier of an assertion of a load balancer, the atomic store, the
-- invalidation channel) are fields of records.
--
-- Not modelled: the discovery of the client, the rest of the proxy (stores over a network, TLS, OCSP,
-- processes, command lines), the transport and the demonstrations, the log of the proxy, keys, which
-- are calls into `ed25519_dalek`, and the display texts of errors.
pub mod Prelude
pub mod Core
pub mod Policy
pub mod Client
pub mod Proxy
pub mod Host
