-- ===== src/Host/Session/Tests.antt =====
-- Runs and the witness for mcps-host/src/session.rs, on the messages of the core's samples.
use mcps.Prelude.{Str, codes, str_eq, [], ◌∷◌, Option, some, ◌≡◌, refl, ok, err}
use mcps.Prelude.Int.{pos}
use mcps.Prelude.Assoc.{find}
use mcps.Core.Error.{missing_envelope}
use mcps.Core.Json.{Value, null, get}
use mcps.Core.Envelope.{ResponseEnvelope}
use mcps.Core.Resolver.{str_key_eq}
use mcps.Core.Constraints.{extract_response_envelope, reject_batch, reject_notification}
use mcps.Core.Signing.{signing_preimage}
use mcps.Core.Canonical.Parser.{canonicalize}
use mcps.Core.Crypto.{verify_ed25519_with, ensure_ed25519_alg}
use mcps.Core.Pipeline.{verify_signature, read_message}
use mcps.Core.Pipeline.Sample.{toy, trust, response02, raw_response, one}
use mcps.Core.Response.{VerifiedResponse, verify_response}
use mcps.Core.Response.Binding.{Answers, Carries01}
use mcps.Core.Libraries.{Libraries}
use mcps.Host.Session.{
  HostSession, PendingRequest, id_key, response_id, checked_response, verify_response_of,
}
use mcps.Host.Session.Once.{expires, history, session_once}

abbrev answer_envelope : ResponseEnvelope
answer_envelope = record {
  request_hash = codes "sha256:h";
  server_signer = codes "did:s";
  issued_at = response02.issued_at;
  signature = response02.signature;
}

abbrev libraries : Libraries
libraries = record {
  externals = record toy { response_from_value = λ v. ok answer_envelope };
  to_vec = λ v. some (codes "OUT");
  binding_to_value = λ b. some null;
}

abbrev to_string : Value → Option Str
to_string v = some (codes "1")

-- One request waits.
abbrev waiting : HostSession
waiting = record {
  signer = record { signing_key = λ m. codes "sig"; signer = codes "did:a"; key_id = codes "k1" };
  request_lifetime_secs = pos 300;
  pending = (codes "1", record { hash = codes "sha256:h"; expires_at_unix = pos 1000 }) ∷ [];
}

abbrev verdict : VerifiedResponse
verdict = record {
  server_signer = codes "did:s";
  key_id = codes "k1";
  request_hash = codes "sha256:h";
}

names_its_id : response_id libraries raw_response ≡ ok one
unfolding response_id get codes str_eq
names_its_id = refl

accepts_once : (verify_response_of libraries to_string trust waiting raw_response).0 ≡ ok verdict
unfolding verify_response_of checked_response response_id id_key find verify_response read_message
    verify_signature verify_ed25519_with ensure_ed25519_alg signing_preimage canonicalize
    extract_response_envelope reject_batch reject_notification get codes str_eq
accepts_once = refl

session_once_example :
    ((entry : PendingRequest) × (find (id_key libraries to_string one) waiting.pending ≡ some entry)
      × Answers libraries.externals trust
          (Carries01 libraries.externals)
          raw_response
          entry.hash
          verdict)
    × (verify_response_of libraries to_string trust
          (history libraries to_string
            (verify_response_of libraries to_string trust waiting raw_response).1
            (expires (pos 900) ∷ []))
          raw_response
        ≡ (
          err missing_envelope,
          history libraries to_string
              (verify_response_of libraries to_string trust waiting raw_response).1
              (expires (pos 900) ∷ []),
        ))
session_once_example =
    session_once libraries to_string waiting trust trust raw_response raw_response one one verdict
      (expires (pos 900) ∷ []) names_its_id names_its_id refl accepts_once (tt, tt)
