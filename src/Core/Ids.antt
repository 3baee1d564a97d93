-- ===== src/Core/Ids.antt =====
-- mcps-core/src/ids.rs: the identifiers on the wire.
use mcps.Prelude.{Str, codes, List, [], ◌∷◌}

abbrev pub request_meta_key : Str
request_meta_key = codes "se.syncom/mcps.request"

abbrev pub response_meta_key : Str
response_meta_key = codes "se.syncom/mcps.response"

abbrev pub version_draft_01 : Str
version_draft_01 = codes "draft-01"

abbrev pub version_draft_02 : Str
version_draft_02 = codes "draft-02"

abbrev pub canonicalization_id_int53_v1 : Str
canonicalization_id_int53_v1 = codes "mcps-jcs-int53-json-v1"

abbrev pub draft_02_canonicalization_allowlist : List Str
draft_02_canonicalization_allowlist = canonicalization_id_int53_v1 ∷ []

abbrev pub sig_alg_ed25519 : Str
sig_alg_ed25519 = codes "Ed25519"

abbrev pub binding_type_opaque_bytes : Str
binding_type_opaque_bytes = codes "opaque-bytes"

abbrev pub binding_type_authz_system_reference : Str
binding_type_authz_system_reference = codes "authz-system-reference"

abbrev pub digest_alg_sha256 : Str
digest_alg_sha256 = codes "sha256"

abbrev pub verified_meta_key : Str
verified_meta_key = codes "se.syncom/mcps.verified"

abbrev pub observability_meta_keys : List Str
observability_meta_keys = codes "traceparent" ∷ codes "tracestate" ∷ codes "baggage" ∷ []

abbrev pub response_wrap_value_key : Str
response_wrap_value_key = codes "value"

abbrev pub response_wrap_inner_error_key : Str
response_wrap_inner_error_key = codes "inner_error"
