-- ===== src/Core/Constraints.antt =====
-- mcps-core/src/constraints.rs: the structural checks of a message and the extraction of its
-- envelope. `from_value` stands for `serde_json::from_value`, whose error is its text.
pub mod Binding
pub mod Reads
pub mod Single
mod Tests
use mcps.Prelude.{
  Str, codes, str_eq, is_empty, starts_with, length, Bool, true, false, not, ◌||◌, ◌==◌, Option,
  none, some, List, [], ◌∷◌, Result, ok, err, ◌>>=◌, ◌>>◌, guard, ok_or, map_err, if◌then◌else◌,
}
use mcps.Core.Error.{
  McpsError, batch_forbidden, notification_forbidden, missing_envelope, unknown_envelope_field,
  canonicalization_failed, unsupported_version, authorization_hash_missing, on_behalf_of_missing,
  authorization_binding_missing, authorization_binding_malformed,
  authorization_binding_ambiguous_bytes, authorization_binding_type_unsupported,
  canonicalization_id_missing, canonicalization_id_not_allowed, canonicalization_id_unknown,
}
use mcps.Core.Ids.{
  request_meta_key, response_meta_key, version_draft_01, version_draft_02,
  canonicalization_id_int53_v1, draft_02_canonicalization_allowlist, binding_type_opaque_bytes,
  binding_type_authz_system_reference, digest_alg_sha256,
}
use mcps.Core.Json.{
  Value, Members, null, array, get, get_member, has_member, count_members, as_str, as_object,
}
use mcps.Core.Envelope.{
  RequestEnvelope, ResponseEnvelope, Draft02RequestEnvelope, Draft02ResponseEnvelope,
}

abbrev pub Check : Type 0
Check = Result McpsError (Unit {0})

abbrev pub FromValue : Type 0 → Type 0
FromValue A = Value → Result Str A

abbrev known_canonicalization_schemes : List Str
known_canonicalization_schemes = canonicalization_id_int53_v1 ∷ []

unfoldable pub contains : List Str → Str → Bool
contains [] s = false
contains (x ∷ xs) s = str_eq x s || contains xs s

unfoldable pub reject_batch : Value → Check
reject_batch (array items) = err batch_forbidden
reject_batch _ = ok tt

id_verdict : Option Value → Check
id_verdict none = err notification_forbidden
id_verdict (some null) = err notification_forbidden
id_verdict (some _) = ok tt

unfoldable pub reject_notification : Value → Check
unfolding id_verdict get codes
reject_notification msg = id_verdict (get msg (codes "id"))

abbrev pub and_then_get : Option Value → Str → Option Value
and_then_get none key = none
and_then_get (some v) key = get v key

unfoldable pub locate_envelope : Value → Str → Str → Result McpsError Value
unfolding get codes
locate_envelope msg outer meta_key =
    ok_or (and_then_get (and_then_get (get msg outer) (codes "_meta")) meta_key) missing_envelope

module _ {A : Type 0} (from_value : FromValue A) where
  unfoldable pub deserialize_envelope : Value → Result McpsError A
  unfolding starts_with codes
  deserialize_envelope raw = map_err classify (from_value raw)
    where
      classify : Str → McpsError
      classify text =
          if starts_with text (codes "unknown field")
          then unknown_envelope_field
          else canonicalization_failed

-- An error that is already specific stays; a structural one is refined by the members there are.
unfoldable pub classify_request_envelope_error : Value → McpsError → McpsError
unfolding as_object has_member codes
classify_request_envelope_error raw canonicalization_failed = elim (as_object raw) [
  | none ↦ canonicalization_failed
  | some obj ↦
      if not (has_member obj (codes "authorization_hash"))
      then authorization_hash_missing
      else if not (has_member obj (codes "on_behalf_of"))
      then on_behalf_of_missing
      else canonicalization_failed
]
classify_request_envelope_error raw original = original

unfoldable pub extract_request_envelope :
    FromValue RequestEnvelope → Value → Result McpsError RequestEnvelope
unfolding locate_envelope deserialize_envelope classify_request_envelope_error str_eq
extract_request_envelope from_value msg = do
  raw ← locate_envelope msg (codes "params") request_meta_key
  envelope ← map_err (classify_request_envelope_error raw) (deserialize_envelope from_value raw)
  guard (str_eq envelope.version version_draft_01) unsupported_version
  ok envelope

unfoldable pub extract_response_envelope :
    FromValue ResponseEnvelope → Value → Result McpsError ResponseEnvelope
unfolding locate_envelope deserialize_envelope
extract_response_envelope from_value msg = do
  raw ← locate_envelope msg (codes "result") response_meta_key
  deserialize_envelope from_value raw

unfoldable pub classify_draft02_request_envelope_error : Value → McpsError → McpsError
unfolding as_object has_member codes
classify_draft02_request_envelope_error raw canonicalization_failed = elim (as_object raw) [
  | none ↦ canonicalization_failed
  | some obj ↦
      if not (has_member obj (codes "authorization_binding"))
      then authorization_binding_missing
      else canonicalization_failed
]
classify_draft02_request_envelope_error raw original = original

pub has_any : Members → List Str → Bool
unfolding has_member
has_any obj [] = false
has_any obj (key ∷ keys) = has_member obj key || has_any obj keys

abbrev pub reference_only : List Str
reference_only =
    codes "authorization_system_id" ∷ codes "reference_scheme_id" ∷ codes "reference_value" ∷ []

abbrev pub opaque_required : List Str
opaque_required = codes "binding_type" ∷ codes "digest_alg" ∷ codes "digest_value" ∷ []

abbrev pub reference_required : List Str
reference_required =
    codes "binding_type"
    ∷ codes "authorization_system_id"
    ∷ codes "reference_scheme_id"
    ∷ codes "reference_value"
    ∷ codes "digest_alg"
    ∷ codes "digest_value"
    ∷ []

-- The fields that a binding of this type must have, and no others.
required_fields : Members → Str → Result McpsError (List Str)
unfolding has_any str_eq
required_fields obj binding_type =
    if str_eq binding_type binding_type_opaque_bytes
    then if has_any obj reference_only
      then err authorization_binding_ambiguous_bytes
      else ok opaque_required
    else if str_eq binding_type binding_type_authz_system_reference
    then ok reference_required
    else err authorization_binding_type_unsupported

abbrev pub str_member : Members → Str → Option Str
str_member obj key = elim (get_member obj key) [ none ↦ none | some v ↦ as_str v ]

abbrev is_filled : Option Str → Bool
is_filled none = false
is_filled (some s) = not (is_empty s)

-- The loop over the required fields.
check_filled : Members → List Str → Check
unfolding get_member as_str is_empty
check_filled obj [] = ok tt
check_filled obj (key ∷ keys) =
    let rest = check_filled obj keys in
    if is_filled (str_member obj key) then rest else err authorization_binding_malformed

abbrev is_sha256 : Option Str → Bool
is_sha256 none = false
is_sha256 (some s) = str_eq s digest_alg_sha256

unfoldable pub check_authorization_binding : Value → Check
unfolding get as_object required_fields check_filled count_members
check_authorization_binding raw = do
  binding ← ok_or (get raw (codes "authorization_binding")) authorization_binding_missing
  obj ← ok_or (as_object binding) authorization_binding_malformed
  binding_type ← ok_or (str_member obj (codes "binding_type")) authorization_binding_malformed
  required ← required_fields obj binding_type
  guard (count_members obj == length required) authorization_binding_malformed
  check_filled obj required
  guard (is_sha256 (str_member obj (codes "digest_alg"))) authorization_binding_malformed

abbrev and_then_str : Option Value → Option Str
and_then_str none = none
and_then_str (some v) = as_str v

unfoldable pub require_draft02_version : Value → Check
unfolding get as_str str_eq codes
require_draft02_version raw = elim (and_then_str (get raw (codes "version"))) [
  | none ↦ err unsupported_version
  | some v ↦ guard (str_eq v version_draft_02) unsupported_version
]

unfoldable pub classify_canonicalization_id : Str → List Str → List Str → Check
unfolding contains
classify_canonicalization_id id allowlist known =
    if contains allowlist id
    then ok tt
    else if contains known id
    then err canonicalization_id_not_allowed
    else err canonicalization_id_unknown

unfoldable pub check_canonicalization_id : Value → Check
unfolding get as_str classify_canonicalization_id codes
check_canonicalization_id raw = elim (and_then_str (get raw (codes "canonicalization_id"))) [
  | none ↦ err canonicalization_id_missing
  | some id ↦
      classify_canonicalization_id id draft_02_canonicalization_allowlist
        known_canonicalization_schemes
]

unfoldable pub extract_draft02_request_envelope :
    FromValue Draft02RequestEnvelope → Value → Result McpsError Draft02RequestEnvelope
unfolding locate_envelope require_draft02_version check_canonicalization_id
    check_authorization_binding deserialize_envelope classify_draft02_request_envelope_error
extract_draft02_request_envelope from_value msg = do
  raw ← locate_envelope msg (codes "params") request_meta_key
  require_draft02_version raw
  check_canonicalization_id raw
  check_authorization_binding raw
  map_err (classify_draft02_request_envelope_error raw) (deserialize_envelope from_value raw)

unfoldable pub extract_draft02_response_envelope :
    FromValue Draft02ResponseEnvelope → Value → Result McpsError Draft02ResponseEnvelope
unfolding locate_envelope require_draft02_version check_canonicalization_id deserialize_envelope
extract_draft02_response_envelope from_value msg = do
  raw ← locate_envelope msg (codes "result") response_meta_key
  require_draft02_version raw
  check_canonicalization_id raw
  deserialize_envelope from_value raw
