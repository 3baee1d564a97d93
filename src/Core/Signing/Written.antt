-- ===== src/Core/Signing/Written.antt =====
-- The write of a signature into a message whose envelope has its block, as the signers of the
-- repository write it: `message[container]["_meta"][key]["signature"]["value"] = signature`.
use mcps.Prelude.{Str, codes, Option, some, ok, ◌≡◌, refl, sym, ap, ◌∙◌}
use mathlib.Core.Option.{some-injective}
use mcps.Core.Json.{Value, Members, string, object, insert_member, index_mut}
use mcps.Core.Json.Writes.{as_object-some, index_mut_there}
use mcps.Core.Signing.{EnvelopeLocation, container_key, meta_key}
use mcps.Core.Signing.Preimage.{rebuilt, PathTo, edit_path, sign}

unfoldable pub write_signature : EnvelopeLocation → Str → Value → Option Value
write_signature location signature message =
    index_mut (container_key location)
      (index_mut (codes "_meta") (
        index_mut (meta_key location) (
          index_mut (codes "signature")
            (index_mut (codes "value") (λ old. some (string signature))))))
      message

module _ (location : EnvelopeLocation) (signature : Str) {unsigned container meta envelope : Value}
    {fields : Members} (p : PathTo location unsigned container meta envelope fields) where
  pub write_signature_path :
      write_signature location signature unsigned
      ≡ some (
          rebuilt location unsigned container meta envelope
            (insert_member (codes "value") (string signature) fields))
  unfolding write_signature index_mut
  write_signature_path =
      let is_object = as_object-some p.signature fields p.is_object in
      let value : index_mut (codes "value") (λ old. some (string signature)) p.signature
          ≡ some (object (insert_member (codes "value") (string signature) fields)) =
        rw is_object refl in
      let write = λ (old : Value). some (string signature) in
      let at_value = index_mut (codes "value") write in
      let at_signature = index_mut (codes "signature") at_value in
      let at_key = index_mut (meta_key location) at_signature in
      let s1 =
        index_mut_there (codes "signature") at_value envelope p.signature _ p.in_envelope value in
      let s2 = index_mut_there (meta_key location) at_signature meta envelope _ p.in_meta s1 in
      let s3 = index_mut_there (codes "_meta") at_key container meta _ p.in_container s2 in
      index_mut_there (container_key location) (index_mut (codes "_meta") at_key) unsigned container
        _ p.in_message s3

  pub write_signature-sign :
      (signed : Value)
      → write_signature location signature unsigned ≡ some signed
      → sign location signature unsigned ≡ ok signed
  unfolding sign
  write_signature-sign signed h =
      edit_path location p (insert_member (codes "value") (string signature))
      ∙ ap ok (some-injective _ _ (sym write_signature_path ∙ h))
