-- ===== src/Core/Constraints/Single.antt =====
-- `reject_batch` and `reject_notification` of mcps-core/src/constraints.rs: the messages that pass both.
use mcps.Prelude.{codes, Option, none, some, ok, ◌≡◌, ◌≢◌, ◌↔◌, refl}
use mcps.Core.Json.{Value, Items, null, bool, number, string, array, object, get}
use mcps.Core.Constraints.{reject_batch, reject_notification, id_verdict}

-- A message that is no batch and whose id is there and is not null.
pub record IsSingle (value : Value) : Type 0 where
  pub no_batch : (items : Items) → value ≢ array items
  pub id : Value
  pub id_of : get value (codes "id") ≡ some id
  pub id_given : id ≢ null

not_array : (value : Value) → reject_batch value ≡ ok tt → (items : Items) → value ≢ array items
unfolding reject_batch
not_array (array vs) h items e = cc
not_array null h items e = cc
not_array (bool b) h items e = cc
not_array (number n) h items e = cc
not_array (string t) h items e = cc
not_array (object ms) h items e = cc

array_rejected :
    (value : Value) → ((items : Items) → value ≢ array items) → reject_batch value ≡ ok tt
unfolding reject_batch
array_rejected (array vs) h = absurd (h vs refl)
array_rejected _ h = refl

id_verdict-given :
    (o : Option Value) → id_verdict o ≡ ok tt → (id : Value) × (o ≡ some id) × (id ≢ null)
unfolding id_verdict
id_verdict-given none h = cc
id_verdict-given (some null) h = cc
id_verdict-given (some v) h = (v, refl, λ e. cc)

given-id_verdict : (id : Value) → id ≢ null → id_verdict (some id) ≡ ok tt
unfolding id_verdict
given-id_verdict null h = absurd (h refl)
given-id_verdict _ h = refl

pub IsSingle-iff :
    (value : Value)
    → ((reject_batch value ≡ ok tt) × (reject_notification value ≡ ok tt)) ↔ IsSingle value
unfolding reject_notification
IsSingle-iff value = (
  λ h.
      (let (id, there, given) = id_verdict-given (get value (codes "id")) h.1 in
        record { no_batch = not_array value h.0; id = id; id_of = there; id_given = given }),
  λ h. (array_rejected value h.no_batch, rw h.id_of (given-id_verdict h.id h.id_given)),
)
