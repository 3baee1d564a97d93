-- ===== src/Core/Failure.antt =====
-- The two ways in which a function fails that writes into JSON values.
use mcps.Prelude.{Option, none, some, Result, ok, err, ◌≡◌}
use mcps.Core.Error.{McpsError}

-- How such a function fails: with an error, or with a panic.
pub data Failure : Type 0 where
  refused : McpsError → Failure
  panicked : Failure

unfoldable pub or_refuse : {A : Type 0} → Option A → McpsError → Result Failure A
or_refuse none e = err (refused e)
or_refuse (some a) e = ok a

unfoldable pub or_panic : {A : Type 0} → Option A → Result Failure A
or_panic none = err panicked
or_panic (some a) = ok a

unfoldable pub or_refused : {A : Type 0} → Result McpsError A → Result Failure A
or_refused (ok a) = ok a
or_refused (err e) = err (refused e)

pub or_refuse-ok :
    {A : Type 0} (o : Option A) (e : McpsError) {a : A} → or_refuse o e ≡ ok a → o ≡ some a
unfolding or_refuse
or_refuse-ok none e h = cc
or_refuse-ok (some b) e h = cc

pub or_panic-ok : {A : Type 0} (o : Option A) {a : A} → or_panic o ≡ ok a → o ≡ some a
unfolding or_panic
or_panic-ok none h = cc
or_panic-ok (some b) h = cc

pub or_refused-ok : {A : Type 0} (r : Result McpsError A) {a : A} → or_refused r ≡ ok a → r ≡ ok a
unfolding or_refused
or_refused-ok (ok b) h = cc
or_refused-ok (err e) h = cc
