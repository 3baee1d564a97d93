-- ===== src/Prelude/Results.antt =====
-- Rust's `Result<T, E>`: the `?` operator is `◌>>=◌`, `ok_or` and `map_err` are the functions of
-- the standard library.
use mathlib.Core.Path.{◌≡◌, refl}
use mathlib.Core.Logic.{◌⊎◌, inl, inr}
use mathlib.Core.Bool.{Bool, true, false}
use mcps.Prelude.Tests.{if◌then◌else◌}
use mathlib.Core.Option.{Option, none, some}

pub data Result {ℓ} (E A : Type ℓ) : Type ℓ where
  ok : A → Result E A
  err : E → Result E A

infixl 5 ◌>>=◌ ◌>>◌
abbrev pub ◌>>=◌ {ℓ} : {E A B : Type ℓ} → Result E A → (A → Result E B) → Result E B
ok a >>= f = f a
err e >>= f = err e

abbrev pub ◌>>◌ {ℓ} : {E B : Type ℓ} → Result E Unit → Result E B → Result E B
m >> k = m >>= λ _. k

-- `if !b { return Err(e); }`
abbrev pub guard {ℓ} : {E : Type ℓ} → Bool → E → Result E Unit
guard true e = ok tt
guard false e = err e

abbrev pub ok_or {ℓ} : {E A : Type ℓ} → Option A → E → Result E A
ok_or none e = err e
ok_or (some a) e = ok a

abbrev pub map_err {ℓ} : {E F A : Type ℓ} → (E → F) → Result E A → Result F A
map_err f (ok a) = ok a
map_err f (err e) = err (f e)

module _ {ℓ} {E A : Type ℓ} where
  pub Result-cases : (r : Result E A) → ((a : A) × (r ≡ ok a)) ⊎ ((e : E) × (r ≡ err e))
  Result-cases (ok a) = inl (a, refl)
  Result-cases (err e) = inr (e, refl)

  pub ok-injective : {a b : A} → ◌≡◌ {A = Result E A} (ok a) (ok b) → a ≡ b
  ok-injective h = cc

  -- Inversion of a successful chain, for proofs where the parts stay shut.
  pub >>=-eq-ok :
      {B : Type ℓ} (r : Result E A) (next : A → Result E B) {last : B}
      → (r >>= next) ≡ ok last
      → (x : A) × (r ≡ ok x) × (next x ≡ ok last)
  >>=-eq-ok (err e) next done = cc
  >>=-eq-ok (ok x) next done = (x, refl, done)

pub >>-eq-ok {ℓ} :
    {E B : Type ℓ} (m : Result E Unit) (k : Result E B) {b : B}
    → (m >> k) ≡ ok b
    → (m ≡ ok tt) × (k ≡ ok b)
>>-eq-ok (ok tt) k h = (refl, h)
>>-eq-ok (err e) k h = (cc, cc)

-- Inversion of a chain that fails: its head fails so, or what follows it does.
pub >>=-eq-err {ℓ} :
    {E A B : Type ℓ} (r : Result E A) (next : A → Result E B) {e : E}
    → (r >>= next) ≡ err e
    → (r ≡ err e) ⊎ ((x : A) × (r ≡ ok x) × (next x ≡ err e))
>>=-eq-err (ok x) next h = inr (x, refl, h)
>>=-eq-err (err d) next h = inl (cc)

pub map_err-eq-ok {ℓ} :
    {E F A : Type ℓ} (f : E → F) (r : Result E A) {a : A} → map_err f r ≡ ok a → r ≡ ok a
map_err-eq-ok f (ok b) h = cc
map_err-eq-ok f (err e) h = cc

pub ok_or-eq-ok {ℓ} : {E A : Type ℓ} (o : Option A) (e : E) {a : A} → ok_or o e ≡ ok a → o ≡ some a
ok_or-eq-ok none e h = cc
ok_or-eq-ok (some b) e h = cc

pub guard-eq-ok {ℓ} : {E : Type ℓ} (b : Bool) (e : E) → guard b e ≡ ok tt → b ≡ true
guard-eq-ok true e h = refl
guard-eq-ok false e h = cc

-- Whatever error the computation ends with, it is `e`. The rules build it along a `do` block.
pub record FailsOnly {ℓ} {E A : Type ℓ} (e : E) (r : Result E A) : Type ℓ where
  pub at : (e' : E) → r ≡ err e' → e' ≡ e

module _ {ℓ} {E : Type ℓ} {e : E} where
  pub FailsOnly-ok : {A : Type ℓ} (a : A) → FailsOnly e (ok a)
  FailsOnly-ok a = record { at = λ e' h. cc }

  pub FailsOnly-err : {A : Type ℓ} → FailsOnly {A = A} e (err e)
  FailsOnly-err = record { at = λ e' h. cc }

  pub FailsOnly-guard : (b : Bool) → FailsOnly e (guard b e)
  FailsOnly-guard true = record { at = λ e' h. cc }
  FailsOnly-guard false = record { at = λ e' h. cc }

  pub FailsOnly-ok_or : {A : Type ℓ} (o : Option A) → FailsOnly e (ok_or o e)
  FailsOnly-ok_or none = record { at = λ e' h. cc }
  FailsOnly-ok_or (some a) = record { at = λ e' h. cc }

  pub FailsOnly-bind :
      {A B : Type ℓ} (m : Result E A) (f : A → Result E B)
      → FailsOnly e m
      → ((a : A) → FailsOnly e (f a))
      → FailsOnly e (m >>= f)
  FailsOnly-bind (ok a) f hm hf = hf a
  FailsOnly-bind (err x) f hm hf = record { at = λ e' h. hm.at e' (cc) }

module _ {ℓ} {E : Type ℓ} {e : E} where
  pub FailsOnly-if :
      {A : Type ℓ} (b : Bool) (r s : Result E A)
      → FailsOnly e r
      → FailsOnly e s
      → FailsOnly e (if b then r else s)
  FailsOnly-if true r s hr hs = hr
  FailsOnly-if false r s hr hs = hs

pub ruleset fails_rules =
    (FailsOnly-ok, FailsOnly-err, FailsOnly-guard, FailsOnly-ok_or, FailsOnly-bind, FailsOnly-if)
