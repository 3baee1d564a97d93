-- ===== src/Prelude/Map.antt =====
-- A `BTreeMap` or `HashMap` that the program never iterates over, as the function of its lookups.
use mathlib.Core.Path.{◌≡◌}
use mathlib.Core.Logic.{◌↔◌}
use mathlib.Core.Bool.{Bool, true, false}
use mathlib.Core.Option.{Option, none, some}
use native.Mathlib.Omega.{arith}
use mcps.Prelude.Tests.{if◌then◌else◌}

-- Keys with a decidable equality.
pub record Eq {ℓ} (K : Type ℓ) : Type ℓ where
  pub beq : K → K → Bool
  pub beq_iff : (a b : K) → (beq a b ≡ true) ↔ (a ≡ b)

abbrev pub Map {ℓ} : Type ℓ → Type ℓ → Type ℓ
Map K V = K → Option V

abbrev pub keep_if {ℓ} : {V : Type ℓ} → (V → Bool) → Option V → Option V
keep_if p none = none
keep_if p (some v) = if p v then some v else none

module _ {ℓ} {K V : Type ℓ} where
  unfoldable pub empty : Map K V
  empty k = none

  unfoldable pub contains_key : Map K V → K → Bool
  contains_key m k = elim (m k) [ none ↦ false | some v ↦ true ]

  -- `map.retain(|k, v| p(k, v))`
  unfoldable pub retain : (K → V → Bool) → Map K V → Map K V
  retain p m k = keep_if (p k) (m k)

module _ {ℓ} {K V : Type ℓ} ⦃e : Eq K⦄ where
  unfoldable pub insert : K → V → Map K V → Map K V
  insert k v m j = if e.beq k j then some v else m j

  unfoldable pub remove : K → Map K V → Map K V
  remove k m j = if e.beq k j then none else m j

  pub insert_self : (k : K) (v : V) (m : Map K V) → insert k v m k ≡ some v
  unfolding insert
  insert_self k v m = ground (arith, e.beq_iff k k)
