-- ===== src/Prelude/Assoc.antt =====
-- A `BTreeMap` that the program counts or iterates over, as the list of its entries.
use mathlib.Core.Path.{◌≡◌, refl, ◌∙◌}
use mathlib.Core.Bool.{Bool, true, false}
use mathlib.Core.Option.{Option, none, some}
use mathlib.Core.List.{List, [], ◌∷◌}
use native.Mathlib.Omega.{arith}
use mcps.Prelude.Tests.{if◌then◌else◌, Bool-cases}
use mathlib.Core.Logic.{inl, inr}
use mcps.Prelude.Map.{Eq}
use mcps.Prelude.Lists.{All}

module _ {ℓ} {K V : Type ℓ} ⦃e : Eq K⦄ where
  unfoldable pub find : K → List (K × V) → Option V
  find k [] = none
  find k ((j, v) ∷ es) = if e.beq j k then some v else find k es

  -- `BTreeMap::insert`.
  unfoldable pub set : K → V → List (K × V) → List (K × V)
  set k v [] = (k, v) ∷ []
  set k v ((j, w) ∷ es) = let rest = set k v es in if e.beq j k then (j, v) ∷ es else (j, w) ∷ rest

  -- `BTreeMap::remove`, as the list without the entries of the key.
  unfoldable pub erase : K → List (K × V) → List (K × V)
  erase k [] = []
  erase k ((j, w) ∷ es) = let rest = erase k es in if e.beq j k then rest else (j, w) ∷ rest

  pub find-set_self : (k : K) (v : V) (es : List (K × V)) → find k (set k v es) ≡ some v
  unfolding find set
  find-set_self k v [] = ground (arith, e.beq_iff k k)
  find-set_self k v ((j, w) ∷ es) = ground (arith, find-set_self k v es)

  pub find-set_other :
      (k j : K) (v : V) (es : List (K × V)) → e.beq j k ≡ false → find k (set j v es) ≡ find k es
  unfolding find set
  find-set_other k j v [] h = ground arith
  find-set_other k j v ((i, w) ∷ es) h =
      ground (arith, find-set_other k j v es h, e.beq_iff i j, e.beq_iff j k, e.beq_iff i k)

  pub find-erase_other :
      (k j : K) (es : List (K × V)) → e.beq j k ≡ false → find k (erase j es) ≡ find k es
  unfolding find erase
  find-erase_other k j [] h = refl
  find-erase_other k j ((i, w) ∷ es) h =
      ground (arith, find-erase_other k j es h, e.beq_iff i j, e.beq_iff j k, e.beq_iff i k)

  pub find-erase_self : (k : K) (es : List (K × V)) → find k (erase k es) ≡ none
  unfolding find erase
  find-erase_self k [] = refl
  find-erase_self k ((i, w) ∷ es) = ground (arith, find-erase_self k es)

  pub find-erase-none :
      (k j : K) (es : List (K × V)) → find k es ≡ none → find k (erase j es) ≡ none
  unfolding find erase
  find-erase-none k j [] h = refl
  find-erase-none k j ((i, w) ∷ es) h = ground (arith, h, find-erase-none k j es)

module _ {ℓ} {K V : Type ℓ} where
  -- `retain` on the values.
  unfoldable pub keep : (V → Bool) → List (K × V) → List (K × V)
  keep p [] = []
  keep p ((j, w) ∷ es) = let rest = keep p es in if p w then (j, w) ∷ rest else rest

pub find-keep {ℓ} :
    {K V : Type ℓ} ⦃e : Eq K⦄ (p : V → Bool) (k : K) (v : V) (es : List (K × V))
    → find k es ≡ some v
    → p v ≡ true
    → find k (keep p es) ≡ some v
unfolding find keep
find-keep ⦃e⦄ p k v [] h q = cc
find-keep ⦃e⦄ p k v ((j, w) ∷ es) h q = ground (arith, find-keep p k v es)

-- Every entry of the key has the value: what makes the order of the entries immaterial for the key.
module _ {ℓ} {K V : Type ℓ} ⦃e : Eq K⦄ where
  abbrev pub Only : K → V → List (K × V) → Type ℓ
  Only k v es = All (λ (j, w). e.beq j k ≡ true → w ≡ v) es

  -- The key is there, with this value alone.
  pub record Holds (k : K) (v : V) (es : List (K × V)) : Type ℓ where
    pub found : find k es ≡ some v
    pub only : Only k v es

  Only-find-none : (k : K) (v : V) (es : List (K × V)) → find k es ≡ none → Only k v es
  unfolding find
  Only-find-none k v [] h = tt
  Only-find-none k v ((j, w) ∷ es) h =
      ((λ same. absurd (ground arith)), Only-find-none k v es (ground arith))

  pub Only-set :
      (k j : K) (v w : V) (es : List (K × V))
      → (e.beq j k ≡ true → w ≡ v)
      → Only k v es
      → Only k v (set j w es)
  unfolding set
  Only-set k j v w [] h o = (h, tt)
  Only-set k j v w ((i, u) ∷ es) h (here, there) = elim (Bool-cases (e.beq i j)) [
    | inl p ↦
        rw p ((λ same. h (ground (arith, e.beq_iff i j, e.beq_iff i k, e.beq_iff j k))), there)
    | inr p ↦ rw p (here, Only-set k j v w es h there)
  ]

  Only-erase : (k j : K) (v : V) (es : List (K × V)) → Only k v es → Only k v (erase j es)
  unfolding erase
  Only-erase k j v [] o = tt
  Only-erase k j v ((i, u) ∷ es) (here, there) = elim (Bool-cases (e.beq i j)) [
    | inl p ↦ rw p (Only-erase k j v es there)
    | inr p ↦ rw p (here, Only-erase k j v es there)
  ]

  Only-keep :
      (p : V → Bool) (k : K) (v : V) (es : List (K × V)) → Only k v es → Only k v (keep p es)
  unfolding keep
  Only-keep p k v [] o = tt
  Only-keep p k v ((i, u) ∷ es) (here, there) = elim (Bool-cases (p u)) [
    | inl q ↦ rw q (here, Only-keep p k v es there)
    | inr q ↦ rw q (Only-keep p k v es there)
  ]

  pub find-keep-none :
      (p : V → Bool) (k : K) (es : List (K × V)) → find k es ≡ none → find k (keep p es) ≡ none
  unfolding find keep
  find-keep-none p k [] h = refl
  find-keep-none p k ((j, w) ∷ es) h = ground (arith, find-keep-none p k es)

  pub Holds-set_new :
      (k : K) (v : V) (es : List (K × V)) → find k es ≡ none → Holds k v (set k v es)
  Holds-set_new k v es h = record {
    found = find-set_self k v es;
    only = Only-set k k v v es (λ same. refl) (Only-find-none k v es h);
  }

  pub Holds-set_other :
      (k j : K) (v w : V) (es : List (K × V))
      → e.beq j k ≡ false
      → Holds k v es
      → Holds k v (set j w es)
  Holds-set_other k j v w es h o = record {
    found = find-set_other k j w es h ∙ o.found;
    only = Only-set k j v w es (λ same. absurd (ground (arith, h))) o.only;
  }

  pub Holds-erase_other :
      (k j : K) (v : V) (es : List (K × V))
      → e.beq j k ≡ false
      → Holds k v es
      → Holds k v (erase j es)
  Holds-erase_other k j v es h o = record {
    found = find-erase_other k j es h ∙ o.found;
    only = Only-erase k j v es o.only;
  }

  pub Holds-keep :
      (p : V → Bool) (k : K) (v : V) (es : List (K × V))
      → p v ≡ true
      → Holds k v es
      → Holds k v (keep p es)
  Holds-keep p k v es h o = record {
    found = find-keep p k v es o.found h;
    only = Only-keep p k v es o.only;
  }
