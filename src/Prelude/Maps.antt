-- ===== src/Prelude/Maps.antt =====
-- Go maps as association lists. A range over a map visits the list in order, and the order is
-- any, since the list is any.
use mathlib.Core.Path.{◌≡◌}
use mathlib.Core.Bool.{Bool, true, false}
use mathlib.Core.List.{List, [], ◌∷◌}
use mathlib.Core.Option.{Option, none, some}
use mediasink.Prelude.Tests.{KeyEq, ◌==◌, if◌then◌else◌}

abbrev pub Map {ℓ κ} : Type ℓ → Type κ → Type (ℓ ⊔ κ)
Map K V = List (K × V)

module _ {ℓ κ} {K : Type ℓ} {V : Type κ} ⦃keys : KeyEq K⦄ where
  -- `v, ok := m[key]`
  unfoldable pub lookup : K → Map K V → Option V
  lookup key [] = none
  lookup key ((k, v) ∷ rest) = let further = lookup key rest in if k == key then some v else further

  -- `_, ok := m[key]`
  unfoldable pub contains : K → Map K V → Bool
  contains key [] = false
  contains key ((k, v) ∷ rest) =
      let further = contains key rest in if k == key then true else further

  -- `delete(m, key)`
  unfoldable pub erase : K → Map K V → Map K V
  erase key [] = []
  erase key ((k, v) ∷ rest) = let kept = erase key rest in if k == key then kept else (k, v) ∷ kept

  -- `m[key] = value`: the entry is overwritten, or a new one goes to the end.
  unfoldable pub insert : K → V → Map K V → Map K V
  insert key value [] = (key, value) ∷ []
  insert key value ((k, v) ∷ rest) =
      let further = insert key value rest in
      if k == key then (key, value) ∷ rest else (k, v) ∷ further

  -- A range that deletes the entries that fail a test.
  unfoldable pub retain : (K → V → Bool) → Map K V → Map K V
  retain p [] = []
  retain p ((j, w) ∷ m) = if p j w then (j, w) ∷ retain p m else retain p m

  -- A range that changes every value.
  unfoldable pub map_values : (V → V) → Map K V → Map K V
  map_values f [] = []
  map_values f ((j, w) ∷ m) = (j, f w) ∷ map_values f m

  -- Each key has one entry.
  abbrev pub Distinct : Map K V → Type 0
  Distinct [] = Unit
  Distinct ((k, v) ∷ m) = (contains k m ≡ false) × Distinct m

  -- Every entry satisfies a predicate.
  abbrev pub Entries {μ} : (K → V → Type μ) → Map K V → Type μ
  Entries P [] = Unit
  Entries P ((k, v) ∷ m) = P k v × Entries P m
