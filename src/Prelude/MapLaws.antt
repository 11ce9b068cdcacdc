-- ===== src/Prelude/MapLaws.antt =====
-- The laws of the maps: what a lookup finds after each operation, and what keeps keys distinct.
use Prim.Native.Nat.{suc, ◌≤◌}
use mathlib.Core.Path.{◌≡◌, refl, ap}
use mathlib.Core.Bool.{Bool, true, false}
use mathlib.Core.List.{[], ◌∷◌}
use mathlib.Core.Option.{Option, none, some}
use mathlib.Core.Logic.{inl, inr}
use native.Mathlib.Omega.{arith}
use mediasink.Prelude.Tests.{KeyEq, ◌==◌, ==_refl, ==_sound, if◌then◌else◌, Bool-cases}
use mediasink.Prelude.Lists.{length}
use mediasink.Prelude.Maps.{Map, lookup, contains, insert, erase, retain, map_values, Distinct}

abbrev pub map_opt {ℓ} : {V : Type ℓ} → (V → V) → Option V → Option V
map_opt f none = none
map_opt f (some v) = some (f v)

module _ {ℓ κ} {K : Type ℓ} {V : Type κ} ⦃keys : KeyEq K⦄ where
  -- A write is seen at its key, and nowhere else.
  pub lookup-insert :
      (key other : K) (value : V) (m : Map K V)
      → lookup other (insert key value m) ≡ (if key == other then some value else lookup other m)
  unfolding lookup insert
  lookup-insert key other value [] = refl
  lookup-insert key other value ((k, v) ∷ rest) = ground (
    arith,
    lookup-insert key other value rest,
    keys.same_iff k key,
    keys.same_iff k other,
    keys.same_iff key other,
  )

  pub lookup-insert_self :
      (key : K) (value : V) (m : Map K V) → lookup key (insert key value m) ≡ some value
  lookup-insert_self key value m = rw (lookup-insert, ==_refl)

  pub lookup-erase :
      (k j : K) (m : Map K V) → lookup j (erase k m) ≡ (if k == j then none else lookup j m)
  unfolding lookup erase
  lookup-erase k j [] = ground arith
  lookup-erase k j ((i, w) ∷ m) =
      ground (arith, keys.same_iff k j, keys.same_iff i k, keys.same_iff i j, lookup-erase k j m)

  pub contains-lookup : (k : K) (m : Map K V) (v : V) → lookup k m ≡ some v → contains k m ≡ true
  unfolding lookup contains
  contains-lookup k [] v h = cc
  contains-lookup k ((i, w) ∷ m) v h = ground (arith, contains-lookup k m v)

  pub lookup-ne_contains : (k : K) (m : Map K V) → contains k m ≡ false → lookup k m ≡ none
  unfolding lookup contains
  lookup-ne_contains k [] h = refl
  lookup-ne_contains k ((i, w) ∷ m) h = ground (arith, lookup-ne_contains k m)

  pub contains_of_lookup-none : (k : K) (m : Map K V) → lookup k m ≡ none → contains k m ≡ false
  unfolding lookup contains
  contains_of_lookup-none k [] h = refl
  contains_of_lookup-none k ((i, w) ∷ m) h = ground (arith, contains_of_lookup-none k m)

  pub contains-insert :
      (k j : K) (v : V) (m : Map K V)
      → contains j (insert k v m) ≡ (if k == j then true else contains j m)
  unfolding contains insert
  contains-insert k j v [] = refl
  contains-insert k j v ((i, w) ∷ m) =
      ground
        (arith, keys.same_iff k j, keys.same_iff i k, keys.same_iff i j, contains-insert k j v m)

  pub contains-erase :
      (k j : K) (m : Map K V) → contains j (erase k m) ≡ (if k == j then false else contains j m)
  unfolding contains erase
  contains-erase k j [] = ground arith
  contains-erase k j ((i, w) ∷ m) =
      ground (arith, keys.same_iff k j, keys.same_iff i k, keys.same_iff i j, contains-erase k j m)

  pub length-insert :
      (k : K) (v : V) (m : Map K V)
      → length (insert k v m) ≡ (if contains k m then length m else suc (length m))
  unfolding contains insert
  length-insert k v [] = refl
  length-insert k v ((i, w) ∷ m) = ground (arith, length-insert k v m)

  pub length-erase-le : (k : K) (m : Map K V) → length (erase k m) ≤ length m
  unfolding erase
  length-erase-le k [] = omega arith
  length-erase-le k ((i, w) ∷ m) = ground (arith, length-erase-le k m)

  pub Distinct-insert : (k : K) (v : V) (m : Map K V) → Distinct m → Distinct (insert k v m)
  unfolding insert
  Distinct-insert k v [] d = (unfold contains in refl, tt)
  Distinct-insert k v ((i, w) ∷ m) d = ground (
    arith,
    keys.same_iff i k,
    keys.same_iff k i,
    contains-insert k i v m,
    Distinct-insert k v m d.1,
  )

  pub Distinct-erase : (k : K) (m : Map K V) → Distinct m → Distinct (erase k m)
  unfolding erase
  Distinct-erase k [] d = tt
  Distinct-erase k ((i, w) ∷ m) d = ground (arith, contains-erase k i m, Distinct-erase k m d.1)

  pub contains-retain :
      (p : K → V → Bool) (j : K) (m : Map K V)
      → contains j m ≡ false
      → contains j (retain p m) ≡ false
  unfolding contains retain
  contains-retain p j [] h = refl
  contains-retain p j ((i, w) ∷ m) h = ground (arith, contains-retain p j m)

  pub Distinct-retain : (p : K → V → Bool) (m : Map K V) → Distinct m → Distinct (retain p m)
  unfolding retain
  Distinct-retain p [] d = tt
  Distinct-retain p ((i, w) ∷ m) d =
      ground (arith, contains-retain p i m d.0, Distinct-retain p m d.1)

  pub length-retain-le : (p : K → V → Bool) (m : Map K V) → length (retain p m) ≤ length m
  unfolding retain
  length-retain-le p [] = omega arith
  length-retain-le p ((i, w) ∷ m) = ground (arith, length-retain-le p m)

  abbrev pub keep_if : (K → V → Bool) → K → Option V → Option V
  keep_if p k none = none
  keep_if p k (some v) = if p k v then some v else none

  pub lookup-retain :
      (p : K → V → Bool) (k : K) (m : Map K V)
      → Distinct m
      → lookup k (retain p m) ≡ keep_if p k (lookup k m)
  unfolding lookup retain
  lookup-retain p k [] d = refl
  lookup-retain p k ((i, w) ∷ m) d = elim (Bool-cases (i == k)) [
    | inl same ↦ ground (
      arith,
      ==_sound i k same,
      ap (λ (x : K). p x w) (==_sound i k same),
      lookup-retain p k m d.1,
      lookup-ne_contains i m d.0,
      ap (λ (x : K). lookup x m) (==_sound i k same),
    )
    | inr other ↦ ground (arith, lookup-retain p k m d.1)
  ]

  pub contains-map_values :
      (f : V → V) (k : K) (m : Map K V) → contains k (map_values f m) ≡ contains k m
  unfolding contains map_values
  contains-map_values f k [] = refl
  contains-map_values f k ((i, w) ∷ m) = ground (arith, contains-map_values f k m)

  pub Distinct-map_values : (f : V → V) (m : Map K V) → Distinct m → Distinct (map_values f m)
  unfolding map_values
  Distinct-map_values f [] d = tt
  Distinct-map_values f ((i, w) ∷ m) d =
      ground (arith, contains-map_values f i m, Distinct-map_values f m d.1)

  pub length-map_values : (f : V → V) (m : Map K V) → length (map_values f m) ≡ length m
  unfolding map_values
  length-map_values f [] = refl
  length-map_values f ((i, w) ∷ m) = ap suc (length-map_values f m)

  pub lookup-map_values :
      (f : V → V) (k : K) (m : Map K V) → lookup k (map_values f m) ≡ map_opt f (lookup k m)
  unfolding lookup map_values
  lookup-map_values f k [] = refl
  lookup-map_values f k ((i, w) ∷ m) = ground (arith, lookup-map_values f k m)

  -- A range that deletes nothing, since every changed value passes.
  pub retain-map_values :
      (p : K → V → Bool) (f : V → V)
      → ((k : K) (v : V) → p k (f v) ≡ true)
      → (m : Map K V) → retain p (map_values f m) ≡ map_values f m
  unfolding retain map_values
  retain-map_values p f passes [] = refl
  retain-map_values p f passes ((i, w) ∷ m) =
      rw (passes i w) (ap (λ (r : Map K V). (i, f w) ∷ r) (retain-map_values p f passes m))
