-- ===== src/Prelude/MapEntries.antt =====
-- What holds of every entry of a map, and what keeps it.
use mathlib.Core.Path.{◌≡◌, subst}
use mathlib.Core.Bool.{Bool, true}
use mathlib.Core.List.{[], ◌∷◌}
use mathlib.Core.Option.{some}
use mathlib.Core.Logic.{inl, inr}
use native.Mathlib.Omega.{arith}
use mediasink.Prelude.Tests.{KeyEq, ◌==◌, ==_sound, Bool-cases}
use mediasink.Prelude.Maps.{Map, lookup, insert, erase, retain, map_values, Entries}

module _ {ℓ κ μ} {K : Type ℓ} {V : Type κ} ⦃keys : KeyEq K⦄ (P : K → V → Type μ) where
  pub Entries-insert :
      (k : K) (v : V) (m : Map K V) → P k v → Entries P m → Entries P (insert k v m)
  unfolding insert
  Entries-insert k v [] p h = (p, tt)
  Entries-insert k v ((i, w) ∷ m) p h = elim (Bool-cases (i == k)) [
    | inl same ↦ rw same (p, h.1)
    | inr other ↦ rw other (h.0, Entries-insert k v m p h.1)
  ]

  pub Entries-erase : (k : K) (m : Map K V) → Entries P m → Entries P (erase k m)
  unfolding erase
  Entries-erase k [] h = tt
  Entries-erase k ((i, w) ∷ m) h = elim (Bool-cases (i == k)) [
    | inl same ↦ rw same (Entries-erase k m h.1)
    | inr other ↦ rw other (h.0, Entries-erase k m h.1)
  ]

  pub Entries-retain : (p : K → V → Bool) (m : Map K V) → Entries P m → Entries P (retain p m)
  unfolding retain
  Entries-retain p [] h = tt
  Entries-retain p ((i, w) ∷ m) h = elim (Bool-cases (p i w)) [
    | inl kept ↦ rw kept (h.0, Entries-retain p m h.1)
    | inr gone ↦ rw gone (Entries-retain p m h.1)
  ]

  pub Entries-map_values :
      (f : V → V)
      → ((k : K) (v : V) → P k v → P k (f v))
      → (m : Map K V) → Entries P m
      → Entries P (map_values f m)
  unfolding map_values
  Entries-map_values f keep [] h = tt
  Entries-map_values f keep ((i, w) ∷ m) h = (keep i w h.0, Entries-map_values f keep m h.1)

  pub Entries-lookup : (k : K) (m : Map K V) (v : V) → Entries P m → lookup k m ≡ some v → P k v
  unfolding lookup
  Entries-lookup k [] v h e = cc
  Entries-lookup k ((i, w) ∷ m) v h e = elim (Bool-cases (i == k)) [
    | inl same ↦ subst (λ x. P x v) (==_sound i k same) (subst (P i) (ground (arith, same)) h.0)
    | inr other ↦ Entries-lookup k m v h.1 (rw other at e)
  ]

  pub Entries-every : ((k : K) (v : V) → P k v) → (m : Map K V) → Entries P m
  Entries-every all [] = tt
  Entries-every all ((i, w) ∷ m) = (all i w, Entries-every all m)

  -- What passes a test has what the test shows.
  pub Entries-retain_test :
      (p : K → V → Bool)
      → ((k : K) (v : V) → p k v ≡ true → P k v)
      → (m : Map K V) → Entries P (retain p m)
  unfolding retain
  Entries-retain_test p shows [] = tt
  Entries-retain_test p shows ((i, w) ∷ m) = elim (Bool-cases (p i w)) [
    | inl kept ↦ rw kept (shows i w kept, Entries-retain_test p shows m)
    | inr gone ↦ rw gone (Entries-retain_test p shows m)
  ]
