-- ===== src/Prelude/Tests.antt =====
-- Boolean tests on the native numbers, the conditional, and equality as an interface.
use Prim.Native.Nat.{ℕ, compare, Ordering}
use mathlib.Core.Path.{◌≡◌, refl}
use mathlib.Core.Logic.{◌↔◌, ◌⊎◌, inl, inr}
use mathlib.Core.Bool.{Bool, true, false}
use mathlib.Core.Option.{Option, none, some}
use mathlib.Core.List.{List, [], ◌∷◌}
use native.Mathlib.Omega.{arith}

abbrev pub ltb : ℕ → ℕ → Bool
ltb a b = elim (compare a b) [ Ordering.lt ↦ true | _ ↦ false ]

abbrev pub leb : ℕ → ℕ → Bool
leb a b = elim (compare a b) [ Ordering.gt ↦ false | _ ↦ true ]

abbrev pub nat_beq : ℕ → ℕ → Bool
nat_beq a b = elim (compare a b) [ Ordering.eq ↦ true | _ ↦ false ]

infix 1 if◌then◌else◌
abbrev pub if◌then◌else◌ {ℓ} : {A : Type ℓ} → Bool → A → A → A
if true then x else y = x
if false then x else y = y

pub nat_beq_iff : (a b : ℕ) → (nat_beq a b ≡ true) ↔ (a ≡ b)
nat_beq_iff a b = ground arith

-- What a Go map asks of its keys: the operator == of their type, which decides equality.
pub record KeyEq {ℓ} (K : Type ℓ) : Type ℓ where
  pub same : K → K → Bool
  pub same_iff : (x y : K) → (same x y ≡ true) ↔ (x ≡ y)

infix 50 ◌==◌
abbrev pub ◌==◌ {ℓ} : {K : Type ℓ} ⦃keys : KeyEq K⦄ → K → K → Bool
◌==◌ ⦃keys⦄ x y = keys.same x y

instance abbrev pub nat_keys : KeyEq ℕ
nat_keys = record { same = nat_beq; same_iff = nat_beq_iff }

-- Byte strings, compared byte by byte.
unfoldable pub list_beq : List ℕ → List ℕ → Bool
list_beq [] [] = true
list_beq (a ∷ xs) (b ∷ ys) = let rest = list_beq xs ys in if nat_beq a b then rest else false
list_beq _ _ = false

list_beq_sound : (a b : List ℕ) → list_beq a b ≡ true → a ≡ b
unfolding list_beq
list_beq_sound [] [] h = refl
list_beq_sound [] (b ∷ bs) h = cc
list_beq_sound (a ∷ xs) [] h = cc
list_beq_sound (a ∷ xs) (b ∷ ys) h = ground (arith, list_beq_sound xs ys)

list_beq_refl : (a : List ℕ) → list_beq a a ≡ true
unfolding list_beq
list_beq_refl [] = refl
list_beq_refl (a ∷ xs) = ground (arith, list_beq_refl xs)

pub list_beq_iff : (a b : List ℕ) → (list_beq a b ≡ true) ↔ (a ≡ b)
list_beq_iff a b = (list_beq_sound a b, λ e. rw e (list_beq_refl b))

instance abbrev pub bytes_keys : KeyEq (List ℕ)
bytes_keys = record { same = list_beq; same_iff = list_beq_iff }

module _ {ℓ} {A : Type ℓ} ⦃keys : KeyEq A⦄ where
  pub ==_refl : (a : A) → (a == a) ≡ true
  ==_refl a = (keys.same_iff a a).1 refl

  pub ==_sound : (a b : A) → (a == b) ≡ true → a ≡ b
  ==_sound a b = (keys.same_iff a b).0

-- To split on a computed value and keep the equation.
pub Bool-cases : (b : Bool) → (b ≡ true) ⊎ (b ≡ false)
Bool-cases true = inl refl
Bool-cases false = inr refl

pub Option-cases {ℓ} : {A : Type ℓ} (o : Option A) → (o ≡ none) ⊎ ((a : A) × (o ≡ some a))
Option-cases none = inl refl
Option-cases (some a) = inr (a, refl)
