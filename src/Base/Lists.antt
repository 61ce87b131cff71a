-- ===== src/Base/Lists.antt =====
-- Lists measured by native numbers, and tests over lists.
use Prim.Native.Nat.{ℕ, zero, suc, ◌+◌}
use mathlib.Core.Path.{◌≡◌, refl}
use mathlib.Core.Logic.{◌⊎◌, inl, inr}
use mathlib.Core.List.{List, [], ◌∷◌, ◌++◌}
use mathlib.Core.Option.{Option, none, some}
use mathlib.Core.Bool.{Bool}
use mlx_swarm.Base.Tests.{if◌then◌else◌, Bool-cases}
use native.Mathlib.Omega.{arith}

module _ {ℓ} {A : Type ℓ} where
  abbrev pub length : List A → ℕ
  length [] = 0
  length (x ∷ xs) = suc (length xs)

  abbrev pub get_elem? : List A → ℕ → Option A
  get_elem? [] i = none
  get_elem? (x ∷ xs) zero = some x
  get_elem? (x ∷ xs) (suc i) = get_elem? xs i

  pub length-append : (xs ys : List A) → length (xs ++ ys) ≡ length xs + length ys
  length-append [] ys = omega arith
  length-append (x ∷ xs) ys = omega (arith, length-append xs ys)

-- Every element of a list has a property.
abbrev pub All {ℓ κ} : {A : Type ℓ} → (A → Type κ) → List A → Type κ
All P [] = Unit
All P (x ∷ xs) = P x × All P xs

-- The first fault of a list of tests, in the order of the source's early returns.
abbrev pub first_fault {ℓ} : {E : Type ℓ} → List (Bool × E) → Option E
first_fault [] = none
first_fault ((test, e) ∷ rest) = if test then some e else first_fault rest

-- `if err := a; err != nil { return err }; return b`.
abbrev pub and_also {ℓ} : {E : Type ℓ} → Option E → Option E → Option E
and_also none e = e
and_also (some x) e = some x

-- Insertion into a sorted list, and the sorted list of the elements.
abbrev pub insert_by {ℓ} : {A : Type ℓ} → (A → A → Bool) → A → List A → List A
insert_by before x [] = x ∷ []
insert_by before x (y ∷ ys) =
    let rest = insert_by before x ys in if before y x then y ∷ rest else x ∷ y ∷ ys

abbrev pub sort_by {ℓ} : {A : Type ℓ} → (A → A → Bool) → List A → List A
sort_by before [] = []
sort_by before (x ∷ xs) = insert_by before x (sort_by before xs)

-- An element of a list.
abbrev pub Member : {A : Type 0} → A → List A → Type 0
Member x [] = ⊥
Member x (y ∷ ys) = (x ≡ y) ⊎ Member x ys

-- A sorted list holds only the elements of the list.
insert_by-Member :
    {A : Type 0} (before : A → A → Bool) (x : A) (xs : List A) (y : A)
    → Member y (insert_by before x xs)
    → (y ≡ x) ⊎ Member y xs
insert_by-Member before x [] y h = h
insert_by-Member before x (z ∷ zs) y h = elim (Bool-cases (before z x)) [
  | inl b ↦ ground (arith, insert_by-Member before x zs y)
  | inr b ↦ ground arith
]

pub sort_by-Member :
    {A : Type 0} (before : A → A → Bool) (xs : List A) (y : A)
    → Member y (sort_by before xs)
    → Member y xs
sort_by-Member before [] y h = h
sort_by-Member before (x ∷ xs) y h = elim (insert_by-Member before x (sort_by before xs) y h) [
  | inl e ↦ inl e
  | inr m ↦ inr (sort_by-Member before xs y m)
]

-- To split on a computed list and keep the equation.
pub List-cases : {A : Type 0} (xs : List A) → (xs ≡ []) ⊎ ((x : A) × (ys : List A) × (xs ≡ x ∷ ys))
List-cases [] = inl refl
List-cases (x ∷ xs) = inr (x, xs, refl)
