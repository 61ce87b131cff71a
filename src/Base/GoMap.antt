-- ===== src/Base/GoMap.antt =====
-- A Go map as an association list: `m[k]`, `m[k] = v`, `delete(m, k)`, and a `range` loop that
-- rewrites or deletes each entry by itself.
use mathlib.Core.Path.{◌≡◌, refl}
use mathlib.Core.Logic.{ite, ◌⊎◌}
use mathlib.Core.Option.{Option, none, some}
use mathlib.Core.List.{List, [], ◌∷◌}
use native.Mathlib.Omega.{arith}

pub record Key (K : Type 0) : Type 0 where
  pub same? : Discrete K

abbrev pub GoMap : Type 0 → Type 0 → Type 0
GoMap K V = List (K × V)

-- The value, or the zero value of a missing key.
abbrev pub or_zero {ℓ} : {V : Type ℓ} → Option V → V → V
or_zero none z = z
or_zero (some v) z = v

abbrev pub and_then {ℓ} : {V : Type ℓ} → Option V → (V → Option V) → Option V
and_then none f = none
and_then (some v) f = f v

-- A loop that rewrites (`some`) or deletes (`none`) every entry.
unfoldable pub update_all : {K V : Type 0} → (K → V → Option V) → GoMap K V → GoMap K V
update_all f [] = []
update_all f ((k, v) ∷ m) =
    let rest = update_all f m in elim (f k v) [ none ↦ rest | some w ↦ (k, w) ∷ rest ]

module _ {K V : Type 0} ⦃key : Key K⦄ where
  unfoldable pub get : GoMap K V → K → Option V
  get [] k = none
  get ((j, v) ∷ m) k = ite (key.same? j k) (some v) (get m k)

  unfoldable pub delete : GoMap K V → K → GoMap K V
  delete [] k = []
  delete ((j, v) ∷ m) k = let rest = delete m k in ite (key.same? j k) rest ((j, v) ∷ rest)

  unfoldable pub put : GoMap K V → K → V → GoMap K V
  unfolding delete
  put m k v = (k, v) ∷ delete m k

  pub get-delete :
      (m : GoMap K V) (k j : K) → get (delete m k) j ≡ ite (key.same? k j) none (get m j)
  unfolding get delete
  get-delete [] k j = ground arith
  get-delete ((i, v) ∷ m) k j = ground (arith, get-delete m k j)

  pub get-put :
      (m : GoMap K V) (k j : K) (v : V) → get (put m k v) j ≡ ite (key.same? k j) (some v) (get m j)
  unfolding get put
  get-put m k j v = ground (arith, get-delete m k j)

  pub get-put-some :
      (m : GoMap K V) (k j : K) (v u : V)
      → get (put m k v) j ≡ some u
      → (v ≡ u) ⊎ (get m j ≡ some u)
  get-put-some m k j v u h = ground (arith, get-put m k j v)

  -- No key has two entries.
  abbrev pub IsUnique : GoMap K V → Type 0
  IsUnique [] = Unit {0}
  IsUnique ((k, v) ∷ m) = (get m k ≡ none) × IsUnique m

  pub delete-IsUnique : (m : GoMap K V) (k : K) → IsUnique m → IsUnique (delete m k)
  unfolding delete
  delete-IsUnique [] k u = tt
  delete-IsUnique ((j, v) ∷ m) k u = ground (arith, delete-IsUnique m k u.1, get-delete m k j)

  pub put-IsUnique : (m : GoMap K V) (k : K) (v : V) → IsUnique m → IsUnique (put m k v)
  unfolding put
  put-IsUnique m k v u = (ground (arith, get-delete m k k), delete-IsUnique m k u)

  pub get-update_all :
      (f : K → V → Option V) (m : GoMap K V) (k : K)
      → IsUnique m
      → get (update_all f m) k ≡ and_then (get m k) (f k)
  unfolding get update_all
  get-update_all f [] k u = refl
  get-update_all f ((j, v) ∷ m) k u = ground (arith, get-update_all f m k u.1)

  pub update_all-IsUnique :
      (f : K → V → Option V) (m : GoMap K V) → IsUnique m → IsUnique (update_all f m)
  unfolding update_all
  update_all-IsUnique f [] u = tt
  update_all-IsUnique f ((j, v) ∷ m) u =
      ground (arith, update_all-IsUnique f m u.1, get-update_all f m j u.1)
