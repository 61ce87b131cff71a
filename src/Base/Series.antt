-- ===== src/Base/Series.antt =====
-- Properties of all elements of a list, and of all entries of a map, through the operations on them.
use mathlib.Core.Path.{◌≡◌, refl, ap, subst, subst₂}
use mathlib.Core.Logic.{inl, inr, ite}
use mathlib.Core.Bool.{Bool}
use mathlib.Core.Option.{Option, none, some}
use mathlib.Core.List.{List, [], ◌∷◌, ◌++◌}
use Prim.Native.Nat.{suc, ◌≤◌}
use mlx_swarm.Base.Tests.{Bool-cases, Option-cases}
use mlx_swarm.Base.Lists.{length, All, insert_by, sort_by}
use mlx_swarm.Base.GoMap.{Key, GoMap, get, put, delete, update_all, IsUnique}
use native.Mathlib.Omega.{arith}

module _ {A : Type 0} (P : A → Type 0) where
  pub All-append : (xs ys : List A) → All P xs → All P ys → All P (xs ++ ys)
  All-append [] ys a b = b
  All-append (x ∷ xs) ys a b = (a.0, All-append xs ys a.1 b)

  pub All-insert_by :
      (before : A → A → Bool) (x : A) (xs : List A) → P x → All P xs → All P (insert_by before x xs)
  All-insert_by before x [] p a = (p, tt)
  All-insert_by before x (y ∷ ys) p a = elim (Bool-cases (before y x)) [
    | inl e ↦ rw e (a.0, All-insert_by before x ys p a.1)
    | inr e ↦ rw e (p, a)
  ]

  pub All-sort_by : (before : A → A → Bool) (xs : List A) → All P xs → All P (sort_by before xs)
  All-sort_by before [] a = tt
  All-sort_by before (x ∷ xs) a =
      All-insert_by before x (sort_by before xs) a.0 (All-sort_by before xs a.1)

pub All-map :
    {A : Type 0} (P Q : A → Type 0) → ((x : A) → P x → Q x) → (xs : List A) → All P xs → All Q xs
All-map P Q f [] a = tt
All-map P Q f (x ∷ xs) a = (f x a.0, All-map P Q f xs a.1)

length-insert_by :
    {A : Type 0} (before : A → A → Bool) (x : A) (xs : List A)
    → length (insert_by before x xs) ≡ suc (length xs)
length-insert_by before x [] = refl
length-insert_by before x (y ∷ ys) = elim (Bool-cases (before y x)) [
  | inl e ↦ rw e (ap suc (length-insert_by before x ys))
  | inr e ↦ rw e refl
]

pub length-sort_by :
    {A : Type 0} (before : A → A → Bool) (xs : List A) → length (sort_by before xs) ≡ length xs
length-sort_by before [] = refl
length-sort_by before (x ∷ xs) =
    omega (arith, length-insert_by before x (sort_by before xs), length-sort_by before xs)

-- Every entry of a map has a property.
abbrev pub AllEntries : {K V : Type 0} → (K → V → Type 0) → GoMap K V → Type 0
AllEntries Q m = All (λ e. Q e.0 e.1) m

module _ {K V : Type 0} ⦃key : Key K⦄ where
  pub get-AllEntries :
      (Q : K → V → Type 0) (m : GoMap K V) (k : K) (v : V)
      → AllEntries Q m
      → get m k ≡ some v
      → Q k v
  unfolding get
  get-AllEntries Q [] k v a h = absurd (cc h)
  get-AllEntries Q ((j, u) ∷ m) k v a h = elim (key.same? j k) [
    | yes p ↦ subst₂ Q p (ground arith) a.0
    | no n ↦ get-AllEntries Q m k v a.1 (ground arith)
  ]

  pub delete-AllEntries :
      (Q : K → V → Type 0) (m : GoMap K V) (k : K) → AllEntries Q m → AllEntries Q (delete m k)
  unfolding delete
  delete-AllEntries Q [] k a = tt
  delete-AllEntries Q ((j, u) ∷ m) k a =
      let rest = delete-AllEntries Q m k a.1 in
      elim (key.same? j k) as (λ d. AllEntries Q (ite d (delete m k) ((j, u) ∷ delete m k))) [
        | yes p ↦ rest
        | no n ↦ (a.0, rest)
      ]

  pub put-AllEntries :
      (Q : K → V → Type 0) (m : GoMap K V) (k : K) (v : V)
      → AllEntries Q m
      → Q k v
      → AllEntries Q (put m k v)
  unfolding put
  put-AllEntries Q m k v a q = (q, delete-AllEntries Q m k a)

  length-delete : (m : GoMap K V) (k : K) → length (delete m k) ≤ length m
  unfolding delete
  length-delete [] k = omega arith
  length-delete ((j, u) ∷ m) k = ground (arith, length-delete m k)

  length-delete-some :
      (m : GoMap K V) (k : K) (v : V) → get m k ≡ some v → suc (length (delete m k)) ≤ length m
  unfolding delete get
  length-delete-some [] k v h = absurd (cc h)
  length-delete-some ((j, u) ∷ m) k v h =
      ground (arith, length-delete m k, length-delete-some m k v)

  -- A put adds one entry at most, and none where the key has one.
  pub length-put : (m : GoMap K V) (k : K) (v : V) → length (put m k v) ≤ suc (length m)
  unfolding put
  length-put m k v = omega (arith, length-delete m k)

  pub length-put-some :
      (m : GoMap K V) (k : K) (v u : V) → get m k ≡ some u → length (put m k v) ≤ length m
  unfolding put
  length-put-some m k v u h = omega (arith, length-delete-some m k u h)

pub update_all-AllEntries :
    {K V : Type 0} (f : K → V → Option V) (P Q : K → V → Type 0) (m : GoMap K V)
    → ((k : K) (v w : V) → P k v → f k v ≡ some w → Q k w)
    → AllEntries P m
    → AllEntries Q (update_all f m)
unfolding update_all
update_all-AllEntries f P Q [] g a = tt
update_all-AllEntries f P Q ((k, v) ∷ m) g a = elim (Option-cases (f k v)) [
  | inl e ↦ rw (e, update_all) (update_all-AllEntries f P Q m g a.1)
  | inr e ↦ rw (e.1, update_all) (g k v e.0 a.0 e.1, update_all-AllEntries f P Q m g a.1)
]

pub length-update_all :
    {K V : Type 0} (f : K → V → Option V) (m : GoMap K V) → length (update_all f m) ≤ length m
unfolding update_all
length-update_all f [] = omega arith
length-update_all f ((k, v) ∷ m) = ground (arith, length-update_all f m)

module _ {K V : Type 0} ⦃key : Key K⦄ where
  length-delete-none : (m : GoMap K V) (k : K) → get m k ≡ none → length (delete m k) ≡ length m
  unfolding delete get
  length-delete-none [] k h = refl
  length-delete-none ((j, u) ∷ m) k h = ground (arith, length-delete-none m k)

  -- A put of a new key adds one entry, and no put on a map of unique keys removes one.
  pub length-put-none :
      (m : GoMap K V) (k : K) (v : V) → get m k ≡ none → length (put m k v) ≡ suc (length m)
  unfolding put
  length-put-none m k v h = ap suc (length-delete-none m k h)

  length-delete_unique : (m : GoMap K V) (k : K) → IsUnique m → length m ≤ suc (length (delete m k))
  unfolding delete
  length-delete_unique [] k u = omega arith
  length-delete_unique ((j, v) ∷ m) k u =
      elim (key.same? j k)
        as (λ d. suc (length m) ≤ suc (length (ite d (delete m k) ((j, v) ∷ delete m k)))) [
          | yes p ↦ omega (arith, length-delete-none m k (subst (λ x. get m x ≡ none) p u.0))
          | no n ↦ omega (arith, length-delete_unique m k u.1)
        ]

  pub length-put_unique :
      (m : GoMap K V) (k : K) (v : V) → IsUnique m → length m ≤ length (put m k v)
  unfolding put
  length-put_unique m k v u = length-delete_unique m k u
