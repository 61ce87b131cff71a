-- ===== src/Placement/Summaries.antt =====
-- The summary of a series is a consistent distribution.
use mlx_swarm.Base.{
  ℕ, zero, suc, ◌+◌, ◌-◌, ◌*◌, ◌/◌, ◌≤◌, ◌<◌, ◌≡◌, refl, Bool, List, [], ◌∷◌, none, length,
  get_elem?, arith, ltb, All, Bool-cases, inl, inr, insert_by, sort_by, if◌then◌else◌,
}
use mlx_swarm.Base.Int.{pos}
use mlx_swarm.Base.GoMap.{or_zero}
use mlx_swarm.Base.Series.{All-sort_by, length-sort_by, All-insert_by, All-map}
use mlx_swarm.Placement.Profiles.{validate_distribution}
use mlx_swarm.Placement.Samples.{nearest_rank, summarize_sorted, summarize_values}

abbrev pub IsOrdered : List ℕ → Type 0
IsOrdered [] = Unit
IsOrdered (x ∷ xs) = All (λ y. x ≤ y) xs × IsOrdered xs

insert_by-IsOrdered : (x : ℕ) (xs : List ℕ) → IsOrdered xs → IsOrdered (insert_by ltb x xs)
insert_by-IsOrdered x [] o = (tt, tt)
insert_by-IsOrdered x (y ∷ ys) o = elim (Bool-cases (ltb y x)) [
  | inl e ↦
      rw e (All-insert_by (λ z. y ≤ z) ltb x ys (ground arith) o.0, insert_by-IsOrdered x ys o.1)
  | inr e ↦
      let l : x ≤ y = ground arith in
      rw e ((l, All-map (λ z. y ≤ z) (λ z. x ≤ z) (λ z h. omega arith) ys o.0), o)
]

pub sort_by-IsOrdered : (xs : List ℕ) → IsOrdered (sort_by ltb xs)
sort_by-IsOrdered [] = tt
sort_by-IsOrdered (x ∷ xs) = insert_by-IsOrdered x (sort_by ltb xs) (sort_by-IsOrdered xs)

abbrev pub nth : List ℕ → ℕ → ℕ
nth xs i = or_zero (get_elem? xs i) 0

pub nth-All : (P : ℕ → Type 0) (xs : List ℕ) (i : ℕ) → All P xs → i < length xs → P (nth xs i)
nth-All P [] i a h = absurd (omega arith)
nth-All P (x ∷ xs) zero a h = a.0
nth-All P (x ∷ xs) (suc i) a h = nth-All P xs i a.1 (omega arith)

pub nth-IsOrdered :
    (xs : List ℕ) (i j : ℕ) → IsOrdered xs → i ≤ j → j < length xs → nth xs i ≤ nth xs j
nth-IsOrdered [] i j o h l = absurd (omega arith)
nth-IsOrdered (x ∷ xs) zero zero o h l = omega arith
nth-IsOrdered (x ∷ xs) zero (suc j) o h l = nth-All (λ y. x ≤ y) xs j o.0 (omega arith)
nth-IsOrdered (x ∷ xs) (suc i) zero o h l = absurd (omega arith)
nth-IsOrdered (x ∷ xs) (suc i) (suc j) o h l = nth-IsOrdered xs i j o.1 (omega arith) (omega arith)

-- The rank of a percentile is within the list, and greater for a greater percentile.
unfoldable pub rank : ℕ → ℕ → ℕ
rank percentile n =
    (if ltb ((percentile * n + 99) / 100) 1 then 1 else (percentile * n + 99) / 100) - 1

pub nearest_rank-nth : (xs : List ℕ) (p : ℕ) → nearest_rank xs p ≡ nth xs (rank p (length xs))
unfolding nearest_rank rank
nearest_rank-nth xs p = refl

pub rank_order : (n : ℕ) → 1 ≤ n → (rank 50 n ≤ rank 95 n) × (rank 95 n ≤ n - 1) × (rank 50 n < n)
unfolding rank
rank_order n h = ground arith

-- The summary of positive values, no more than the limit, passes the validation.
pub summarize_values-validates :
    (xs : List ℕ) (limit : ℕ) (allow_empty : Bool)
    → 1 ≤ length xs
    → length xs ≤ limit
    → All (λ x. 1 ≤ x) xs
    → validate_distribution (summarize_values xs) allow_empty (pos limit) ≡ none
unfolding validate_distribution summarize_values summarize_sorted
summarize_values-validates xs limit allow_empty some_value bounded positive =
    let sorted = sort_by ltb xs in
    let n = length-sort_by ltb xs in
    let o = sort_by-IsOrdered xs in
    let r = rank_order (length sorted) (omega (arith, n)) in
    let least =
      nth-All (λ x. 1 ≤ x) sorted 0 (All-sort_by (λ x. 1 ≤ x) ltb xs positive) (omega (arith, n)) in
    let a = nth-IsOrdered sorted 0 (rank 50 (length sorted)) o (omega arith) r.2 in
    let b =
      nth-IsOrdered sorted (rank 50 (length sorted)) (rank 95 (length sorted)) o r.0
        (omega (arith, n)) in
    let c =
      nth-IsOrdered sorted (rank 95 (length sorted)) (length sorted - 1) o r.1 (omega (arith, n)) in
    rw (nearest_rank-nth sorted 50) (rw (nearest_rank-nth sorted 95) (ground (arith, n)))
