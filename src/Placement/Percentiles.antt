-- ===== src/Placement/Percentiles.antt =====
-- What the numbers of a summary say of the values that it summarizes.
use native.Mathlib.Nat.{mul-le-mul_right}
use mlx_swarm.Base.{
  ℕ, zero, suc, ◌+◌, ◌-◌, ◌*◌, ◌≤◌, ◌<◌, ◌≡◌, refl, ap, Bool, List, [], ◌∷◌, length, arith, ltb,
  leb, All, Bool-cases, inl, inr, insert_by, sort_by, if◌then◌else◌, Member, sort_by-Member,
}
use mlx_swarm.Base.Int.{pos}
use mlx_swarm.Base.Series.{length-sort_by}
use mlx_swarm.Placement.Types.{ValueDistribution}
use mlx_swarm.Placement.Samples.{nearest_rank, summarize_sorted, summarize_values}
use mlx_swarm.Placement.Summaries.{
  IsOrdered, sort_by-IsOrdered, nth, nth-All, rank, nearest_rank-nth,
}

-- How many of some values pass a test.
abbrev pub count_if : (ℕ → Bool) → List ℕ → ℕ
count_if test [] = 0
count_if test (x ∷ xs) = (if test x then 1 else 0) + count_if test xs

count_if-insert_by :
    (test : ℕ → Bool) (x : ℕ) (xs : List ℕ)
    → count_if test (insert_by ltb x xs) ≡ count_if test (x ∷ xs)
count_if-insert_by test x [] = refl
count_if-insert_by test x (y ∷ ys) = ground (arith, count_if-insert_by test x ys)

count_if-sort_by :
    (test : ℕ → Bool) (xs : List ℕ) → count_if test (sort_by ltb xs) ≡ count_if test xs
count_if-sort_by test [] = refl
count_if-sort_by test (x ∷ xs) =
    omega (arith, count_if-insert_by test x (sort_by ltb xs), count_if-sort_by test xs)

-- At position `i` of ascending values, more than `i` values are no greater, and no more than `i` are
-- less.
above_none : (v : ℕ) (xs : List ℕ) → All (λ y. v ≤ y) xs → count_if (λ x. ltb x v) xs ≡ 0
above_none v [] a = refl
above_none v (x ∷ xs) a = ground (arith, above_none v xs a.1)

count-nth :
    (xs : List ℕ) (i : ℕ)
    → IsOrdered xs
    → i < length xs
    → (suc i ≤ count_if (λ x. leb x (nth xs i)) xs) × (count_if (λ x. ltb x (nth xs i)) xs ≤ i)
count-nth [] i o h = absurd (omega arith)
count-nth (x ∷ xs) zero o h = (ground arith, ground (arith, above_none x xs o.0))
count-nth (x ∷ xs) (suc i) o h =
    let rest = count-nth xs i o.1 (omega arith) in
    let least : x ≤ nth xs i = nth-All (λ y. x ≤ y) xs i o.0 (omega arith) in
    (ground (arith, rest.0), ground (arith, rest.1))

nth-Member : (xs : List ℕ) (i : ℕ) → i < length xs → Member (nth xs i) xs
nth-Member [] i h = absurd (omega arith)
nth-Member (x ∷ xs) zero h = inl refl
nth-Member (x ∷ xs) (suc i) h = inr (nth-Member xs i (omega arith))

-- A value such that at least `p` per cent of the values are no greater, and fewer than `p` per cent
-- are less.
pub record IsPercentile (p : ℕ) (xs : List ℕ) (v : ℕ) : Type 0 where
  pub value : Member v xs
  pub enough : p * length xs ≤ 100 * count_if (λ x. leb x v) xs
  pub fewer : 100 * count_if (λ x. ltb x v) xs < p * length xs

rank_exact :
    (p n : ℕ)
    → 1 ≤ p
    → p ≤ 100
    → 1 ≤ n
    → (p * n ≤ 100 * suc (rank p n)) × (100 * rank p n < p * n) × (rank p n < n)
unfolding rank
rank_exact p n some_percent percent h =
    ground (arith, mul-le-mul_right n some_percent, mul-le-mul_right n percent)

nearest_rank-IsPercentile :
    (p : ℕ) (xs : List ℕ)
    → 1 ≤ p
    → p ≤ 100
    → 1 ≤ length xs
    → IsPercentile p xs (nearest_rank (sort_by ltb xs) p)
nearest_rank-IsPercentile p xs some_percent percent h =
    let sorted = sort_by ltb xs in
    let n = length-sort_by ltb xs in
    let i = rank p (length sorted) in
    let r = rank_exact p (length sorted) some_percent percent (omega (arith, n)) in
    let c = count-nth sorted i (sort_by-IsOrdered xs) r.2 in
    let v = nth sorted i in
    let all = ap (λ k. p * k) n in
    rw (nearest_rank-nth sorted p) (record {
      value = sort_by-Member ltb xs v (nth-Member sorted i r.2);
      enough = omega (arith, all, r.0, c.0, count_if-sort_by (λ x. leb x v) xs);
      fewer = omega (arith, all, r.1, c.1, count_if-sort_by (λ x. ltb x v) xs);
    })

-- What holds of a list that is sorted holds of its values.
All-uninserted :
    (P : ℕ → Type 0) (x : ℕ) (xs : List ℕ) → All P (insert_by ltb x xs) → P x × All P xs
All-uninserted P x [] a = a
All-uninserted P x (y ∷ ys) a = elim (Bool-cases (ltb y x)) [
  | inl e ↦
      let b : All P (y ∷ insert_by ltb x ys) = rw e at a in
      let rest = All-uninserted P x ys b.1 in (rest.0, (b.0, rest.1))
  | inr e ↦ rw e at a
]

All-unsorted : (P : ℕ → Type 0) (xs : List ℕ) → All P (sort_by ltb xs) → All P xs
All-unsorted P [] a = tt
All-unsorted P (x ∷ xs) a =
    let b = All-uninserted P x (sort_by ltb xs) a in (b.0, All-unsorted P xs b.1)

least_first : (xs : List ℕ) → IsOrdered xs → All (λ x. nth xs 0 ≤ x) xs
least_first [] o = tt
least_first (x ∷ xs) o = (omega arith, o.0)

greatest_last :
    (xs : List ℕ) (k : ℕ) → IsOrdered xs → length xs ≡ suc k → All (λ x. x ≤ nth xs k) xs
greatest_last [] k o h = tt
greatest_last (x ∷ []) zero o h = (omega arith, tt)
greatest_last (x ∷ y ∷ ys) zero o h = absurd (omega (arith, h))
greatest_last (x ∷ xs) (suc k) o h =
    (nth-All (λ z. x ≤ z) xs k o.0 (omega (arith, h)), greatest_last xs k o.1 (omega (arith, h)))

-- The count, the extremes and the two percentiles of some values.
pub record IsSummary (xs : List ℕ) (d : ValueDistribution) : Type 0 where
  pub counted : d.count ≡ pos (length xs)
  pub least : Member d.minimum xs × All (λ x. d.minimum ≤ x) xs
  pub median : IsPercentile 50 xs d.p50
  pub upper : IsPercentile 95 xs d.p95
  pub greatest : Member d.maximum xs × All (λ x. x ≤ d.maximum) xs

-- For every list of values that is not empty, the summary counts the values, its minimum and its
-- maximum are the least and the greatest of them, and its p50 and p95 are values such that at least
-- 50 and 95 per cent of the values are no greater, and fewer than 50 and 95 per cent are less.
pub summarize_values-IsSummary : (xs : List ℕ) → 1 ≤ length xs → IsSummary xs (summarize_values xs)
unfolding summarize_values summarize_sorted
summarize_values-IsSummary xs h =
    let sorted = sort_by ltb xs in
    let n = length-sort_by ltb xs in
    let o = sort_by-IsOrdered xs in
    record {
      counted = ap pos n;
      least = (
        sort_by-Member ltb xs (nth sorted 0) (nth-Member sorted 0 (omega (arith, n))),
        All-unsorted (λ x. nth sorted 0 ≤ x) xs (least_first sorted o),
      );
      median = nearest_rank-IsPercentile 50 xs (omega arith) (omega arith) h;
      upper = nearest_rank-IsPercentile 95 xs (omega arith) (omega arith) h;
      greatest = (
        sort_by-Member ltb xs (nth sorted (length sorted - 1))
            (nth-Member sorted (length sorted - 1) (omega (arith, n))),
        All-unsorted (λ x. x ≤ nth sorted (length sorted - 1)) xs
            (greatest_last sorted (length sorted - 1) o (omega (arith, n))),
      );
    }
