-- ===== src/Placement/Kept.antt =====
-- What every series of the store holds, and that the operations on a series keep it.
use mathlib.Core.Path.{subst}
use mlx_swarm.Base.{
  ℕ, zero, suc, ◌+◌, ◌-◌, ◌≤◌, ◌≡◌, ap, Bool, List, [], ◌∷◌, ◌++◌, some, length, arith, ltb, leb,
  dec_le, All, Bool-cases, inl, inr, sort_by, length-append,
}
use mlx_swarm.Base.Series.{All-append, All-sort_by, length-sort_by}
use mlx_swarm.Placement.Samples.{Sample, is_less, drop, retain_newest, retained, sort_samples}
use mlx_swarm.Placement.Store.{unless_empty, keep_series}

drop-All : {A : Type 0} (P : A → Type 0) (n : ℕ) (xs : List A) → All P xs → All P (drop n xs)
drop-All P zero xs a = a
drop-All P (suc n) [] a = tt
drop-All P (suc n) (x ∷ xs) a = drop-All P n xs a.1

length-drop :
    {A : Type 0} (n : ℕ) (xs : List A) → n ≤ length xs → length (drop n xs) + n ≡ length xs
length-drop zero xs h = omega arith
length-drop (suc n) [] h = absurd (omega arith)
length-drop (suc n) (x ∷ xs) h = omega (arith, length-drop n xs)

pub retain_newest-All :
    {S : Type 0} (P : S → Type 0) (xs : List S) (limit : ℕ)
    → All P xs
    → All P (retain_newest xs limit)
unfolding retain_newest
retain_newest-All P xs limit a = elim (Bool-cases (leb (length xs) limit)) [
  | inl e ↦ rw e a
  | inr e ↦ rw e (drop-All P (length xs - limit) xs a)
]

-- The newest samples are as many as there are, up to the limit.
pub length-retain_newest :
    {S : Type 0} (xs : List S) (limit : ℕ)
    → (length (retain_newest xs limit) ≤ limit)
      × (1 ≤ length xs → 1 ≤ limit → 1 ≤ length (retain_newest xs limit))
unfolding retain_newest
length-retain_newest xs limit = elim (dec_le (length xs) limit) [
  | yes h ↦ ground arith
  | no h ↦ let d = length-drop (length xs - limit) xs (omega arith) in ground arith
]

module _ {S : Type 0} ⦃sample : Sample S⦄ where
  -- A series of a key: it has samples, no more than the limit, all valid and none after the latest
  -- accepted time.
  pub record IsSeries (V : S → Type 0) (limit latest : ℕ) (xs : List S) : Type 0 where
    pub some_left : 1 ≤ length xs
    pub limited : length xs ≤ limit
    pub valid : All V xs
    pub past : All (λ s. sample.observed s ≤ latest) xs

  pub retained-All :
      (P : S → Type 0) (max_age at : ℕ) (xs : List S) → All P xs → All P (retained max_age at xs)
  unfolding retained
  retained-All P max_age at [] a = tt
  retained-All P max_age at (x ∷ xs) a = elim (Bool-cases (ltb (sample.observed x + max_age) at)) [
    | inl e ↦ rw e (retained-All P max_age at xs a.1)
    | inr e ↦ rw e (a.0, retained-All P max_age at xs a.1)
  ]

  length-retained : (max_age at : ℕ) (xs : List S) → length (retained max_age at xs) ≤ length xs
  unfolding retained
  length-retained max_age at [] = omega arith
  length-retained max_age at (x ∷ xs) = ground (arith, length-retained max_age at xs)

  pub unless_empty-some : (xs ys : List S) → unless_empty xs ≡ some ys → (xs ≡ ys) × (1 ≤ length ys)
  unless_empty-some [] ys h = absurd (cc h)
  unless_empty-some (x ∷ xs) ys h = ground arith

  -- Pruning keeps a series.
  pub keep_series-IsSeries :
      {K : Type 0} (V : S → Type 0) (limit latest max_age at : ℕ) (k : K) (xs ys : List S)
      → IsSeries V limit latest xs
      → keep_series max_age at k xs ≡ some ys
      → IsSeries V limit latest ys
  keep_series-IsSeries V limit latest max_age at k xs ys s h =
      let e = unless_empty-some (retained max_age at xs) ys h in
      record {
        some_left = e.1;
        limited = omega (arith, length-retained max_age at xs, ap length e.0, s.limited);
        valid = subst (All V) e.0 (retained-All V max_age at xs s.valid);
        past =
            subst (All (λ s. sample.observed s ≤ latest)) e.0
              (retained-All (λ s. sample.observed s ≤ latest) max_age at xs s.past);
      }

  -- A series with one more sample, sorted and held to the limit.
  pub insert_sample-IsSeries :
      (V : S → Type 0) (limit latest : ℕ) (xs : List S) (x : S)
      → 1 ≤ limit
      → All V xs
      → All (λ s. sample.observed s ≤ latest) xs
      → V x
      → sample.observed x ≤ latest
      → IsSeries V limit latest (retain_newest (sort_samples (xs ++ (x ∷ []))) limit)
  unfolding sort_samples
  insert_sample-IsSeries V limit latest xs x positive valid past v p =
      let before : S → S → Bool = λ a b. is_less (sample.order a b) in
      let sorted = sort_by before (xs ++ (x ∷ [])) in
      let l = length-retain_newest sorted limit in
      let n = length-sort_by before (xs ++ (x ∷ [])) in
      record {
        some_left = l.1 (omega (arith, n, length-append xs (x ∷ []))) positive;
        limited = l.0;
        valid =
            retain_newest-All V sorted limit
              (All-sort_by V before _ (All-append V xs (x ∷ []) valid (v, tt)));
        past =
            retain_newest-All (λ s. sample.observed s ≤ latest) sorted limit
              (All-sort_by (λ s. sample.observed s ≤ latest) before _
                (All-append (λ s. sample.observed s ≤ latest) xs (x ∷ []) past (p, tt)));
      }
