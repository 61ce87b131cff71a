-- ===== src/Placement/FreshSeries.antt =====
-- The fresh samples of a pruned series, and the distinct profiles of a map of series.
use mlx_swarm.Base.{
  ℕ, suc, ◌+◌, ◌≤◌, ◌≡◌, ◌≢◌, refl, sym, ◌∙◌, Bool, false, List, [], ◌∷◌, Option, none, length,
  arith, ltb, All, Bool-cases, inl, inr, insert_by, sort_by,
}
use mlx_swarm.Base.GoMap.{Key, GoMap, get, IsUnique}
use mlx_swarm.Base.Series.{AllEntries, All-map, All-insert_by, All-sort_by}
use mlx_swarm.Placement.Profiles.{ProfileFault, series_seen, profiles_fault}
use mlx_swarm.Placement.Samples.{Sample, retained, fresh, latest_from}
use mlx_swarm.Placement.Snapshot.{summary_onto, summaries}

module _ {S : Type 0} ⦃sample : Sample S⦄ where
  pub fresh-All : (P : S → Type 0) (at : ℕ) (xs : List S) → All P xs → All P (fresh at xs)
  unfolding fresh
  fresh-All P at [] a = tt
  fresh-All P at (x ∷ xs) a = elim (Bool-cases (ltb at (sample.observed x))) [
    | inl e ↦ rw e (fresh-All P at xs a.1)
    | inr e ↦ rw e (a.0, fresh-All P at xs a.1)
  ]

  pub fresh-past : (at : ℕ) (xs : List S) → All (λ s. sample.observed s ≤ at) (fresh at xs)
  unfolding fresh
  fresh-past at [] = tt
  fresh-past at (x ∷ xs) = elim (Bool-cases (ltb at (sample.observed x))) [
    | inl e ↦ rw e (fresh-past at xs)
    | inr e ↦ rw e (ground arith, fresh-past at xs)
  ]

  pub length-fresh : (at : ℕ) (xs : List S) → length (fresh at xs) ≤ length xs
  unfolding fresh
  length-fresh at [] = omega arith
  length-fresh at (x ∷ xs) = ground (arith, length-fresh at xs)

  -- What is retained is not before the cutoff.
  pub retained-recent :
      (max_age at : ℕ) (xs : List S)
      → All (λ s. at ≤ sample.observed s + max_age) (retained max_age at xs)
  unfolding retained
  retained-recent max_age at [] = tt
  retained-recent max_age at (x ∷ xs) = elim (Bool-cases (ltb (sample.observed x + max_age) at)) [
    | inl e ↦ rw e (retained-recent max_age at xs)
    | inr e ↦ rw e (ground arith, retained-recent max_age at xs)
  ]

  -- The latest time is that of a sample, or the one to begin with.
  pub latest_from-All :
      (P : ℕ → Type 0) (latest : ℕ) (xs : List S)
      → P latest
      → All (λ s. P (sample.observed s)) xs
      → P (latest_from latest xs)
  unfolding latest_from
  latest_from-All P latest [] p a = p
  latest_from-All P latest (x ∷ xs) p a = elim (Bool-cases (ltb latest (sample.observed x))) [
    | inl e ↦ rw e (latest_from-All P (sample.observed x) xs a.0 a.1)
    | inr e ↦ rw e (latest_from-All P latest xs p a.1)
  ]

module _ {K P : Type 0} ⦃key : Key K⦄ (key_of : P → K) where
  -- No two profiles have one key.
  abbrev pub Apart : List P → Type 0
  Apart [] = Unit
  Apart (p ∷ ps) = All (λ r. key_of p ≢ key_of r) ps × Apart ps

  insert_by-Apart :
      (before : P → P → Bool) (p : P) (ps : List P)
      → All (λ r. key_of p ≢ key_of r) ps
      → Apart ps
      → Apart (insert_by before p ps)
  insert_by-Apart before p [] a d = (tt, tt)
  insert_by-Apart before p (r ∷ rs) a d = elim (Bool-cases (before r p)) [
    | inl e ↦ rw e (
      All-insert_by (λ x. key_of r ≢ key_of x) before p rs (λ h. a.0 (sym h)) d.0,
      insert_by-Apart before p rs a.1 d.1,
    )
    | inr e ↦ rw e (a, d)
  ]

  pub sort_by-Apart : (before : P → P → Bool) (ps : List P) → Apart ps → Apart (sort_by before ps)
  sort_by-Apart before [] d = tt
  sort_by-Apart before (p ∷ ps) d =
      insert_by-Apart before p (sort_by before ps)
        (All-sort_by (λ r. key_of p ≢ key_of r) before ps d.0) (sort_by-Apart before ps d.1)

  unseen_next :
      (k : K) (seen : List K) (p : P)
      → k ≢ key_of p
      → series_seen (key_of p) seen ≡ false
      → series_seen (key_of p) (k ∷ seen) ≡ false
  unseen_next k seen p n h = ground arith

  -- Valid profiles that are apart have no fault.
  pub profiles_fault-none :
      (fault : List K → P → Option ProfileFault) (V : P → Type 0) (seen : List K) (ps : List P)
      → ((p : P) (seen : List K) → V p → series_seen (key_of p) seen ≡ false → fault seen p ≡ none)
      → All V ps
      → Apart ps
      → All (λ p. series_seen (key_of p) seen ≡ false) ps
      → profiles_fault fault key_of seen ps ≡ none
  unfolding profiles_fault
  profiles_fault-none fault V seen [] f v d s = refl
  profiles_fault-none fault V seen (p ∷ ps) f v d s =
      rw (f p seen v.0 s.0)
        (profiles_fault-none fault V (key_of p ∷ seen) ps f v.1 d.1 (both ps d.0 s.1))
    where
      both :
          (rs : List P)
          → All (λ r. key_of p ≢ key_of r) rs
          → All (λ r. series_seen (key_of r) seen ≡ false) rs
          → All (λ r. series_seen (key_of r) (key_of p ∷ seen) ≡ false) rs
      both [] a b = tt
      both (r ∷ rs) a b = (unseen_next (key_of p) seen r a.0 b.0, both rs a.1 b.1)

onto-All :
    {K S P : Type 0} (V : P → Type 0) (f : K → List S → P) (k : K) (xs : List S) (rest : List P)
    → (1 ≤ length xs → V (f k xs))
    → All V rest
    → All V (summary_onto f k xs rest)
onto-All V f k [] rest v a = a
onto-All V f k (x ∷ xs) rest v a = (v (omega arith), a)

module _ {K S P : Type 0} ⦃key : Key K⦄ ⦃sample : Sample S⦄ (key_of : P → K)
    (summarize : K → List S → P) (keyed : (k : K) (xs : List S) → key_of (summarize k xs) ≡ k)
    (at : ℕ) where
  length-onto :
      (k : K) (xs : List S) (rest : List P)
      → length (summary_onto summarize k xs rest) ≤ suc (length rest)
  length-onto k [] rest = omega arith
  length-onto k (x ∷ xs) rest = omega arith

  pub length-summaries : (m : GoMap K (List S)) → length (summaries summarize at m) ≤ length m
  unfolding summaries
  length-summaries [] = omega arith
  length-summaries ((k, xs) ∷ m) =
      omega (arith, length-onto k (fresh at xs) (summaries summarize at m), length-summaries m)

  pub summaries-All :
      (Q : K → List S → Type 0) (V : P → Type 0) (m : GoMap K (List S))
      → ((k : K) (xs : List S) → Q k xs → 1 ≤ length (fresh at xs) → V (summarize k (fresh at xs)))
      → AllEntries Q m
      → All V (summaries summarize at m)
  unfolding summaries
  summaries-All Q V [] f a = tt
  summaries-All Q V ((k, xs) ∷ m) f a =
      onto-All V summarize k (fresh at xs) (summaries summarize at m) (f k xs a.0)
        (summaries-All Q V m f a.1)

  summaries-other :
      (k : K) (m : GoMap K (List S))
      → get m k ≡ none
      → All (λ r. k ≢ key_of r) (summaries summarize at m)
  unfolding summaries get
  summaries-other k [] h = tt
  summaries-other k ((j, xs) ∷ m) h =
      let n : k ≢ j = ground arith in
      onto-All (λ r. k ≢ key_of r) summarize j (fresh at xs) (summaries summarize at m)
        (λ l e. n (e ∙ keyed j (fresh at xs))) (summaries-other k m (ground arith))

  onto-Apart :
      (k : K) (xs : List S) (rest : List P)
      → All (λ r. k ≢ key_of r) rest
      → Apart key_of rest
      → Apart key_of (summary_onto summarize k xs rest)
  onto-Apart k [] rest a d = d
  onto-Apart k (x ∷ xs) rest a d = (
    All-map (λ r. k ≢ key_of r) (λ r. key_of (summarize k (x ∷ xs)) ≢ key_of r)
        (λ r n e. n (sym (keyed k (x ∷ xs)) ∙ e)) rest a,
    d,
  )

  pub summaries-Apart :
      (m : GoMap K (List S)) → IsUnique m → Apart key_of (summaries summarize at m)
  unfolding summaries
  summaries-Apart [] u = tt
  summaries-Apart ((k, xs) ∷ m) u =
      onto-Apart k (fresh at xs) (summaries summarize at m) (summaries-other k m u.0)
        (summaries-Apart m u.1)
