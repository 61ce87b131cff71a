-- ===== src/Placement/Current.antt =====
-- The series of a pruned store: what each holds, and the profiles of all of them.
use mathlib.Core.Path.{subst}
use mlx_swarm.Base.{
  ℕ, ◌+◌, ◌/◌, ◌%◌, ◌≤◌, ◌≡◌, refl, Bool, false, List, [], ◌∷◌, Option, none, some, length, arith,
  All, sort_by,
}
use mlx_swarm.Base.Int.{pos}
use mlx_swarm.Base.GoMap.{Key, GoMap, update_all, IsUnique}
use mlx_swarm.Base.Series.{AllEntries, All-sort_by, update_all-AllEntries}
use mlx_swarm.Placement.Types.{ProfileSnapshot}
use mlx_swarm.Placement.Profiles.{
  ProfileFault, is_stale, series_seen, link_key_key, compute_key_key, profiles_fault,
}
use mlx_swarm.Placement.Samples.{Sample, link_sample, compute_sample, latest_from, fresh, retained}
use mlx_swarm.Placement.Kept.{IsSeries, keep_series-IsSeries, unless_empty-some, retained-All}
use mlx_swarm.Placement.SeriesMaps.{SeriesMap}
use mlx_swarm.Placement.Store.{keep_series}
use mlx_swarm.Placement.Snapshot.{first_time, summaries}
use mlx_swarm.Placement.FreshSeries.{
  fresh-All, fresh-past, retained-recent, latest_from-All, sort_by-Apart, profiles_fault-none,
  summaries-All, summaries-Apart,
}

All-both :
    {A : Type 0} (P Q : A → Type 0) (xs : List A) → All P xs → All Q xs → All (λ x. P x × Q x) xs
All-both P Q [] a b = tt
All-both P Q (x ∷ xs) a b = ((a.0, b.0), All-both P Q xs a.1 b.1)

module _ {K S : Type 0} ⦃key : Key K⦄ ⦃sample : Sample S⦄ (N : K → Type 0) (V E : S → Type 0) where
  -- A series of a pruned store: every sample is within the maximum age, and has the property.
  pub record IsCurrent (limit max_age at : ℕ) (k : K) (xs : List S) : Type 0 where
    pub named : N k
    pub limited : length xs ≤ limit
    pub valid : All V xs
    pub extra : All E xs
    pub recent : All (λ s. at ≤ sample.observed s + max_age) xs

  kept-IsCurrent :
      (limit latest max_age at : ℕ) (k : K) (xs ys : List S)
      → (N k × IsSeries V limit latest xs) × All E xs
      → keep_series max_age at k xs ≡ some ys
      → IsCurrent limit max_age at k ys
  kept-IsCurrent limit latest max_age at k xs ys p h =
      let e = unless_empty-some (retained max_age at xs) ys h in
      let s = keep_series-IsSeries V limit latest max_age at k xs ys p.0.1 h in
      record {
        named = p.0.0;
        limited = s.limited;
        valid = s.valid;
        extra = subst (All E) e.0 (retained-All E max_age at xs p.1);
        recent =
            subst (All (λ s. at ≤ sample.observed s + max_age)) e.0 (retained-recent max_age at xs);
      }

  pub pruned-IsCurrent :
      (limit latest max_age at : ℕ) (m : GoMap K (List S))
      → SeriesMap N V limit latest m
      → AllEntries (λ k xs. All E xs) m
      → AllEntries (IsCurrent limit max_age at) (update_all (keep_series max_age at) m)
  pruned-IsCurrent limit latest max_age at m s extra =
      update_all-AllEntries (keep_series max_age at)
        (λ k xs. (N k × IsSeries V limit latest xs) × All E xs) (IsCurrent limit max_age at) m
        (kept-IsCurrent limit latest max_age at) (All-both _ _ m s.entries extra)

not_stale :
    (p : ProfileSnapshot) (max_age at : ℕ)
    → max_age % 1000000 ≡ 0
    → p.max_age_millis ≡ pos (max_age / 1000000)
    → (p.generated_at ≤ at + max_age) × (at ≤ p.generated_at)
    → is_stale p at ≡ false
not_stale p max_age at whole aged h = rw aged (ground (arith, h.0, h.1))

module _ {S : Type 0} ⦃sample : Sample S⦄ where
  first_time-All :
      (P : ℕ → Type 0) (xs : List S)
      → 1 ≤ length xs
      → All (λ s. P (sample.observed s)) xs
      → P (first_time xs)
  first_time-All P [] l a = absurd (omega arith)
  first_time-All P (x ∷ xs) l a = a.0

  -- The latest time of the fresh part of a current series is not stale.
  pub latest-not_stale :
      (p : ProfileSnapshot) (max_age : ℕ) (xs : List S)
      → max_age % 1000000 ≡ 0
      → p.max_age_millis ≡ pos (max_age / 1000000)
      → 1 ≤ length (fresh p.generated_at xs)
      → All (λ s. p.generated_at ≤ sample.observed s + max_age) xs
      → is_stale p (latest_from (first_time (fresh p.generated_at xs)) (fresh p.generated_at xs))
        ≡ false
  latest-not_stale p max_age xs whole aged some_left recent =
      let P : ℕ → Type 0 = λ t. (p.generated_at ≤ t + max_age) × (t ≤ p.generated_at) in
      let ys = fresh p.generated_at xs in
      let R : S → Type 0 = λ s. p.generated_at ≤ sample.observed s + max_age in
      let a =
        All-both R (λ s. sample.observed s ≤ p.generated_at) ys
          (fresh-All R p.generated_at xs recent) (fresh-past p.generated_at xs) in
      not_stale p max_age _ whole aged
        (latest_from-All P (first_time ys) ys (first_time-All P ys some_left a) a)

none_seen :
    {K P : Type 0} ⦃key : Key K⦄ (key_of : P → K) (ps : List P)
    → All (λ p. series_seen (key_of p) [] ≡ false) ps
none_seen key_of [] = tt
none_seen key_of (p ∷ ps) = (refl, none_seen key_of ps)

-- The profiles of a map whose series have no fault have none together.
module _ {K S P : Type 0} ⦃key : Key K⦄ ⦃sample : Sample S⦄ (key_of : P → K)
    (summarize : K → List S → P) (keyed : (k : K) (xs : List S) → key_of (summarize k xs) ≡ k)
    (before : P → P → Bool) where
  pub profiles-none :
      (Q : K → List S → Type 0) (fault : List K → P → Option ProfileFault) (at : ℕ)
      (m : GoMap K (List S))
      → ((k : K) (xs : List S) (seen : List K)
          → Q k xs
          → 1 ≤ length (fresh at xs)
          → series_seen k seen ≡ false
          → fault seen (summarize k (fresh at xs)) ≡ none)
      → AllEntries Q m
      → IsUnique m
      → profiles_fault fault key_of [] (sort_by before (summaries summarize at m)) ≡ none
  profiles-none Q fault at m g q u =
      let V : P → Type 0 =
        λ p. (seen : List K) → series_seen (key_of p) seen ≡ false → fault seen p ≡ none in
      let ps = summaries summarize at m in
      profiles_fault-none key_of fault V [] (sort_by before ps) (λ p seen v w. v seen w)
        (All-sort_by V before ps (
          summaries-All key_of summarize keyed at Q V m
            (λ k xs c l seen w.
              g k xs seen c l (subst (λ j. series_seen j seen ≡ false) (keyed k (fresh at xs)) w))
            q))
        (sort_by-Apart key_of before ps (summaries-Apart key_of summarize keyed at m u))
        (none_seen key_of (sort_by before ps))
