-- ===== src/Placement/SnapshotValid.antt =====
-- The snapshots of a store pass the validation of the scorer.
use mathlib.Core.Path.{subst}
use mlx_swarm.Base.{
  ℕ, ◌+◌, ◌-◌, ◌/◌, ◌^◌, ◌≤◌, ◌≡◌, ◌≢◌, refl, Bool, true, false, List, [], ◌∷◌, none, length, arith,
  ltb, ◌==◌, All, if◌then◌else◌,
}
use mlx_swarm.Base.Int.{pos}
use mlx_swarm.Base.GoMap.{GoMap, update_all-IsUnique}
use mlx_swarm.Base.Results.{Result, ok, err, ok-injective}
use mlx_swarm.Base.Series.{AllEntries, length-sort_by}
use mlx_swarm.Placement.Types.{LinkKey, ComputeKey, ProfileSnapshot}
use mlx_swarm.Placement.Profiles.{
  link_fault, compute_fault, link_key_key, compute_key_key, profiles_fault,
  validate_profile_snapshot,
}
use mlx_swarm.Placement.Samples.{
  LinkSample, ComputeSample, link_sample, compute_sample, fresh, is_less,
}
use mlx_swarm.Placement.Observe.{no_snapshot_time, rewind}
use mlx_swarm.Placement.Store.{ProfileStore, keep_series, prune_expired, series_count}
use mlx_swarm.Placement.Normalized.{LinkNamed, LinkMeasured, ComputeNamed, ComputeMeasured}
use mlx_swarm.Placement.Snapshot.{
  summarize_link, summarize_compute, summaries, compare_link_profiles, compare_compute_profiles,
  snapshot_of, snapshot,
}
use mlx_swarm.Placement.WellFormed.{IsWellFormed, prune_expired-IsWellFormed}
use mlx_swarm.Placement.StoreHistory.{Reached, Reached-IsWellFormed}
use mlx_swarm.Placement.FreshSeries.{fresh-All, length-fresh, length-summaries}
use mlx_swarm.Placement.Summarized.{Rated, link_fault-none, compute_fault-none}
use mlx_swarm.Placement.Current.{IsCurrent, pruned-IsCurrent, latest-not_stale, profiles-none}

summarize_link-keyed : (k : LinkKey) (xs : List LinkSample) → (summarize_link k xs).key ≡ k
unfolding summarize_link
summarize_link-keyed k xs = refl

summarize_compute-keyed :
    (k : ComputeKey) (xs : List ComputeSample) → (summarize_compute k xs).key ≡ k
unfolding summarize_compute
summarize_compute-keyed k xs = refl

abbrev Anything : {A : Type 0} → A → Type 0
Anything x = Unit

any_values : {S : Type 0} (xs : List S) → All Anything xs
any_values [] = tt
any_values (x ∷ xs) = (tt, any_values xs)

any_entries : {K S : Type 0} (m : GoMap K (List S)) → AllEntries (λ k xs. All Anything xs) m
any_entries [] = tt
any_entries (e ∷ m) = (any_values e.1, any_entries m)

-- The metadata of a snapshot whose profiles have no fault.
metadata-none :
    (p : ProfileSnapshot) (max_age limit series : ℕ)
    → p.max_age_millis ≡ pos (max_age / 1000000)
    → p.max_samples_per_series ≡ pos limit
    → p.max_series ≡ pos series
    → p.generated_at ≢ 0
    → (1000000 ≤ max_age) × (max_age ≤ 2 ^ 63 - 1)
    → 1 ≤ limit
    → 1 ≤ series
    → length p.links + length p.compute ≤ series
    → profiles_fault (link_fault p) (λ l. l.key) [] p.links ≡ none
    → profiles_fault (compute_fault p) (λ c. c.key) [] p.compute ≡ none
    → validate_profile_snapshot p ≡ none
unfolding validate_profile_snapshot
metadata-none p max_age limit series a b c some_time aged some_samples some_series bounded l m =
    let millis : (1 ≤ max_age / 1000000) × (max_age / 1000000 ≤ 9223372036854) =
      (omega (arith, aged.0), omega (arith, aged.1)) in
    rw l (rw m (rw a (rw b (rw c (ground (arith, millis.0, millis.1))))))

module _ (s : ProfileStore) (at : ℕ) (w : IsWellFormed s) where
  links-none :
      AllEntries (λ k xs. All Rated xs) s.links
      → profiles_fault
          (link_fault (snapshot_of (prune_expired s at) at))
          (λ l. l.key)
          []
          (snapshot_of (prune_expired s at) at).links
        ≡ none
  unfolding snapshot_of prune_expired
  links-none rated =
      let p = snapshot_of (prune_expired s at) at in
      let limit = s.max_samples_per_series in
      profiles-none (λ l. l.key) summarize_link summarize_link-keyed
        (λ a b. is_less (compare_link_profiles a b))
        (IsCurrent LinkNamed LinkMeasured Rated limit s.max_age at) (link_fault p) at _
        (λ k xs seen c l u.
          link_fault-none p limit refl k (fresh at xs) seen c.named l
            (omega (arith, length-fresh at xs, c.limited)) (fresh-All LinkMeasured at xs c.valid)
            (fresh-All Rated at xs c.extra)
            (latest-not_stale p s.max_age xs w.whole refl l c.recent) u)
        (pruned-IsCurrent LinkNamed LinkMeasured Rated limit s.latest_accepted_at s.max_age at
          s.links w.links_valid rated)
        (update_all-IsUnique (keep_series s.max_age at) s.links w.links_valid.unique)

  compute-none :
      profiles_fault
        (compute_fault (snapshot_of (prune_expired s at) at))
        (λ c. c.key)
        []
        (snapshot_of (prune_expired s at) at).compute
      ≡ none
  unfolding snapshot_of prune_expired
  compute-none =
      let p = snapshot_of (prune_expired s at) at in
      let limit = s.max_samples_per_series in
      profiles-none (λ c. c.key) summarize_compute summarize_compute-keyed
        (λ a b. is_less (compare_compute_profiles a b))
        (IsCurrent ComputeNamed ComputeMeasured Anything limit s.max_age at) (compute_fault p) at _
        (λ k xs seen c l u.
          compute_fault-none p limit refl k (fresh at xs) seen c.named l
            (omega (arith, length-fresh at xs, c.limited)) (fresh-All ComputeMeasured at xs c.valid)
            (latest-not_stale p s.max_age xs w.whole refl l c.recent) u)
        (pruned-IsCurrent ComputeNamed ComputeMeasured Anything limit s.latest_accepted_at s.max_age
          at s.compute w.compute_valid (any_entries s.compute))
        (update_all-IsUnique (keep_series s.max_age at) s.compute w.compute_valid.unique)

  profiles-bounded :
      length (snapshot_of (prune_expired s at) at).links
        + length (snapshot_of (prune_expired s at) at).compute
      ≤ s.max_series
  unfolding snapshot_of prune_expired series_count
  profiles-bounded =
      let pruned = prune_expired s at in
      omega (
        arith,
        (prune_expired-IsWellFormed s at w).bounded,
        length-sort_by (λ a b. is_less (compare_link_profiles a b))
            (summaries summarize_link at pruned.links),
        length-sort_by (λ a b. is_less (compare_compute_profiles a b))
            (summaries summarize_compute at pruned.compute),
        length-summaries (λ l. l.key) summarize_link summarize_link-keyed at pruned.links,
        length-summaries (λ c. c.key) summarize_compute summarize_compute-keyed at pruned.compute,
      )

  snapshot_of-validates :
      at ≢ 0
      → s.max_age ≤ 2 ^ 63 - 1
      → AllEntries (λ k xs. All Rated xs) s.links
      → validate_profile_snapshot (snapshot_of (prune_expired s at) at) ≡ none
  unfolding snapshot_of prune_expired
  snapshot_of-validates some_time aged rated =
      metadata-none (snapshot_of (prune_expired s at) at) s.max_age s.max_samples_per_series
        s.max_series refl refl refl some_time (w.aged, aged) w.some_samples w.some_series
        profiles-bounded (links-none rated) compute-none

-- An answer after two guards.
answered :
    {E A S : Type 0} (x y : E) (z p : A) (s t u : S) (a b : Bool)
    → (let r : Result E A × S = if a then (err x, s) else if b then (err y, t) else (ok z, u) in
        r.0 ≡ ok p)
    → (a ≡ false) × (z ≡ p)
answered x y z p s t u true b h = absurd (cc h)
answered x y z p s t u false true h = absurd (cc h)
answered x y z p s t u false false h = (refl, ok-injective h)

-- For every store that observations and snapshots reach, if its maximum age is a duration of 64 bits
-- and every sample of a link moved at least one byte per second or has no payload, then every
-- snapshot that the store returns passes the validation of the scorer.
pub snapshot-validates :
    (s : ProfileStore) (at : ℕ) (p : ProfileSnapshot)
    → Reached s
    → s.max_age ≤ 2 ^ 63 - 1
    → AllEntries (λ k xs. All Rated xs) s.links
    → (snapshot s at).0 ≡ ok p
    → validate_profile_snapshot p ≡ none
unfolding snapshot
snapshot-validates s at p r aged rated h =
    let taken =
      answered no_snapshot_time rewind _ p s s (prune_expired s at) (at == 0)
        (ltb at s.latest_accepted_at) h in
    subst (λ q. validate_profile_snapshot q ≡ none) taken.1
      (snapshot_of-validates s at (Reached-IsWellFormed s r) (ground (arith, taken.0)) aged rated)
