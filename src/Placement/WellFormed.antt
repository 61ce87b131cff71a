-- ===== src/Placement/WellFormed.antt =====
-- The invariant of the profile store, and that every operation keeps it.

use mlx_swarm.Base.{
  ℕ, suc, ◌+◌, ◌%◌, ◌≤◌, ◌≡◌, ◌≢◌, refl, sym, ap, Bool, true, ◌&&◌, Option, some, length, arith,
  leb, ltb, ◌==◌, Option-cases, Bool-cases, inl, inr,
}
use mlx_swarm.Base.Word.{u64_max}
use mlx_swarm.Base.GoMap.{get}
use mlx_swarm.Base.Series.{length-update_all}
use mlx_swarm.Base.Results.{Result, ok, err, refuse_if, >>=-ok, refuse_if-ok, ok-injective}
use mlx_swarm.Placement.Profiles.{link_key_key, compute_key_key}
use mlx_swarm.Placement.Samples.{link_sample, compute_sample}
use mlx_swarm.Placement.Observe.{
  LinkObservation, ProfileError, no_acceptance_time, in_the_future, already_stale,
  normalize_link_observation,
}
use mlx_swarm.Placement.Normalized.{
  LinkNamed, LinkMeasured, ComputeNamed, ComputeMeasured, normalize_link_observation-ok,
}
use mlx_swarm.Placement.Store.{
  ProfileStore, series_count, latest, validate_observation_time, keep_series, prune_expired,
  add_sample, is_missing, bumped, record_link, observe_link, or_stop,
}
use mlx_swarm.Placement.SeriesMaps.{
  SeriesMap, later-SeriesMap, prune-SeriesMap, add_sample-SeriesMap, length-add_sample,
  length-add_sample-some,
}

-- The store's bounds are positive, its maximum age is whole milliseconds, every series of it is
-- valid, held to the limit and not after the latest accepted time, and it has no more series than
-- its limit.
pub record IsWellFormed (s : ProfileStore) : Type 0 where
  pub some_samples : 1 ≤ s.max_samples_per_series
  pub some_series : 1 ≤ s.max_series
  pub aged : 1000000 ≤ s.max_age
  pub whole : s.max_age % 1000000 ≡ 0
  pub links_valid :
      SeriesMap LinkNamed LinkMeasured s.max_samples_per_series s.latest_accepted_at s.links
  pub compute_valid :
      SeriesMap ComputeNamed ComputeMeasured s.max_samples_per_series s.latest_accepted_at s.compute
  pub bounded : series_count s ≤ s.max_series
  pub counted : s.revision ≤ u64_max

pub prune_expired-IsWellFormed :
    (s : ProfileStore) (at : ℕ) → IsWellFormed s → IsWellFormed (prune_expired s at)
unfolding prune_expired series_count
prune_expired-IsWellFormed s at w = record {
  some_samples = w.some_samples;
  some_series = w.some_series;
  aged = w.aged;
  whole = w.whole;
  links_valid = prune-SeriesMap LinkNamed LinkMeasured _ _ s.max_age at s.links w.links_valid;
  compute_valid =
      prune-SeriesMap ComputeNamed ComputeMeasured _ _ s.max_age at s.compute w.compute_valid;
  bounded = omega (
    arith,
    w.bounded,
    length-update_all (keep_series s.max_age at) s.links,
    length-update_all (keep_series s.max_age at) s.compute,
  );
  counted = w.counted;
}

pub latest-ge : (a b : ℕ) → (a ≤ latest a b) × (b ≤ latest a b)
latest-ge a b = ground arith

added_link-bounded :
    (s : ProfileStore) (o : LinkObservation)
    → series_count s ≤ s.max_series
    → (is_missing (get s.links o.key) ≡ true → suc (series_count s) ≤ s.max_series)
    → length (add_sample s.links s.max_samples_per_series o.key o.sample) + length s.compute
      ≤ s.max_series
unfolding series_count
added_link-bounded s o b room =
    let limit = s.max_samples_per_series in
    elim (Option-cases (get s.links o.key)) [
      | inl e ↦
          omega (arith, length-add_sample s.links limit o.key o.sample, room (ap is_missing e))
      | inr e ↦ omega (arith, length-add_sample-some s.links limit o.key o.sample e.0 e.1)
    ]

-- A sample that is added at a later time, within the limits.
accept_link-IsWellFormed :
    (s : ProfileStore) (at : ℕ) (o : LinkObservation)
    → IsWellFormed s
    → LinkNamed o.key
    → LinkMeasured o.sample
    → o.observed_at ≤ at
    → (is_missing (get s.links o.key) ≡ true → suc (series_count s) ≤ s.max_series)
    → suc s.revision ≤ u64_max
    → IsWellFormed (
        bumped (record s { links = add_sample s.links s.max_samples_per_series o.key o.sample }) at)
unfolding series_count
accept_link-IsWellFormed s at o w n v p room count =
    let now = latest s.latest_accepted_at at in
    let l = latest-ge s.latest_accepted_at at in
    record {
      some_samples = w.some_samples;
      some_series = w.some_series;
      aged = w.aged;
      whole = w.whole;
      links_valid =
          add_sample-SeriesMap LinkNamed LinkMeasured s.max_samples_per_series now s.links o.key
            o.sample w.some_samples
            (later-SeriesMap LinkNamed LinkMeasured _ _ now s.links l.0 w.links_valid) n v
            (omega arith);
      compute_valid =
          later-SeriesMap ComputeNamed ComputeMeasured _ _ now s.compute l.0 w.compute_valid;
      bounded = added_link-bounded s o w.bounded room;
      counted = omega arith;
    }

-- The end of a link's observation.
record_link-IsWellFormed :
    (s : ProfileStore) (at : ℕ) (o : LinkObservation)
    → IsWellFormed s
    → LinkNamed o.key
    → LinkMeasured o.sample
    → o.observed_at ≤ at
    → IsWellFormed (record_link s at o).1
unfolding record_link
record_link-IsWellFormed s at o w n v p =
    elim (Bool-cases (is_missing (get s.links o.key) && leb s.max_series (series_count s))) [
      | inl e ↦ rw e w
      | inr e ↦ elim (Bool-cases (s.revision == u64_max)) [
        | inl f ↦ rw e (rw f w)
        | inr f ↦
            rw e (rw f (accept_link-IsWellFormed s at o w n v p (ground arith) (ground arith)))
      ]
    ]

pub validate_observation_time-ok :
    (s : ProfileStore) (at observed reference : ℕ)
    → validate_observation_time s at observed ≡ ok reference
    → (at ≢ 0)
      × (observed ≤ at)
      × (latest at s.latest_accepted_at ≤ observed + s.max_age)
      × (reference ≡ latest at s.latest_accepted_at)
unfolding validate_observation_time
validate_observation_time-ok s at observed reference h =
    let a = >>=-ok (refuse_if (at == 0) no_acceptance_time) _ h in
    let b = >>=-ok (refuse_if (ltb at observed) in_the_future) _ a.2 in
    let old : Bool = ltb (observed + s.max_age) (latest at s.latest_accepted_at) in
    let c = >>=-ok (refuse_if old already_stale) _ b.2 in
    (
      ground (arith, refuse_if-ok (at == 0) no_acceptance_time a.1),
      ground (arith, refuse_if-ok (ltb at observed) in_the_future b.1),
      ground (arith, refuse_if-ok old already_stale c.1),
      sym (ok-injective c.2),
    )

-- A property of what a step that may stop leaves.
pub or_stop-branches :
    {A : Type 0} (P : Option ProfileError × ProfileStore → Type 0) (r : Result ProfileError A)
    (s : ProfileStore) (next : A → Option ProfileError × ProfileStore)
    → ((e : ProfileError) → P (some e, s))
    → ((a : A) → r ≡ ok a → P (next a))
    → P (or_stop r s next)
or_stop-branches P (err e) s next stop go = stop e
or_stop-branches P (ok a) s next stop go = go a refl

pub observe_link-IsWellFormed :
    (s : ProfileStore) (at : ℕ) (o : LinkObservation)
    → IsWellFormed s
    → IsWellFormed (observe_link s at o).1
unfolding observe_link
observe_link-IsWellFormed s at given w =
    or_stop-branches (λ r. IsWellFormed r.1) (normalize_link_observation given) s _ (λ e. w)
      λ o h.
        or_stop-branches (λ r. IsWellFormed r.1) (validate_observation_time s at o.observed_at) s _
          (λ e. w)
          λ reference g.
            let n = normalize_link_observation-ok given o h in
            let t = validate_observation_time-ok s at o.observed_at reference g in
            record_link-IsWellFormed (prune_expired s reference) at o
              (prune_expired-IsWellFormed s reference w) n.0 n.1 t.1
