-- ===== src/Placement/Batches.antt =====
-- A batch of compute observations keeps the invariant of the profile store.
use mathlib.Core.Path.{subst, ◌∙◌}
use mlx_swarm.Base.{
  ℕ, suc, ◌+◌, ◌≤◌, ◌≡◌, ◌≢◌, refl, List, [], ◌∷◌, map, Option, none, some, length, arith, All, ltb,
  ◌==◌, Option-cases, Bool-cases, inl, inr,
}
use mlx_swarm.Base.Word.{u64_max}
use mlx_swarm.Base.GoMap.{GoMap, get, put, IsUnique, put-IsUnique, get-put}
use mlx_swarm.Base.Series.{length-put-none, length-put_unique}
use mlx_swarm.Base.Results.{ok, >>=-ok, ok-injective}
use mlx_swarm.Placement.Types.{ComputeKey}
use mlx_swarm.Placement.Profiles.{compute_key_key, compute_key_discrete, link_key_key}
use mlx_swarm.Placement.Samples.{ComputeSample, compute_sample, link_sample}
use mlx_swarm.Placement.Observe.{ComputeObservation, normalize_compute_observation}
use mlx_swarm.Placement.Normalized.{
  LinkNamed, LinkMeasured, ComputeNamed, ComputeMeasured, normalize_compute_observation-ok,
}
use mlx_swarm.Placement.Store.{
  ProfileStore, series_count, latest, validate_observation_time, prune_expired, new_series,
  add_sample, new_keys, bumped, normalize_all, add_all, validate_times, record_batch,
  observe_compute_batch,
}
use mlx_swarm.Placement.SeriesMaps.{
  SeriesMap, later-SeriesMap, add_sample-SeriesMap, length-add_sample, length-add_sample-some,
}
use mlx_swarm.Placement.WellFormed.{
  IsWellFormed, prune_expired-IsWellFormed, validate_observation_time-ok, or_stop-branches,
  latest-ge,
}

-- Normalized observations, none after `at`.
abbrev IsBatch : ℕ → List ComputeObservation → Type 0
IsBatch at = All (λ o. ComputeNamed o.key × ComputeMeasured o.sample × (o.observed_at ≤ at))

add_all-SeriesMap :
    (limit at : ℕ) (m : GoMap ComputeKey (List ComputeSample)) (os : List ComputeObservation)
    → 1 ≤ limit
    → IsBatch at os
    → SeriesMap ComputeNamed ComputeMeasured limit at m
    → SeriesMap ComputeNamed ComputeMeasured limit at (add_all m limit os)
unfolding add_all
add_all-SeriesMap limit at m [] positive b s = s
add_all-SeriesMap limit at m (o ∷ os) positive b s =
    add_all-SeriesMap limit at (add_sample m limit o.key o.sample) os positive b.1 (
      add_sample-SeriesMap ComputeNamed ComputeMeasured limit at m o.key o.sample positive s b.0.0
        b.0.1 b.0.2)

-- The keys of `m` and those that were added all have series by now.
pub record IsCounted (m : GoMap ComputeKey (List ComputeSample))
    (added : GoMap ComputeKey (Unit {0})) (now : GoMap ComputeKey (List ComputeSample))
    : Type 0 where
  pub covered : (k : ComputeKey) → get now k ≡ none → (get m k ≡ none) × (get added k ≡ none)
  pub unique : IsUnique added
  pub measured : length now ≤ length m + length added

next_added :
    Option (List ComputeSample)
    → GoMap ComputeKey (Unit {0})
    → ComputeKey
    → GoMap ComputeKey (Unit {0})
next_added o added k = elim o [ none ↦ put added k tt | some v ↦ added ]

get-add_sample-none :
    (now : GoMap ComputeKey (List ComputeSample)) (limit : ℕ) (k : ComputeKey) (x : ComputeSample)
    (j : ComputeKey)
    → get (add_sample now limit k x) j ≡ none
    → (get now j ≡ none) × (k ≢ j)
unfolding add_sample
get-add_sample-none now limit k x j h =
    let g = get-put now k j (new_series now limit k x) in
    elim (compute_key_discrete k j) [ yes p ↦ absurd (ground arith) | no n ↦ (ground arith, n) ]

get-put-other :
    (added : GoMap ComputeKey (Unit {0})) (k j : ComputeKey)
    → k ≢ j
    → get (put added k tt) j ≡ get added j
get-put-other added k j n = ground (arith, get-put added k j tt)

add_sample-IsCounted :
    (m now : GoMap ComputeKey (List ComputeSample)) (added : GoMap ComputeKey (Unit {0}))
    (limit : ℕ) (k : ComputeKey) (x : ComputeSample)
    → IsCounted m added now
    → IsCounted m (next_added (get m k) added k) (add_sample now limit k x)
unfolding next_added
add_sample-IsCounted m now added limit k x c = elim (Option-cases (get m k)) [
  | inl e ↦ rw e (record {
    covered = λ j h.
        let n = get-add_sample-none now limit k x j h in
        let p = c.covered j n.0 in (p.0, get-put-other added k j n.1 ∙ p.1);
    unique = put-IsUnique added k tt c.unique;
    measured = elim (Option-cases (get now k)) [
      | inl f ↦ omega (
        arith,
        c.measured,
        length-add_sample now limit k x,
        length-put-none added k tt (c.covered k f).1,
      )
      | inr f ↦ omega (
        arith,
        c.measured,
        length-add_sample-some now limit k x f.0 f.1,
        length-put_unique added k tt c.unique,
      )
    ];
  })
  | inr e ↦ rw e.1 (record {
    covered = λ j h. c.covered j (get-add_sample-none now limit k x j h).0;
    unique = c.unique;
    measured = elim (Option-cases (get now k)) [
      | inl f ↦ absurd (cc ((c.covered k f).0, e.1))
      | inr f ↦ omega (arith, c.measured, length-add_sample-some now limit k x f.0 f.1)
    ];
  })
]

-- The series after a batch are no more than those before it and the new keys.
length-add_all :
    (m now : GoMap ComputeKey (List ComputeSample)) (added : GoMap ComputeKey (Unit {0}))
    (limit : ℕ) (os : List ComputeObservation)
    → IsCounted m added now
    → length (add_all now limit os) ≤ length m + new_keys m added (map (λ o. o.key) os)
unfolding add_all new_keys next_added
length-add_all m now added limit [] c = c.measured
length-add_all m now added limit (o ∷ os) c =
    length-add_all m (add_sample now limit o.key o.sample) (next_added (get m o.key) added o.key)
      limit os (add_sample-IsCounted m now added limit o.key o.sample c)

accept_batch-IsWellFormed :
    (s : ProfileStore) (at : ℕ) (os : List ComputeObservation)
    → IsWellFormed s
    → IsBatch (latest s.latest_accepted_at at) os
    → series_count s + new_keys s.compute [] (map (λ o. o.key) os) ≤ s.max_series
    → suc s.revision ≤ u64_max
    → IsWellFormed
        (bumped (record s { compute = add_all s.compute s.max_samples_per_series os }) at)
unfolding series_count get
accept_batch-IsWellFormed s at os w b room count =
    let now = latest s.latest_accepted_at at in
    let l = latest-ge s.latest_accepted_at at in
    let start : IsCounted s.compute [] s.compute = record {
      covered = λ k h. (h, refl);
      unique = tt;
      measured = omega arith;
    } in
    record {
      some_samples = w.some_samples;
      some_series = w.some_series;
      aged = w.aged;
      whole = w.whole;
      links_valid = later-SeriesMap LinkNamed LinkMeasured _ _ now s.links l.0 w.links_valid;
      compute_valid =
          add_all-SeriesMap s.max_samples_per_series now s.compute os w.some_samples b
            (later-SeriesMap ComputeNamed ComputeMeasured _ _ now s.compute l.0 w.compute_valid);
      bounded =
          omega
            (arith, room, length-add_all s.compute s.compute [] s.max_samples_per_series os start);
      counted = omega arith;
    }

record_batch-IsWellFormed :
    (s : ProfileStore) (at : ℕ) (os : List ComputeObservation)
    → IsWellFormed s
    → IsBatch (latest s.latest_accepted_at at) os
    → IsWellFormed (record_batch s at os).1
unfolding record_batch
record_batch-IsWellFormed s at os w b =
    let needed = series_count s + new_keys s.compute [] (map (λ o. o.key) os) in
    elim (Bool-cases (ltb s.max_series needed)) [
      | inl e ↦ rw e w
      | inr e ↦ elim (Bool-cases (s.revision == u64_max)) [
        | inl f ↦ rw e (rw f w)
        | inr f ↦ rw e (
            rw f (accept_batch-IsWellFormed s at os w b (ground arith) (ground (arith, w.counted))))
      ]
    ]

-- Each normalized observation is valid, and each validated one is not after `at`.
normalize_all-valid :
    (given os : List ComputeObservation)
    → normalize_all given ≡ ok os
    → All (λ o. ComputeNamed o.key × ComputeMeasured o.sample) os
unfolding normalize_all
normalize_all-valid [] os h = subst (All _) (ok-injective h) tt
normalize_all-valid (g ∷ gs) os h =
    let a = >>=-ok (normalize_compute_observation g) _ h in
    let b = >>=-ok (normalize_all gs) _ a.2 in
    subst (All (λ o. ComputeNamed o.key × ComputeMeasured o.sample)) (ok-injective b.2)
      (normalize_compute_observation-ok g a.0 a.1, normalize_all-valid gs b.0 b.1)

validate_times-IsBatch :
    (s : ProfileStore) (at reference validated bound : ℕ) (os : List ComputeObservation)
    → at ≤ bound
    → validate_times s at reference os ≡ ok validated
    → All (λ o. ComputeNamed o.key × ComputeMeasured o.sample) os
    → IsBatch bound os
unfolding validate_times
validate_times-IsBatch s at reference validated bound [] l h a = tt
validate_times-IsBatch s at reference validated bound (o ∷ os) l h a =
    let t = >>=-ok (validate_observation_time s at o.observed_at) _ h in
    let p = validate_observation_time-ok s at o.observed_at t.0 t.1 in
    ((a.0.0, a.0.1, omega arith), validate_times-IsBatch s at t.0 validated bound os l t.2 a.1)

pub observe_compute_batch-IsWellFormed :
    (s : ProfileStore) (at : ℕ) (os : List ComputeObservation)
    → IsWellFormed s
    → IsWellFormed (observe_compute_batch s at os).1
unfolding observe_compute_batch prune_expired
observe_compute_batch-IsWellFormed s at [] w = w
observe_compute_batch-IsWellFormed s at (g ∷ gs) w =
    or_stop-branches (λ r. IsWellFormed r.1) (normalize_all (g ∷ gs)) s _ (λ e. w)
      λ os h.
        or_stop-branches (λ r. IsWellFormed r.1) (validate_times s at at os) s _ (λ e. w)
          λ reference t.
            record_batch-IsWellFormed (prune_expired s reference) at os
              (prune_expired-IsWellFormed s reference w)
              (validate_times-IsBatch s at at reference (latest s.latest_accepted_at at) os
                (latest-ge s.latest_accepted_at at).1 t (normalize_all-valid (g ∷ gs) os h))
