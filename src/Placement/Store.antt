-- ===== src/Placement/Store.antt =====
-- internal/placement/profile.go: the bounded store of rolling evidence. Each operation takes the
-- store that the mutex guards, and returns the store that it leaves.

use mlx_swarm.Base.{
  ℕ, ◌+◌, ◌%◌, Bool, true, false, not, ◌&&◌, ◌||◌, List, [], ◌∷◌, ◌++◌, map, Option, none, some,
  length, ltb, leb, ◌==◌, if◌then◌else◌,
}
use mlx_swarm.Base.Int.{ℤ, pos, ltb_ℤ, eqb_ℤ, pos_part}
use mlx_swarm.Base.Word.{u64_max}
use mlx_swarm.Base.GoMap.{Key, GoMap, get, put, or_zero, update_all}
use mlx_swarm.Base.Results.{Result, ok, err, ◌>>=◌, ◌>>◌, refuse_if}
use mlx_swarm.Placement.Types.{LinkKey, ComputeKey}
use mlx_swarm.Placement.Profiles.{link_key_key, compute_key_key}
use mlx_swarm.Placement.Samples.{
  LinkSample, ComputeSample, Sample, link_sample, compute_sample, retain_newest, retained,
  sort_samples,
}
use mlx_swarm.Placement.Observe.{
  LinkObservation, ComputeObservation, ProfileError, no_acceptance_time, in_the_future,
  already_stale, series_limit, revision_exhausted, empty_batch, invalid_max_age, invalid_limits,
  normalize_link_observation, normalize_compute_observation,
}

pub record ProfileConfig : Type 0 where
  pub max_age : ℤ
  pub max_samples_per_series : ℤ
  pub max_series : ℤ

pub record ProfileStore : Type 0 where
  pub max_age : ℕ
  pub max_samples_per_series : ℕ
  pub max_series : ℕ
  pub revision : ℕ
  pub latest_accepted_at : ℕ
  pub links : GoMap LinkKey (List LinkSample)
  pub compute : GoMap ComputeKey (List ComputeSample)

-- A configured zero is the default.
abbrev pub or_default : ℤ → ℕ → ℤ
or_default z default = if eqb_ℤ z (pos 0) then pos default else z

-- `NewProfileStore`: five minutes, 64 samples and 4096 series by default.
unfoldable pub new_profile_store : ProfileConfig → Result ProfileError ProfileStore
new_profile_store config = do
  let max_age = or_default config.max_age 300000000000
  let max_samples = or_default config.max_samples_per_series 64
  let max_series = or_default config.max_series 4096
  refuse_if (ltb_ℤ max_age (pos 1000000) || not (pos_part max_age % 1000000 == 0)) invalid_max_age
  refuse_if (ltb_ℤ max_samples (pos 0) || ltb_ℤ max_series (pos 0)) invalid_limits
  ok (record {
    max_age = pos_part max_age;
    max_samples_per_series = pos_part max_samples;
    max_series = pos_part max_series;
    revision = 0;
    latest_accepted_at = 0;
    links = [];
    compute = [];
  })

unfoldable pub series_count : ProfileStore → ℕ
series_count store = length store.links + length store.compute

abbrev pub latest : ℕ → ℕ → ℕ
latest a b = if ltb a b then b else a

-- `validateObservationTimeLocked`: the reference time.
unfoldable pub validate_observation_time : ProfileStore → ℕ → ℕ → Result ProfileError ℕ
validate_observation_time store at observed = do
  refuse_if (at == 0) no_acceptance_time
  refuse_if (ltb at observed) in_the_future
  refuse_if (ltb (observed + store.max_age) (latest at store.latest_accepted_at)) already_stale
  ok (latest at store.latest_accepted_at)

-- A series without its expired samples, or `none` where no sample is left.
abbrev pub unless_empty : {S : Type 0} → List S → Option (List S)
unless_empty [] = none
unless_empty (s ∷ ss) = some (s ∷ ss)

abbrev pub keep_series : {K S : Type 0} ⦃sample : Sample S⦄ → ℕ → ℕ → K → List S → Option (List S)
keep_series max_age at key samples = unless_empty (retained max_age at samples)

-- `pruneExpiredLocked`.
unfoldable pub prune_expired : ProfileStore → ℕ → ProfileStore
unfolding retained
prune_expired store at = record store {
  links = update_all (keep_series store.max_age at) store.links;
  compute = update_all (keep_series store.max_age at) store.compute;
}

-- `acceptTimeLocked`.
abbrev pub accept_time : ProfileStore → ℕ → ProfileStore
accept_time store at = record store { latest_accepted_at = latest store.latest_accepted_at at }

module _ {K S : Type 0} ⦃key : Key K⦄ ⦃sample : Sample S⦄ where
  -- The series of a key with one more sample, sorted and held to its newest samples.
  unfoldable pub new_series : GoMap K (List S) → ℕ → K → S → List S
  unfolding get sort_samples retain_newest
  new_series m limit k s = retain_newest (sort_samples (or_zero (get m k) [] ++ (s ∷ []))) limit

  unfoldable pub add_sample : GoMap K (List S) → ℕ → K → S → GoMap K (List S)
  unfolding put new_series
  add_sample m limit k s = put m k (new_series m limit k s)

-- The keys that a map does not have, each once.
unfoldable pub new_keys : {K V : Type 0} ⦃key : Key K⦄ → GoMap K V → GoMap K (Unit {0}) → List K → ℕ
unfolding get put
new_keys m added [] = length added
new_keys m added (k ∷ ks) =
    new_keys m (elim (get m k) [ none ↦ put added k tt | some v ↦ added ]) ks

abbrev pub is_missing : {V : Type 0} → Option V → Bool
is_missing none = true
is_missing (some v) = false

abbrev pub bumped : ProfileStore → ℕ → ProfileStore
bumped store at = accept_time (record store { revision = store.revision + 1 }) at

-- The end of `ObserveLink`, on the pruned store.
unfoldable pub record_link : ProfileStore → ℕ → LinkObservation → Option ProfileError × ProfileStore
record_link store at o =
    if is_missing (get store.links o.key) && leb store.max_series (series_count store)
    then (some series_limit, store)
    else if store.revision == u64_max
    then (some revision_exhausted, store)
    else (
      none,
      bumped
          (record store {
            links = add_sample store.links store.max_samples_per_series o.key o.sample;
          })
          at,
    )

-- A step that an error ends, with the store as it is.
abbrev pub or_stop {ℓ} :
    {A : Type ℓ}
    → Result ProfileError A
    → ProfileStore
    → (A → Option ProfileError × ProfileStore)
    → Option ProfileError × ProfileStore
or_stop (err e) store next = (some e, store)
or_stop (ok a) store next = next a

-- `ObserveLink`.
unfoldable pub observe_link :
    ProfileStore → ℕ → LinkObservation → Option ProfileError × ProfileStore
observe_link store at given = or_stop (normalize_link_observation given) store λ o.
    or_stop (validate_observation_time store at o.observed_at) store
      λ reference. record_link (prune_expired store reference) at o

unfoldable pub normalize_all :
    List ComputeObservation → Result ProfileError (List ComputeObservation)
normalize_all [] = ok []
normalize_all (o ∷ os) = do ok ((← normalize_compute_observation o) ∷ (← normalize_all os))

-- The reference time of a batch, which is that of its last observation.
unfoldable pub validate_times :
    ProfileStore → ℕ → ℕ → List ComputeObservation → Result ProfileError ℕ
validate_times store at reference [] = ok reference
validate_times store at reference (o ∷ os) = do
  validated ← validate_observation_time store at o.observed_at
  validate_times store at validated os

unfoldable pub add_all :
    GoMap ComputeKey (List ComputeSample)
    → ℕ
    → List ComputeObservation
    → GoMap ComputeKey (List ComputeSample)
add_all m limit [] = m
add_all m limit (o ∷ os) = add_all (add_sample m limit o.key o.sample) limit os

unfoldable pub record_batch :
    ProfileStore → ℕ → List ComputeObservation → Option ProfileError × ProfileStore
record_batch store at os =
    if ltb store.max_series (series_count store + new_keys store.compute [] (map (λ o. o.key) os))
    then (some series_limit, store)
    else if store.revision == u64_max
    then (some revision_exhausted, store)
    else (
      none,
      bumped (record store { compute = add_all store.compute store.max_samples_per_series os }) at,
    )

-- `observeComputeBatch`.
unfoldable pub observe_compute_batch :
    ProfileStore → ℕ → List ComputeObservation → Option ProfileError × ProfileStore
observe_compute_batch store at [] = (some empty_batch, store)
observe_compute_batch store at (o ∷ os) = or_stop (normalize_all (o ∷ os)) store λ normalized.
    or_stop (validate_times store at at normalized) store
      λ reference. record_batch (prune_expired store reference) at normalized

-- `ObserveCompute`.
unfoldable pub observe_compute :
    ProfileStore → ℕ → ComputeObservation → Option ProfileError × ProfileStore
observe_compute store at o = observe_compute_batch store at (o ∷ [])
