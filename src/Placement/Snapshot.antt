-- ===== src/Placement/Snapshot.antt =====
-- internal/placement/profile.go: the snapshot of the fresh evidence.
use Prim.Native.Nat.{Ordering}
use mlx_swarm.Base.{ℕ, ◌/◌, List, [], ◌∷◌, map, ltb, ◌==◌, if◌then◌else◌, sort_by}
use mlx_swarm.Base.Int.{pos}
use mlx_swarm.Base.GoMap.{GoMap}
use mlx_swarm.Base.Order.{or_else, compare_int, compare_strings}
use mlx_swarm.Base.Results.{Result, ok, err}
use mlx_swarm.Placement.Types.{LinkKey, ComputeKey, LinkProfile, ComputeProfile, ProfileSnapshot}
use mlx_swarm.Placement.Samples.{
  LinkSample, ComputeSample, Sample, link_sample, compute_sample, is_less, fresh, latest_from,
  summarize_values, throughput,
}
use mlx_swarm.Placement.Observe.{ProfileError, no_snapshot_time, rewind}
use mlx_swarm.Placement.Store.{ProfileStore, prune_expired}

-- The time of the first sample; a series has one.
abbrev pub first_time : {S : Type 0} ⦃sample : Sample S⦄ → List S → ℕ
first_time [] = 0
first_time ⦃sample⦄ (s ∷ ss) = sample.observed s

-- `summarizeLink`.
unfoldable pub summarize_link : LinkKey → List LinkSample → LinkProfile
unfolding latest_from
summarize_link key samples = record {
  key = key;
  latest_observed_at = latest_from (first_time samples) samples;
  rtt_micros = summarize_values (map (λ s. s.rtt_micros) samples);
  effective_bytes_per_second = summarize_values (throughput samples);
}

-- `summarizeCompute`.
unfoldable pub summarize_compute : ComputeKey → List ComputeSample → ComputeProfile
unfolding latest_from
summarize_compute key samples = record {
  key = key;
  latest_observed_at = latest_from (first_time samples) samples;
  input_token_count = summarize_values (map (λ s. s.input_token_count) samples);
  compute_micros = summarize_values (map (λ s. s.compute_micros) samples);
}

-- `compareLinkProfiles` and `compareComputeProfiles`. The differences of layer numbers, which are not
-- negative, do not wrap.
unfoldable pub compare_link_profiles : LinkProfile → LinkProfile → Ordering
compare_link_profiles l r = or_else (compare_strings l.source_id r.source_id) (
    or_else (compare_strings l.source_instance_id r.source_instance_id) (
      or_else (compare_strings l.target_id r.target_id) (
        or_else (compare_strings l.target_instance_id r.target_instance_id) (
          or_else (compare_strings l.protocol r.protocol)
            (compare_strings l.tensor_encoding r.tensor_encoding)))))

unfoldable pub compare_compute_profiles : ComputeProfile → ComputeProfile → Ordering
compare_compute_profiles l r = or_else (compare_strings l.worker_id r.worker_id) (
    or_else (compare_strings l.worker_instance_id r.worker_instance_id) (
      or_else (compare_strings l.backend r.backend) (
        or_else (compare_strings l.model.id r.model.id) (
          or_else (compare_strings l.model.checkpoint_fingerprint r.model.checkpoint_fingerprint) (
            or_else (compare_strings l.operation r.operation) (
              or_else (compare_int l.model.layer_count r.model.layer_count) (
                or_else (compare_int l.layer_start r.layer_start)
                  (compare_int l.layer_end r.layer_end))))))))

-- The summary of a series that has fresh samples.
abbrev pub summary_onto : {K S P : Type 0} → (K → List S → P) → K → List S → List P → List P
summary_onto summarize k [] rest = rest
summary_onto summarize k (s ∷ ss) rest = summarize k (s ∷ ss) ∷ rest

unfoldable pub summaries :
    {K S P : Type 0} ⦃sample : Sample S⦄ → (K → List S → P) → ℕ → GoMap K (List S) → List P
unfolding fresh
summaries summarize at [] = []
summaries summarize at ((k, samples) ∷ m) =
    summary_onto summarize k (fresh at samples) (summaries summarize at m)

-- The snapshot of a store from which what is expired is pruned.
unfoldable pub snapshot_of : ProfileStore → ℕ → ProfileSnapshot
unfolding summaries
snapshot_of store at = record {
  schema_version = pos 1;
  revision = store.revision;
  generated_at = at;
  max_age_millis = pos (store.max_age / 1000000);
  max_samples_per_series = pos store.max_samples_per_series;
  max_series = pos store.max_series;
  links =
      sort_by (λ a b. is_less (compare_link_profiles a b))
        (summaries summarize_link at store.links);
  compute =
      sort_by (λ a b. is_less (compare_compute_profiles a b))
        (summaries summarize_compute at store.compute);
}

-- `Snapshot`.
unfoldable pub snapshot : ProfileStore → ℕ → Result ProfileError ProfileSnapshot × ProfileStore
unfolding snapshot_of prune_expired
snapshot store at =
    if at == 0
    then (err no_snapshot_time, store)
    else if ltb at store.latest_accepted_at
    then (err rewind, store)
    else (ok (snapshot_of (prune_expired store at) at), prune_expired store at)
