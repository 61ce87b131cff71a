-- ===== src/Placement/Tests.antt =====
-- Runs of the theorems on eligibility, scores and profiles.
use Prim.Native.Nat.{min}
use mlx_swarm.ScoredFixtures.{
  owner_digests, scored_evaluation, plan_scored, two_ranges, two_stage_construction,
  constructed_plan, plan_constructed,
}
use mlx_swarm.Generation.Plan.{validate_execution_plan, revision_stage}
use mlx_swarm.Placement.Ranges.{normalize_plan_construction_request}
use mlx_swarm.Placement.RangedPlans.{Ranged}
use mlx_swarm.Placement.Construct.{construct_plan}
use mlx_swarm.Placement.Constructed.{IsBounded, construct_plan-IsBounded, construct_plan-Fitting}
use mlx_swarm.Base.Word.{u64_max}
use mlx_swarm.Base.Results.{Result, ok, err}
use mlx_swarm.Placement.Validate.{normalize_scoring_request}
use mlx_swarm.Placement.Arithmetic.{
  multiply_divide_ceil, bytes_per_second, multiply_divide_ceil-exact, bytes_per_second-exact,
}
use mlx_swarm.Placement.Scoring.{score_stage_transfer}
use mlx_swarm.Placement.ScorePlan.{all_eligible}
use mlx_swarm.Placement.Estimates.{Transfer, score_stage_transfer-Transfer}
use mlx_swarm.Placement.Guarantees.{Fitting, IsTotal, score_plan-Fitting, score_plan-IsTotal}
use mlx_swarm.Placement.Observe.{LinkObservation}
use mlx_swarm.Placement.Store.{ProfileConfig, ProfileStore, new_profile_store, observe_link}
use mlx_swarm.Base.{All, ◌-◌, ◌^◌}
use mlx_swarm.Base.Series.{AllEntries}
use mlx_swarm.Placement.Summarized.{Rated}
use mlx_swarm.Placement.SnapshotValid.{snapshot-validates}
use mlx_swarm.Placement.Snapshot.{snapshot}
use mlx_swarm.Placement.Observe.{ProfileError}
use mlx_swarm.Placement.Samples.{summarize_values}
use mlx_swarm.Placement.Percentiles.{IsSummary, summarize_values-IsSummary}
use mlx_swarm.Placement.Profiles.{
  validate_distribution, ProfileFault, inconsistent_distribution, validate_profile_snapshot,
}
use mlx_swarm.Placement.WellFormed.{IsWellFormed}
use mlx_swarm.Placement.StoreHistory.{reached_new, reached_link, Reached-IsWellFormed}
use mlx_swarm.Base.{
  Option, some, ◌+◌, ◌*◌, ◌/◌, ◌≤◌, ◌<◌, ◌≢◌, none, map, length, arith, ◌↔◌, ℕ, ◌≡◌, refl, String,
  Bool, true, false, List, [], ◌∷◌,
}
use mlx_swarm.Base.Int.{pos}
use mlx_swarm.Fixtures.{
  small_model, worker_a, two_workers, sharded_plan, scoring_request, empty_profile, stage_cost,
}
use mlx_swarm.Placement.Types.{StageRequirement, StageTransferScore, ProfileSnapshot}
use mlx_swarm.Placement.Eligibility.{evaluate_candidate, stage_operations}
use mlx_swarm.Placement.Eligible.{Fits, evaluate_candidate-Fits}

abbrev first_requirement : StageRequirement
first_requirement = record {
  model = small_model;
  adapter = "qwen";
  shard_id = "x";
  layer_start = pos 0;
  layer_end = pos 2;
  owns_input = true;
  owns_output = false;
  load_memory_bytes = 50;
  sequence_memory_bytes = 10;
  transport = record { protocol = "h2"; tensor_encoding = "raw"; require_tls = true };
  status_max_age_millis = pos 0;
}

a_is_eligible :
    (evaluate_candidate 2
      (pos 1000)
      first_requirement
      (stage_operations first_requirement)
      worker_a).eligible
    ≡ true
unfolding evaluate_candidate stage_operations mlx_swarm.Base.Text.string_discrete
a_is_eligible = refl

evaluate_candidate-Fits_example :
    ((evaluate_candidate 2
        (pos 1000)
        first_requirement
        (stage_operations first_requirement)
        worker_a).eligible
      ≡ true)
    ↔ Fits 2 (pos 1000) first_requirement (stage_operations first_requirement) worker_a
evaluate_candidate-Fits_example =
    evaluate_candidate-Fits 2 (pos 1000) first_requirement (stage_operations first_requirement)
      worker_a (omega arith)

a-Fits : Fits 2 (pos 1000) first_requirement (stage_operations first_requirement) worker_a
a-Fits =
    (evaluate_candidate-Fits 2 (pos 1000) first_requirement (stage_operations first_requirement)
        worker_a (omega arith)).0
      a_is_eligible

score_plan-Fitting_example :
    (scored_evaluation.plan ≡ sharded_plan)
    × (scored_evaluation.eligible ≡ all_eligible scored_evaluation.stages)
    × (scored_evaluation.eligible ≡ true
        → Fitting two_workers small_model
            (normalize_scoring_request scoring_request)
            sharded_plan.stages
            scoring_request.stages
            scored_evaluation.stages)
score_plan-Fitting_example =
    score_plan-Fitting owner_digests two_workers empty_profile sharded_plan scoring_request
      scored_evaluation plan_scored.0

score_plan-IsTotal_example : IsTotal sharded_plan scored_evaluation
score_plan-IsTotal_example =
    score_plan-IsTotal owner_digests two_workers empty_profile sharded_plan scoring_request
      scored_evaluation plan_scored.0 plan_scored.1

multiply_divide_ceil-exact_example :
    (multiply_divide_ceil 7 3 2 ≡ ok 11)
    ↔ ((◌≢◌ {A = ℕ} 2 0) × (11 ≤ u64_max) × (7 * 3 ≤ 11 * 2) × (11 * 2 < 7 * 3 + 2))
multiply_divide_ceil-exact_example = multiply_divide_ceil-exact 7 3 2 11

bytes_per_second-exact_example : bytes_per_second 3000 2000 ≡ min (3000 * 1000000 / 2000) u64_max
bytes_per_second-exact_example = bytes_per_second-exact 3000 2000 (omega arith)

abbrev stage_transfer : StageTransferScore
stage_transfer = record {
  rtt_micros = 100;
  bytes_per_second = 1000000;
  prefill_micros = 200;
  decode_micros = 480;
  total_micros = 680;
  rtt_profiled = false;
  bandwidth_profiled = false;
  link_profile = none;
}

transfer_scored :
    score_stage_transfer empty_profile worker_a scoring_request stage_cost ≡ ok stage_transfer
unfolding score_stage_transfer multiply_divide_ceil mlx_swarm.Placement.Scoring.link_bandwidth
    mlx_swarm.Placement.Scoring.find_link_profile mlx_swarm.Placement.Eligibility.add_uint64
    mlx_swarm.Placement.Scoring.link_rtt mlx_swarm.Placement.Arithmetic.multiply_uint64
transfer_scored = refl

score_stage_transfer-Transfer_example :
    Transfer empty_profile worker_a scoring_request stage_cost stage_transfer
score_stage_transfer-Transfer_example =
    score_stage_transfer-Transfer empty_profile worker_a scoring_request stage_cost stage_transfer
      transfer_scored

abbrev small_config : ProfileConfig
small_config = record { max_age = pos 1000000; max_samples_per_series = pos 1; max_series = pos 0 }

abbrev small_store : ProfileStore
small_store = record {
  max_age = 1000000;
  max_samples_per_series = 1;
  max_series = 4096;
  revision = 0;
  latest_accepted_at = 0;
  links = [];
  compute = [];
}

small_store_new : new_profile_store small_config ≡ ok small_store
unfolding new_profile_store mlx_swarm.Base.Int.ℤ-discrete mlx_swarm.Base.ℕ_discrete
small_store_new = refl

abbrev ping : ℕ → LinkObservation
ping at = record {
  key = record {
    source_id = " a";
    source_instance_id = "a1";
    target_id = "b";
    target_instance_id = "b1";
    protocol = "h2";
    tensor_encoding = "raw";
  };
  sample = record { observed_at = at; rtt_micros = 7; payload_bytes = 5; elapsed_micros = 2 };
}

-- Two observations of a link, of which the newer one is kept.
abbrev pinged_store : ProfileStore
pinged_store = (observe_link (observe_link small_store 10 (ping 10)).1 20 (ping 20)).1

ping_counted : (pinged_store.revision ≡ 2) × (map (λ e. length e.1) pinged_store.links ≡ 1 ∷ [])
unfolding observe_link mlx_swarm.Placement.Observe.normalize_link_observation
    mlx_swarm.Base.Text.byte_length mlx_swarm.Base.Text.string_discrete
    mlx_swarm.Base.Text.trim_space mathlib.Core.Bool.xor
    mlx_swarm.Placement.Store.validate_observation_time mlx_swarm.Placement.Store.record_link
    mlx_swarm.Base.GoMap.get mlx_swarm.Placement.Store.prune_expired mlx_swarm.Base.GoMap.update_all
    mlx_swarm.Placement.Store.series_count mlx_swarm.Placement.Store.add_sample
    mlx_swarm.Placement.Profiles.link_key_discrete
ping_counted = (refl, refl)

Reached-IsWellFormed_example : IsWellFormed pinged_store
Reached-IsWellFormed_example = Reached-IsWellFormed pinged_store (
    reached_link (observe_link small_store 10 (ping 10)).1 20 (ping 20) (
      reached_link small_store 10 (ping 10) (reached_new small_config small_store small_store_new)))

construct_plan-IsBounded_example :
    IsBounded owner_digests two_workers empty_profile two_ranges
      (construct_plan owner_digests two_workers empty_profile two_ranges)
construct_plan-IsBounded_example =
    construct_plan-IsBounded owner_digests two_workers empty_profile two_ranges

construct_plan-Fitting_example :
    (normalize_plan_construction_request owner_digests two_workers empty_profile two_ranges
      ≡ ok two_stage_construction.request)
    × (validate_execution_plan owner_digests constructed_plan.plan ≡ none)
    × (constructed_plan.plan.model ≡ two_stage_construction.request.model)
    × (constructed_plan.eligible ≡ true)
    × (constructed_plan.request
        ≡ normalize_scoring_request (record two_stage_construction.request.scoring {
          stages = constructed_plan.request.stages;
        }))
    × Ranged two_stage_construction.request.ranges
        (map revision_stage constructed_plan.plan.stages)
        constructed_plan.request.stages
    × Fitting two_workers constructed_plan.plan.model constructed_plan.request
        constructed_plan.plan.stages constructed_plan.request.stages constructed_plan.stages
construct_plan-Fitting_example =
    construct_plan-Fitting owner_digests two_workers empty_profile two_ranges two_stage_construction
      constructed_plan plan_constructed.0 plan_constructed.1

summarize_values-IsSummary_example : IsSummary (3 ∷ 1 ∷ 2 ∷ []) (summarize_values (3 ∷ 1 ∷ 2 ∷ []))
summarize_values-IsSummary_example = summarize_values-IsSummary (3 ∷ 1 ∷ 2 ∷ []) (omega arith)

abbrev taken_snapshot : Result ProfileError ProfileSnapshot → ProfileSnapshot
taken_snapshot (ok p) = p
taken_snapshot (err e) = empty_profile

abbrev pinged_snapshot : ProfileSnapshot
pinged_snapshot = taken_snapshot (snapshot pinged_store 20).0

pinged_taken :
    ((snapshot pinged_store 20).0 ≡ ok pinged_snapshot) × (length pinged_snapshot.links ≡ 1)
unfolding observe_link mlx_swarm.Placement.Observe.normalize_link_observation
    mlx_swarm.Base.Text.byte_length mlx_swarm.Base.Text.string_discrete
    mlx_swarm.Base.Text.trim_space mathlib.Core.Bool.xor
    mlx_swarm.Placement.Store.validate_observation_time mlx_swarm.Placement.Store.record_link
    mlx_swarm.Base.GoMap.get mlx_swarm.Placement.Store.prune_expired mlx_swarm.Base.GoMap.update_all
    mlx_swarm.Placement.Store.series_count mlx_swarm.Placement.Store.add_sample
    mlx_swarm.Placement.Profiles.link_key_discrete snapshot mlx_swarm.Placement.Snapshot.snapshot_of
    mlx_swarm.Placement.Snapshot.summaries mlx_swarm.Placement.Snapshot.summarize_link
    mlx_swarm.Placement.Snapshot.summarize_compute
    mlx_swarm.Placement.Snapshot.compare_link_profiles mlx_swarm.Placement.Samples.fresh
    mlx_swarm.Placement.Samples.latest_from mlx_swarm.Placement.Samples.summarize_values
    mlx_swarm.Placement.Samples.summarize_sorted mlx_swarm.Placement.Samples.nearest_rank
    mlx_swarm.Placement.Samples.throughput mlx_swarm.Placement.Samples.retained
    mlx_swarm.Placement.Arithmetic.bytes_per_second validate_profile_snapshot
    mlx_swarm.Placement.Profiles.link_fault mlx_swarm.Placement.Profiles.profiles_fault
    mlx_swarm.Placement.Profiles.compute_fault mlx_swarm.Placement.Profiles.all_labels
    mlx_swarm.Placement.Profiles.is_label mlx_swarm.Placement.Profiles.validate_distribution
    mlx_swarm.Placement.Profiles.distribution_discrete
    mlx_swarm.Placement.Profiles.compute_key_discrete mlx_swarm.Base.Int.ℤ-discrete
    mlx_swarm.Base.ℕ_discrete
pinged_taken = (refl, refl)

pinged_limits :
    (pinged_store.max_age ≤ 2 ^ 63 - 1) × AllEntries (λ k xs. All Rated xs) pinged_store.links
unfolding observe_link mlx_swarm.Placement.Observe.normalize_link_observation
    mlx_swarm.Base.Text.byte_length mlx_swarm.Base.Text.string_discrete
    mlx_swarm.Base.Text.trim_space mathlib.Core.Bool.xor
    mlx_swarm.Placement.Store.validate_observation_time mlx_swarm.Placement.Store.record_link
    mlx_swarm.Base.GoMap.get mlx_swarm.Placement.Store.prune_expired mlx_swarm.Base.GoMap.update_all
    mlx_swarm.Placement.Store.series_count mlx_swarm.Placement.Store.add_sample
    mlx_swarm.Placement.Profiles.link_key_discrete
pinged_limits = (omega arith, ((omega arith, tt), tt))

snapshot-validates_example : validate_profile_snapshot pinged_snapshot ≡ none
snapshot-validates_example =
    snapshot-validates pinged_store 20 pinged_snapshot
      (reached_link (observe_link small_store 10 (ping 10)).1 20 (ping 20) (
        reached_link small_store 10 (ping 10)
          (reached_new small_config small_store small_store_new)))
      pinged_limits.0 pinged_limits.1 pinged_taken.0

-- One byte in two seconds: the observation is accepted, its throughput is zero, and the snapshot
-- that holds it does not pass the validation of the scorer.
abbrev slow_ping : LinkObservation
slow_ping = record (ping 10) {
  sample = record { observed_at = 10; rtt_micros = 7; payload_bytes = 1; elapsed_micros = 2000000 };
}

abbrev snapshot_fault : Result ProfileError ProfileSnapshot → Option ProfileFault
snapshot_fault (ok p) = validate_profile_snapshot p
snapshot_fault (err e) = none

slow_link_refused :
    ((observe_link small_store 10 slow_ping).0 ≡ none)
    × (snapshot_fault (snapshot (observe_link small_store 10 slow_ping).1 10).0
        ≡ some inconsistent_distribution)
unfolding observe_link mlx_swarm.Placement.Observe.normalize_link_observation
    mlx_swarm.Base.Text.byte_length mlx_swarm.Base.Text.string_discrete
    mlx_swarm.Base.Text.trim_space mathlib.Core.Bool.xor
    mlx_swarm.Placement.Store.validate_observation_time mlx_swarm.Placement.Store.record_link
    mlx_swarm.Base.GoMap.get mlx_swarm.Placement.Store.prune_expired mlx_swarm.Base.GoMap.update_all
    mlx_swarm.Placement.Store.series_count mlx_swarm.Placement.Store.add_sample
    mlx_swarm.Placement.Profiles.link_key_discrete snapshot mlx_swarm.Placement.Snapshot.snapshot_of
    mlx_swarm.Placement.Snapshot.summaries mlx_swarm.Placement.Snapshot.summarize_link
    mlx_swarm.Placement.Snapshot.summarize_compute
    mlx_swarm.Placement.Snapshot.compare_link_profiles mlx_swarm.Placement.Samples.fresh
    mlx_swarm.Placement.Samples.latest_from mlx_swarm.Placement.Samples.summarize_values
    mlx_swarm.Placement.Samples.summarize_sorted mlx_swarm.Placement.Samples.nearest_rank
    mlx_swarm.Placement.Samples.throughput mlx_swarm.Placement.Samples.retained
    mlx_swarm.Placement.Arithmetic.bytes_per_second validate_profile_snapshot
    mlx_swarm.Placement.Profiles.link_fault mlx_swarm.Placement.Profiles.profiles_fault
    mlx_swarm.Placement.Profiles.compute_fault mlx_swarm.Placement.Profiles.all_labels
    mlx_swarm.Placement.Profiles.is_label mlx_swarm.Placement.Profiles.validate_distribution
    mlx_swarm.Placement.Profiles.distribution_discrete
    mlx_swarm.Placement.Profiles.compute_key_discrete mlx_swarm.Base.Int.ℤ-discrete
    mlx_swarm.Base.ℕ_discrete
slow_link_refused = (refl, refl)
