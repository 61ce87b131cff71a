-- ===== src/ScoredFixtures.antt =====
-- Test data of scoring: the plan of two stages, scored on the two workers without profiles.
use mlx_swarm.Base.{ℕ, ◌≡◌, refl, String, true, false, [], ◌∷◌, Option, none, some}
use mlx_swarm.Base.Results.{Result, ok, err}
use mlx_swarm.Base.Int.{pos}
use mlx_swarm.Generation.Types.{sampled_token}
use mlx_swarm.Placement.PlanTypes.{
  RangeCostEstimate, PlanConstructionRequest, PlanConstructionResult, Construction, constructed,
  limit_reached, not_constructed,
}
use mlx_swarm.Placement.Construct.{construct_plan, empty_result}
use mlx_swarm.Fixtures.{
  stage_cost, small_model, two_workers, sharded_plan, scoring_request, empty_profile,
  two_stage_evaluation,
}
use mlx_swarm.Generation.Plan.{Digests, ShardPayload}
use mlx_swarm.Placement.Types.{PlanEvaluation}
use mlx_swarm.Placement.Validate.{PlacementError}
use mlx_swarm.Placement.ScorePlan.{score_plan}

-- A name of a shard that its input ownership decides.
abbrev shard_by_owner : ShardPayload → String
shard_by_owner p = elim p.owns_input [ true ↦ "x" | false ↦ "y" ]

abbrev pub owner_digests : Digests
owner_digests = record { revision_digest = λ p. "r"; shard_name = shard_by_owner }

abbrev value_or : Result PlacementError PlanEvaluation → PlanEvaluation → PlanEvaluation
value_or (ok e) other = e
value_or (err x) other = other

unfoldable pub scored_evaluation : PlanEvaluation
unfolding score_plan
scored_evaluation =
    value_or (score_plan owner_digests two_workers empty_profile sharded_plan scoring_request)
      two_stage_evaluation

-- The plan is eligible; each stage computes 300 + 4 * 30 microseconds, and transfers for
-- (100 + 100) + 4 * (100 + 20) microseconds.
pub plan_scored :
    (score_plan owner_digests two_workers empty_profile sharded_plan scoring_request
      ≡ ok scored_evaluation)
    × (scored_evaluation.eligible ≡ true)
    × (scored_evaluation.score.estimated_micros ≡ 2200)
unfolding scored_evaluation mlx_swarm.Placement.Validate.validate_scoring_inputs
    mlx_swarm.Generation.Plan.validate_execution_plan mlx_swarm.Base.Text.string_discrete
    mlx_swarm.Generation.Plan.validate_stages mlx_swarm.Base.Text.seen_in
    mlx_swarm.Base.Int.ℤ-discrete mlx_swarm.Base.ℕ_discrete mathlib.Core.Bool.xor
    mlx_swarm.Generation.Types.mode_discrete mlx_swarm.Generation.Plan.execution_plan_revision
    mlx_swarm.Generation.Plan.validate_shards mlx_swarm.Base.Decimal.decimal
    mlx_swarm.Placement.Profiles.profiles_fault
    mlx_swarm.Placement.Validate.normalize_scoring_request mlx_swarm.Base.Text.trim_space
    mlx_swarm.Placement.ScorePlan.stage_evidence mlx_swarm.Base.GoMap.delete
    mlx_swarm.Base.GoMap.get mlx_swarm.Base.GoMap.put mlx_swarm.Base.Bool-cases
    mlx_swarm.Base.Text.byte_length mlx_swarm.Base.Text.is_empty mlx_swarm.Base.Text.is_space
    mlx_swarm.Base.Text.str_lt mlx_swarm.Base.Text.trim_left mlx_swarm.Base.Text.trim_right
    mlx_swarm.Generation.Plan.execution_shard_id mlx_swarm.Generation.Types.model_discrete
    mlx_swarm.Placement.Arithmetic.checked_score_add
    mlx_swarm.Placement.Arithmetic.multiply_divide_ceil
    mlx_swarm.Placement.Arithmetic.multiply_uint64 mlx_swarm.Placement.Eligibility.add_uint64
    mlx_swarm.Placement.Eligibility.advertised_transport
    mlx_swarm.Placement.Eligibility.compatible_retained_shard
    mlx_swarm.Placement.Eligibility.evaluate_candidate
    mlx_swarm.Placement.Eligibility.evaluate_candidates
    mlx_swarm.Placement.Eligibility.is_compatible mlx_swarm.Placement.Eligibility.rejections
    mlx_swarm.Placement.Eligibility.stage_operations mlx_swarm.Placement.ScorePlan.evaluation_of
    mlx_swarm.Placement.ScorePlan.find_candidate score_plan
    mlx_swarm.Placement.ScorePlan.score_stages mlx_swarm.Placement.ScorePlan.scored
    mlx_swarm.Placement.ScorePlan.stage_requirement mlx_swarm.Placement.Scoring.bandwidth_profiled
    mlx_swarm.Placement.Scoring.estimate_compute mlx_swarm.Placement.Scoring.find_compute_profile
    mlx_swarm.Placement.Scoring.find_link_profile mlx_swarm.Placement.Scoring.link_bandwidth
    mlx_swarm.Placement.Scoring.link_rtt mlx_swarm.Placement.Scoring.merge_stage_score
    mlx_swarm.Placement.Scoring.new_load mlx_swarm.Placement.Scoring.per_call
    mlx_swarm.Placement.Scoring.score_stage_compute mlx_swarm.Placement.Scoring.score_stage_transfer
    mlx_swarm.Placement.Validate.estimates_fault
    mlx_swarm.Placement.Validate.validate_scoring_context
    mlx_swarm.Placement.Validate.validate_scoring_snapshots
    mlx_swarm.Placement.Validate.validate_stage_cost_estimate
    mlx_swarm.Placement.Profiles.validate_profile_snapshot mlx_swarm.Registry.Index.index_from
    mlx_swarm.Registry.Index.index_workers mlx_swarm.Registry.Leases.status_fresh
plan_scored = (refl, refl, refl)

abbrev range_from : ℕ → ℕ → RangeCostEstimate
range_from start end = record {
  layer_start = pos start;
  layer_end = pos end;
  estimate = stage_cost;
}

-- A search over the two halves of the model.
abbrev pub two_ranges : PlanConstructionRequest
two_ranges = record {
  model = small_model;
  scoring = record scoring_request { stages = [] };
  terminal_response_mode = sampled_token;
  max_stages = pos 2;
  max_search_operations = 8;
  ranges = range_from 2 4 ∷ range_from 0 2 ∷ [];
}

abbrev result_or : Construction → PlanConstructionResult → PlanConstructionResult
result_or (constructed r) other = r
result_or (limit_reached r) other = other
result_or (not_constructed e) other = other

abbrev plan_or : Option PlanEvaluation → PlanEvaluation → PlanEvaluation
plan_or none other = other
plan_or (some e) other = e

unfoldable pub two_stage_construction : PlanConstructionResult
unfolding construct_plan
two_stage_construction =
    result_or (construct_plan owner_digests two_workers empty_profile two_ranges)
      (empty_result two_workers empty_profile two_ranges)

unfoldable pub constructed_plan : PlanEvaluation
unfolding two_stage_construction
constructed_plan = plan_or two_stage_construction.selected_plan two_stage_evaluation

-- Four operations evaluate the ranges, two choose a worker for the first half, and two another one
-- for the second.
pub plan_constructed :
    (construct_plan owner_digests two_workers empty_profile two_ranges
      ≡ constructed two_stage_construction)
    × (two_stage_construction.selected_plan ≡ some constructed_plan)
    × (two_stage_construction.search_operation_count ≡ 8)
    × (constructed_plan.score.estimated_micros ≡ 2200)
unfolding constructed_plan mlx_swarm.Placement.Ranges.normalize_plan_construction_request
    mlx_swarm.Placement.Validate.validate_scoring_snapshots mlx_swarm.Base.Int.ℤ-discrete
    mlx_swarm.Base.ℕ_discrete mlx_swarm.Base.Text.string_discrete
    mlx_swarm.Placement.Profiles.profiles_fault
    mlx_swarm.Placement.Validate.validate_scoring_context
    mlx_swarm.Placement.Validate.normalize_scoring_request mlx_swarm.Base.Text.trim_space
    mlx_swarm.Base.Order.compare_int mlx_swarm.Generation.Plan.derive_execution_shard_id
    mathlib.Core.Bool.xor mlx_swarm.Placement.Validate.validate_stage_cost_estimate
    mlx_swarm.Placement.Eligibility.evaluate_candidates mlx_swarm.Registry.Index.index_workers
    mlx_swarm.Placement.Validate.validate_scoring_inputs
    mlx_swarm.Generation.Plan.validate_execution_plan mlx_swarm.Generation.Plan.validate_stages
    mlx_swarm.Base.Text.seen_in mlx_swarm.Generation.Types.mode_discrete
    mlx_swarm.Generation.Plan.execution_plan_revision mlx_swarm.Generation.Plan.validate_shards
    mlx_swarm.Base.Decimal.decimal mlx_swarm.Placement.ScorePlan.stage_evidence
    mlx_swarm.Base.GoMap.delete mlx_swarm.Base.GoMap.get mlx_swarm.Base.GoMap.put
    mlx_swarm.Base.Bool-cases mlx_swarm.Base.Text.byte_length mlx_swarm.Base.Text.is_empty
    mlx_swarm.Base.Text.is_space mlx_swarm.Base.Text.str_lt mlx_swarm.Base.Text.trim_left
    mlx_swarm.Base.Text.trim_right mlx_swarm.Generation.Plan.execution_shard_id
    mlx_swarm.Generation.Types.model_discrete mlx_swarm.Placement.Arithmetic.checked_score_add
    mlx_swarm.Placement.Arithmetic.multiply_divide_ceil
    mlx_swarm.Placement.Arithmetic.multiply_uint64 mlx_swarm.Placement.Eligibility.add_uint64
    mlx_swarm.Placement.Eligibility.advertised_transport
    mlx_swarm.Placement.Eligibility.compatible_retained_shard
    mlx_swarm.Placement.Eligibility.evaluate_candidate mlx_swarm.Placement.Eligibility.is_compatible
    mlx_swarm.Placement.Eligibility.rejections mlx_swarm.Placement.Eligibility.stage_operations
    mlx_swarm.Placement.ScorePlan.evaluation_of mlx_swarm.Placement.ScorePlan.find_candidate
    mlx_swarm.Placement.ScorePlan.score_plan mlx_swarm.Placement.ScorePlan.score_stages
    mlx_swarm.Placement.ScorePlan.scored mlx_swarm.Placement.ScorePlan.stage_requirement
    mlx_swarm.Placement.Scoring.bandwidth_profiled mlx_swarm.Placement.Scoring.estimate_compute
    mlx_swarm.Placement.Scoring.find_compute_profile mlx_swarm.Placement.Scoring.find_link_profile
    mlx_swarm.Placement.Scoring.link_bandwidth mlx_swarm.Placement.Scoring.link_rtt
    mlx_swarm.Placement.Scoring.merge_stage_score mlx_swarm.Placement.Scoring.new_load
    mlx_swarm.Placement.Scoring.per_call mlx_swarm.Placement.Scoring.score_stage_compute
    mlx_swarm.Placement.Scoring.score_stage_transfer mlx_swarm.Placement.Validate.estimates_fault
    mlx_swarm.Placement.Profiles.validate_profile_snapshot mlx_swarm.Registry.Index.index_from
    mlx_swarm.Registry.Leases.status_fresh mlx_swarm.Base.Order.compare_strings
    mlx_swarm.Base.Order.compare_lists mlx_swarm.Placement.Compare.compare_stages
    mlx_swarm.Placement.Planner.evaluate_complete_plan
    mlx_swarm.Generation.Plan.build_execution_plan mlx_swarm.Placement.PlanTypes.score_discrete
    mlx_swarm.Placement.Partial.ordered_partial_plans
    mlx_swarm.Placement.Partial.partial_uses_worker mlx_swarm.Placement.Partial.extend_partial_plan
    mlx_swarm.Placement.Partial.ordered_bucket mlx_swarm.Placement.Partial.keep_better
    mlx_swarm.Placement.Partial.compare_partial_plans
    mlx_swarm.Placement.Compare.compare_plan_scores
    mlx_swarm.Placement.Compare.compare_plan_identity
plan_constructed = (refl, refl, refl, refl)
