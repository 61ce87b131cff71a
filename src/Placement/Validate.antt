-- ===== src/Placement/Validate.antt =====
-- internal/placement/scoring.go: the validation of a plan's scoring.
use mlx_swarm.Base.{
  ℕ, String, Bool, not, ◌||◌, List, [], ◌∷◌, Option, none, some, length, first_fault, and_also,
  ◌==◌, if◌then◌else◌, is_yes,
}
use mlx_swarm.Base.Int.{pos, ltb_ℤ, leb_ℤ, eqb_ℤ}
use mlx_swarm.Base.Text.{string_discrete, is_empty_string, seen_in, trim_space}
use mlx_swarm.Base.Decimal.{decimal}
use mlx_swarm.Registry.Types.{Worker, Inventory}
use mlx_swarm.Registry.Validate.{schema_version}
use mlx_swarm.Generation.Types.{ExecutionPlan}
use mlx_swarm.Generation.Plan.{Digests, PlanError, validate_execution_plan}
use mlx_swarm.Placement.Types.{StageCostEstimate, PlanScoringRequest, ProfileSnapshot}
use mlx_swarm.Placement.Eligibility.{InputError, add_uint64}
use mlx_swarm.Placement.Arithmetic.{ScoreError, multiply_uint64}
use mlx_swarm.Placement.Profiles.{ProfileFault, validate_profile_snapshot}

-- The errors of scoring and of planning.
pub data PlacementError : Type 0 where
  bad_plan : PlanError → PlacementError
  bad_profile : ProfileFault → PlacementError
  bad_requirement : InputError → PlacementError
  bad_score : ScoreError → PlacementError
  wrong_revision wrong_inventory incomplete_inventory duplicated_worker : PlacementError
  wrong_profile_schema times_differ incomplete_context no_transport negative_age : PlacementError
  no_tokens no_fallbacks wrong_estimate_count incomplete_estimate memory_overflow : PlacementError
  wire_overflow fallback_overflow missing_target stages_given incomplete_model : PlacementError
  wrong_response_mode wrong_stage_limit no_ranges duplicated_range : PlacementError
  unknown_worker score_disagrees : PlacementError

abbrev pub as_profile_error : Option ProfileFault → Option PlacementError
as_profile_error none = none
as_profile_error (some e) = some (bad_profile e)

abbrev pub as_plan_error : Option PlanError → Option PlacementError
as_plan_error none = none
as_plan_error (some e) = some (bad_plan e)

abbrev pub duplicate_ids : List String → List Worker → Bool
duplicate_ids seen [] = Bool.false
duplicate_ids seen (w ∷ ws) = let rest = duplicate_ids (w.id ∷ seen) ws in seen_in w.id seen || rest

-- `normalizeScoringRequest`.
unfoldable pub normalize_scoring_request : PlanScoringRequest → PlanScoringRequest
normalize_scoring_request q = record q {
  adapter = trim_space q.adapter;
  transport = record q.transport {
    protocol = trim_space q.transport.protocol;
    tensor_encoding = trim_space q.transport.tensor_encoding;
  };
  coordinator_id = trim_space q.coordinator_id;
  coordinator_instance_id = trim_space q.coordinator_instance_id;
}

-- `validateScoringSnapshots`.
unfoldable pub validate_scoring_snapshots : Inventory → ProfileSnapshot → Option PlacementError
unfolding validate_profile_snapshot
validate_scoring_snapshots inv profile =
    and_also
      (first_fault (
        (not (eqb_ℤ inv.schema_version schema_version), wrong_inventory)
        ∷ ((inv.generated_at == 0) || leb_ℤ inv.lease_ttl_millis (pos 0), incomplete_inventory)
        ∷ (duplicate_ids [] inv.workers, duplicated_worker)
        ∷ (not (eqb_ℤ profile.schema_version (pos 1)), wrong_profile_schema)
        ∷ (not (profile.generated_at == inv.generated_at), times_differ)
        ∷ []))
      (as_profile_error (validate_profile_snapshot profile))

-- `validateScoringContext`.
unfoldable pub validate_scoring_context : PlanScoringRequest → Option PlacementError
validate_scoring_context q = first_fault (
    (
      is_empty_string q.adapter
          || is_empty_string q.coordinator_id
          || is_empty_string q.coordinator_instance_id,
      incomplete_context,
    )
    ∷ (
      is_empty_string q.transport.protocol || is_empty_string q.transport.tensor_encoding,
      no_transport,
    )
    ∷ (ltb_ℤ q.status_max_age_millis (pos 0), negative_age)
    ∷ ((q.prefill_input_tokens == 0) || (q.decode_steps == 0), no_tokens)
    ∷ ((q.fallback_rtt_micros == 0) || (q.fallback_bytes_per_second == 0), no_fallbacks)
    ∷ [])

-- `validateStageCostEstimate`.
unfoldable pub validate_stage_cost_estimate : StageCostEstimate → ℕ → Option PlacementError
unfolding add_uint64 multiply_uint64
validate_stage_cost_estimate e steps = first_fault (
    (
      (e.load_memory_bytes == 0)
          || (e.sequence_memory_bytes == 0)
          || (e.prefill_wire_bytes == 0)
          || (e.decode_wire_bytes_per_step == 0)
          || (e.fallback_prefill_compute_micros == 0)
          || (e.fallback_decode_compute_micros_per_step == 0),
      incomplete_estimate,
    )
    ∷ ((add_uint64 e.load_memory_bytes e.sequence_memory_bytes).1, memory_overflow)
    ∷ ((multiply_uint64 e.decode_wire_bytes_per_step steps).1, wire_overflow)
    ∷ ((multiply_uint64 e.fallback_decode_compute_micros_per_step steps).1, fallback_overflow)
    ∷ [])

unfoldable pub estimates_fault : List StageCostEstimate → ℕ → Option PlacementError
unfolding validate_stage_cost_estimate
estimates_fault [] steps = none
estimates_fault (e ∷ es) steps =
    and_also (validate_stage_cost_estimate e steps) (estimates_fault es steps)

-- `validateScoringInputs`.
unfoldable pub validate_scoring_inputs :
    Digests
    → Inventory
    → ProfileSnapshot
    → ExecutionPlan
    → PlanScoringRequest
    → Option PlacementError
unfolding validate_scoring_snapshots validate_scoring_context estimates_fault
validate_scoring_inputs d inv profile plan q =
    and_also (as_plan_error (validate_execution_plan d plan)) (
      and_also
        (if is_empty_string plan.inventory_revision
            || not (is_yes (string_discrete plan.inventory_revision (decimal inv.revision)))
          then some wrong_revision
          else none)
        (and_also (validate_scoring_snapshots inv profile) (
          and_also (validate_scoring_context q) (
            and_also
              (if length q.stages == length plan.stages then none else some wrong_estimate_count)
              (estimates_fault q.stages q.decode_steps)))))
