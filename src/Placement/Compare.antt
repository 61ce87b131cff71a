-- ===== src/Placement/Compare.antt =====
-- internal/placement/scoring.go: the order of evaluated plans. A loop over pairs of fields that
-- returns the first difference is the chain of their comparisons.
use Prim.Native.Nat.{compare, Ordering}
use mlx_swarm.Base.{String, not, length}
use mlx_swarm.Base.Order.{
  or_else, IsOrder, compare_int, compare_bool, compare_strings, compare_lists, compare-IsOrder,
  compare_int-IsOrder, compare_bool-IsOrder, compare_strings-IsOrder, on-IsOrder,
  compare_lists-IsOrder, then_on,
}
use mlx_swarm.Generation.Types.{
  StageResponseMode, tensor, sampled_token, unsupported_mode, ExecutionStage, ExecutionPlan,
}
use mlx_swarm.Placement.Types.{PlanScore, PlanEvaluation}

-- The string of a response mode.
unfoldable pub mode_text : StageResponseMode → String
mode_text tensor = "tensor"
mode_text sampled_token = "sampledToken"
mode_text (unsupported_mode s) = s

-- `comparePlanScores`.
unfoldable pub compare_plan_scores : PlanScore → PlanScore → Ordering
compare_plan_scores l r = or_else (compare l.estimated_micros r.estimated_micros) (
    or_else (compare l.recent_failure_count r.recent_failure_count) (
      or_else (compare l.memory_pressure_bytes r.memory_pressure_bytes) (
        or_else (compare l.new_load_memory_bytes r.new_load_memory_bytes) (
          or_else (compare l.required_additional_memory_bytes r.required_additional_memory_bytes) (
            or_else (compare l.restart_count r.restart_count)
              (compare l.stage_count r.stage_count))))))

-- The comparison of two stages at one index.
unfoldable pub compare_stages : ExecutionStage → ExecutionStage → Ordering
compare_stages l r = or_else (compare_strings l.name r.name) (
    or_else (compare_strings l.target_id r.target_id) (
      or_else (compare_strings (mode_text l.response_mode) (mode_text r.response_mode)) (
        or_else (compare_int l.layer_start r.layer_start) (
          or_else (compare_int l.layer_end r.layer_end) (
            or_else (compare_bool l.owns_input r.owns_input) (
              or_else (compare_bool l.owns_output r.owns_output)
                (compare_strings l.shard_id r.shard_id)))))))

-- `comparePlanIdentity`. The stages are compared where their numbers agree.
unfoldable pub compare_plan_identity : ExecutionPlan → ExecutionPlan → Ordering
compare_plan_identity l r = or_else (compare_strings l.schema_version r.schema_version) (
    or_else (compare_strings l.inventory_revision r.inventory_revision) (
      or_else (compare_strings l.model.id r.model.id) (
        or_else (compare_strings l.model.checkpoint_fingerprint r.model.checkpoint_fingerprint) (
          or_else (compare_int l.model.layer_count r.model.layer_count) (
            or_else (compare (length l.stages) (length r.stages)) (
              or_else (compare_lists compare_stages l.stages r.stages)
                (compare_strings l.revision r.revision)))))))

-- `ComparePlanEvaluations`: an eligible plan before one that is not.
unfoldable pub compare_plan_evaluations : PlanEvaluation → PlanEvaluation → Ordering
compare_plan_evaluations l r =
    or_else (compare_bool (not l.eligible) (not r.eligible))
      (or_else (compare_plan_scores l.score r.score) (compare_plan_identity l.plan r.plan))

compare_plan_scores-IsOrder : IsOrder compare_plan_scores
unfolding compare_plan_scores
compare_plan_scores-IsOrder =
    (then_on compare (λ s. s.estimated_micros) _ compare-IsOrder
      (then_on compare (λ s. s.recent_failure_count) _ compare-IsOrder
        (then_on compare (λ s. s.memory_pressure_bytes) _ compare-IsOrder
          (then_on compare (λ s. s.new_load_memory_bytes) _ compare-IsOrder
            (then_on compare (λ s. s.required_additional_memory_bytes) _ compare-IsOrder
              (then_on compare (λ s. s.restart_count) _ compare-IsOrder
                (on-IsOrder compare (λ s. s.stage_count) compare-IsOrder)))))))

compare_stages-IsOrder : IsOrder compare_stages
unfolding compare_stages
compare_stages-IsOrder =
    (then_on compare_strings (λ s. s.name) _ compare_strings-IsOrder
      (then_on compare_strings (λ s. s.target_id) _ compare_strings-IsOrder
        (then_on compare_strings (λ s. mode_text s.response_mode) _ compare_strings-IsOrder
          (then_on compare_int (λ s. s.layer_start) _ compare_int-IsOrder
            (then_on compare_int (λ s. s.layer_end) _ compare_int-IsOrder
              (then_on compare_bool (λ s. s.owns_input) _ compare_bool-IsOrder
                (then_on compare_bool (λ s. s.owns_output) _ compare_bool-IsOrder
                  (on-IsOrder compare_strings (λ s. s.shard_id) compare_strings-IsOrder))))))))

compare_plan_identity-IsOrder : IsOrder compare_plan_identity
unfolding compare_plan_identity
compare_plan_identity-IsOrder =
    (then_on compare_strings (λ s. s.schema_version) _ compare_strings-IsOrder
      (then_on compare_strings (λ s. s.inventory_revision) _ compare_strings-IsOrder
        (then_on compare_strings (λ s. s.model.id) _ compare_strings-IsOrder
          (then_on compare_strings (λ s. s.model.checkpoint_fingerprint) _ compare_strings-IsOrder
            (then_on compare_int (λ s. s.model.layer_count) _ compare_int-IsOrder
              (then_on compare (λ s. length s.stages) _ compare-IsOrder
                (then_on (compare_lists compare_stages) (λ s. s.stages) _
                  (compare_lists-IsOrder compare_stages compare_stages-IsOrder)
                  (on-IsOrder compare_strings (λ s. s.revision) compare_strings-IsOrder))))))))

-- The comparison of evaluated plans is a total order up to what it calls equal: a plan is equal to
-- itself, to swap two plans is to flip the result, plans called equal compare alike with every other,
-- and what is preferred to a preferred plan is preferred.
pub compare_plan_evaluations-IsOrder : IsOrder compare_plan_evaluations
unfolding compare_plan_evaluations
compare_plan_evaluations-IsOrder =
    (then_on compare_bool (λ e. not e.eligible) _ compare_bool-IsOrder
      (then_on compare_plan_scores (λ e. e.score) _ compare_plan_scores-IsOrder
        (on-IsOrder compare_plan_identity (λ e. e.plan) compare_plan_identity-IsOrder)))
