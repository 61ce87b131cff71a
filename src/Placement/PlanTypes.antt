-- ===== src/Placement/PlanTypes.antt =====
-- internal/placement/planner.go: the search's input, its evidence and its partial plans.
use mlx_swarm.Base.{ℕ, Bool, List, Option, ℕ_discrete}
use mlx_swarm.Base.Int.{ℤ}
use mlx_swarm.Registry.Types.{Worker}
use mlx_swarm.Generation.Types.{StageResponseMode, ExecutionModel, ExecutionStage}
use mlx_swarm.Placement.Types.{
  StageCostEstimate, PlanScoringRequest, StageComputeScore, StageTransferScore, PlanScore,
  PlanEvaluation, Candidate,
}
use mlx_swarm.Placement.Validate.{PlacementError}

pub record RangeCostEstimate : Type 0 where
  pub layer_start : ℤ
  pub layer_end : ℤ
  pub estimate : StageCostEstimate

pub record PlanConstructionRequest : Type 0 where
  pub model : ExecutionModel
  pub scoring : PlanScoringRequest
  pub terminal_response_mode : StageResponseMode
  pub max_stages : ℤ
  pub max_search_operations : ℕ
  pub ranges : List RangeCostEstimate

-- Of a range's eligibility evidence, the candidates are kept.
pub record RangePlanEvaluation : Type 0 where
  pub layer_start : ℤ
  pub layer_end : ℤ
  pub estimate : StageCostEstimate
  pub eligibility : List Candidate

pub record PlanConstructionResult : Type 0 where
  pub schema_version : ℤ
  pub inventory_revision : ℕ
  pub profile_revision : ℕ
  pub generated_at : ℕ
  pub request : PlanConstructionRequest
  pub candidate_worker_count : ℕ
  pub search_operation_count : ℕ
  pub retained_search_state_count : ℕ
  pub complete_plan_count : ℕ
  pub search_limit_reached : Bool
  pub ranges : List RangePlanEvaluation
  pub selected_plan : Option PlanEvaluation

pub record PlanStageOption : Type 0 where
  pub worker : Worker
  pub candidate : Candidate
  pub compute : StageComputeScore
  pub transfer : StageTransferScore

pub record PlanRangeSearch : Type 0 where
  pub range : RangeCostEstimate
  pub evaluation : List Candidate
  pub options : List PlanStageOption

pub record PartialPlan : Type 0 where
  pub end : ℤ
  pub stages : List ExecutionStage
  pub estimates : List StageCostEstimate
  pub score : PlanScore

-- `==` on scores.
unfoldable pub score_discrete : Discrete PlanScore
score_discrete = hlevel ℕ_discrete

-- What a construction returns: a result, the result of a search that its limit stopped, with the
-- error, or an error alone.
pub data Construction : Type 0 where
  constructed : PlanConstructionResult → Construction
  limit_reached : PlanConstructionResult → Construction
  not_constructed : PlacementError → Construction
