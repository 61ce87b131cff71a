-- ===== src/Placement/Types.antt =====
-- The evidence records of internal/placement: the hard constraints, the profiles, the scores.
use mlx_swarm.Base.{ℕ, String, Bool, false, List, [], ◌∷◌, Option, none}
use mlx_swarm.Base.Int.{ℤ}
use mlx_swarm.Generation.Types.{ExecutionModel, ExecutionStage, ExecutionPlan}

pub data RejectionCode : Type 0 where
  stale_status unhealthy unsupported_adapter incompatible_checkpoint unsupported_operation :
      RejectionCode
  unsupported_transport unsupported_encoding tls_required worker_capacity_exhausted : RejectionCode
  insufficient_memory retained_budget_exceeded sequence_capacity_exhausted : RejectionCode

pub record TransportRequirement : Type 0 where
  pub protocol : String
  pub tensor_encoding : String
  pub require_tls : Bool

pub record StageRequirement : Type 0 where
  pub model : ExecutionModel
  pub adapter : String
  pub shard_id : String
  pub layer_start : ℤ
  pub layer_end : ℤ
  pub owns_input : Bool
  pub owns_output : Bool
  pub load_memory_bytes : ℕ
  pub sequence_memory_bytes : ℕ
  pub transport : TransportRequirement
  pub status_max_age_millis : ℤ

-- A rejection is its code; the detail, a text for the operator, is left out.
pub record Candidate : Type 0 where
  pub worker_id : String
  pub endpoint : String
  pub eligible : Bool
  pub reuses_retained_shard : Bool
  pub retained_shard_id : String
  pub required_additional_memory_bytes : ℕ
  pub rejections : List RejectionCode

pub record StageCostEstimate : Type 0 where
  pub load_memory_bytes : ℕ
  pub sequence_memory_bytes : ℕ
  pub prefill_wire_bytes : ℕ
  pub decode_wire_bytes_per_step : ℕ
  pub fallback_prefill_compute_micros : ℕ
  pub fallback_decode_compute_micros_per_step : ℕ

pub record PlanScoringRequest : Type 0 where
  pub adapter : String
  pub transport : TransportRequirement
  pub coordinator_id : String
  pub coordinator_instance_id : String
  pub status_max_age_millis : ℤ
  pub prefill_input_tokens : ℕ
  pub decode_steps : ℕ
  pub fallback_rtt_micros : ℕ
  pub fallback_bytes_per_second : ℕ
  pub stages : List StageCostEstimate

pub record ValueDistribution : Type 0 where
  pub count : ℤ
  pub minimum : ℕ
  pub p50 : ℕ
  pub p95 : ℕ
  pub maximum : ℕ

-- `linkKey` and `computeKey`, the identity of a series.
pub record LinkKey : Type 0 where
  pub source_id : String
  pub source_instance_id : String
  pub target_id : String
  pub target_instance_id : String
  pub protocol : String
  pub tensor_encoding : String

pub record ComputeKey : Type 0 where
  pub worker_id : String
  pub worker_instance_id : String
  pub backend : String
  pub model : ExecutionModel
  pub operation : String
  pub layer_start : ℤ
  pub layer_end : ℤ

-- The identity fields of a profile are those of its key.
pub record LinkProfile : Type 0 where
  pub key : LinkKey
  pub open key use *
  pub latest_observed_at : ℕ
  pub rtt_micros : ValueDistribution
  pub effective_bytes_per_second : ValueDistribution

pub record ComputeProfile : Type 0 where
  pub key : ComputeKey
  pub open key use *
  pub latest_observed_at : ℕ
  pub input_token_count : ValueDistribution
  pub compute_micros : ValueDistribution

pub record ProfileSnapshot : Type 0 where
  pub schema_version : ℤ
  pub revision : ℕ
  pub generated_at : ℕ
  pub max_age_millis : ℤ
  pub max_samples_per_series : ℤ
  pub max_series : ℤ
  pub links : List LinkProfile
  pub compute : List ComputeProfile

pub record StageComputeScore : Type 0 where
  pub prefill_micros : ℕ
  pub decode_micros : ℕ
  pub total_micros : ℕ
  pub prefill_profiled : Bool
  pub decode_profiled : Bool
  pub prefill_profile : Option ComputeProfile
  pub decode_profile : Option ComputeProfile

pub record StageTransferScore : Type 0 where
  pub rtt_micros : ℕ
  pub bytes_per_second : ℕ
  pub prefill_micros : ℕ
  pub decode_micros : ℕ
  pub total_micros : ℕ
  pub rtt_profiled : Bool
  pub bandwidth_profiled : Bool
  pub link_profile : Option LinkProfile

-- Of a stage's eligibility evidence, the candidates are kept.
pub record StagePlanEvaluation : Type 0 where
  pub index : ℕ
  pub stage : ExecutionStage
  pub eligibility : List Candidate
  pub selected_candidate : Candidate
  pub compute : StageComputeScore
  pub transfer : StageTransferScore

-- The counts are of a plan's stages and operations.
pub record PlanScore : Type 0 where
  pub stage_count : ℕ
  pub estimated_micros : ℕ
  pub compute_micros : ℕ
  pub transfer_micros : ℕ
  pub recent_failure_count : ℕ
  pub restart_count : ℕ
  pub memory_pressure_bytes : ℕ
  pub required_additional_memory_bytes : ℕ
  pub new_load_memory_bytes : ℕ
  pub reused_stage_count : ℕ
  pub profiled_compute_operation_count : ℕ
  pub profiled_rtt_stage_count : ℕ
  pub profiled_bandwidth_stage_count : ℕ

pub record PlanEvaluation : Type 0 where
  pub schema_version : ℤ
  pub inventory_revision : ℕ
  pub profile_revision : ℕ
  pub profile_max_age_millis : ℤ
  pub generated_at : ℕ
  pub plan : ExecutionPlan
  pub request : PlanScoringRequest
  pub eligible : Bool
  pub stages : List StagePlanEvaluation
  pub score : PlanScore

-- The zero scores of a stage that is not scored, and of a plan before its first stage.
abbrev pub zero_compute : StageComputeScore
zero_compute = record {
  prefill_micros = 0;
  decode_micros = 0;
  total_micros = 0;
  prefill_profiled = false;
  decode_profiled = false;
  prefill_profile = none;
  decode_profile = none;
}

abbrev pub zero_transfer : StageTransferScore
zero_transfer = record {
  rtt_micros = 0;
  bytes_per_second = 0;
  prefill_micros = 0;
  decode_micros = 0;
  total_micros = 0;
  rtt_profiled = false;
  bandwidth_profiled = false;
  link_profile = none;
}

abbrev pub zero_score : PlanScore
zero_score = record {
  stage_count = 0;
  estimated_micros = 0;
  compute_micros = 0;
  transfer_micros = 0;
  recent_failure_count = 0;
  restart_count = 0;
  memory_pressure_bytes = 0;
  required_additional_memory_bytes = 0;
  new_load_memory_bytes = 0;
  reused_stage_count = 0;
  profiled_compute_operation_count = 0;
  profiled_rtt_stage_count = 0;
  profiled_bandwidth_stage_count = 0;
}

-- The candidates that the stages selected, as admission reads them.
abbrev pub selected : List StagePlanEvaluation → List Candidate
selected [] = []
selected (s ∷ ss) = s.selected_candidate ∷ selected ss
