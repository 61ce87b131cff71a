-- ===== src/Generation/Types.antt =====
-- The plan records of internal/generation/execution_plan.go.
use mlx_swarm.Base.{String, Bool, List}
use mlx_swarm.Base.Int.{ℤ, ℤ-discrete}
use mlx_swarm.Base.Text.{string_discrete}

-- `StageResponseMode` is a string in the source; two values are supported.
pub data StageResponseMode : Type 0 where
  tensor sampled_token : StageResponseMode
  unsupported_mode : String → StageResponseMode

unfoldable pub mode_discrete : Discrete StageResponseMode
mode_discrete = hlevel string_discrete

pub record ExecutionModel : Type 0 where
  pub id : String
  pub checkpoint_fingerprint : String
  pub layer_count : ℤ

pub record ExecutionStage : Type 0 where
  pub name : String
  pub target_id : String
  pub shard_id : String
  pub layer_start : ℤ
  pub layer_end : ℤ
  pub owns_input : Bool
  pub owns_output : Bool
  pub response_mode : StageResponseMode

pub record ExecutionPlan : Type 0 where
  pub schema_version : String
  pub revision : String
  pub inventory_revision : String
  pub model : ExecutionModel
  pub stages : List ExecutionStage

-- `==` on models and on stages.
unfoldable pub model_discrete : Discrete ExecutionModel
model_discrete = hlevel (string_discrete, ℤ-discrete)

unfoldable pub stage_discrete : Discrete ExecutionStage
stage_discrete = hlevel (string_discrete, ℤ-discrete, mode_discrete)
