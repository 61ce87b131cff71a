-- ===== src/Generation/Plan.antt =====
-- internal/generation/execution_plan.go: the identity and the validation of an execution plan. The
-- digests (JSON, SHA-256 and hexadecimal) are parameters, functions of the payload that is encoded.
use mathlib.Core.Bool.{xor}
use mlx_swarm.Base.{
  ℕ, ◌+◌, String, Bool, not, ◌&&◌, ◌||◌, List, [], ◌∷◌, map, Option, none, some, length,
  first_fault, and_also, ◌==◌, if◌then◌else◌, is_yes,
}
use mlx_swarm.Base.Int.{ℤ, pos, ltb_ℤ, leb_ℤ, eqb_ℤ}
use mlx_swarm.Base.Text.{string_discrete, is_empty_string, seen_in}
use mlx_swarm.Generation.Types.{
  StageResponseMode, tensor, sampled_token, unsupported_mode, mode_discrete, ExecutionModel,
  ExecutionStage, ExecutionPlan,
}

-- `executionPlanSchemaVersion`.
abbrev pub plan_schema : String
plan_schema = "2"

-- The stage fields of a revision: all but the shard ID.
pub record RevisionStage : Type 0 where
  pub name : String
  pub target_id : String
  pub layer_start : ℤ
  pub layer_end : ℤ
  pub owns_input : Bool
  pub owns_output : Bool
  pub response_mode : StageResponseMode

pub record RevisionPayload : Type 0 where
  pub schema_version : String
  pub inventory_revision : String
  pub model : ExecutionModel
  pub stages : List RevisionStage

-- The fields of a shard's identity.
pub record ShardPayload : Type 0 where
  pub schema_version : String
  pub model : ExecutionModel
  pub layer_start : ℤ
  pub layer_end : ℤ
  pub owns_input : Bool
  pub owns_output : Bool

-- The digest of a revision, and the name "generate-shard-start-end-digest" of a shard.
pub record Digests : Type 0 where
  pub revision_digest : RevisionPayload → String
  pub shard_name : ShardPayload → String

abbrev pub revision_stage : ExecutionStage → RevisionStage
revision_stage s = record {
  name = s.name;
  target_id = s.target_id;
  layer_start = s.layer_start;
  layer_end = s.layer_end;
  owns_input = s.owns_input;
  owns_output = s.owns_output;
  response_mode = s.response_mode;
}

abbrev pub revision_payload : ExecutionPlan → RevisionPayload
revision_payload plan = record {
  schema_version = plan.schema_version;
  inventory_revision = plan.inventory_revision;
  model = plan.model;
  stages = map revision_stage plan.stages;
}

unfoldable pub execution_plan_revision : Digests → ExecutionPlan → String
execution_plan_revision d plan = d.revision_digest (revision_payload plan)

unfoldable pub execution_shard_id : Digests → ExecutionModel → ExecutionStage → String
execution_shard_id d model stage = d.shard_name (record {
  schema_version = plan_schema;
  model = model;
  layer_start = stage.layer_start;
  layer_end = stage.layer_end;
  owns_input = stage.owns_input;
  owns_output = stage.owns_output;
})

pub data PlanError : Type 0 where
  unsupported_schema model_id_required fingerprint_required layer_count_not_positive no_stages :
      PlanError
  too_many_stages incomplete_tiling revision_mismatch targets_required stages_exceed_layers :
      PlanError
  stage_without_name stage_without_target stage_without_shard wrong_start invalid_range :
      ℕ → PlanError
  beyond_model wrong_input_owner wrong_output_owner unsupported_response : ℕ → PlanError
  intermediate_response shard_mismatch : ℕ → PlanError
  duplicated_name duplicated_target duplicated_shard : String → PlanError
  incomplete_model invalid_shard_range wrong_ownership : PlanError

abbrev pub is_tensor : StageResponseMode → Bool
is_tensor mode = is_yes (mode_discrete mode tensor)

abbrev pub is_supported : StageResponseMode → Bool
is_supported mode = is_tensor mode || is_yes (mode_discrete mode sampled_token)

abbrev pub header_faults : ExecutionPlan → List (Bool × PlanError)
header_faults plan =
    (not (is_yes (string_discrete plan.schema_version plan_schema)), unsupported_schema)
    ∷ (is_empty_string plan.model.id, model_id_required)
    ∷ (is_empty_string plan.model.checkpoint_fingerprint, fingerprint_required)
    ∷ (leb_ℤ plan.model.layer_count (pos 0), layer_count_not_positive)
    ∷ (length plan.stages == 0, no_stages)
    ∷ (ltb_ℤ plan.model.layer_count (pos (length plan.stages)), too_many_stages)
    ∷ []

-- What the loop has seen: names, targets and shards, and the layer where the next stage starts.
pub record Seen : Type 0 where
  pub names : List String
  pub targets : List String
  pub shards : List String
  pub expected_start : ℤ

abbrev pub see : Seen → ExecutionStage → Seen
see seen s = record {
  names = s.name ∷ seen.names;
  targets = s.target_id ∷ seen.targets;
  shards = s.shard_id ∷ seen.shards;
  expected_start = s.layer_end;
}

-- The tests of one stage; `last` says that it is the plan's last one.
abbrev pub stage_faults : ℤ → ℕ → Bool → Seen → ExecutionStage → List (Bool × PlanError)
stage_faults layer_count index last seen s =
    (is_empty_string s.name, stage_without_name index)
    ∷ (seen_in s.name seen.names, duplicated_name s.name)
    ∷ (is_empty_string s.target_id, stage_without_target index)
    ∷ (seen_in s.target_id seen.targets, duplicated_target s.target_id)
    ∷ (is_empty_string s.shard_id, stage_without_shard index)
    ∷ (seen_in s.shard_id seen.shards, duplicated_shard s.shard_id)
    ∷ (not (eqb_ℤ s.layer_start seen.expected_start), wrong_start index)
    ∷ (leb_ℤ s.layer_end s.layer_start, invalid_range index)
    ∷ (ltb_ℤ layer_count s.layer_end, beyond_model index)
    ∷ (xor s.owns_input (index == 0), wrong_input_owner index)
    ∷ (xor s.owns_output last, wrong_output_owner index)
    ∷ (last && not (is_supported s.response_mode), unsupported_response index)
    ∷ (not last && not (is_tensor s.response_mode), intermediate_response index)
    ∷ []

-- The loop over the stages, then the test of the layer where it ends.
unfoldable pub validate_stages : ℤ → ℕ → ℕ → Seen → List ExecutionStage → Option PlanError
validate_stages layer_count total index seen [] =
    if eqb_ℤ seen.expected_start layer_count then none else some incomplete_tiling
validate_stages layer_count total index seen (s ∷ ss) =
    and_also (first_fault (stage_faults layer_count index (index + 1 == total) seen s))
      (validate_stages layer_count total (index + 1) (see seen s) ss)

unfoldable pub validate_shards :
    Digests → ExecutionModel → ℕ → List ExecutionStage → Option PlanError
unfolding execution_shard_id
validate_shards d model index [] = none
validate_shards d model index (s ∷ ss) =
    let rest = validate_shards d model (index + 1) ss in
    if is_yes (string_discrete s.shard_id (execution_shard_id d model s))
    then rest
    else some (shard_mismatch index)

abbrev pub nothing_seen : Seen
nothing_seen = record { names = []; targets = []; shards = []; expected_start = pos 0 }

abbrev pub revision_fault : Digests → ExecutionPlan → Option PlanError
revision_fault d plan =
    if is_yes (string_discrete plan.revision (execution_plan_revision d plan))
    then none
    else some revision_mismatch

-- `ValidateExecutionPlan`; `none` is a nil error.
unfoldable pub validate_execution_plan : Digests → ExecutionPlan → Option PlanError
validate_execution_plan d plan = and_also (first_fault (header_faults plan)) (
    and_also
      (validate_stages plan.model.layer_count (length plan.stages) 0 nothing_seen plan.stages)
      (and_also (revision_fault d plan) (validate_shards d plan.model 0 plan.stages)))

abbrev pub with_shard_id : Digests → ExecutionModel → ExecutionStage → ExecutionStage
with_shard_id d model s = record s { shard_id = execution_shard_id d model s }

unfoldable pub finalize_execution_plan : Digests → ExecutionPlan → ExecutionPlan
unfolding execution_plan_revision execution_shard_id
finalize_execution_plan d plan = record plan {
  revision = execution_plan_revision d plan;
  stages = map (with_shard_id d plan.model) plan.stages;
}

pub data Built : Type 0 where
  plan : ExecutionPlan → Built
  invalid : PlanError → Built

abbrev pub built : Option PlanError → ExecutionPlan → Built
built none p = plan p
built (some e) p = invalid e

unfoldable pub build_execution_plan :
    Digests → ExecutionModel → String → List ExecutionStage → Built
unfolding finalize_execution_plan validate_execution_plan
build_execution_plan d model inventory_revision stages =
    let p : ExecutionPlan = finalize_execution_plan d (record {
      schema_version = plan_schema;
      revision = "";
      inventory_revision = inventory_revision;
      model = model;
      stages = stages;
    }) in
    built (validate_execution_plan d p) p

pub data ShardId : Type 0 where
  shard_id : String → ShardId
  no_shard : PlanError → ShardId

abbrev pub shard_of : Option PlanError → String → ShardId
shard_of none id = shard_id id
shard_of (some e) id = no_shard e

-- The tests of `DeriveExecutionShardID`.
abbrev pub shard_faults : ExecutionModel → ℤ → ℤ → Bool → Bool → List (Bool × PlanError)
shard_faults model layer_start layer_end owns_input owns_output =
    (
      is_empty_string model.id
          || is_empty_string model.checkpoint_fingerprint
          || leb_ℤ model.layer_count (pos 0),
      incomplete_model,
    )
    ∷ (
      ltb_ℤ layer_start (pos 0) || leb_ℤ layer_end layer_start || ltb_ℤ model.layer_count layer_end,
      invalid_shard_range,
    )
    ∷ (
      xor owns_input (eqb_ℤ layer_start (pos 0))
          || xor owns_output (eqb_ℤ layer_end model.layer_count),
      wrong_ownership,
    )
    ∷ []

-- `DeriveExecutionShardID`.
unfoldable pub derive_execution_shard_id : Digests → ExecutionModel → ℤ → ℤ → Bool → Bool → ShardId
unfolding execution_shard_id
derive_execution_shard_id d model layer_start layer_end owns_input owns_output =
    shard_of (first_fault (shard_faults model layer_start layer_end owns_input owns_output)) (
      execution_shard_id d model (record {
        name = "";
        target_id = "";
        shard_id = "";
        layer_start = layer_start;
        layer_end = layer_end;
        owns_input = owns_input;
        owns_output = owns_output;
        response_mode = unsupported_mode "";
      }))
