-- ===== src/Generation/Tests.antt =====
-- Runs of the theorems on execution plans.
use mlx_swarm.Base.{
  ℕ, ◌≡◌, refl, String, Bool, true, false, List, [], ◌∷◌, map, Option, none, some, arith, get_elem?,
}
use mlx_swarm.Base.Int.{ℤ, pos}
use mlx_swarm.Fixtures.{small_model, first_stage, last_stage}
use mlx_swarm.Generation.Types.{tensor, sampled_token, ExecutionStage, ExecutionPlan}
use mlx_swarm.Generation.Plan.{
  Digests, finalize_execution_plan, validate_execution_plan, build_execution_plan, plan,
  plan_schema, revision_stage, derive_execution_shard_id, shard_id, ShardPayload,
}
use mlx_swarm.Generation.Balanced.{build_balanced_execution_plan}
use mlx_swarm.Generation.Split.{edge, build_balanced_execution_plan-edges}
use mlx_swarm.Generation.Pipeline.{validate_execution_plan-covers, Runs, OnlyAt}
use mlx_swarm.Generation.Agreement.{derive_execution_shard_id-agrees}
use mlx_swarm.Generation.Roundtrip.{build_execution_plan-validates, build_execution_plan-roundtrip}

-- A name of a shard that its input ownership decides.
abbrev shard_by_owner : ShardPayload → String
shard_by_owner p = elim p.owns_input [ true ↦ "x" | false ↦ "y" ]

abbrev constant_digests : Digests
constant_digests = record { revision_digest = λ p. "r"; shard_name = shard_by_owner }

-- The plan of the two stages.
abbrev two_stages : ExecutionPlan
two_stages = record {
  schema_version = "2";
  revision = "r";
  inventory_revision = "i";
  model = small_model;
  stages = record first_stage { shard_id = "x" } ∷ record last_stage { shard_id = "y" } ∷ [];
}

two_stages_accepted : validate_execution_plan constant_digests two_stages ≡ none
unfolding validate_execution_plan mlx_swarm.Base.Text.string_discrete
    mlx_swarm.Generation.Plan.validate_stages mlx_swarm.Base.Text.seen_in
    mlx_swarm.Base.Int.ℤ-discrete mlx_swarm.Base.ℕ_discrete mathlib.Core.Bool.xor
    mlx_swarm.Generation.Types.mode_discrete mlx_swarm.Generation.Plan.execution_plan_revision
    mlx_swarm.Generation.Plan.validate_shards
two_stages_accepted = refl

two_stages_built :
    build_execution_plan constant_digests small_model "i" (first_stage ∷ last_stage ∷ [])
    ≡ plan two_stages
unfolding build_execution_plan mlx_swarm.Base.Text.string_discrete
    mlx_swarm.Generation.Plan.validate_stages mlx_swarm.Base.Text.seen_in
    mlx_swarm.Base.Int.ℤ-discrete mlx_swarm.Base.ℕ_discrete mathlib.Core.Bool.xor
    mlx_swarm.Generation.Types.mode_discrete mlx_swarm.Generation.Plan.validate_shards
two_stages_built = refl

validate_execution_plan-covers_example :
    (i : ℕ) × (s : ExecutionStage) × (get_elem? two_stages.stages i ≡ some s)
    × Runs s (pos 3)
    × OnlyAt two_stages.stages (pos 3) i
validate_execution_plan-covers_example =
    validate_execution_plan-covers constant_digests two_stages two_stages_accepted 3
      (λ h. omega arith)

derive_execution_shard_id-agrees_example :
    derive_execution_shard_id constant_digests small_model (pos 2) (pos 4) false true ≡ shard_id "y"
derive_execution_shard_id-agrees_example =
    derive_execution_shard_id-agrees constant_digests two_stages two_stages_accepted 1
      (record last_stage { shard_id = "y" }) refl

build_execution_plan-validates_example :
    (validate_execution_plan constant_digests two_stages ≡ none)
    × (two_stages.model ≡ small_model)
    × (two_stages.inventory_revision ≡ "i")
    × (map revision_stage two_stages.stages ≡ map revision_stage (first_stage ∷ last_stage ∷ []))
build_execution_plan-validates_example =
    build_execution_plan-validates constant_digests small_model "i" (first_stage ∷ last_stage ∷ [])
      two_stages two_stages_built

build_execution_plan-roundtrip_example :
    build_execution_plan constant_digests small_model "i" two_stages.stages ≡ plan two_stages
build_execution_plan-roundtrip_example =
    build_execution_plan-roundtrip constant_digests two_stages two_stages_accepted

-- Four layers on three targets: two, one and one.
abbrev three_targets : List String
three_targets = "a" ∷ "b" ∷ "c" ∷ []

abbrev shard_by_start : ShardPayload → String
shard_by_start p = elim p.owns_input [
  | true ↦ "x"
  | false ↦ elim p.owns_output [ true ↦ "z" | false ↦ "y" ]
]

abbrev three_digests : Digests
three_digests = record { revision_digest = λ p. "r"; shard_name = shard_by_start }

abbrev middle_stage : ExecutionStage
middle_stage = record {
  name = "stage-1";
  target_id = "b";
  shard_id = "y";
  layer_start = pos 2;
  layer_end = pos 3;
  owns_input = false;
  owns_output = false;
  response_mode = tensor;
}

abbrev three_plan : ExecutionPlan
three_plan = record {
  schema_version = "2";
  revision = "r";
  inventory_revision = "";
  model = small_model;
  stages =
      record middle_stage {
        name = "stage-0";
        target_id = "a";
        shard_id = "x";
        layer_start = pos 0;
        layer_end = pos 2;
        owns_input = true;
      }
      ∷ middle_stage
      ∷ record middle_stage {
        name = "stage-2";
        target_id = "c";
        shard_id = "z";
        layer_start = pos 3;
        layer_end = pos 4;
        owns_output = true;
        response_mode = sampled_token;
      }
      ∷ [];
}

three_built :
    build_balanced_execution_plan three_digests small_model three_targets sampled_token
    ≡ plan three_plan
unfolding build_balanced_execution_plan build_execution_plan mlx_swarm.Base.Text.string_discrete
    mlx_swarm.Generation.Plan.validate_stages mlx_swarm.Base.Decimal.decimal
    mlx_swarm.Base.Text.seen_in mlx_swarm.Base.Int.ℤ-discrete mlx_swarm.Base.ℕ_discrete
    mlx_swarm.Base.Int.add_int mathlib.Core.Bool.xor mlx_swarm.Generation.Types.mode_discrete
    mlx_swarm.Generation.Plan.validate_shards
three_built = refl

build_balanced_execution_plan-edges_example :
    (get_elem? three_targets 1 ≡ some middle_stage.target_id)
    × (middle_stage.layer_start ≡ pos (edge 4 3 1))
    × (middle_stage.layer_end ≡ pos (edge 4 3 2))
build_balanced_execution_plan-edges_example =
    build_balanced_execution_plan-edges three_digests small_model 4 three_targets sampled_token
      three_plan refl (omega arith) three_built 1 middle_stage refl
