-- ===== src/Generation/Roundtrip.antt =====
-- `BuildExecutionPlan` and `ValidateExecutionPlan`: what the one makes the other accepts, and an
-- accepted plan is what the one makes of its parts.
use mlx_swarm.Base.{
  ℕ, ◌+◌, ◌≡◌, refl, sym, ap, ◌∙◌, String, List, [], ◌∷◌, map, Option, none, some, arith,
}
use mlx_swarm.Generation.Types.{ExecutionModel, ExecutionStage, ExecutionPlan}
use mlx_swarm.Generation.Plan.{
  PlanError, header_faults, validate_shards, validate_execution_plan, execution_plan_revision,
  execution_shard_id, Digests, build_execution_plan, finalize_execution_plan, with_shard_id,
  revision_stage, revision_payload, plan, built, plan_schema,
}
use mlx_swarm.Generation.Sound.{first_fault-none}
use mlx_swarm.Generation.Agreement.{validate_shards-match}
use mlx_swarm.Generation.Pipeline.{accepted}

built-plan :
    (o : Option PlanError) (p q : ExecutionPlan) → built o p ≡ plan q → (o ≡ none) × (p ≡ q)
built-plan none p q h = ground arith
built-plan (some e) p q h = ground arith

map-revision_stage :
    (d : Digests) (model : ExecutionModel) (ss : List ExecutionStage)
    → map revision_stage (map (with_shard_id d model) ss) ≡ map revision_stage ss
map-revision_stage d model [] = refl
map-revision_stage d model (s ∷ ss) =
    ap (λ ts. revision_stage s ∷ ts) (map-revision_stage d model ss)

-- A plan that `BuildExecutionPlan` returns passes `ValidateExecutionPlan`, has the model and the
-- inventory revision that were given, and the given stages up to their shard IDs.
pub build_execution_plan-validates :
    (d : Digests) (model : ExecutionModel) (inventory : String) (stages : List ExecutionStage)
    (p : ExecutionPlan)
    → build_execution_plan d model inventory stages ≡ plan p
    → (validate_execution_plan d p ≡ none)
      × (p.model ≡ model)
      × (p.inventory_revision ≡ inventory)
      × (map revision_stage p.stages ≡ map revision_stage stages)
unfolding build_execution_plan finalize_execution_plan
build_execution_plan-validates d model inventory stages p h =
    let r = built-plan _ _ _ h in
    (
      ap (validate_execution_plan d) (sym r.1) ∙ r.0,
      ap (λ q. q.model) (sym r.1),
      ap (λ q. q.inventory_revision) (sym r.1),
      ap (λ q. map revision_stage q.stages) (sym r.1) ∙ map-revision_stage d model stages,
    )

with_shard_ids-same :
    (d : Digests) (model : ExecutionModel) (index : ℕ) (ss : List ExecutionStage)
    → validate_shards d model index ss ≡ none
    → map (with_shard_id d model) ss ≡ ss
unfolding validate_shards
with_shard_ids-same d model index [] h = refl
with_shard_ids-same d model index (s ∷ ss) h =
    let id : execution_shard_id d model s ≡ s.shard_id =
      sym (validate_shards-match d model index (s ∷ ss) h 0 s refl) in
    let rest = with_shard_ids-same d model (index + 1) ss (ground arith) in
    λ i. record s { shard_id = id i } ∷ rest i

-- The plan that `BuildExecutionPlan` validates.
abbrev draft : ExecutionModel → String → List ExecutionStage → ExecutionPlan
draft model inventory stages = record {
  schema_version = plan_schema;
  revision = "";
  inventory_revision = inventory;
  model = model;
  stages = stages;
}

finalize_execution_plan-same :
    (d : Digests) (p : ExecutionPlan)
    → validate_execution_plan d p ≡ none
    → finalize_execution_plan d (draft p.model p.inventory_revision p.stages) ≡ p
unfolding finalize_execution_plan execution_plan_revision
finalize_execution_plan-same d p h =
    let head = first_fault-none (header_faults p) (accepted d p h).0 in
    let schema : plan_schema ≡ p.schema_version = ground (arith, head.0) in
    let own : execution_plan_revision d p ≡ p.revision = ground (arith, (accepted d p h).2) in
    let stages = with_shard_ids-same d p.model 0 p.stages (accepted d p h).3 in
    let revision : d.revision_digest
          (revision_payload (draft p.model p.inventory_revision p.stages))
        ≡ p.revision =
      ap
        (λ v. d.revision_digest (record {
          schema_version = v;
          inventory_revision = p.inventory_revision;
          model = p.model;
          stages = map revision_stage p.stages;
        }))
        schema
      ∙ own in
    λ i. record {
      schema_version = schema i;
      revision = revision i;
      inventory_revision = p.inventory_revision;
      model = p.model;
      stages = stages i;
    }

-- `BuildExecutionPlan` makes an accepted plan again from the plan's model, inventory revision and
-- stages: nothing of an accepted plan is free but these.
pub build_execution_plan-roundtrip :
    (d : Digests) (p : ExecutionPlan)
    → validate_execution_plan d p ≡ none
    → build_execution_plan d p.model p.inventory_revision p.stages ≡ plan p
unfolding build_execution_plan
build_execution_plan-roundtrip d p h =
    ap (λ q. built (validate_execution_plan d q) q) (finalize_execution_plan-same d p h)
    ∙ ap (λ o. built o p) h
