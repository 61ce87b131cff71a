-- ===== src/Mesh/Bindings.antt =====
-- `selectedTargetBindings`: the worker incarnation and endpoint that a plan's stages are called at.
use mlx_swarm.Base.{ℕ, ◌+◌, String, ◌||◌, List, [], ◌∷◌, Option, none, some, if◌then◌else◌, is_yes}
use mlx_swarm.Base.Decimal.{decimal}
use mlx_swarm.Base.GoMap.{GoMap, get}
use mlx_swarm.Base.Text.{string_discrete, string_key, is_empty_string}
use mlx_swarm.Registry.Types.{Worker, Inventory}
use mlx_swarm.Generation.Types.{ExecutionStage, ExecutionPlan}
use mlx_swarm.Registry.Index.{index_workers}

pub record TargetBinding : Type 0 where
  pub index : ℕ
  pub worker_id : String
  pub instance_id : String
  pub endpoint : String

pub data BindingError : Type 0 where
  wrong_revision : BindingError
  target_not_in_snapshot incomplete_binding : String → BindingError

pub data Bound : Type 0 where
  bound : List TargetBinding → Bound
  unbound : BindingError → Bound

abbrev pub bind_next : TargetBinding → Bound → Bound
bind_next b (bound bs) = bound (b ∷ bs)
bind_next b (unbound e) = unbound e

-- One round of the loop, with what the rounds after it make.
abbrev pub bind_stage : ℕ → ExecutionStage → Option Worker → Bound → Bound
bind_stage index stage none rest = unbound (target_not_in_snapshot stage.target_id)
bind_stage index stage (some w) rest =
    if is_empty_string w.instance_id || is_empty_string w.endpoint
    then unbound (incomplete_binding stage.target_id)
    else bind_next
        (record {
          index = index;
          worker_id = w.id;
          instance_id = w.instance_id;
          endpoint = w.endpoint;
        })
        rest

unfoldable pub bind_stages : GoMap String Worker → ℕ → List ExecutionStage → Bound
bind_stages workers index [] = bound []
bind_stages workers index (stage ∷ stages) =
    bind_stage index stage (get workers stage.target_id) (bind_stages workers (index + 1) stages)

unfoldable pub selected_target_bindings : Inventory → ExecutionPlan → Bound
unfolding bind_stages
selected_target_bindings inventory plan =
    if is_yes (string_discrete plan.inventory_revision (decimal inventory.revision))
    then bind_stages (index_workers inventory.workers) 0 plan.stages
    else unbound wrong_revision
