-- ===== src/Generation/Balanced.antt =====
-- `BuildBalancedExecutionPlan`: a contiguous split with the remainder on the earlier targets.
use mlx_swarm.Base.{
  ℕ, zero, suc, ◌+◌, ◌/◌, ◌%◌, String, ◌&&◌, List, [], ◌∷◌, length, ◌==◌, if◌then◌else◌,
}
use Prim.Native.String.{◌++◌ as text_append}
use mlx_swarm.Base.Int.{ℤ, pos, negsuc, ltb_ℤ, add_int}
use mlx_swarm.Base.Decimal.{decimal}
use mlx_swarm.Generation.Types.{StageResponseMode, tensor, ExecutionModel, ExecutionStage}
use mlx_swarm.Generation.Plan.{
  Digests, targets_required, stages_exceed_layers, Built, invalid, build_execution_plan,
}

abbrev negate : ℕ → ℤ
negate zero = pos zero
negate (suc n) = negsuc n

-- Go's `/` and `%` on `int` by a positive number, which truncate towards zero.
unfoldable pub quotient : ℤ → ℕ → ℤ
quotient (pos a) n = pos (a / n)
quotient (negsuc a) n = negate (suc a / n)

unfoldable pub remainder : ℤ → ℕ → ℤ
remainder (pos a) n = pos (a % n)
remainder (negsuc a) n = negate (suc a % n)

-- The size of a target's stage.
unfoldable pub stage_size : ℤ → ℤ → ℕ → ℤ
stage_size base rest index = if ltb_ℤ (pos index) rest then add_int base (pos 1) else base

unfoldable pub balanced_stages :
    ℤ → ℤ → ℕ → StageResponseMode → ℕ → ℤ → List String → List ExecutionStage
unfolding stage_size
balanced_stages base rest count terminal index start [] = []
balanced_stages base rest count terminal index start (id ∷ ids) =
    let layer_end = add_int start (stage_size base rest index) in
    let last = index + 1 == count in
    record {
      name = text_append "stage-" (decimal index);
      target_id = id;
      shard_id = "";
      layer_start = start;
      layer_end = layer_end;
      owns_input = index == 0;
      owns_output = last;
      response_mode = if last then terminal else tensor;
    }
    ∷ balanced_stages base rest count terminal (index + 1) layer_end ids

unfoldable pub build_balanced_execution_plan :
    Digests → ExecutionModel → List String → StageResponseMode → Built
unfolding balanced_stages quotient remainder
build_balanced_execution_plan d model target_ids terminal =
    let count = length target_ids in
    if count == 0
    then invalid targets_required
    else if ltb_ℤ (pos 0) model.layer_count && ltb_ℤ model.layer_count (pos count)
    then invalid stages_exceed_layers
    else build_execution_plan d model "" (
        balanced_stages (quotient model.layer_count count) (remainder model.layer_count count) count
          terminal 0 (pos 0) target_ids)
