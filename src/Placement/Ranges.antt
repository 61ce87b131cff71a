-- ===== src/Placement/Ranges.antt =====
-- internal/placement/planner.go: the normalized request, and the options of each range.

use mlx_swarm.Base.{
  String, Bool, true, false, not, ◌&&◌, ◌||◌, List, [], ◌∷◌, Option, none, some, length,
  first_fault, and_also, ◌==◌, if◌then◌else◌, sort_by,
}
use mlx_swarm.Base.Int.{ℤ, pos, ltb_ℤ, leb_ℤ, eqb_ℤ}
use mlx_swarm.Base.GoMap.{GoMap, get}
use mlx_swarm.Base.Order.{or_else, compare_int}
use mlx_swarm.Base.Text.{string_key, is_empty_string}
use mlx_swarm.Base.Results.{Result, ok, err, ◌>>=◌, ◌>>◌}
use mlx_swarm.Registry.Types.{Worker, Inventory}
use mlx_swarm.Generation.Types.{
  StageResponseMode, tensor, sampled_token, unsupported_mode, ExecutionModel, ExecutionStage,
}
use mlx_swarm.Generation.Plan.{Digests, ShardId, shard_id, no_shard, derive_execution_shard_id}
use mlx_swarm.Placement.Types.{StageRequirement, Candidate, ProfileSnapshot}
use mlx_swarm.Placement.Eligibility.{evaluate_candidates}
use mlx_swarm.Placement.Samples.{is_less}
use mlx_swarm.Placement.Validate.{
  PlacementError, bad_plan, stages_given, incomplete_model, wrong_response_mode, wrong_stage_limit,
  no_ranges, duplicated_range, unknown_worker, normalize_scoring_request,
  validate_scoring_snapshots, validate_scoring_context, validate_stage_cost_estimate,
}
use mlx_swarm.Placement.Scoring.{score_stage_compute, score_stage_transfer}
use mlx_swarm.Placement.ScorePlan.{no_error, or_error, as_candidates, as_score}
use mlx_swarm.Placement.PlanTypes.{
  RangeCostEstimate, PlanConstructionRequest, PlanStageOption, PlanRangeSearch,
}

-- The order of ranges, by their start and then by their end.
abbrev pub range_before : RangeCostEstimate → RangeCostEstimate → Bool
range_before l r =
    is_less
      (or_else (compare_int l.layer_start r.layer_start) (compare_int l.layer_end r.layer_end))

-- At most five stages and as many as the model has layers, and 100,000 operations by default.
abbrev pub default_stages : ExecutionModel → ℤ
default_stages model =
    if ltb_ℤ (pos 0) model.layer_count && ltb_ℤ model.layer_count (pos 5)
    then model.layer_count
    else pos 5

abbrev pub with_defaults : PlanConstructionRequest → PlanConstructionRequest
with_defaults q = record q {
  scoring = normalize_scoring_request q.scoring;
  max_stages = if eqb_ℤ q.max_stages (pos 0) then default_stages q.model else q.max_stages;
  max_search_operations = if q.max_search_operations == 0 then 100000 else q.max_search_operations;
  ranges = sort_by range_before q.ranges;
}

abbrev pub is_terminal : StageResponseMode → Bool
is_terminal tensor = true
is_terminal sampled_token = true
is_terminal (unsupported_mode s) = false

abbrev pub shard_error : ShardId → Option PlacementError
shard_error (shard_id id) = none
shard_error (no_shard e) = some (bad_plan e)

-- The shard of a range on a model.
unfoldable pub range_shard : Digests → ExecutionModel → RangeCostEstimate → ShardId
range_shard d model r =
    derive_execution_shard_id d model r.layer_start r.layer_end (eqb_ℤ r.layer_start (pos 0))
      (eqb_ℤ r.layer_end model.layer_count)

abbrev pub same_range : Option RangeCostEstimate → RangeCostEstimate → Bool
same_range none r = false
same_range (some p) r = eqb_ℤ p.layer_start r.layer_start && eqb_ℤ p.layer_end r.layer_end

-- The faults of the sorted ranges, each after the one before it.
unfoldable pub ranges_fault :
    Digests
    → PlanConstructionRequest
    → Option RangeCostEstimate
    → List RangeCostEstimate
    → Option PlacementError
unfolding range_shard
ranges_fault d q previous [] = none
ranges_fault d q previous (r ∷ rs) = and_also (shard_error (range_shard d q.model r)) (
    and_also (validate_stage_cost_estimate r.estimate q.scoring.decode_steps) (
      and_also (if same_range previous r then some duplicated_range else none)
        (ranges_fault d q (some r) rs)))

-- `normalizePlanConstructionRequest`.
unfoldable pub normalize_plan_construction_request :
    Digests
    → Inventory
    → ProfileSnapshot
    → PlanConstructionRequest
    → Result PlacementError PlanConstructionRequest
unfolding ranges_fault
normalize_plan_construction_request d inv profile given = do
  let q = with_defaults given
  no_error (validate_scoring_snapshots inv profile)
  no_error (validate_scoring_context q.scoring)
  no_error (
      first_fault (
        (not (length q.scoring.stages == 0), stages_given)
        ∷ (
          is_empty_string q.model.id
              || is_empty_string q.model.checkpoint_fingerprint
              || leb_ℤ q.model.layer_count (pos 0),
          incomplete_model,
        )
        ∷ (not (is_terminal q.terminal_response_mode), wrong_response_mode)
        ∷ (ltb_ℤ q.max_stages (pos 1) || ltb_ℤ q.model.layer_count q.max_stages, wrong_stage_limit)
        ∷ (length q.ranges == 0, no_ranges)
        ∷ []))
  no_error (ranges_fault d q none q.ranges)
  ok q

unfoldable pub range_requirement :
    PlanConstructionRequest → RangeCostEstimate → String → StageRequirement
range_requirement q r shard = record {
  model = q.model;
  adapter = q.scoring.adapter;
  shard_id = shard;
  layer_start = r.layer_start;
  layer_end = r.layer_end;
  owns_input = eqb_ℤ r.layer_start (pos 0);
  owns_output = eqb_ℤ r.layer_end q.model.layer_count;
  load_memory_bytes = r.estimate.load_memory_bytes;
  sequence_memory_bytes = r.estimate.sequence_memory_bytes;
  transport = q.scoring.transport;
  status_max_age_millis = q.scoring.status_max_age_millis;
}

-- The stage that a range is scored as; its name, shard and response mode do not count.
abbrev pub range_stage : PlanConstructionRequest → RangeCostEstimate → Worker → ExecutionStage
range_stage q r w = record {
  name = "";
  target_id = w.id;
  shard_id = "";
  layer_start = r.layer_start;
  layer_end = r.layer_end;
  owns_input = eqb_ℤ r.layer_start (pos 0);
  owns_output = eqb_ℤ r.layer_end q.model.layer_count;
  response_mode = unsupported_mode "";
}

unfoldable pub option_on :
    ProfileSnapshot
    → PlanConstructionRequest
    → RangeCostEstimate
    → Candidate
    → Worker
    → Result PlacementError PlanStageOption
option_on profile q r c w = do
  compute ←
      as_score (score_stage_compute profile q.model w (range_stage q r w) q.scoring r.estimate)
  transfer ← as_score (score_stage_transfer profile w q.scoring r.estimate)
  ok (record { worker = w; candidate = c; compute = compute; transfer = transfer })

-- The options of a range: its eligible candidates.
unfoldable pub options_of :
    ProfileSnapshot
    → PlanConstructionRequest
    → RangeCostEstimate
    → GoMap String Worker
    → List Candidate
    → Result PlacementError (List PlanStageOption)
unfolding option_on
options_of profile q r workers [] = ok []
options_of profile q r workers (c ∷ cs) =
    let rest = options_of profile q r workers cs in
    if c.eligible
    then (do
      w ← or_error unknown_worker (get workers c.worker_id)
      o ← option_on profile q r c w
      os ← rest
      ok (o ∷ os))
    else rest

abbrev pub as_shard : ShardId → Result PlacementError String
as_shard (shard_id id) = ok id
as_shard (no_shard e) = err (bad_plan e)

-- `preparePlanRange`.
unfoldable pub prepare_plan_range :
    Digests
    → Inventory
    → ProfileSnapshot
    → PlanConstructionRequest
    → GoMap String Worker
    → RangeCostEstimate
    → Result PlacementError PlanRangeSearch
unfolding options_of range_requirement
prepare_plan_range d inv profile q workers r = do
  shard ← as_shard (range_shard d q.model r)
  evaluation ← as_candidates (evaluate_candidates inv (range_requirement q r shard))
  options ← options_of profile q r workers evaluation
  ok (record { range = r; evaluation = evaluation; options = options })
