-- ===== src/Placement/Partial.antt =====
-- internal/placement/planner.go: the partial plans of the search.
use Prim.Native.Nat.{Ordering}
use Prim.Native.String.{◌++◌ as text_append}
use mlx_swarm.Base.{
  String, Bool, true, false, ◌||◌, List, [], ◌∷◌, ◌++◌, map, Option, none, some, length,
  if◌then◌else◌, is_yes, sort_by,
}
use mlx_swarm.Base.Int.{ℤ, pos, eqb_ℤ, ℤ-discrete}
use mlx_swarm.Base.Decimal.{decimal}
use mlx_swarm.Base.GoMap.{Key, GoMap, get, put, or_zero}
use mlx_swarm.Base.Order.{or_else, compare_int}
use mlx_swarm.Base.Text.{string_key, string_discrete, str_lt}
use mlx_swarm.Base.Results.{Result, ok, ◌>>=◌}
use mlx_swarm.Generation.Types.{tensor, ExecutionStage, ExecutionPlan}
use mlx_swarm.Placement.Samples.{is_less}
use mlx_swarm.Placement.Validate.{PlacementError}
use mlx_swarm.Placement.Scoring.{merge_stage_score}
use mlx_swarm.Placement.ScorePlan.{as_score}
use mlx_swarm.Placement.Compare.{compare_plan_scores, compare_plan_identity}
use mlx_swarm.Placement.PlanTypes.{
  RangeCostEstimate, PlanConstructionRequest, PlanStageOption, PartialPlan,
}

instance abbrev pub layer_key : Key ℤ
layer_key = record { same? = ℤ-discrete }

-- `partialUsesWorker`.
unfoldable pub partial_uses_worker : List ExecutionStage → String → Bool
partial_uses_worker [] id = false
partial_uses_worker (s ∷ ss) id =
    let rest = partial_uses_worker ss id in is_yes (string_discrete s.target_id id) || rest

abbrev pub join_strings : String → List String → String
join_strings separator [] = ""
join_strings separator (s ∷ []) = s
join_strings separator (s ∷ t ∷ ss) =
    text_append s (text_append separator (join_strings separator (t ∷ ss)))

-- `partialWorkerSetKey`.
unfoldable pub partial_worker_set_key : List ExecutionStage → String
unfolding str_lt
partial_worker_set_key stages = join_strings "\0" (sort_by str_lt (map (λ s. s.target_id) stages))

-- The stage that a range becomes on a worker.
unfoldable pub next_stage :
    List ExecutionStage
    → PlanConstructionRequest
    → RangeCostEstimate
    → PlanStageOption
    → ExecutionStage
next_stage stages q r o = record {
  name = text_append "stage-" (decimal (length stages));
  target_id = o.worker.id;
  shard_id = "";
  layer_start = r.layer_start;
  layer_end = r.layer_end;
  owns_input = eqb_ℤ r.layer_start (pos 0);
  owns_output = eqb_ℤ r.layer_end q.model.layer_count;
  response_mode =
      if eqb_ℤ r.layer_end q.model.layer_count then q.terminal_response_mode else tensor;
}

-- `extendPartialPlan`.
unfoldable pub extend_partial_plan :
    PartialPlan
    → PlanConstructionRequest
    → RangeCostEstimate
    → PlanStageOption
    → Result PlacementError PartialPlan
unfolding next_stage
extend_partial_plan state q r o = do
  let stages = state.stages ++ (next_stage state.stages q r o ∷ [])
  score ←
      as_score (merge_stage_score state.score o.worker o.candidate r.estimate o.compute o.transfer)
  ok (record {
    end = r.layer_end;
    stages = stages;
    estimates = state.estimates ++ (r.estimate ∷ []);
    score = record score { stage_count = length stages };
  })

-- `generation.ExecutionPlan{Stages: stages}`.
abbrev pub only_stages : List ExecutionStage → ExecutionPlan
only_stages stages = record {
  schema_version = "";
  revision = "";
  inventory_revision = "";
  model = record { id = ""; checkpoint_fingerprint = ""; layer_count = pos 0 };
  stages = stages;
}

-- `comparePartialPlans`.
unfoldable pub compare_partial_plans : PartialPlan → PartialPlan → Ordering
compare_partial_plans l r =
    or_else (compare_plan_scores l.score r.score)
      (compare_plan_identity (only_stages l.stages) (only_stages r.stages))

-- The partial plans of a layer boundary by their worker sets, and those of all boundaries.
abbrev pub Bucket : Type 0
Bucket = GoMap String PartialPlan

abbrev pub States : Type 0
States = GoMap ℤ Bucket

abbrev pub all_partial_plans : States → List PartialPlan
all_partial_plans [] = []
all_partial_plans ((end, bucket) ∷ m) = map (λ e. e.1) bucket ++ all_partial_plans m

-- `orderedPartialPlans` and `orderedPartialPlanBucket`.
unfoldable pub ordered_partial_plans : States → List PartialPlan
ordered_partial_plans states =
    sort_by (λ l r. is_less (or_else (compare_int l.end r.end) (compare_partial_plans l r)))
      (all_partial_plans states)

unfoldable pub ordered_bucket : Bucket → List PartialPlan
ordered_bucket bucket = sort_by (λ l r. is_less (compare_partial_plans l r)) (map (λ e. e.1) bucket)

abbrev pub is_improvement : Option PartialPlan → PartialPlan → Bool
is_improvement none candidate = true
is_improvement (some existing) candidate = is_less (compare_partial_plans candidate existing)

-- The better of a partial plan and the one of its boundary and worker set.
unfoldable pub keep_better : States → PartialPlan → States
unfolding get put partial_worker_set_key
keep_better states c =
    let bucket = or_zero (get states c.end) [] in
    let key = partial_worker_set_key c.stages in
    if is_improvement (get bucket key) c then put states c.end (put bucket key c) else states
