-- ===== src/Placement/ScorePlan.antt =====
-- internal/placement/scoring.go: the evaluation of one complete plan.
use mlx_swarm.Base.{
  ℕ, ◌+◌, String, Bool, true, false, ◌&&◌, List, [], ◌∷◌, Option, none, some, length, if◌then◌else◌,
  is_yes,
}
use mlx_swarm.Base.Int.{pos}
use mlx_swarm.Base.GoMap.{GoMap, get}
use mlx_swarm.Base.Text.{string_discrete, string_key}
use mlx_swarm.Base.Results.{Result, ok, err, ◌>>=◌, ◌>>◌}
use mlx_swarm.Registry.Types.{Worker, Inventory}
use mlx_swarm.Registry.Index.{index_workers}
use mlx_swarm.Generation.Types.{ExecutionModel, ExecutionStage, ExecutionPlan}
use mlx_swarm.Generation.Plan.{Digests}
use mlx_swarm.Placement.Types.{
  StageRequirement, Candidate, StageCostEstimate, PlanScoringRequest, ProfileSnapshot,
  StagePlanEvaluation, PlanScore, PlanEvaluation, zero_compute, zero_transfer, zero_score,
}
use mlx_swarm.Placement.Eligibility.{Evaluated, candidates, bad_input, evaluate_candidates}
use mlx_swarm.Placement.Arithmetic.{ScoreError}
use mlx_swarm.Placement.Validate.{
  PlacementError, bad_requirement, bad_score, wrong_estimate_count, missing_target, unknown_worker,
  normalize_scoring_request, validate_scoring_inputs,
}
use mlx_swarm.Placement.Scoring.{score_stage_compute, score_stage_transfer, merge_stage_score}

-- `findCandidate`.
unfoldable pub find_candidate : List Candidate → String → Option Candidate
find_candidate [] id = none
find_candidate (c ∷ cs) id =
    let rest = find_candidate cs id in
    if is_yes (string_discrete c.worker_id id) then some c else rest

abbrev pub or_error {ℓ} : {A : Type ℓ} → PlacementError → Option A → Result PlacementError A
or_error e none = err e
or_error e (some a) = ok a

abbrev pub no_error : Option PlacementError → Result PlacementError (Unit {0})
no_error none = ok tt
no_error (some e) = err e

abbrev pub as_candidates : Evaluated → Result PlacementError (List Candidate)
as_candidates (candidates cs) = ok cs
as_candidates (bad_input e) = err (bad_requirement e)

abbrev pub as_score {ℓ} : {A : Type ℓ} → Result ScoreError A → Result PlacementError A
as_score (ok a) = ok a
as_score (err e) = err (bad_score e)

unfoldable pub stage_requirement :
    ExecutionModel → PlanScoringRequest → ExecutionStage → StageCostEstimate → StageRequirement
stage_requirement model request stage estimate = record {
  model = model;
  adapter = request.adapter;
  shard_id = stage.shard_id;
  layer_start = stage.layer_start;
  layer_end = stage.layer_end;
  owns_input = stage.owns_input;
  owns_output = stage.owns_output;
  load_memory_bytes = estimate.load_memory_bytes;
  sequence_memory_bytes = estimate.sequence_memory_bytes;
  transport = request.transport;
  status_max_age_millis = request.status_max_age_millis;
}

-- The first loop of `ScorePlan`: the eligibility of every stage. A missing estimate would be out of
-- range; the validation counts them.
unfoldable pub stage_evidence :
    Inventory
    → ExecutionModel
    → PlanScoringRequest
    → ℕ
    → List ExecutionStage
    → List StageCostEstimate
    → Result PlacementError (List StagePlanEvaluation)
stage_evidence inv model request index [] estimates = ok []
stage_evidence inv model request index (s ∷ ss) [] = err wrong_estimate_count
stage_evidence inv model request index (s ∷ ss) (e ∷ es) = do
  eligibility ← as_candidates (evaluate_candidates inv (stage_requirement model request s e))
  chosen ← or_error missing_target (find_candidate eligibility s.target_id)
  rest ← stage_evidence inv model request (index + 1) ss es
  ok (
      record {
        index = index;
        stage = s;
        eligibility = eligibility;
        selected_candidate = chosen;
        compute = zero_compute;
        transfer = zero_transfer;
      }
      ∷ rest)

abbrev pub all_eligible : List StagePlanEvaluation → Bool
all_eligible [] = true
all_eligible (s ∷ ss) = let rest = all_eligible ss in s.selected_candidate.eligible && rest

-- The second loop: the costs of every stage and their sum. The target of a stage is in the
-- inventory, where its candidate was found.
unfoldable pub score_stages :
    ProfileSnapshot
    → ExecutionModel
    → PlanScoringRequest
    → GoMap String Worker
    → PlanScore
    → List StagePlanEvaluation
    → List StageCostEstimate
    → Result PlacementError (List StagePlanEvaluation × PlanScore)
score_stages profile model request workers score [] estimates = ok ([], score)
score_stages profile model request workers score (s ∷ ss) [] = err wrong_estimate_count
score_stages profile model request workers score (s ∷ ss) (e ∷ es) = do
  w ← or_error unknown_worker (get workers s.stage.target_id)
  compute ← as_score (score_stage_compute profile model w s.stage request e)
  transfer ← as_score (score_stage_transfer profile w request e)
  merged ← as_score (merge_stage_score score w s.selected_candidate e compute transfer)
  rest ← score_stages profile model request workers merged ss es
  ok (record s { compute = compute; transfer = transfer } ∷ rest.0, rest.1)

unfoldable pub evaluation_of :
    Inventory
    → ProfileSnapshot
    → ExecutionPlan
    → PlanScoringRequest
    → Bool
    → List StagePlanEvaluation
    → PlanScore
    → PlanEvaluation
evaluation_of inv profile plan request eligible stages score = record {
  schema_version = pos 1;
  inventory_revision = inv.revision;
  profile_revision = profile.revision;
  profile_max_age_millis = profile.max_age_millis;
  generated_at = inv.generated_at;
  plan = plan;
  request = request;
  eligible = eligible;
  stages = stages;
  score = score;
}

-- The score before the first stage is merged.
abbrev pub initial_score : ExecutionPlan → PlanScore
initial_score plan = record zero_score { stage_count = length plan.stages }

-- The costs of the stages, when every selected candidate is eligible.
unfoldable pub scored :
    Inventory
    → ProfileSnapshot
    → ExecutionPlan
    → PlanScoringRequest
    → List StagePlanEvaluation
    → Bool
    → Result PlacementError PlanEvaluation
unfolding evaluation_of
scored inv profile plan request evidence false =
    ok (evaluation_of inv profile plan request false evidence (initial_score plan))
scored inv profile plan request evidence true = do
  stages ←
      score_stages profile plan.model request (index_workers inv.workers) (initial_score plan)
        evidence request.stages
  ok (evaluation_of inv profile plan request true stages.0 stages.1)

-- `ScorePlan`.
unfoldable pub score_plan :
    Digests
    → Inventory
    → ProfileSnapshot
    → ExecutionPlan
    → PlanScoringRequest
    → Result PlacementError PlanEvaluation
unfolding scored
score_plan d inv profile plan given = do
  let request = normalize_scoring_request given
  no_error (validate_scoring_inputs d inv profile plan request)
  evidence ← stage_evidence inv plan.model request 0 plan.stages request.stages
  scored inv profile plan request evidence (all_eligible evidence)
