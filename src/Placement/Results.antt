-- ===== src/Placement/Results.antt =====
-- What `ScorePlan` returns.
use mathlib.Core.Path.{subst}
use mlx_swarm.Base.{◌≡◌, refl, Bool, true, false, List, Option, none, some}
use mlx_swarm.Base.Results.{ok, >>=-ok, ok-injective}
use mlx_swarm.Registry.Types.{Inventory}
use mlx_swarm.Registry.Index.{index_workers}
use mlx_swarm.Generation.Types.{ExecutionPlan}
use mlx_swarm.Generation.Plan.{Digests}
use mlx_swarm.Placement.Types.{
  PlanScoringRequest, ProfileSnapshot, StagePlanEvaluation, PlanScore, PlanEvaluation,
}
use mlx_swarm.Placement.Validate.{
  PlacementError, normalize_scoring_request, validate_scoring_inputs,
}
use mlx_swarm.Placement.ScorePlan.{
  no_error, stage_evidence, all_eligible, initial_score, score_stages, scored, score_plan,
  evaluation_of,
}
use mlx_swarm.Placement.Sums.{Sums, Costed, score_stages-Costed}
use mlx_swarm.Placement.Evidence.{Evidenced, stage_evidence-Evidenced}

-- The two results of scoring: an ineligible plan with the evidence of its stages and no costs, or an
-- eligible one with its costs.
pub data ScoredPlan (d : Digests) (inv : Inventory) (profile : ProfileSnapshot)
    (plan : ExecutionPlan) (request : PlanScoringRequest) : PlanEvaluation → Type 0 where
  refused_plan :
      (evidence : List StagePlanEvaluation)
      → validate_scoring_inputs d inv profile plan request ≡ none
      → Evidenced inv plan.model request plan.stages request.stages evidence
      → all_eligible evidence ≡ false
      → ScoredPlan d inv profile plan request
          (evaluation_of inv profile plan request false evidence (initial_score plan))
  priced_plan :
      (evidence : List StagePlanEvaluation) (r : List StagePlanEvaluation × PlanScore)
      → validate_scoring_inputs d inv profile plan request ≡ none
      → Evidenced inv plan.model request plan.stages request.stages evidence
      → all_eligible evidence ≡ true
      → Costed profile plan.model request (index_workers inv.workers) evidence request.stages r.0
      → Sums (initial_score plan) r.0 r.1
      → ScoredPlan d inv profile plan request (evaluation_of inv profile plan request true r.0 r.1)

scored-ScoredPlan :
    (d : Digests) (inv : Inventory) (profile : ProfileSnapshot) (plan : ExecutionPlan)
    (request : PlanScoringRequest) (evidence : List StagePlanEvaluation) (b : Bool)
    (e : PlanEvaluation)
    → validate_scoring_inputs d inv profile plan request ≡ none
    → Evidenced inv plan.model request plan.stages request.stages evidence
    → all_eligible evidence ≡ b
    → scored inv profile plan request evidence b ≡ ok e
    → ScoredPlan d inv profile plan request e
unfolding scored
scored-ScoredPlan d inv profile plan request evidence false e v x a h =
    subst (λ u. ScoredPlan d inv profile plan request u) (ok-injective h)
      (refused_plan evidence v x a)
scored-ScoredPlan d inv profile plan request evidence true e v x a h =
    let stages =
      >>=-ok
        (score_stages profile plan.model request (index_workers inv.workers) (initial_score plan)
          evidence request.stages)
        _ h in
    let c =
      score_stages-Costed profile plan.model request (index_workers inv.workers)
        (initial_score plan) evidence request.stages stages.0 stages.1 in
    subst (λ u. ScoredPlan d inv profile plan request u) (ok-injective stages.2)
      (priced_plan evidence stages.0 v x a c.0 c.1)

no_error-ok : (o : Option PlacementError) → no_error o ≡ ok tt → o ≡ none
no_error-ok none h = refl
no_error-ok (some e) h = absurd (cc h)

pub score_plan-ScoredPlan :
    (d : Digests) (inv : Inventory) (profile : ProfileSnapshot) (plan : ExecutionPlan)
    (given : PlanScoringRequest) (e : PlanEvaluation)
    → score_plan d inv profile plan given ≡ ok e
    → ScoredPlan d inv profile plan (normalize_scoring_request given) e
unfolding score_plan
score_plan-ScoredPlan d inv profile plan given e h =
    let request = normalize_scoring_request given in
    let valid = >>=-ok (no_error (validate_scoring_inputs d inv profile plan request)) _ h in
    let evidence =
      >>=-ok (stage_evidence inv plan.model request 0 plan.stages request.stages) _ valid.2 in
    scored-ScoredPlan d inv profile plan request evidence.0 (all_eligible evidence.0) e
      (no_error-ok _ valid.1)
      (stage_evidence-Evidenced inv plan.model request 0 plan.stages request.stages evidence.0
        evidence.1)
      refl evidence.2
