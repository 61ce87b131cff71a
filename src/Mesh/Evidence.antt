-- ===== src/Mesh/Evidence.antt =====
-- The evaluation that internal/placement hands to admission.
use mlx_swarm.Base.GoMap.{GoMap}
use mlx_swarm.Base.{String, ◌≡◌, refl, ap, suc, true, List, arith, length, none}
use mlx_swarm.Base.Results.{ok}
use mlx_swarm.Registry.Types.{Inventory, Worker}
use mlx_swarm.Generation.Types.{ExecutionModel, ExecutionStage, ExecutionPlan}
use mlx_swarm.Generation.Plan.{Digests}
use mlx_swarm.Placement.Types.{
  StageCostEstimate, PlanScoringRequest, ProfileSnapshot, StagePlanEvaluation, PlanEvaluation,
  selected,
}
use mlx_swarm.Placement.Validate.{validate_scoring_inputs}
use mlx_swarm.Placement.ScorePlan.{evaluation_of, score_plan}
use mlx_swarm.Placement.Results.{ScoredPlan, refused_plan, priced_plan, score_plan-ScoredPlan}
use mlx_swarm.Placement.Sums.{Costed, costed_none, costed_one}
use mlx_swarm.Placement.Evidence.{Evidenced, evidenced_none, evidenced_one}
use mlx_swarm.Mesh.Admit.{has_evidence}

Evidenced-length :
    {inv : Inventory} {model : ExecutionModel} {request : PlanScoringRequest}
    {ps : List ExecutionStage} {es : List StageCostEstimate} {ss : List StagePlanEvaluation}
    → Evidenced inv model request ps es ss
    → length ps ≡ length (selected ss)
Evidenced-length (evidenced_none es) = refl
Evidenced-length (evidenced_one p e s ps es ss k x r) = ap suc (Evidenced-length r)

Costed-length :
    {profile : ProfileSnapshot} {model : ExecutionModel} {request : PlanScoringRequest}
    {workers : GoMap String Worker} {ss ts : List StagePlanEvaluation} {es : List StageCostEstimate}
    → Costed profile model request workers ss es ts
    → length (selected ts) ≡ length (selected ss)
Costed-length (costed_none es) = refl
Costed-length (costed_one s c t e ss ts es p r) = ap suc (Costed-length r)

validated-length :
    (d : Digests) (inv : Inventory) (profile : ProfileSnapshot) (plan : ExecutionPlan)
    (request : PlanScoringRequest)
    → validate_scoring_inputs d inv profile plan request ≡ none
    → length request.stages ≡ length plan.stages
unfolding validate_scoring_inputs
validated-length d inv profile plan request h = ground arith

ScoredPlan-has_evidence :
    {d : Digests} {inv : Inventory} {profile : ProfileSnapshot} {plan : ExecutionPlan}
    {request : PlanScoringRequest} {e : PlanEvaluation}
    → ScoredPlan d inv profile plan request e
    → has_evidence e ≡ true
unfolding evaluation_of has_evidence
ScoredPlan-has_evidence (refused_plan evidence v x a) =
    ground (arith, Evidenced-length x, validated-length _ _ _ _ _ v)
ScoredPlan-has_evidence (priced_plan evidence r v x a c s) =
    ground (arith, Evidenced-length x, Costed-length c, validated-length _ _ _ _ _ v)

-- Every evaluation that `ScorePlan` returns has one selected candidate and one cost estimate for each
-- stage of its plan, so that admission never refuses it as incomplete.
pub score_plan-has_evidence :
    (d : Digests) (inv : Inventory) (profile : ProfileSnapshot) (plan : ExecutionPlan)
    (given : PlanScoringRequest) (e : PlanEvaluation)
    → score_plan d inv profile plan given ≡ ok e
    → has_evidence e ≡ true
score_plan-has_evidence d inv profile plan given e h =
    ScoredPlan-has_evidence (score_plan-ScoredPlan d inv profile plan given e h)
