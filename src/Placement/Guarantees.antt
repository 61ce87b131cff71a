-- ===== src/Placement/Guarantees.antt =====
-- What a caller of `ScorePlan` relies on.
use mlx_swarm.Base.{
  ◌+◌, ◌≤◌, ◌≡◌, refl, sym, ap, ◌∙◌, true, ◌&&◌, List, [], ◌∷◌, arith, none, length, String, Member,
}
use mlx_swarm.Base.GoMap.{GoMap}
use mlx_swarm.Base.Word.{u64_max}
use mlx_swarm.Base.Results.{ok}
use mlx_swarm.Registry.Types.{Worker, Inventory}
use mlx_swarm.Generation.Types.{ExecutionModel, ExecutionStage, ExecutionPlan}
use mlx_swarm.Generation.Plan.{Digests, validate_execution_plan}
use mlx_swarm.Placement.Types.{
  StageRequirement, StageCostEstimate, PlanScoringRequest, ProfileSnapshot, StagePlanEvaluation,
  PlanEvaluation,
}
use mlx_swarm.Placement.Eligibility.{trim_requirement, status_age, stage_operations, millis}
use mlx_swarm.Placement.Eligible.{Fits}
use mlx_swarm.Placement.Validate.{normalize_scoring_request, validate_scoring_inputs}
use mlx_swarm.Placement.Scoring.{one_if}
use mlx_swarm.Placement.ScorePlan.{stage_requirement, all_eligible, score_plan, evaluation_of}
use mlx_swarm.Placement.Sums.{total, Costed, costed_none, costed_one}
use mlx_swarm.Placement.Evidence.{Evidenced, evidenced_none, evidenced_one}
use mlx_swarm.Placement.Results.{ScoredPlan, refused_plan, priced_plan, score_plan-ScoredPlan}

-- What a stage of a plan requires of its worker: the model and the scoring request's adapter, transport
-- and status age, the stage's shard and layers, and the memory of its estimate.
abbrev pub required_of :
    ExecutionModel → PlanScoringRequest → ExecutionStage → StageCostEstimate → StageRequirement
required_of m r p e = record {
  model = m;
  adapter = r.adapter;
  shard_id = p.shard_id;
  layer_start = p.layer_start;
  layer_end = p.layer_end;
  owns_input = p.owns_input;
  owns_output = p.owns_output;
  load_memory_bytes = e.load_memory_bytes;
  sequence_memory_bytes = e.sequence_memory_bytes;
  transport = r.transport;
  status_max_age_millis = r.status_max_age_millis;
}

module _ (inv : Inventory) (model : ExecutionModel) (request : PlanScoringRequest) where
  -- Each stage of a plan with its estimate, and a worker of the inventory that meets the requirement
  -- that the two make.
  pub data Fitting
      : List ExecutionStage → List StageCostEstimate → List StagePlanEvaluation → Type 0 where
    fitting_none : (es : List StageCostEstimate) → Fitting [] es []
    fitting_one :
        (p : ExecutionStage) (e : StageCostEstimate) (s : StagePlanEvaluation)
        (ps : List ExecutionStage) (es : List StageCostEstimate) (ss : List StagePlanEvaluation)
        (w : Worker)
        → s.stage ≡ p
        → Member w inv.workers
        → w.id ≡ p.target_id
        → (let q = trim_requirement (required_of model request p e) in
            Fits inv.generated_at (millis (status_age inv q)) q (stage_operations q) w)
        → Fitting ps es ss
        → Fitting (p ∷ ps) (e ∷ es) (s ∷ ss)

  Costed-all_eligible :
      (profile : ProfileSnapshot) (workers : GoMap String Worker) {ss ts : List StagePlanEvaluation}
      {es : List StageCostEstimate}
      → Costed profile model request workers ss es ts
      → all_eligible ts ≡ all_eligible ss
  Costed-all_eligible profile workers (costed_none es) = refl
  Costed-all_eligible profile workers (costed_one s c t e ss ts es p r) =
      ap (λ b. s.selected_candidate.eligible && b) (Costed-all_eligible profile workers r)

  Evidenced-Fitting :
      (profile : ProfileSnapshot) (workers : GoMap String Worker) {ps : List ExecutionStage}
      {ss ts : List StagePlanEvaluation} {es : List StageCostEstimate}
      → Evidenced inv model request ps es ss
      → Costed profile model request workers ss es ts
      → all_eligible ss ≡ true
      → Fitting ps es ts
  unfolding stage_requirement
  Evidenced-Fitting profile workers (evidenced_none es) (costed_none _) h = fitting_none es
  Evidenced-Fitting profile workers (evidenced_one p e s ps es ss k x r)
        (costed_one _ c t _ _ ts _ y q) h =
      fitting_one p e _ ps es ts x.worker k x.listed x.target (x.fits (ground arith))
        (Evidenced-Fitting profile workers r q (ground arith))

-- The sums of an evaluation over its stages.
abbrev pub IsTotal : ExecutionPlan → PlanEvaluation → Type 0
IsTotal plan e =
    (e.score.stage_count ≡ length plan.stages)
    × (e.score.compute_micros ≡ total (λ s. s.compute.total_micros) e.stages)
    × (e.score.transfer_micros ≡ total (λ s. s.transfer.total_micros) e.stages)
    × (e.score.estimated_micros ≡ e.score.compute_micros + e.score.transfer_micros)
    × (e.score.estimated_micros ≤ u64_max)
    × (e.score.required_additional_memory_bytes
        ≡ total (λ s. s.selected_candidate.required_additional_memory_bytes) e.stages)
    × (e.score.reused_stage_count
        ≡ total (λ s. one_if s.selected_candidate.reuses_retained_shard) e.stages)

validated_plan :
    (d : Digests) (inv : Inventory) (profile : ProfileSnapshot) (plan : ExecutionPlan)
    (request : PlanScoringRequest)
    → validate_scoring_inputs d inv profile plan request ≡ none
    → validate_execution_plan d plan ≡ none
unfolding validate_scoring_inputs
validated_plan d inv profile plan request h = ground arith

ScoredPlan-validates :
    {d : Digests} {inv : Inventory} {profile : ProfileSnapshot} {plan : ExecutionPlan}
    {request : PlanScoringRequest} {e : PlanEvaluation}
    → ScoredPlan d inv profile plan request e
    → validate_execution_plan d plan ≡ none
ScoredPlan-validates (refused_plan evidence v x a) = validated_plan _ _ _ _ _ v
ScoredPlan-validates (priced_plan evidence r v x a c s) = validated_plan _ _ _ _ _ v

-- A plan that is scored is valid.
pub score_plan-validates :
    (d : Digests) (inv : Inventory) (profile : ProfileSnapshot) (plan : ExecutionPlan)
    (given : PlanScoringRequest) (e : PlanEvaluation)
    → score_plan d inv profile plan given ≡ ok e
    → validate_execution_plan d plan ≡ none
score_plan-validates d inv profile plan given e h =
    ScoredPlan-validates (score_plan-ScoredPlan d inv profile plan given e h)

ScoredPlan-request :
    {d : Digests} {inv : Inventory} {profile : ProfileSnapshot} {plan : ExecutionPlan}
    {request : PlanScoringRequest} {e : PlanEvaluation}
    → ScoredPlan d inv profile plan request e
    → e.request ≡ request
unfolding evaluation_of
ScoredPlan-request (refused_plan evidence v x a) = refl
ScoredPlan-request (priced_plan evidence r v x a c s) = refl

-- An evaluation holds the normalized request that it was made under.
pub score_plan-request :
    (d : Digests) (inv : Inventory) (profile : ProfileSnapshot) (plan : ExecutionPlan)
    (given : PlanScoringRequest) (e : PlanEvaluation)
    → score_plan d inv profile plan given ≡ ok e
    → e.request ≡ normalize_scoring_request given
score_plan-request d inv profile plan given e h =
    ScoredPlan-request (score_plan-ScoredPlan d inv profile plan given e h)

module _ (d : Digests) (inv : Inventory) (profile : ProfileSnapshot) (plan : ExecutionPlan)
    (request : PlanScoringRequest) where
  ScoredPlan-Fitting :
      {e : PlanEvaluation}
      → ScoredPlan d inv profile plan request e
      → (e.plan ≡ plan)
        × (e.eligible ≡ all_eligible e.stages)
        × (e.eligible ≡ true → Fitting inv plan.model request plan.stages request.stages e.stages)
  unfolding evaluation_of
  ScoredPlan-Fitting (refused_plan evidence v x a) = (refl, sym a, λ h. absurd (cc h))
  ScoredPlan-Fitting (priced_plan evidence r v x a c s) = (
    refl,
    sym (Costed-all_eligible inv plan.model request profile _ c ∙ a),
    λ h. Evidenced-Fitting inv plan.model request profile _ x c a,
  )

  ScoredPlan-IsTotal :
      {e : PlanEvaluation}
      → ScoredPlan d inv profile plan request e
      → e.eligible ≡ true
      → IsTotal plan e
  unfolding evaluation_of
  ScoredPlan-IsTotal (refused_plan evidence v x a) h = absurd (cc h)
  ScoredPlan-IsTotal (priced_plan evidence r v x a c s) h = (
    s.counted,
    omega (arith, s.computed),
    omega (arith, s.transferred),
    s.estimated refl,
    s.fits (omega arith),
    omega (arith, s.additional),
    omega (arith, s.reused),
  )

module _ (d : Digests) (inv : Inventory) (profile : ProfileSnapshot) (plan : ExecutionPlan)
    (given : PlanScoringRequest) (e : PlanEvaluation) where
  -- For every evaluation that `ScorePlan` returns: the plan is the one given, it is eligible just
  -- when the candidate selected for each of its stages is, and if it is eligible, then each stage
  -- targets a worker of the inventory that meets every constraint of the requirement that the stage,
  -- its own cost estimate in the request, and the normalized request make.
  pub score_plan-Fitting :
      score_plan d inv profile plan given ≡ ok e
      → (e.plan ≡ plan)
        × (e.eligible ≡ all_eligible e.stages)
        × (e.eligible ≡ true
            → Fitting inv plan.model
                (normalize_scoring_request given)
                plan.stages
                given.stages
                e.stages)
  unfolding normalize_scoring_request
  score_plan-Fitting h =
      ScoredPlan-Fitting d inv profile plan (normalize_scoring_request given)
        (score_plan-ScoredPlan d inv profile plan given e h)

  -- For every eligible evaluation that `ScorePlan` returns, the score counts the plan's stages, its
  -- compute and transfer times are the exact sums of its stages' times, its estimate is the sum of
  -- the two and fits a uint64, and the memory that is required and the stages that reuse a shard are
  -- the sums over the selected candidates.
  pub score_plan-IsTotal :
      score_plan d inv profile plan given ≡ ok e → e.eligible ≡ true → IsTotal plan e
  score_plan-IsTotal h g =
      ScoredPlan-IsTotal d inv profile plan (normalize_scoring_request given)
        (score_plan-ScoredPlan d inv profile plan given e h) g
