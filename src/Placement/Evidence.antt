-- ===== src/Placement/Evidence.antt =====
-- The eligibility evidence that the first loop of `ScorePlan` collects.
use mathlib.Core.Path.{subst}
use mlx_swarm.Base.{
  ℕ, ◌+◌, ◌≡◌, refl, sym, ap, ◌∙◌, String, true, List, [], ◌∷◌, map, Option, none, some, arith,
  sort_by, inl, inr, Member, sort_by-Member,
}
use mlx_swarm.Base.Text.{string_discrete, str_lt}
use mlx_swarm.Base.Results.{ok, >>=-ok, ok-injective}
use mlx_swarm.Registry.Types.{Worker, Inventory}
use mlx_swarm.Generation.Types.{ExecutionModel, ExecutionStage}
use mlx_swarm.Placement.Types.{
  StageCostEstimate, PlanScoringRequest, StagePlanEvaluation, Candidate,
}
use mlx_swarm.Placement.Eligibility.{
  trim_requirement, status_age, stage_operations, evaluate_candidate, evaluated, millis,
  evaluate_candidates, InputError,
}
use mlx_swarm.Placement.Eligible.{Fits, eligible-Fits}
use mlx_swarm.Placement.Validate.{missing_target}
use mlx_swarm.Placement.Sums.{or_error-ok}
use mlx_swarm.Placement.ScorePlan.{
  find_candidate, or_error, as_candidates, stage_requirement, stage_evidence,
}

-- The worker that a selected candidate stands for.
pub record Selected (inv : Inventory) (model : ExecutionModel) (request : PlanScoringRequest)
    (stage : ExecutionStage) (e : StageCostEstimate) (c : Candidate) : Type 0 where
  pub worker : Worker
  pub listed : Member worker inv.workers
  pub target : worker.id ≡ stage.target_id
  pub fits :
      c.eligible ≡ true
      → Fits inv.generated_at
          (millis (status_age inv (trim_requirement (stage_requirement model request stage e))))
          (trim_requirement (stage_requirement model request stage e))
          (stage_operations (trim_requirement (stage_requirement model request stage e)))
          worker

-- The candidate found is that of a worker of the list with the ID.
find_candidate-Member :
    (f : Worker → Candidate) (ws : List Worker) (id : String) (c : Candidate)
    → ((w : Worker) → (f w).worker_id ≡ w.id)
    → find_candidate (map f ws) id ≡ some c
    → (w : Worker) × Member w ws × (w.id ≡ id) × (f w ≡ c)
unfolding find_candidate
find_candidate-Member f [] id c named h = absurd (cc h)
find_candidate-Member f (w ∷ ws) id c named h = elim (string_discrete (f w).worker_id id) [
  | yes p ↦ (w, inl refl, sym (named w) ∙ p, ground arith)
  | no n ↦
      let rest = find_candidate-Member f ws id c named (ground arith) in
      (rest.0, inr rest.1, rest.2, rest.3)
]

evaluated-ok :
    (o : Option InputError) (cs ds : List Candidate)
    → as_candidates (evaluated o cs) ≡ ok ds
    → cs ≡ ds
evaluated-ok none cs ds h = cc h
evaluated-ok (some e) cs ds h = absurd (cc h)

find_candidate-Selected :
    (inv : Inventory) (model : ExecutionModel) (request : PlanScoringRequest)
    (stage : ExecutionStage) (e : StageCostEstimate) (cs : List Candidate) (c : Candidate)
    → as_candidates (evaluate_candidates inv (stage_requirement model request stage e)) ≡ ok cs
    → find_candidate cs stage.target_id ≡ some c
    → Selected inv model request stage e c
unfolding evaluate_candidates evaluate_candidate
find_candidate-Selected inv model request stage e cs c h g =
    let q = trim_requirement (stage_requirement model request stage e) in
    let f =
      evaluate_candidate inv.generated_at (millis (status_age inv q)) q (stage_operations q) in
    let ws = sort_by (λ a b. str_lt a.id b.id) inv.workers in
    let all : map f ws ≡ cs = evaluated-ok _ _ _ h in
    let found =
      find_candidate-Member f ws stage.target_id c (λ w. refl)
        (ap (λ l. find_candidate l stage.target_id) all ∙ g) in
    record {
      worker = found.0;
      listed = sort_by-Member _ inv.workers found.0 found.1;
      target = found.2;
      fits = λ eligible. eligible-Fits _ _ _ _ found.0 (ap (λ x. x.eligible) found.3 ∙ eligible);
    }

-- The evidence of a plan's stages, in their order.
pub data Evidenced (inv : Inventory) (model : ExecutionModel) (request : PlanScoringRequest)
    : List ExecutionStage → List StageCostEstimate → List StagePlanEvaluation → Type 0 where
  evidenced_none : (es : List StageCostEstimate) → Evidenced inv model request [] es []
  evidenced_one :
      (p : ExecutionStage) (e : StageCostEstimate) (s : StagePlanEvaluation)
      (ps : List ExecutionStage) (es : List StageCostEstimate) (ss : List StagePlanEvaluation)
      → s.stage ≡ p
      → Selected inv model request p e s.selected_candidate
      → Evidenced inv model request ps es ss
      → Evidenced inv model request (p ∷ ps) (e ∷ es) (s ∷ ss)

pub stage_evidence-Evidenced :
    (inv : Inventory) (model : ExecutionModel) (request : PlanScoringRequest) (index : ℕ)
    (ps : List ExecutionStage) (es : List StageCostEstimate) (ss : List StagePlanEvaluation)
    → stage_evidence inv model request index ps es ≡ ok ss
    → Evidenced inv model request ps es ss
unfolding stage_evidence
stage_evidence-Evidenced inv model request index [] es ss h =
    subst (λ u. Evidenced inv model request [] es u) (ok-injective h) (evidenced_none es)
stage_evidence-Evidenced inv model request index (p ∷ ps) [] ss h = absurd (cc h)
stage_evidence-Evidenced inv model request index (p ∷ ps) (e ∷ es) ss h =
    let q = stage_requirement model request p e in
    let cs = >>=-ok (as_candidates (evaluate_candidates inv q)) _ h in
    let c = >>=-ok (or_error missing_target (find_candidate cs.0 p.target_id)) _ cs.2 in
    let rest = >>=-ok (stage_evidence inv model request (index + 1) ps es) _ c.2 in
    subst (λ u. Evidenced inv model request (p ∷ ps) (e ∷ es) u) (ok-injective rest.2)
      (evidenced_one p e _ ps es rest.0 refl
        (find_candidate-Selected inv model request p e cs.0 c.0 cs.1 (or_error-ok _ _ _ c.1))
        (stage_evidence-Evidenced inv model request (index + 1) ps es rest.0 rest.1))
