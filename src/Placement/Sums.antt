-- ===== src/Placement/Sums.antt =====
-- The sums that the score of a plan holds, and the costs of its stages.
use mathlib.Core.Path.{subst}
use mlx_swarm.Base.{ℕ, ◌+◌, ◌≤◌, ◌≡◌, refl, String, List, [], ◌∷◌, Option, none, some, arith}
use mlx_swarm.Base.GoMap.{GoMap, get}
use mlx_swarm.Base.Text.{string_key}
use mlx_swarm.Base.Word.{u64_max}
use mlx_swarm.Base.Results.{Result, ok, err, >>=-ok, ok-injective}
use mlx_swarm.Registry.Types.{Worker}
use mlx_swarm.Generation.Types.{ExecutionModel}
use mlx_swarm.Placement.Types.{
  StageCostEstimate, PlanScoringRequest, ProfileSnapshot, StagePlanEvaluation, PlanScore,
  StageComputeScore, StageTransferScore,
}
use mlx_swarm.Placement.Arithmetic.{ScoreError}
use mlx_swarm.Placement.Validate.{PlacementError, unknown_worker}
use mlx_swarm.Placement.Scoring.{
  one_if, merge_stage_score, score_stage_compute, score_stage_transfer,
}
use mlx_swarm.Placement.Estimates.{
  Compute, Transfer, score_stage_compute-Compute, score_stage_transfer-Transfer,
}
use mlx_swarm.Placement.Scored.{Merged, merge_stage_score-Merged}
use mlx_swarm.Placement.ScorePlan.{as_score, or_error, score_stages}

-- The sum of a number over a plan's stages.
abbrev pub total : (StagePlanEvaluation → ℕ) → List StagePlanEvaluation → ℕ
total f [] = 0
total f (s ∷ ss) = f s + total f ss

-- A scored stage: its worker is in the inventory, and its costs are the estimates of that worker.
pub record Priced (profile : ProfileSnapshot) (model : ExecutionModel)
    (request : PlanScoringRequest) (workers : GoMap String Worker) (e : StageCostEstimate)
    (s : StagePlanEvaluation) : Type 0 where
  pub worker : Worker
  pub found : get workers s.stage.target_id ≡ some worker
  pub computed : Compute profile model worker s.stage request e s.compute
  pub transferred : Transfer profile worker request e s.transfer

-- The sums of a score over the stages that were merged into `before`.
pub record Sums (before : PlanScore) (stages : List StagePlanEvaluation) (score : PlanScore)
    : Type 0 where
  pub computed :
      score.compute_micros ≡ before.compute_micros + total (λ s. s.compute.total_micros) stages
  pub transferred :
      score.transfer_micros ≡ before.transfer_micros + total (λ s. s.transfer.total_micros) stages
  pub estimated :
      before.estimated_micros ≡ before.compute_micros + before.transfer_micros
      → score.estimated_micros ≡ score.compute_micros + score.transfer_micros
  pub fits : before.estimated_micros ≤ u64_max → score.estimated_micros ≤ u64_max
  pub additional :
      score.required_additional_memory_bytes
      ≡ before.required_additional_memory_bytes
        + total (λ s. s.selected_candidate.required_additional_memory_bytes) stages
  pub reused :
      score.reused_stage_count
      ≡ before.reused_stage_count
        + total (λ s. one_if s.selected_candidate.reuses_retained_shard) stages
  pub counted : score.stage_count ≡ before.stage_count

-- A stage with its costs.
abbrev pub with_costs :
    StagePlanEvaluation → StageComputeScore → StageTransferScore → StagePlanEvaluation
with_costs s compute transfer = record s { compute = compute; transfer = transfer }

-- The stages after the second loop are those before it, with their costs.
pub data Costed (profile : ProfileSnapshot) (model : ExecutionModel) (request : PlanScoringRequest)
    (workers : GoMap String Worker)
    : List StagePlanEvaluation → List StageCostEstimate → List StagePlanEvaluation → Type 0 where
  costed_none : (es : List StageCostEstimate) → Costed profile model request workers [] es []
  costed_one :
      (s : StagePlanEvaluation) (compute : StageComputeScore) (transfer : StageTransferScore)
      (e : StageCostEstimate) (ss ts : List StagePlanEvaluation) (es : List StageCostEstimate)
      → Priced profile model request workers e (with_costs s compute transfer)
      → Costed profile model request workers ss es ts
      → Costed profile model request workers (s ∷ ss) (e ∷ es) (with_costs s compute transfer ∷ ts)

pub or_error-ok :
    {A : Type 0} (e : PlacementError) (o : Option A) (a : A) → or_error e o ≡ ok a → o ≡ some a
or_error-ok e none a h = absurd (cc h)
or_error-ok e (some b) a h = cc h

pub as_score-ok : {A : Type 0} (r : Result ScoreError A) (a : A) → as_score r ≡ ok a → r ≡ ok a
as_score-ok (ok b) a h = cc h
as_score-ok (err e) a h = absurd (cc h)

Sums-step :
    (before merged score : PlanScore) (w : Worker) (e : StageCostEstimate) (t : StagePlanEvaluation)
    (ts : List StagePlanEvaluation)
    → t.transfer.total_micros ≤ u64_max
    → Merged before w t.selected_candidate e t.compute t.transfer merged
    → Sums merged ts score
    → Sums before (t ∷ ts) score
Sums-step before merged score w e t ts f m r = record {
  computed = omega (arith, m.computed, r.computed);
  transferred = omega (arith, m.transferred, r.transferred);
  estimated = λ h. r.estimated m.estimated;
  fits = λ h. r.fits (m.fits f);
  additional = omega (arith, m.additional, r.additional);
  reused = omega (arith, m.reused, r.reused);
  counted = omega (arith, m.counted, r.counted);
}

pub score_stages-Costed :
    (profile : ProfileSnapshot) (model : ExecutionModel) (request : PlanScoringRequest)
    (workers : GoMap String Worker) (before : PlanScore) (ss : List StagePlanEvaluation)
    (es : List StageCostEstimate) (r : List StagePlanEvaluation × PlanScore)
    → score_stages profile model request workers before ss es ≡ ok r
    → Costed profile model request workers ss es r.0 × Sums before r.0 r.1
unfolding score_stages
score_stages-Costed profile model request workers before [] es r h =
    subst (λ u. Costed profile model request workers [] es u.0 × Sums before u.0 u.1)
      (ok-injective h)
      (
        costed_none es,
        record {
          computed = omega arith;
          transferred = omega arith;
          estimated = λ b. b;
          fits = λ b. b;
          additional = omega arith;
          reused = omega arith;
          counted = refl;
        },
      )
score_stages-Costed profile model request workers before (s ∷ ss) [] r h = absurd (cc h)
score_stages-Costed profile model request workers before (s ∷ ss) (e ∷ es) r h =
    let found = >>=-ok (or_error unknown_worker (get workers s.stage.target_id)) _ h in
    let w = found.0 in
    let c = >>=-ok (as_score (score_stage_compute profile model w s.stage request e)) _ found.2 in
    let x = >>=-ok (as_score (score_stage_transfer profile w request e)) _ c.2 in
    let m = >>=-ok (as_score (merge_stage_score before w s.selected_candidate e c.0 x.0)) _ x.2 in
    let rest = >>=-ok (score_stages profile model request workers m.0 ss es) _ m.2 in
    let step = score_stages-Costed profile model request workers m.0 ss es rest.0 rest.1 in
    let computed =
      score_stage_compute-Compute profile model w s.stage request e c.0 (as_score-ok _ _ c.1) in
    let transferred = score_stage_transfer-Transfer profile w request e x.0 (as_score-ok _ _ x.1) in
    let merged =
      merge_stage_score-Merged before w s.selected_candidate e c.0 x.0 (as_score-ok _ _ m.1) in
    let t = with_costs s c.0 x.0 in
    subst (λ u. Costed profile model request workers (s ∷ ss) (e ∷ es) u.0 × Sums before u.0 u.1)
      (ok-injective rest.2)
      (
        costed_one s c.0 x.0 e ss rest.0.0 es
            (record {
              worker = w;
              found = or_error-ok _ _ _ found.1;
              computed = computed;
              transferred = transferred;
            })
            step.0,
        Sums-step before m.0 rest.0.1 w e t rest.0.0 transferred.fits merged step.1,
      )
