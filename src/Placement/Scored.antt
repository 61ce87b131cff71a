-- ===== src/Placement/Scored.antt =====
-- What merging a stage adds to the score of a plan.
use mathlib.Core.Path.{subst}
use mlx_swarm.Base.{ℕ, ◌+◌, ◌≤◌, ◌≡◌, refl, arith, if◌then◌else◌}
use mlx_swarm.Base.Int.{pos_part, pos, ltb_ℤ}
use mlx_swarm.Base.Word.{u64_max}
use mlx_swarm.Base.Results.{ok, refuse_if, >>=-ok, ok-injective}
use mlx_swarm.Registry.Types.{Worker}
use mlx_swarm.Placement.Types.{
  Candidate, StageCostEstimate, StageComputeScore, StageTransferScore, PlanScore,
}
use mlx_swarm.Placement.Eligibility.{add_uint64}
use mlx_swarm.Placement.Arithmetic.{checked_score_add}
use mlx_swarm.Placement.Scoring.{one_if, new_load, merge_stage_score}

checked_score_add-ok :
    (a b c : ℕ) → checked_score_add a b ≡ ok c → (c ≡ a + b) × (b ≤ u64_max → c ≤ u64_max)
unfolding checked_score_add add_uint64
checked_score_add-ok a b c h = ground arith

-- The memory that a stage loads: none where it reuses a retained shard.
abbrev pub loaded_bytes : Candidate → StageCostEstimate → ℕ
loaded_bytes c e = if c.reuses_retained_shard then 0 else e.load_memory_bytes

new_load-ok :
    (score : PlanScore) (c : Candidate) (e : StageCostEstimate) {n : ℕ}
    → new_load score c e ≡ ok n
    → n ≡ score.new_load_memory_bytes + loaded_bytes c e
unfolding new_load
new_load-ok score c e {n} h =
    ground (arith, checked_score_add-ok score.new_load_memory_bytes e.load_memory_bytes n)

-- What a merged score adds to the score before, with no sum beyond a uint64.
pub record Merged (score : PlanScore) (w : Worker) (c : Candidate) (e : StageCostEstimate)
    (compute : StageComputeScore) (transfer : StageTransferScore) (merged : PlanScore)
    : Type 0 where
  pub computed : merged.compute_micros ≡ score.compute_micros + compute.total_micros
  pub transferred : merged.transfer_micros ≡ score.transfer_micros + transfer.total_micros
  pub estimated : merged.estimated_micros ≡ merged.compute_micros + merged.transfer_micros
  pub fits : transfer.total_micros ≤ u64_max → merged.estimated_micros ≤ u64_max
  pub additional :
      merged.required_additional_memory_bytes
      ≡ score.required_additional_memory_bytes + c.required_additional_memory_bytes
  pub failed :
      merged.recent_failure_count
      ≡ score.recent_failure_count + pos_part w.status.recent_failure_count
  pub restarted : merged.restart_count ≡ score.restart_count + pos_part w.status.restart_count
  pub pressed :
      merged.memory_pressure_bytes ≡ score.memory_pressure_bytes + w.status.memory_pressure_bytes
  pub loaded : merged.new_load_memory_bytes ≡ score.new_load_memory_bytes + loaded_bytes c e
  pub reused : merged.reused_stage_count ≡ score.reused_stage_count + one_if c.reuses_retained_shard
  pub counted : merged.stage_count ≡ score.stage_count

pub merge_stage_score-Merged :
    (score : PlanScore) (w : Worker) (c : Candidate) (e : StageCostEstimate)
    (compute : StageComputeScore) (transfer : StageTransferScore) {merged : PlanScore}
    → merge_stage_score score w c e compute transfer ≡ ok merged
    → Merged score w c e compute transfer merged
unfolding merge_stage_score
merge_stage_score-Merged score w c e compute transfer h =
    let compute_sum = >>=-ok (checked_score_add score.compute_micros compute.total_micros) _ h in
    let transfer_sum =
      >>=-ok (checked_score_add score.transfer_micros transfer.total_micros) _ compute_sum.2 in
    let sum = >>=-ok (checked_score_add compute_sum.0 transfer_sum.0) _ transfer_sum.2 in
    let failures = >>=-ok (refuse_if (ltb_ℤ w.status.recent_failure_count (pos 0)) _) _ sum.2 in
    let restarts = >>=-ok (refuse_if (ltb_ℤ w.status.restart_count (pos 0)) _) _ failures.2 in
    let f = >>=-ok (checked_score_add score.recent_failure_count _) _ restarts.2 in
    let r = >>=-ok (checked_score_add score.restart_count _) _ f.2 in
    let m = >>=-ok (checked_score_add score.memory_pressure_bytes _) _ r.2 in
    let q = >>=-ok (checked_score_add score.required_additional_memory_bytes _) _ m.2 in
    let l = >>=-ok (new_load score c e) _ q.2 in
    subst (λ s. Merged score w c e compute transfer s) (ok-injective l.2)
      (record {
        computed = (checked_score_add-ok _ _ _ compute_sum.1).0;
        transferred = (checked_score_add-ok _ _ _ transfer_sum.1).0;
        estimated = (checked_score_add-ok _ _ _ sum.1).0;
        fits = λ t.
            (checked_score_add-ok _ _ _ sum.1).1 ((checked_score_add-ok _ _ _ transfer_sum.1).1 t);
        additional = (checked_score_add-ok _ _ _ q.1).0;
        failed = (checked_score_add-ok _ _ _ f.1).0;
        restarted = (checked_score_add-ok _ _ _ r.1).0;
        pressed = (checked_score_add-ok _ _ _ m.1).0;
        loaded = new_load-ok score c e l.1;
        reused = refl;
        counted = refl;
      })
