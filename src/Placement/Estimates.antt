-- ===== src/Placement/Estimates.antt =====
-- What the estimates of one stage are.
use mathlib.Core.Path.{subst}
use mlx_swarm.Base.{
  ℕ, ◌+◌, ◌*◌, ◌≤◌, ◌<◌, ◌≡◌, ◌≢◌, refl, ap, ◌∙◌, Bool, true, false, Option, none, some, arith,
}
use mlx_swarm.Base.Word.{u64_max}
use mlx_swarm.Base.Results.{ok, unless_overflow, >>=-ok, ok-injective}
use mlx_swarm.Registry.Types.{Worker}
use mlx_swarm.Generation.Types.{ExecutionModel, ExecutionStage}
use mlx_swarm.Placement.Types.{
  StageCostEstimate, PlanScoringRequest, ProfileSnapshot, StageComputeScore, StageTransferScore,
  ComputeProfile,
}
use mlx_swarm.Placement.Eligibility.{add_uint64}
use mlx_swarm.Placement.Arithmetic.{
  ScoreError, prefill_overflow, decode_overflow, transfer_overflow, repetition_overflow,
  compute_overflow, multiply_uint64, multiply_divide_ceil, multiply_uint64-exact,
  multiply_divide_ceil-exact,
}
use mlx_swarm.Placement.Scoring.{
  find_compute_profile, find_link_profile, link_rtt, link_bandwidth, score_stage_compute,
  score_stage_transfer, estimate_compute, per_call,
}

-- `q` is `n / d` rounded up.
pub record Ceiling (n d q : ℕ) : Type 0 where
  pub positive : d ≢ 0
  pub covers : n ≤ q * d
  pub least : q * d < n + d

pub multiply_divide_ceil-Ceiling :
    (a b d q : ℕ) → multiply_divide_ceil a b d ≡ ok q → Ceiling (a * b) d q × (q ≤ u64_max)
multiply_divide_ceil-Ceiling a b d q h =
    let r = (multiply_divide_ceil-exact a b d q).0 h in
    (record { positive = r.0; covers = r.2; least = r.3 }, r.1)

unless_overflow-ok :
    (e : ScoreError) (p : ℕ × Bool) (c : ℕ) → unless_overflow e p ≡ ok c → p ≡ (c, false)
unless_overflow-ok e (a, true) c h = absurd (cc h)
unless_overflow-ok e (a, false) c h = cc h

add_uint64-exact :
    (a b c : ℕ) → add_uint64 a b ≡ (c, false) → (c ≡ a + b) × (b ≤ u64_max → c ≤ u64_max)
unfolding add_uint64
add_uint64-exact a b c h = ground arith

pub added :
    (e : ScoreError) (a b c : ℕ)
    → unless_overflow e (add_uint64 a b) ≡ ok c
    → (c ≡ a + b) × (b ≤ u64_max → c ≤ u64_max)
added e a b c h = add_uint64-exact a b c (unless_overflow-ok e _ c h)

multiplied :
    (e : ScoreError) (a b c : ℕ)
    → unless_overflow e (multiply_uint64 a b) ≡ ok c
    → (c ≡ a * b) × (c ≤ u64_max)
multiplied e a b c h =
    let r = (multiply_uint64-exact a b c).0 (unless_overflow-ok e _ c h) in (r.1, omega arith)

-- The transfer of a stage: a round trip and the payload at the bandwidth, rounded up, once for the
-- prefill and once for each decode step, with no sum beyond a uint64.
pub record Transfer (profile : ProfileSnapshot) (w : Worker) (request : PlanScoringRequest)
    (e : StageCostEstimate) (t : StageTransferScore) : Type 0 where
  rtt : t.rtt_micros ≡ link_rtt (find_link_profile profile.links w request) request
  bandwidth :
      t.bytes_per_second ≡ link_bandwidth (find_link_profile profile.links w request) request
  prefill :
      (q : ℕ) × Ceiling (e.prefill_wire_bytes * 1000000) t.bytes_per_second q
      × (t.prefill_micros ≡ t.rtt_micros + q)
  decode :
      (q : ℕ) × Ceiling (e.decode_wire_bytes_per_step * 1000000) t.bytes_per_second q
      × (t.decode_micros ≡ (t.rtt_micros + q) * request.decode_steps)
  total : t.total_micros ≡ t.prefill_micros + t.decode_micros
  pub fits : t.total_micros ≤ u64_max

-- A transfer score that is returned holds the link's round trip and bandwidth, or the request's
-- fallbacks; its prefill time is a round trip and the payload's time, rounded up to whole
-- microseconds; its decode time is as much for each step; and the total of the two fits a uint64.
pub score_stage_transfer-Transfer :
    (profile : ProfileSnapshot) (w : Worker) (request : PlanScoringRequest) (e : StageCostEstimate)
    (t : StageTransferScore)
    → score_stage_transfer profile w request e ≡ ok t
    → Transfer profile w request e t
unfolding score_stage_transfer
score_stage_transfer-Transfer profile w request e t h =
    let link = find_link_profile profile.links w request in
    let rtt = link_rtt link request in
    let bandwidth = link_bandwidth link request in
    let payload = >>=-ok (multiply_divide_ceil e.prefill_wire_bytes 1000000 bandwidth) _ h in
    let prefill =
      >>=-ok (unless_overflow prefill_overflow (add_uint64 rtt payload.0)) _ payload.2 in
    let step =
      >>=-ok (multiply_divide_ceil e.decode_wire_bytes_per_step 1000000 bandwidth) _ prefill.2 in
    let per_step = >>=-ok (unless_overflow decode_overflow (add_uint64 rtt step.0)) _ step.2 in
    let decode =
      >>=-ok (unless_overflow decode_overflow (multiply_uint64 per_step.0 request.decode_steps)) _
        per_step.2 in
    let total =
      >>=-ok (unless_overflow transfer_overflow (add_uint64 prefill.0 decode.0)) _ decode.2 in
    let d = multiplied decode_overflow _ _ _ decode.1 in
    let a = added transfer_overflow _ _ _ total.1 in
    subst (λ s. Transfer profile w request e s) (ok-injective total.2)
      (record {
        rtt = refl;
        bandwidth = refl;
        prefill = (
          payload.0,
          (multiply_divide_ceil-Ceiling _ _ _ _ payload.1).0,
          (added prefill_overflow _ _ _ prefill.1).0,
        );
        decode = (
          step.0,
          (multiply_divide_ceil-Ceiling _ _ _ _ step.1).0,
          d.0 ∙ ap (λ x. x * request.decode_steps) (added decode_overflow _ _ _ per_step.1).0,
        );
        total = a.0;
        fits = a.1 d.1;
      })

-- The time of some calls: the profile's median, scaled to the tokens and rounded up for each call, or
-- the fallback for each.
abbrev pub Estimated : Option ComputeProfile → ℕ → ℕ → ℕ → ℕ → Type 0
Estimated none tokens repetitions fallback n = n ≡ fallback * repetitions
Estimated (some p) tokens repetitions fallback n =
    (q : ℕ) × Ceiling (p.compute_micros.p50 * tokens) p.input_token_count.p50 q
    × (n ≡ q * repetitions)

estimate_compute-Estimated :
    (p : Option ComputeProfile) (tokens repetitions fallback n : ℕ)
    → estimate_compute p tokens repetitions fallback ≡ ok n
    → Estimated p tokens repetitions fallback n × (n ≤ u64_max)
unfolding estimate_compute per_call
estimate_compute-Estimated none tokens repetitions fallback n h =
    multiplied repetition_overflow fallback repetitions n h
estimate_compute-Estimated (some p) tokens repetitions fallback n h =
    let one =
      >>=-ok (multiply_divide_ceil p.compute_micros.p50 tokens p.input_token_count.p50) _ h in
    let all = multiplied repetition_overflow one.0 repetitions n one.2 in
    ((one.0, (multiply_divide_ceil-Ceiling _ _ _ _ one.1).0, all.0), all.1)

-- The compute time of a stage, with no sum beyond a uint64.
pub record Compute (profile : ProfileSnapshot) (model : ExecutionModel) (w : Worker)
    (stage : ExecutionStage) (request : PlanScoringRequest) (e : StageCostEstimate)
    (c : StageComputeScore) : Type 0 where
  prefill_found : c.prefill_profile ≡ find_compute_profile profile.compute w model stage "prefill"
  decode_found : c.decode_profile ≡ find_compute_profile profile.compute w model stage "decode"
  prefill :
      Estimated c.prefill_profile request.prefill_input_tokens 1 e.fallback_prefill_compute_micros
        c.prefill_micros
  decode :
      Estimated c.decode_profile 1 request.decode_steps e.fallback_decode_compute_micros_per_step
        c.decode_micros
  total : c.total_micros ≡ c.prefill_micros + c.decode_micros
  pub fits : c.total_micros ≤ u64_max

pub score_stage_compute-Compute :
    (profile : ProfileSnapshot) (model : ExecutionModel) (w : Worker) (stage : ExecutionStage)
    (request : PlanScoringRequest) (e : StageCostEstimate) (c : StageComputeScore)
    → score_stage_compute profile model w stage request e ≡ ok c
    → Compute profile model w stage request e c
unfolding score_stage_compute
score_stage_compute-Compute profile model w stage request e c h =
    let find = find_compute_profile profile.compute w model stage in
    let prefill =
      >>=-ok
        (estimate_compute (find "prefill") request.prefill_input_tokens 1
          e.fallback_prefill_compute_micros)
        _ h in
    let decode =
      >>=-ok
        (estimate_compute (find "decode") 1 request.decode_steps
          e.fallback_decode_compute_micros_per_step)
        _ prefill.2 in
    let total =
      >>=-ok (unless_overflow compute_overflow (add_uint64 prefill.0 decode.0)) _ decode.2 in
    let p =
      estimate_compute-Estimated (find "prefill") request.prefill_input_tokens 1
        e.fallback_prefill_compute_micros prefill.0 prefill.1 in
    let d =
      estimate_compute-Estimated (find "decode") 1 request.decode_steps
        e.fallback_decode_compute_micros_per_step decode.0 decode.1 in
    let a = added compute_overflow _ _ _ total.1 in
    subst (λ s. Compute profile model w stage request e s) (ok-injective total.2)
      (record {
        prefill_found = refl;
        decode_found = refl;
        prefill = p.0;
        decode = d.0;
        total = a.0;
        fits = a.1 d.1;
      })
