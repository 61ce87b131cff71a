-- ===== src/Placement/Scoring.antt =====
-- internal/placement/scoring.go: the estimates of one stage, and their sum over a plan's stages.
use mlx_swarm.Base.{
  ℕ, ◌+◌, String, Bool, true, false, ◌&&◌, List, [], ◌∷◌, Option, none, some, if◌then◌else◌, is_yes,
}
use mlx_swarm.Base.Int.{pos, ltb_ℤ, eqb_ℤ, pos_part}
use mlx_swarm.Base.Text.{string_discrete}
use mlx_swarm.Base.Results.{Result, ok, ◌>>=◌, ◌>>◌, refuse_if, unless_overflow}
use mlx_swarm.Registry.Types.{Worker}
use mlx_swarm.Generation.Types.{ExecutionModel, ExecutionStage, model_discrete}
use mlx_swarm.Placement.Types.{
  StageCostEstimate, PlanScoringRequest, LinkProfile, ComputeProfile, ProfileSnapshot,
  StageComputeScore, StageTransferScore, PlanScore, Candidate,
}
use mlx_swarm.Placement.Eligibility.{add_uint64}
use mlx_swarm.Placement.Arithmetic.{
  ScoreError, repetition_overflow, compute_overflow, prefill_overflow, decode_overflow,
  transfer_overflow, negative_counters, multiply_uint64, multiply_divide_ceil, checked_score_add,
}

-- `findComputeProfile`.
abbrev pub is_compute_profile :
    Worker → ExecutionModel → ExecutionStage → String → ComputeProfile → Bool
is_compute_profile w model stage operation p =
    is_yes (string_discrete p.worker_id w.id)
    && is_yes (string_discrete p.worker_instance_id w.instance_id)
    && is_yes (string_discrete p.backend w.capabilities.backend)
    && is_yes (model_discrete p.model model)
    && is_yes (string_discrete p.operation operation)
    && eqb_ℤ p.layer_start stage.layer_start
    && eqb_ℤ p.layer_end stage.layer_end

unfoldable pub find_compute_profile :
    List ComputeProfile → Worker → ExecutionModel → ExecutionStage → String → Option ComputeProfile
find_compute_profile [] w model stage operation = none
find_compute_profile (p ∷ ps) w model stage operation =
    let rest = find_compute_profile ps w model stage operation in
    if is_compute_profile w model stage operation p then some p else rest

-- `findLinkProfile`.
abbrev pub is_link_profile : Worker → PlanScoringRequest → LinkProfile → Bool
is_link_profile w request p =
    is_yes (string_discrete p.source_id request.coordinator_id)
    && is_yes (string_discrete p.source_instance_id request.coordinator_instance_id)
    && is_yes (string_discrete p.target_id w.id)
    && is_yes (string_discrete p.target_instance_id w.instance_id)
    && is_yes (string_discrete p.protocol request.transport.protocol)
    && is_yes (string_discrete p.tensor_encoding request.transport.tensor_encoding)

unfoldable pub find_link_profile :
    List LinkProfile → Worker → PlanScoringRequest → Option LinkProfile
find_link_profile [] w request = none
find_link_profile (p ∷ ps) w request =
    let rest = find_link_profile ps w request in
    if is_link_profile w request p then some p else rest

abbrev pub is_profiled {ℓ} : {A : Type ℓ} → Option A → Bool
is_profiled none = false
is_profiled (some p) = true

-- The time of one call: the profile's, scaled to the request's tokens, or the fallback.
unfoldable pub per_call : Option ComputeProfile → ℕ → ℕ → Result ScoreError ℕ
per_call none tokens fallback = ok fallback
per_call (some p) tokens fallback =
    multiply_divide_ceil p.compute_micros.p50 tokens p.input_token_count.p50

-- `estimateCompute`; its second value is whether there is a profile.
unfoldable pub estimate_compute : Option ComputeProfile → ℕ → ℕ → ℕ → Result ScoreError ℕ
unfolding per_call
estimate_compute profile tokens repetitions fallback = do
  one ← per_call profile tokens fallback
  unless_overflow repetition_overflow (multiply_uint64 one repetitions)

-- `scoreStageCompute`.
unfoldable pub score_stage_compute :
    ProfileSnapshot
    → ExecutionModel
    → Worker
    → ExecutionStage
    → PlanScoringRequest
    → StageCostEstimate
    → Result ScoreError StageComputeScore
score_stage_compute profile model w stage request estimate = do
  let prefill_profile = find_compute_profile profile.compute w model stage "prefill"
  prefill ←
      estimate_compute prefill_profile request.prefill_input_tokens 1
        estimate.fallback_prefill_compute_micros
  let decode_profile = find_compute_profile profile.compute w model stage "decode"
  decode ←
      estimate_compute decode_profile 1 request.decode_steps
        estimate.fallback_decode_compute_micros_per_step
  total ← unless_overflow compute_overflow (add_uint64 prefill decode)
  ok (record {
    prefill_micros = prefill;
    decode_micros = decode;
    total_micros = total;
    prefill_profiled = is_profiled prefill_profile;
    decode_profiled = is_profiled decode_profile;
    prefill_profile = prefill_profile;
    decode_profile = decode_profile;
  })

-- The round trip and the bandwidth of the link, or the request's fallbacks.
unfoldable pub link_rtt : Option LinkProfile → PlanScoringRequest → ℕ
link_rtt none request = request.fallback_rtt_micros
link_rtt (some l) request = l.rtt_micros.p50

unfoldable pub bandwidth_profiled : Option LinkProfile → Bool
bandwidth_profiled none = false
bandwidth_profiled (some l) = ltb_ℤ (pos 0) l.effective_bytes_per_second.count

unfoldable pub link_bandwidth : Option LinkProfile → PlanScoringRequest → ℕ
unfolding bandwidth_profiled
link_bandwidth none request = request.fallback_bytes_per_second
link_bandwidth (some l) request =
    if bandwidth_profiled (some l)
    then l.effective_bytes_per_second.p50
    else request.fallback_bytes_per_second

-- `scoreStageTransfer`.
unfoldable pub score_stage_transfer :
    ProfileSnapshot
    → Worker
    → PlanScoringRequest
    → StageCostEstimate
    → Result ScoreError StageTransferScore
score_stage_transfer profile w request estimate = do
  let link = find_link_profile profile.links w request
  let rtt = link_rtt link request
  let bandwidth = link_bandwidth link request
  prefill_payload ← multiply_divide_ceil estimate.prefill_wire_bytes 1000000 bandwidth
  prefill ← unless_overflow prefill_overflow (add_uint64 rtt prefill_payload)
  decode_payload ← multiply_divide_ceil estimate.decode_wire_bytes_per_step 1000000 bandwidth
  per_step ← unless_overflow decode_overflow (add_uint64 rtt decode_payload)
  decode ← unless_overflow decode_overflow (multiply_uint64 per_step request.decode_steps)
  total ← unless_overflow transfer_overflow (add_uint64 prefill decode)
  ok (record {
    rtt_micros = rtt;
    bytes_per_second = bandwidth;
    prefill_micros = prefill;
    decode_micros = decode;
    total_micros = total;
    rtt_profiled = is_profiled link;
    bandwidth_profiled = bandwidth_profiled link;
    link_profile = link;
  })

abbrev pub one_if : Bool → ℕ
one_if true = 1
one_if false = 0

-- The memory of a shard that is not retained yet.
unfoldable pub new_load : PlanScore → Candidate → StageCostEstimate → Result ScoreError ℕ
new_load score c estimate =
    if c.reuses_retained_shard
    then ok score.new_load_memory_bytes
    else checked_score_add score.new_load_memory_bytes estimate.load_memory_bytes

-- `mergeStageScore`. On an error the caller drops the score, so that its partial update is left out.
unfoldable pub merge_stage_score :
    PlanScore
    → Worker
    → Candidate
    → StageCostEstimate
    → StageComputeScore
    → StageTransferScore
    → Result ScoreError PlanScore
unfolding new_load
merge_stage_score score w c estimate compute transfer = do
  compute_micros ← checked_score_add score.compute_micros compute.total_micros
  transfer_micros ← checked_score_add score.transfer_micros transfer.total_micros
  estimated ← checked_score_add compute_micros transfer_micros
  refuse_if (ltb_ℤ w.status.recent_failure_count (pos 0)) negative_counters
  refuse_if (ltb_ℤ w.status.restart_count (pos 0)) negative_counters
  failures ← checked_score_add score.recent_failure_count (pos_part w.status.recent_failure_count)
  restarts ← checked_score_add score.restart_count (pos_part w.status.restart_count)
  pressure ← checked_score_add score.memory_pressure_bytes w.status.memory_pressure_bytes
  additional ←
      checked_score_add score.required_additional_memory_bytes c.required_additional_memory_bytes
  loaded ← new_load score c estimate
  ok (record score {
    estimated_micros = estimated;
    compute_micros = compute_micros;
    transfer_micros = transfer_micros;
    recent_failure_count = failures;
    restart_count = restarts;
    memory_pressure_bytes = pressure;
    required_additional_memory_bytes = additional;
    new_load_memory_bytes = loaded;
    reused_stage_count = score.reused_stage_count + one_if c.reuses_retained_shard;
    profiled_compute_operation_count =
        score.profiled_compute_operation_count
        + one_if compute.prefill_profiled
        + one_if compute.decode_profiled;
    profiled_rtt_stage_count = score.profiled_rtt_stage_count + one_if transfer.rtt_profiled;
    profiled_bandwidth_stage_count =
        score.profiled_bandwidth_stage_count + one_if transfer.bandwidth_profiled;
  })
