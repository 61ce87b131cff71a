-- ===== src/Mesh/Admit.antt =====
-- `reserveAdmission`: the checks of each selected stage against one snapshot, then the claims.
use mlx_swarm.Base.{
  ℕ, ◌+◌, String, Bool, true, false, not, ◌&&◌, ◌||◌, List, [], ◌∷◌, Option, none, some, ltb, ◌==◌,
  if◌then◌else◌, is_yes, length,
}
use mlx_swarm.Base.GoMap.{GoMap, get, put, or_zero}
use mlx_swarm.Base.Int.{pos, leb_ℤ, add_int}
use mlx_swarm.Base.Text.{string_discrete, string_key}
use mlx_swarm.Base.Word.{add_u64}
use mlx_swarm.Registry.Types.{Worker, Inventory}
use mlx_swarm.Generation.Types.{ExecutionStage}
use mlx_swarm.Placement.Types.{Candidate, StageCostEstimate, PlanEvaluation, selected}
use mlx_swarm.Mesh.State.{
  SequenceKey, WorkerKey, sequence_key_key, worker_key_key, SequenceState, WorkerState,
  zero_sequence, zero_worker, Tables, StageReservation, add_reservation_bytes, subtract_available,
  reserved_worker_memory,
}
use mlx_swarm.Registry.Index.{index_workers}
use mlx_swarm.Mesh.Reconcile.{reported_open, reconcile}

pub data AdmissionError : Type 0 where
  incomplete_evidence target_missing observation_unavailable sequence_capacity_reserved :
      AdmissionError
  worker_capacity_reserved foreign_evidence inconsistent_memory worker_memory_reserved :
      AdmissionError

pub data Result {ℓ} (A : Type ℓ) : Type ℓ where
  ok : A → Result A
  err : AdmissionError → Result A

infixl 5 ◌>>=◌ ◌>>◌
abbrev pub ◌>>=◌ {ℓ κ} : {A : Type ℓ} {B : Type κ} → Result A → (A → Result B) → Result B
err refusal >>= next = err refusal
ok value >>= next = next value

abbrev pub ◌>>◌ {ℓ} : {B : Type ℓ} → Result (Unit {0}) → Result B → Result B
check >> next = check >>= λ passed. next

abbrev pub refuse_if : Bool → AdmissionError → Result (Unit {0})
refuse_if true e = err e
refuse_if false e = ok tt

abbrev pub or_fail {ℓ} : {A : Type ℓ} → Option A → AdmissionError → Result A
or_fail none e = err e
or_fail (some a) e = ok a

abbrev pub sequence_key_of : Worker → ExecutionStage → SequenceKey
sequence_key_of w stage = record {
  worker_id = w.id;
  instance_id = w.instance_id;
  shard_id = stage.shard_id;
}

abbrev pub worker_key_of : Worker → WorkerKey
worker_key_of w = record { worker_id = w.id; instance_id = w.instance_id }

abbrev pub sequence_state : Tables → SequenceKey → SequenceState
sequence_state t k = or_zero (get t.reservations k) zero_sequence

abbrev pub worker_state : Tables → WorkerKey → WorkerState
worker_state t k = or_zero (get t.workers k) zero_worker

-- The opens of a shard that this scheduler knows of and the worker may not yet report.
unfoldable pub local_open : SequenceState → ℕ
local_open s = s.active + length s.poisoned_after

unfoldable pub check_sequence_capacity : Worker → ExecutionStage → SequenceState → Result (Unit {0})
unfolding reported_open local_open
check_sequence_capacity w stage s =
    refuse_if
      (leb_ℤ w.capabilities.admission.max_open_sequences_per_shard
        (add_int (reported_open w.status.retained_shards stage.shard_id) (pos (local_open s))))
      sequence_capacity_reserved

unfoldable pub check_worker_capacity : Worker → WorkerState → Result (Unit {0})
check_worker_capacity w s =
    refuse_if
      (leb_ℤ w.capabilities.admission.max_concurrent_requests
        (add_int w.status.open_sequence_count (pos s.active_requests)))
      worker_capacity_reserved

-- A retained shard is not loaded again.
unfoldable pub load_bytes : Candidate → StageCostEstimate → ℕ
load_bytes candidate cost = if candidate.reuses_retained_shard then 0 else cost.load_memory_bytes

unfoldable pub check_available_memory : Worker → WorkerState → ℕ → Result (Unit {0})
unfolding subtract_available
check_available_memory w s required =
    let (available, retained, overflow) = reserved_worker_memory s in
    refuse_if
      (overflow
        || ltb w.status.available_memory_bytes available
        || ltb (subtract_available w.status.available_memory_bytes available) required)
      worker_memory_reserved

unfoldable pub check_retained_memory : Worker → WorkerState → ℕ → Result (Unit {0})
unfolding add_reservation_bytes
check_retained_memory w s sequence_bytes =
    let reserved = (reserved_worker_memory s).1 in
    let first = add_reservation_bytes w.status.retained_bytes reserved in
    let second = if first.1 then first else add_reservation_bytes first.0 sequence_bytes in
    refuse_if (second.1 || ltb w.capabilities.admission.retained_byte_budget second.0)
      worker_memory_reserved

-- The checks of one stage, in the order of the source.
unfoldable pub check_stage :
    Tables
    → GoMap String Worker
    → ExecutionStage
    → Candidate
    → StageCostEstimate
    → Result StageReservation
unfolding check_sequence_capacity check_worker_capacity load_bytes check_available_memory
    check_retained_memory
check_stage t workers stage candidate cost = do
  w ← or_fail (get workers stage.target_id) target_missing
  refuse_if (w.status.worker_observation_sequence == 0) observation_unavailable
  check_sequence_capacity w stage (sequence_state t (sequence_key_of w stage))
  let s = worker_state t (worker_key_of w)
  check_worker_capacity w s
  refuse_if (not (is_yes (string_discrete candidate.worker_id w.id))) foreign_evidence
  let load = load_bytes candidate cost
  let required = add_reservation_bytes load cost.sequence_memory_bytes
  refuse_if (required.1 || not (required.0 == candidate.required_additional_memory_bytes))
      inconsistent_memory
  check_available_memory w s required.0
  check_retained_memory w s cost.sequence_memory_bytes
  ok (record {
    sequence_key = sequence_key_of w stage;
    worker_key = worker_key_of w;
    load_memory_bytes = load;
    sequence_memory_bytes = cost.sequence_memory_bytes;
    setup_observed = false;
    setup_shard_present = false;
    setup_observation_sequence = 0;
    cleanup_observed = false;
    cleanup_shard_open = false;
    cleanup_observation_sequence = 0;
  })

-- The loop over the stages, with each stage's evidence. It reads the tables and does not write
-- them. The caller has compared the lengths.
unfoldable pub check_stages :
    Tables
    → GoMap String Worker
    → List ExecutionStage
    → List Candidate
    → List StageCostEstimate
    → Result (List StageReservation)
unfolding check_stage
check_stages t workers (stage ∷ stages) (candidate ∷ candidates) (cost ∷ costs) =
    let rest = check_stages t workers stages candidates costs in
    check_stage t workers stage candidate cost >>= λ r. rest >>= λ rs. ok (r ∷ rs)
check_stages t workers _ _ _ = ok []

-- The claims of one stage: on its shard, and on its worker.
unfoldable pub claim_sequence : SequenceState → SequenceState
claim_sequence s = record s { active = s.active + 1 }

unfoldable pub claim_worker : StageReservation → WorkerState → WorkerState
unfolding add_reservation_bytes
claim_worker stage s = record {
  active_requests = s.active_requests + 1;
  active_available_bytes =
      (add_reservation_bytes s.active_available_bytes
        (add_u64 stage.load_memory_bytes stage.sequence_memory_bytes)).0;
  active_retained_bytes =
      (add_reservation_bytes s.active_retained_bytes stage.sequence_memory_bytes).0;
  pending_memory = s.pending_memory;
}

unfoldable pub commit : Tables → StageReservation → Tables
unfolding claim_sequence claim_worker
commit t stage = record {
  reservations =
      put t.reservations stage.sequence_key (claim_sequence (sequence_state t stage.sequence_key));
  workers = put t.workers stage.worker_key (claim_worker stage (worker_state t stage.worker_key));
}

unfoldable pub commit_all : Tables → List StageReservation → Tables
unfolding commit
commit_all t [] = t
commit_all t (r ∷ rs) = commit_all (commit t r) rs

unfoldable pub settle :
    Tables → Result (List StageReservation) → Tables × Result (List StageReservation)
unfolding commit_all
settle t (err e) = (t, err e)
settle t (ok stages) = (commit_all t stages, ok stages)

-- The evidence has one entry for each stage of the plan.
unfoldable pub has_evidence : PlanEvaluation → Bool
has_evidence e =
    length e.plan.stages == length (selected e.stages)
    && length e.plan.stages == length e.request.stages

-- The tables after the call, and the stages that it reserved.
unfoldable pub reserve_admission :
    Tables → Inventory → PlanEvaluation → Tables × Result (List StageReservation)
reserve_admission t inventory evaluation =
    let workers = index_workers inventory.workers in
    let t' = reconcile workers t in
    if has_evidence evaluation
    then settle t' (check_stages t' workers plan.stages (selected stages) request.stages)
    else (t, err incomplete_evidence)
  where
    open evaluation use {plan, stages, request}
