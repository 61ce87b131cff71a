-- ===== src/Mesh/Capacity.antt =====
-- What an admitted stage leaves of its worker's capacity: the limits that `reserveAdmission` checks.
use mlx_swarm.Base.{
  ℕ, suc, ◌+◌, ◌≤◌, ◌≡◌, refl, String, Bool, true, false, List, [], ◌∷◌, some, arith, Option-cases,
  inl, inr,
}
use mlx_swarm.Base.GoMap.{GoMap, get}
use mlx_swarm.Base.Int.{ℤ, pos, ◌≤ℤ◌, leb_ℤ, add_int}
use mlx_swarm.Base.Text.{string_key}
use native.Mathlib.Numerals.{add-one}
use mlx_swarm.Base.Word.{add_u64, u64_max}
use mlx_swarm.Registry.Types.{Worker}
use mlx_swarm.Generation.Types.{ExecutionStage}
use mlx_swarm.Placement.Types.{Candidate, StageCostEstimate}
use mlx_swarm.Mesh.State.{
  SequenceState, PendingMemory, WorkerState, Tables, StageReservation, add_reservation_bytes,
  subtract_available, reserve_pending, reserved_worker_memory,
}
use mlx_swarm.Mesh.Reconcile.{reported_open}
use mlx_swarm.Mesh.Admit.{
  ok, sequence_key_of, worker_key_of, sequence_state, worker_state, local_open,
  check_sequence_capacity, check_worker_capacity, check_available_memory, check_retained_memory,
  check_stage, claim_sequence, claim_worker, AdmissionError, refuse_if,
}

abbrev pub pending_available : List PendingMemory → ℕ
pending_available [] = 0
pending_available (p ∷ ps) = p.available_bytes + pending_available ps

abbrev pub pending_retained : List PendingMemory → ℕ
pending_retained [] = 0
pending_retained (p ∷ ps) = p.retained_bytes + pending_retained ps

-- The sums of the code are the true sums unless it reports an overflow.
pub reserve_pending_exact :
    (a r : ℕ) (ps : List PendingMemory)
    → (reserve_pending a r ps).2 ≡ false
    → ((reserve_pending a r ps).0 ≡ a + pending_available ps)
      × ((reserve_pending a r ps).1 ≡ r + pending_retained ps)
unfolding reserve_pending
reserve_pending_exact a r [] h = (omega arith, omega arith)
reserve_pending_exact a r (p ∷ ps) h =
    ground (arith, reserve_pending_exact (a + p.available_bytes) (r + p.retained_bytes) ps)

-- The capacity that is left, with the local claims added to the worker's report.
pub record Within (w : Worker) (shard_id : String) (s : SequenceState) (u : WorkerState)
    : Type 0 where
  pub sequences :
      add_int (reported_open w.status.retained_shards shard_id) (pos (local_open s))
      ≤ℤ w.capabilities.admission.max_open_sequences_per_shard
  pub requests :
      add_int w.status.open_sequence_count (pos u.active_requests)
      ≤ℤ w.capabilities.admission.max_concurrent_requests
  pub available :
      u.active_available_bytes + pending_available u.pending_memory
      ≤ w.status.available_memory_bytes
  pub retained :
      w.status.retained_bytes + u.active_retained_bytes + pending_retained u.pending_memory
      ≤ w.capabilities.admission.retained_byte_budget

add_int-suc :
    (limit a : ℤ) (n : ℕ)
    → leb_ℤ limit (add_int a (pos n)) ≡ false
    → add_int a (pos (suc n)) ≤ℤ limit
unfolding add_int
add_int-suc limit a n h = ground arith

add_reservation-le : (a b : ℕ) → (add_reservation_bytes a b).0 ≤ a + b
unfolding add_reservation_bytes
add_reservation-le a b = ground arith

add_reservation_exact :
    (a b : ℕ) → (add_reservation_bytes a b).1 ≡ false → (add_reservation_bytes a b).0 ≡ a + b
unfolding add_reservation_bytes
add_reservation_exact a b h = ground arith

check_available-ok :
    (w : Worker) (s : WorkerState) (required : ℕ)
    → check_available_memory w s required ≡ ok tt
    → (s.active_available_bytes + pending_available s.pending_memory + required
        ≤ w.status.available_memory_bytes)
      × ((reserved_worker_memory s).2 ≡ false)
unfolding check_available_memory subtract_available reserved_worker_memory
check_available-ok w s required h =
    ground (
      arith,
      reserve_pending_exact s.active_available_bytes s.active_retained_bytes s.pending_memory,
    )

check_retained-ok :
    (w : Worker) (s : WorkerState) (bytes : ℕ)
    → (reserved_worker_memory s).2 ≡ false
    → check_retained_memory w s bytes ≡ ok tt
    → w.status.retained_bytes + s.active_retained_bytes + pending_retained s.pending_memory + bytes
      ≤ w.capabilities.admission.retained_byte_budget
unfolding check_retained_memory reserved_worker_memory
check_retained-ok w s bytes fits h =
    ground (
      arith,
      reserve_pending_exact s.active_available_bytes s.active_retained_bytes s.pending_memory,
    )

-- What a successful check has found of the worker.
pub record Checked (t : Tables) (w : Worker) (stage : ExecutionStage) (cost : StageCostEstimate)
    (r : StageReservation) : Type 0 where
  pub sequence :
      check_sequence_capacity w stage (sequence_state t (sequence_key_of w stage)) ≡ ok tt
  pub worker : check_worker_capacity w (worker_state t (worker_key_of w)) ≡ ok tt
  pub total : (add_reservation_bytes r.load_memory_bytes r.sequence_memory_bytes).1 ≡ false
  pub available :
      check_available_memory w
        (worker_state t (worker_key_of w))
        (add_reservation_bytes r.load_memory_bytes r.sequence_memory_bytes).0
      ≡ ok tt
  pub retained :
      check_retained_memory w (worker_state t (worker_key_of w)) r.sequence_memory_bytes ≡ ok tt
  pub sequence_key : r.sequence_key ≡ sequence_key_of w stage
  pub worker_key : r.worker_key ≡ worker_key_of w

pub check_stage-ok :
    (t : Tables) (ws : GoMap String Worker) (stage : ExecutionStage) (candidate : Candidate)
    (cost : StageCostEstimate) (r : StageReservation)
    → check_stage t ws stage candidate cost ≡ ok r
    → (w : Worker) × (get ws stage.target_id ≡ some w) × Checked t w stage cost r
unfolding check_stage
check_stage-ok t ws stage candidate cost r h = elim (Option-cases (get ws stage.target_id)) [
  | inl e ↦ ground arith
  | inr (w, e) ↦ (w, e, ground arith)
]

refuse_if-ok : (b : Bool) (e : AdmissionError) → refuse_if b e ≡ ok tt → b ≡ false
refuse_if-ok true e h = cc
refuse_if-ok false e h = refl

local_open-claim : (s : SequenceState) → local_open (claim_sequence s) ≡ suc (local_open s)
unfolding local_open claim_sequence
local_open-claim s = omega arith

sequence_room :
    (w : Worker) (stage : ExecutionStage) (s : SequenceState)
    → check_sequence_capacity w stage s ≡ ok tt
    → add_int
        (reported_open w.status.retained_shards stage.shard_id)
        (pos (local_open (claim_sequence s)))
      ≤ℤ w.capabilities.admission.max_open_sequences_per_shard
unfolding check_sequence_capacity
sequence_room w stage s h = rw (local_open-claim s) (
    add_int-suc w.capabilities.admission.max_open_sequences_per_shard
      (reported_open w.status.retained_shards stage.shard_id) (local_open s) (refuse_if-ok _ _ h))

request_room :
    (w : Worker) (r : StageReservation) (u : WorkerState)
    → check_worker_capacity w u ≡ ok tt
    → add_int w.status.open_sequence_count (pos (claim_worker r u).active_requests)
      ≤ℤ w.capabilities.admission.max_concurrent_requests
unfolding check_worker_capacity claim_worker
request_room w r u h = rw add-one (
    add_int-suc w.capabilities.admission.max_concurrent_requests w.status.open_sequence_count
      u.active_requests (refuse_if-ok _ _ h))

available_room :
    (w : Worker) (r : StageReservation) (u : WorkerState)
    → (add_reservation_bytes r.load_memory_bytes r.sequence_memory_bytes).1 ≡ false
    → check_available_memory w u
        (add_reservation_bytes r.load_memory_bytes r.sequence_memory_bytes).0
      ≡ ok tt
    → (claim_worker r u).active_available_bytes
        + pending_available (claim_worker r u).pending_memory
      ≤ w.status.available_memory_bytes
unfolding claim_worker
available_room w r u fits h = omega (
  arith,
  add_reservation_exact r.load_memory_bytes r.sequence_memory_bytes fits,
  (check_available-ok w u _ h).0,
  add_reservation-le u.active_available_bytes (add_u64 r.load_memory_bytes r.sequence_memory_bytes),
)

retained_room :
    (w : Worker) (r : StageReservation) (u : WorkerState)
    → (reserved_worker_memory u).2 ≡ false
    → check_retained_memory w u r.sequence_memory_bytes ≡ ok tt
    → w.status.retained_bytes
        + (claim_worker r u).active_retained_bytes
        + pending_retained (claim_worker r u).pending_memory
      ≤ w.capabilities.admission.retained_byte_budget
unfolding claim_worker
retained_room w r u fits h = omega (
  arith,
  check_retained-ok w u r.sequence_memory_bytes fits h,
  add_reservation-le u.active_retained_bytes r.sequence_memory_bytes,
)

-- The limits still hold with one more claim on a state that passed the checks.
pub claim-Within :
    (t : Tables) (w : Worker) (stage : ExecutionStage) (cost : StageCostEstimate)
    (r : StageReservation)
    → Checked t w stage cost r
    → Within w stage.shard_id
        (claim_sequence (sequence_state t (sequence_key_of w stage)))
        (claim_worker r (worker_state t (worker_key_of w)))
claim-Within t w stage cost r c = record {
  sequences = sequence_room w stage _ c.sequence;
  requests = request_room w r _ c.worker;
  available = available_room w r _ c.total c.available;
  retained = retained_room w r _ (check_available-ok w _ _ c.available).1 c.retained;
}

-- The two words that bound a worker's memory.
abbrev pub IsWord : Worker → Type 0
IsWord w =
    (w.status.available_memory_bytes ≤ u64_max)
    × (w.capabilities.admission.retained_byte_budget ≤ u64_max)

add_reservation_fits : (a b : ℕ) → a + b ≤ u64_max → (add_reservation_bytes a b).0 ≡ a + b
unfolding add_reservation_bytes
add_reservation_fits a b h = ground arith

-- The claim that a check allows does not saturate: the bytes add up.
pub claim_worker_exact :
    (t : Tables) (w : Worker) (stage : ExecutionStage) (cost : StageCostEstimate)
    (r : StageReservation)
    → IsWord w
    → Checked t w stage cost r
    → let u = worker_state t (worker_key_of w) in
      ((claim_worker r u).active_available_bytes
        ≡ u.active_available_bytes + add_u64 r.load_memory_bytes r.sequence_memory_bytes)
      × ((claim_worker r u).active_retained_bytes
          ≡ u.active_retained_bytes + r.sequence_memory_bytes)
unfolding claim_worker
claim_worker_exact t w stage cost r word c =
    let (room, sound) = check_available-ok w _ _ c.available in
    let total = add_reservation_exact r.load_memory_bytes r.sequence_memory_bytes c.total in
    (
      add_reservation_fits _ _ (omega arith),
      add_reservation_fits _ _
          (omega (arith, check_retained-ok w _ r.sequence_memory_bytes sound c.retained)),
    )
