-- ===== src/Mesh/Lookup.antt =====
-- What a claim and the end of a stage leave under each key of the tables.
use mlx_swarm.Base.{◌≡◌, String, Bool, true, arith, ite, Bool-cases, inl, inr}
use mlx_swarm.Base.GoMap.{or_zero, GoMap, get, get-put, get-delete}
use mlx_swarm.Base.Text.{string_key}
use mlx_swarm.Registry.Types.{Worker}
use mlx_swarm.Mesh.State.{
  SequenceKey, WorkerKey, sequence_key_discrete, worker_key_discrete, sequence_key_key,
  worker_key_key, WorkerState, zero_worker, Tables, StageReservation, Outcome,
}
use mlx_swarm.Mesh.Reconcile.{same_instance, is_idle}
use mlx_swarm.Mesh.Admit.{sequence_state, worker_state, claim_sequence, claim_worker, commit}
use mlx_swarm.Mesh.Finish.{
  is_some, finish_sequence, finish_worker, store_sequence, store_worker, finish_stage,
}

pub sequence_state-commit :
    (t : Tables) (r : StageReservation) (k : SequenceKey)
    → sequence_state (commit t r) k
      ≡ ite
          (sequence_key_discrete r.sequence_key k)
          (claim_sequence (sequence_state t r.sequence_key))
          (sequence_state t k)
unfolding commit
sequence_state-commit t r k = ground (
  arith,
  get-put t.reservations r.sequence_key k (claim_sequence (sequence_state t r.sequence_key)),
)

pub worker_state-commit :
    (t : Tables) (r : StageReservation) (k : WorkerKey)
    → worker_state (commit t r) k
      ≡ ite
          (worker_key_discrete r.worker_key k)
          (claim_worker r (worker_state t r.worker_key))
          (worker_state t k)
unfolding commit
worker_state-commit t r k =
    ground (arith, get-put t.workers r.worker_key k (claim_worker r (worker_state t r.worker_key)))

idle_zero : (s : WorkerState) → is_idle s ≡ true → s ≡ zero_worker
unfolding is_idle
idle_zero s h = ground arith

get-store_worker :
    (m : GoMap WorkerKey WorkerState) (k j : WorkerKey) (s : WorkerState)
    → or_zero (get (store_worker m k s) j) zero_worker
      ≡ ite (worker_key_discrete k j) s (or_zero (get m j) zero_worker)
unfolding store_worker
get-store_worker m k j s = elim (Bool-cases (is_idle s)) [
  | inl idle ↦ rw (idle, idle_zero s idle) (ground (arith, get-delete m k j))
  | inr busy ↦ rw busy (ground (arith, get-put m k j s))
]

-- The incarnation of a stage's worker is still in the snapshot.
abbrev pub still_here : GoMap String Worker → StageReservation → Bool
still_here workers r =
    is_some (same_instance (get workers r.worker_key.worker_id) r.worker_key.instance_id)

pub sequence_state-finish :
    (workers : GoMap String Worker) (o : Outcome) (t : Tables) (r : StageReservation)
    (k : SequenceKey)
    → sequence_state (finish_stage workers o t r) k
      ≡ ite
          (sequence_key_discrete r.sequence_key k)
          (finish_sequence (still_here workers r) o r (sequence_state t r.sequence_key))
          (sequence_state t k)
unfolding finish_stage store_sequence
sequence_state-finish workers o t r k = ground (
  arith,
  get-put t.reservations r.sequence_key k
      (finish_sequence (still_here workers r) o r (sequence_state t r.sequence_key)),
  get-delete t.reservations r.sequence_key k,
)

pub worker_state-finish :
    (workers : GoMap String Worker) (o : Outcome) (t : Tables) (r : StageReservation)
    (k : WorkerKey)
    → worker_state (finish_stage workers o t r) k
      ≡ ite
          (worker_key_discrete r.worker_key k)
          (finish_worker (still_here workers r) o r (worker_state t r.worker_key))
          (worker_state t k)
unfolding finish_stage
worker_state-finish workers o t r k =
    get-store_worker t.workers r.worker_key k
      (finish_worker (still_here workers r) o r (worker_state t r.worker_key))
