-- ===== src/Mesh/Ledger.antt =====
-- The counters of the tables against the reservations that are still open: what claims add and the
-- ends of stages take away.

use mlx_swarm.Base.{ℕ, ◌+◌, ◌-◌, ◌≡◌, refl, String, Bool, List, [], ◌∷◌, arith, ite}
use mlx_swarm.Base.GoMap.{GoMap}
use mlx_swarm.Base.Text.{string_key}
use mlx_swarm.Base.Word.{add_u64}
use mlx_swarm.Registry.Types.{Worker}
use mlx_swarm.Mesh.State.{
  SequenceKey, WorkerKey, sequence_key_discrete, worker_key_discrete, WorkerState, Tables,
  StageReservation, Outcome, subtract_available,
}
use mlx_swarm.Mesh.Admit.{
  sequence_state, worker_state, claim_sequence, claim_worker, commit, commit_all,
}
use mlx_swarm.Mesh.Finish.{finish_sequence, finish_worker, finish_stage, finish_stages}
use mlx_swarm.Mesh.Lookup.{
  sequence_state-commit, worker_state-commit, sequence_state-finish, worker_state-finish,
  still_here,
}

-- The reservations on one worker, each counted by a weight; and those on one shard.
abbrev pub sum_worker : (StageReservation → ℕ) → WorkerKey → List StageReservation → ℕ
sum_worker f k [] = 0
sum_worker f k (r ∷ rs) = ite (worker_key_discrete r.worker_key k) (f r) 0 + sum_worker f k rs

abbrev pub sum_sequence : SequenceKey → List StageReservation → ℕ
sum_sequence k [] = 0
sum_sequence k (r ∷ rs) = ite (sequence_key_discrete r.sequence_key k) 1 0 + sum_sequence k rs

abbrev pub one : StageReservation → ℕ
one r = 1

abbrev pub stage_bytes : StageReservation → ℕ
stage_bytes r = add_u64 r.load_memory_bytes r.sequence_memory_bytes

abbrev pub sequence_bytes : StageReservation → ℕ
sequence_bytes r = r.sequence_memory_bytes

-- Claims.
pub active-commit_all :
    (t : Tables) (rs : List StageReservation) (k : SequenceKey)
    → (sequence_state (commit_all t rs) k).active ≡ (sequence_state t k).active + sum_sequence k rs
unfolding commit_all claim_sequence
active-commit_all t [] k = omega arith
active-commit_all t (r ∷ rs) k =
    ground (arith, sequence_state-commit t r k, active-commit_all (commit t r) rs k)

pub requests-commit_all :
    (t : Tables) (rs : List StageReservation) (k : WorkerKey)
    → (worker_state (commit_all t rs) k).active_requests
      ≡ (worker_state t k).active_requests + sum_worker one k rs
unfolding commit_all claim_worker
requests-commit_all t [] k = omega arith
requests-commit_all t (r ∷ rs) k =
    ground (arith, worker_state-commit t r k, requests-commit_all (commit t r) rs k)

-- Ends.
pub active-finish_stages :
    (ws : GoMap String Worker) (o : Outcome) (t : Tables) (rs : List StageReservation)
    (k : SequenceKey)
    → (sequence_state (finish_stages ws o t rs) k).active
      ≡ (sequence_state t k).active - sum_sequence k rs
unfolding finish_stages finish_sequence
active-finish_stages ws o t [] k = omega arith
active-finish_stages ws o t (r ∷ rs) k = ground (
  arith,
  sequence_state-finish ws o t r k,
  active-finish_stages ws o (finish_stage ws o t r) rs k,
)

subtract_available_lem : (a b : ℕ) → subtract_available a b ≡ a - b
unfolding subtract_available
subtract_available_lem a b = ground arith

finish_worker_active :
    (here : Bool) (o : Outcome) (r : StageReservation) (u : WorkerState)
    → ((finish_worker here o r u).active_requests ≡ u.active_requests - 1)
      × ((finish_worker here o r u).active_available_bytes
          ≡ u.active_available_bytes - stage_bytes r)
      × ((finish_worker here o r u).active_retained_bytes
          ≡ u.active_retained_bytes - sequence_bytes r)
unfolding finish_worker
finish_worker_active here o r u = (refl, subtract_available_lem _ _, subtract_available_lem _ _)

pub worker-finish_stages :
    (ws : GoMap String Worker) (o : Outcome) (t : Tables) (rs : List StageReservation)
    (k : WorkerKey)
    → let u = worker_state t k in
      let v = worker_state (finish_stages ws o t rs) k in
      (v.active_requests ≡ u.active_requests - sum_worker one k rs)
      × (v.active_available_bytes ≡ u.active_available_bytes - sum_worker stage_bytes k rs)
      × (v.active_retained_bytes ≡ u.active_retained_bytes - sum_worker sequence_bytes k rs)
unfolding finish_stages
worker-finish_stages ws o t [] k = omega arith
worker-finish_stages ws o t (r ∷ rs) k = ground (
  arith,
  worker_state-finish ws o t r k,
  finish_worker_active (still_here ws r) o r (worker_state t r.worker_key),
  worker-finish_stages ws o (finish_stage ws o t r) rs k,
)
