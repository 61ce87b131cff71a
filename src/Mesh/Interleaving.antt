-- ===== src/Mesh/Interleaving.antt =====
-- The interleavings of admissions, observations and ends on one scheduler, as a step relation, and
-- the balance of its counters with the reservations that are still open.

use mlx_swarm.Base.{ℕ, ◌+◌, ◌≡◌, Bool, List, [], ◌∷◌, ◌++◌, Option, arith, All}
use mlx_swarm.Registry.Types.{Inventory}
use mlx_swarm.Placement.Types.{PlanEvaluation}
use mlx_swarm.Mesh.State.{SequenceKey, WorkerKey, WorkerState, Tables, StageReservation, Outcome}
use mlx_swarm.Mesh.Admit.{ok, err, AdmissionError, sequence_state, worker_state, reserve_admission}
use mlx_swarm.Mesh.Finish.{StateObservation, observe_setup, finish}
use mlx_swarm.Mesh.Capacity.{IsWord}
use mlx_swarm.Mesh.Reserved.{Distinct}
use mlx_swarm.Mesh.Ledger.{sum_worker, sum_sequence, one, stage_bytes, sequence_bytes}
use mlx_swarm.Mesh.Retained.{AreUnique}

-- The tables, and the reservations of the sequences that have not ended.
pub record Scheduler : Type 0 where
  pub tables : Tables
  pub running : List (List StageReservation)

abbrev pub all_open : List (List StageReservation) → List StageReservation
all_open [] = []
all_open (rs ∷ rest) = rs ++ all_open rest

-- The steps that callers on different goroutines may interleave; each holds the mutex while it
-- changes the tables. The targets of an admitted plan are distinct and a worker's memory figures
-- are words of 64 bits.
pub data Step (s : Scheduler) : Scheduler → Type 0 where
  admit :
      (i : Inventory) (e : PlanEvaluation) (rs : List StageReservation)
      → All IsWord i.workers
      → Distinct e.plan.stages
      → (reserve_admission s.tables i e).1 ≡ ok rs
      → Step s (record { tables = (reserve_admission s.tables i e).0; running = rs ∷ s.running })
  refuse :
      (i : Inventory) (e : PlanEvaluation) (x : AdmissionError)
      → (reserve_admission s.tables i e).1 ≡ err x
      → Step s (record { tables = (reserve_admission s.tables i e).0; running = s.running })
  observe :
      (b : Bool) (ask : StageReservation → Option StateObservation)
      (before : List (List StageReservation)) (rs : List StageReservation)
      (after : List (List StageReservation))
      → s.running ≡ before ++ (rs ∷ after)
      → Step s
          (record { tables = s.tables; running = before ++ ((observe_setup b rs ask).0 ∷ after) })
  end :
      (i : Inventory) (ask : StageReservation → Option StateObservation) (o : Outcome)
      (before : List (List StageReservation)) (rs : List StageReservation)
      (after : List (List StageReservation))
      → s.running ≡ before ++ (rs ∷ after)
      → Step s (record { tables = finish i ask o s.tables rs; running = before ++ after })

pub data Reach (s : Scheduler) : Scheduler → Type 0 where
  here : Reach s s
  next : {t u : Scheduler} → Reach s t → Step t u → Reach s u

abbrev pub Accounts : WorkerState → WorkerKey → List StageReservation → Type 0
Accounts u k rs =
    (u.active_requests ≡ sum_worker one k rs)
    × (u.active_available_bytes ≡ sum_worker stage_bytes k rs)
    × (u.active_retained_bytes ≡ sum_worker sequence_bytes k rs)

-- The counters of every key are the sums over the open reservations.
pub record Balanced (s : Scheduler) : Type 0 where
  pub unique : AreUnique s.tables
  pub sequences :
      (k : SequenceKey) → (sequence_state s.tables k).active ≡ sum_sequence k (all_open s.running)
  pub workers : (k : WorkerKey) → Accounts (worker_state s.tables k) k (all_open s.running)

pub sum_worker-append :
    (f : StageReservation → ℕ) (k : WorkerKey) (xs ys : List StageReservation)
    → sum_worker f k (xs ++ ys) ≡ sum_worker f k xs + sum_worker f k ys
sum_worker-append f k [] ys = omega arith
sum_worker-append f k (x ∷ xs) ys = omega (arith, sum_worker-append f k xs ys)

pub sum_sequence-append :
    (k : SequenceKey) (xs ys : List StageReservation)
    → sum_sequence k (xs ++ ys) ≡ sum_sequence k xs + sum_sequence k ys
sum_sequence-append k [] ys = omega arith
sum_sequence-append k (x ∷ xs) ys = omega (arith, sum_sequence-append k xs ys)

pub worker_middle :
    (f : StageReservation → ℕ) (k : WorkerKey) (xs : List (List StageReservation))
    (rs : List StageReservation) (ys : List (List StageReservation))
    → sum_worker f k (all_open (xs ++ (rs ∷ ys)))
      ≡ sum_worker f k rs + sum_worker f k (all_open (xs ++ ys))
worker_middle f k [] rs ys = sum_worker-append f k rs (all_open ys)
worker_middle f k (x ∷ xs) rs ys = omega (
  arith,
  worker_middle f k xs rs ys,
  sum_worker-append f k x (all_open (xs ++ (rs ∷ ys))),
  sum_worker-append f k x (all_open (xs ++ ys)),
)

pub sequence_middle :
    (k : SequenceKey) (xs : List (List StageReservation)) (rs : List StageReservation)
    (ys : List (List StageReservation))
    → sum_sequence k (all_open (xs ++ (rs ∷ ys)))
      ≡ sum_sequence k rs + sum_sequence k (all_open (xs ++ ys))
sequence_middle k [] rs ys = sum_sequence-append k rs (all_open ys)
sequence_middle k (x ∷ xs) rs ys = omega (
  arith,
  sequence_middle k xs rs ys,
  sum_sequence-append k x (all_open (xs ++ (rs ∷ ys))),
  sum_sequence-append k x (all_open (xs ++ ys)),
)
