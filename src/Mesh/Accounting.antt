-- ===== src/Mesh/Accounting.antt =====
-- Any interleaving of admissions, observations and ends keeps the counters of the tables equal to
-- what the open reservations claim.
-- for exactly the reservations that are still open.
use mathlib.Core.Path.{subst⁻¹}
use mlx_swarm.Base.{◌+◌, ◌≡◌, refl, ap, ◌∙◌, List, [], ◌∷◌, ◌++◌, Option, arith, All, inl, inr}
use mlx_swarm.Registry.Types.{Inventory}
use mlx_swarm.Placement.Types.{PlanEvaluation, selected}
use mlx_swarm.Base.GoMap.{get}
use mlx_swarm.Mesh.State.{WorkerKey, Tables, StageReservation, Outcome}
use mlx_swarm.Registry.Index.{index_workers}
use mlx_swarm.Mesh.Reconcile.{reconcile}
use mlx_swarm.Base.{Bool-cases}
use mlx_swarm.Mesh.Admit.{has_evidence, ok, err, AdmissionError, reserve_admission}
use mlx_swarm.Mesh.Finish.{
  StateObservation, observe_setup, stages_at_end, finish_reservation, finish,
}
use mlx_swarm.Mesh.Capacity.{IsWord}
use mlx_swarm.Mesh.Reserved.{Distinct, check_stages-Reserved}
use mlx_swarm.Mesh.Admission.{AsChecked-refl, reserve_admission-ok, refusal_claims_nothing}
use mlx_swarm.Mesh.Ledger.{
  sum_worker, sum_sequence, one, stage_bytes, sequence_bytes, active-commit_all,
  requests-commit_all, active-finish_stages, worker-finish_stages,
}
use mlx_swarm.Mesh.Balance.{commit_all-bytes, index_workers-All}
use mlx_swarm.Mesh.Retained.{
  commit_all-AreUnique, finish_stages-AreUnique, reconcile-AreUnique, reconcile-active,
  reconcile-worker_active, SameClaims, SameClaims-sums, observe_setup-SameClaims,
  stages_at_end-SameClaims,
}
use mlx_swarm.Mesh.Interleaving.{
  Scheduler, all_open, Step, admit, refuse, observe, end, Reach, here, next, Balanced,
  sum_worker-append, sum_sequence-append, worker_middle, sequence_middle,
}

-- The sums of a list of open reservations, with one of them taken out of the middle.
worker_moved :
    (k : WorkerKey) {all : List (List StageReservation)}
    → (before : List (List StageReservation)) (rs : List StageReservation)
      (after : List (List StageReservation))
    → all ≡ before ++ (rs ∷ after)
    → (sum_worker one k (all_open all)
        ≡ sum_worker one k rs + sum_worker one k (all_open (before ++ after)))
      × (sum_worker stage_bytes k (all_open all)
          ≡ sum_worker stage_bytes k rs + sum_worker stage_bytes k (all_open (before ++ after)))
      × (sum_worker sequence_bytes k (all_open all)
          ≡ sum_worker sequence_bytes k rs
            + sum_worker sequence_bytes k (all_open (before ++ after)))
worker_moved k before rs after e = (
  ap (λ x. sum_worker one k (all_open x)) e ∙ worker_middle one k before rs after,
  ap (λ x. sum_worker stage_bytes k (all_open x)) e ∙ worker_middle stage_bytes k before rs after,
  ap (λ x. sum_worker sequence_bytes k (all_open x)) e
      ∙ worker_middle sequence_bytes k before rs after,
)

admit-Balanced :
    (s : Scheduler) (i : Inventory) (e : PlanEvaluation) (rs : List StageReservation)
    → Balanced s
    → All IsWord i.workers
    → Distinct e.plan.stages
    → (reserve_admission s.tables i e).1 ≡ ok rs
    → Balanced (record { tables = (reserve_admission s.tables i e).0; running = rs ∷ s.running })
admit-Balanced s i e rs b words d h =
    let ws = index_workers i.workers in
    let t' = reconcile ws s.tables in
    let (p, q, checks, after) = reserve_admission-ok s.tables i e rs h in
    let reserved =
      check_stages-Reserved t' i.workers e.plan.stages (selected e.stages) e.request.stages rs p q
        checks in
    subst⁻¹ (λ (u : Tables). Balanced (record { tables = u; running = rs ∷ s.running })) after
      (record {
        unique = commit_all-AreUnique t' rs (reconcile-AreUnique ws s.tables b.unique);
        sequences = λ k. omega (
          arith,
          active-commit_all t' rs k,
          reconcile-active ws s.tables k b.unique,
          b.sequences k,
          sum_sequence-append k rs (all_open s.running),
        );
        workers = λ k. omega (
          arith,
          requests-commit_all t' rs k,
          commit_all-bytes t' t' k reserved d (index_workers-All IsWord i.workers words)
              (AsChecked-refl t' rs),
          reconcile-worker_active ws s.tables k b.unique,
          b.workers k,
          sum_worker-append one k rs (all_open s.running),
          sum_worker-append stage_bytes k rs (all_open s.running),
          sum_worker-append sequence_bytes k rs (all_open s.running),
        );
      })

refuse-Balanced :
    (s : Scheduler) (i : Inventory) (e : PlanEvaluation) (x : AdmissionError)
    → Balanced s
    → (reserve_admission s.tables i e).1 ≡ err x
    → Balanced (record { tables = (reserve_admission s.tables i e).0; running = s.running })
refuse-Balanced s i e x b h = elim (Bool-cases (has_evidence e)) [
  | inr partial ↦
      let same = ((refusal_claims_nothing s.tables i e x h).0 partial).1 in
      subst⁻¹ (λ (u : Tables). Balanced (record { tables = u; running = s.running })) same b
  | inl full ↦
      let reconciled = (refusal_claims_nothing s.tables i e x h).1 full in
      let ws = index_workers i.workers in
      subst⁻¹ (λ (u : Tables). Balanced (record { tables = u; running = s.running })) reconciled
        (record {
          unique = reconcile-AreUnique ws s.tables b.unique;
          sequences = λ k. reconcile-active ws s.tables k b.unique ∙ b.sequences k;
          workers = λ k. omega (arith, reconcile-worker_active ws s.tables k b.unique, b.workers k);
        })
]

observe-Balanced :
    (s : Scheduler) (before : List (List StageReservation)) (rs rs' : List StageReservation)
    (after : List (List StageReservation))
    → Balanced s
    → s.running ≡ before ++ (rs ∷ after)
    → SameClaims rs' rs
    → Balanced (record { tables = s.tables; running = before ++ (rs' ∷ after) })
observe-Balanced s before rs rs' after b e same =
    let sums = SameClaims-sums rs' rs same in
    record {
      unique = b.unique;
      sequences = λ k. omega (
        arith,
        b.sequences k,
        ap (λ x. sum_sequence k (all_open x)) e,
        sequence_middle k before rs after,
        sequence_middle k before rs' after,
        sums.0 k,
      );
      workers = λ k. omega (
        arith,
        b.workers k,
        worker_moved k before rs after e,
        worker_middle one k before rs' after,
        worker_middle stage_bytes k before rs' after,
        worker_middle sequence_bytes k before rs' after,
        sums.1 k,
      );
    }

-- Ending a reservation, with whatever was observed of its cleanup, gives back what it claimed.
end-Balanced :
    (s : Scheduler) (i : Inventory) (o : Outcome) (before : List (List StageReservation))
    (rs rs' : List StageReservation) (after : List (List StageReservation))
    → Balanced s
    → s.running ≡ before ++ (rs ∷ after)
    → SameClaims rs' rs
    → Balanced (record { tables = finish_reservation i o s.tables rs'; running = before ++ after })
unfolding finish_reservation
end-Balanced s i o before rs rs' after b e same =
    let sums = SameClaims-sums rs' rs same in
    let ws = index_workers i.workers in
    record {
      unique = finish_stages-AreUnique ws o s.tables rs' b.unique;
      sequences = λ k. omega (
        arith,
        b.sequences k,
        ap (λ x. sum_sequence k (all_open x)) e,
        sequence_middle k before rs after,
        active-finish_stages ws o s.tables rs' k,
        sums.0 k,
      );
      workers = λ k. omega (
        arith,
        b.workers k,
        worker_moved k before rs after e,
        worker-finish_stages ws o s.tables rs' k,
        sums.1 k,
      );
    }

abbrev pub no_tables : Tables
no_tables = record { reservations = []; workers = [] }

-- A scheduler as `NewSequenceScheduler` makes it.
abbrev pub fresh : Scheduler
fresh = record { tables = no_tables; running = [] }

fresh-Balanced : Balanced fresh
unfolding get
fresh-Balanced = record {
  unique = (tt, tt);
  sequences = λ k. refl;
  workers = λ k. (refl, refl, refl);
}

finish-Balanced :
    (s : Scheduler) (i : Inventory) (ask : StageReservation → Option StateObservation) (o : Outcome)
    (before : List (List StageReservation)) (rs : List StageReservation)
    (after : List (List StageReservation))
    → Balanced s
    → s.running ≡ before ++ (rs ∷ after)
    → Balanced (record { tables = finish i ask o s.tables rs; running = before ++ after })
unfolding finish
finish-Balanced s i ask o before rs after b e =
    end-Balanced s i o before rs (stages_at_end ask o rs) after b e
      (stages_at_end-SameClaims ask o rs)

Step-Balanced : {s t : Scheduler} → Balanced s → Step s t → Balanced t
Step-Balanced {s} b (admit i e rs words d h) = admit-Balanced s i e rs b words d h
Step-Balanced {s} b (refuse i e x h) = refuse-Balanced s i e x b h
Step-Balanced {s} b (observe c ask before rs after e) =
    observe-Balanced s before rs (observe_setup c rs ask).0 after b e
      (observe_setup-SameClaims c rs ask)
Step-Balanced {s} b (end i ask o before rs after e) = finish-Balanced s i ask o before rs after b e

-- From a fresh scheduler, after any interleaving of successful and refused admissions of plans with
-- distinct targets against snapshots whose memory figures are words of 64 bits, observations, and ends of sequences in any order and with any outcome: each map
-- has one entry for each key; the active count of each shard is the number of open reserved stages
-- on it; and the active requests, available bytes and retained bytes of each worker incarnation are
-- the sums over its open reserved stages. So no claim is lost, counted twice or left behind.
pub counters_balance : {s : Scheduler} → Reach fresh s → Balanced s
counters_balance here = fresh-Balanced
counters_balance (next r st) = Step-Balanced (counters_balance r) st
