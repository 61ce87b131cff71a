-- ===== src/Mesh/Tests.antt =====
-- Runs of the scheduler's theorems at concrete tables and snapshots.
use mlx_swarm.Base.{
  get_elem?, ℕ, ◌≡◌, refl, ap, ◌≤◌, ◌<◌, String, Bool, true, false, List, [], ◌∷◌, ◌++◌, Option,
  none, some, arith, All, length, inl, inr, ◌⊎◌,
}
use mlx_swarm.Base.Int.{pos}
use mlx_swarm.Base.GoMap.{GoMap, get}
use mlx_swarm.Base.Text.{string_key, string_discrete, differing_strings}
use mlx_swarm.Fixtures.{
  worker_a, two_workers, two_stage_evaluation, sharded_plan, scoring_request, empty_profile,
}
use mlx_swarm.ScoredFixtures.{owner_digests, scored_evaluation, plan_scored}
use mlx_swarm.Mesh.Evidence.{score_plan-has_evidence}
use mlx_swarm.Mesh.State.{SequenceKey, WorkerKey, Tables, StageReservation, Outcome}
use mlx_swarm.Registry.Index.{index_workers}
use mlx_swarm.Mesh.Reconcile.{reconcile, reported_open}
use mlx_swarm.Mesh.Admit.{
  ok, err, AdmissionError, has_evidence, reserve_admission, commit_all, sequence_state, local_open,
  worker_capacity_reserved, sequence_capacity_reserved, incomplete_evidence,
}
use mlx_swarm.Mesh.Finish.{finish_stage, finish, cleanup_confirmed, cleanup_minimum}
use mlx_swarm.Mesh.Reserved.{Distinct}
use mlx_swarm.Mesh.Capacity.{IsWord}
use mlx_swarm.Mesh.Admission.{AllHeld, admission_within_limits, refusal_claims_nothing}
use mlx_swarm.Mesh.Interleaving.{Reach, here, next, admit, end, Balanced}
use mlx_swarm.Mesh.Accounting.{fresh, no_tables, counters_balance}
use mlx_swarm.Base.{◌+◌}
use mlx_swarm.Mesh.Charged.{
  Unreached, no_more, after_admission, after_end, unconfirmed_cleanup_charged,
}
use mlx_swarm.Mesh.Poison.{covered_cleanup_released, IsPresent}
use mlx_swarm.Mesh.Retained.{commit_all-AreUnique}
use mlx_swarm.Mesh.Bindings.{TargetBinding, bound, selected_target_bindings}
use mlx_swarm.Mesh.Incarnations.{bindings_match_claims}
use mlx_swarm.Mesh.Session.{
  Shared, Calls, start, call, begins, returns, finishes_reservation, prepared_sequence, IsExclusive,
  begin_generate, finish_generate, reservation_released_once,
}

abbrev stage_on : String → String → String → StageReservation
stage_on id instance_id shard_id = record {
  sequence_key = record { worker_id = id; instance_id = instance_id; shard_id = shard_id };
  worker_key = record { worker_id = id; instance_id = instance_id };
  load_memory_bytes = 50;
  sequence_memory_bytes = 10;
  setup_observed = false;
  setup_shard_present = false;
  setup_observation_sequence = 0;
  cleanup_observed = false;
  cleanup_shard_open = false;
  cleanup_observation_sequence = 0;
}

abbrev two_claims : List StageReservation
two_claims = stage_on "a" "a1" "x" ∷ stage_on "b" "b1" "y" ∷ []

Distinct-targets : Distinct sharded_plan.stages
unfolding string_discrete
Distinct-targets = ((differing_strings "a" "b" refl, tt), (tt, tt))

first_admission : (reserve_admission no_tables two_workers two_stage_evaluation).1 ≡ ok two_claims
unfolding reserve_admission mlx_swarm.Mesh.Admit.has_evidence mlx_swarm.Mesh.Admit.settle
    mlx_swarm.Mesh.Admit.check_stages get index_workers mlx_swarm.Base.GoMap.put string_discrete
    mlx_swarm.Base.Bool-cases mlx_swarm.Base.Int.add_int reconcile mlx_swarm.Base.GoMap.update_all
    mlx_swarm.Mesh.State.reserved_worker_memory
first_admission = refl

admission_within_limits_example :
    AllHeld two_workers.workers
      (reserve_admission no_tables two_workers two_stage_evaluation).0
      sharded_plan.stages
      two_claims
admission_within_limits_example =
    admission_within_limits no_tables two_workers two_stage_evaluation two_claims Distinct-targets
      first_admission

later_admission :
    (reserve_admission
      (commit_all no_tables (two_claims ++ two_claims))
      two_workers
      two_stage_evaluation).1
    ≡ err sequence_capacity_reserved
unfolding reserve_admission commit_all mlx_swarm.Mesh.Admit.has_evidence mlx_swarm.Mesh.Admit.settle
    mlx_swarm.Mesh.Admit.check_stages get index_workers mlx_swarm.Base.GoMap.put string_discrete
    mlx_swarm.Base.Int.add_int reconcile mlx_swarm.Base.GoMap.update_all
    mlx_swarm.Mesh.State.sequence_key_discrete
later_admission = refl

refusal_claims_nothing_example :
    (has_evidence two_stage_evaluation ≡ false
      → (sequence_capacity_reserved ≡ incomplete_evidence)
        × ((reserve_admission
              (commit_all no_tables (two_claims ++ two_claims))
              two_workers
              two_stage_evaluation).0
            ≡ commit_all no_tables (two_claims ++ two_claims)))
    × (has_evidence two_stage_evaluation ≡ true
        → (reserve_admission
            (commit_all no_tables (two_claims ++ two_claims))
            two_workers
            two_stage_evaluation).0
          ≡ reconcile
              (index_workers two_workers.workers)
              (commit_all no_tables (two_claims ++ two_claims)))
refusal_claims_nothing_example =
    refusal_claims_nothing (commit_all no_tables (two_claims ++ two_claims)) two_workers
      two_stage_evaluation sequence_capacity_reserved later_admission

words : All IsWord two_workers.workers
words = ground arith

-- An admission, and its end after a generation.
admit_and_end : Reach fresh (record {
  tables =
      finish two_workers
        (λ s. none)
        (record { may_have_loaded = true; cleanup_confirmed = false })
        (reserve_admission no_tables two_workers two_stage_evaluation).0
        two_claims;
  running = [];
})
admit_and_end =
    next
      (next here
        (admit two_workers two_stage_evaluation two_claims words Distinct-targets first_admission))
      (end two_workers (λ s. none) (record { may_have_loaded = true; cleanup_confirmed = false }) []
        two_claims [] refl)

counters_balance_example : Balanced (record {
  tables =
      finish two_workers
        (λ s. none)
        (record { may_have_loaded = true; cleanup_confirmed = false })
        (reserve_admission no_tables two_workers two_stage_evaluation).0
        two_claims;
  running = [];
})
counters_balance_example = counters_balance admit_and_end

abbrev lost : Outcome
lost = record { may_have_loaded = false; cleanup_confirmed = false }

abbrev claimed : Tables
claimed = commit_all no_tables two_claims

a-IsPresent :
    IsPresent (index_workers two_workers.workers) (stage_on "a" "a1" "x").sequence_key worker_a
unfolding index_workers get mlx_swarm.Base.GoMap.put string_discrete
a-IsPresent = (refl, refl)

lost_unconfirmed : cleanup_confirmed lost (stage_on "a" "a1" "x") ≡ false
unfolding cleanup_confirmed
lost_unconfirmed = refl

not_seen : worker_a.status.worker_observation_sequence < cleanup_minimum (stage_on "a" "a1" "x")
unfolding cleanup_minimum
not_seen = ground arith

unreached :
    Unreached
      (stage_on "a" "a1" "x").sequence_key
      (cleanup_minimum (stage_on "a" "a1" "x"))
      two_workers
unreached = record { worker = worker_a; present = a-IsPresent; older = not_seen }

-- The first stage ends without its cleanup confirmed, the second with it, and the plan is admitted
-- again.
abbrev sure : Outcome
sure = record { may_have_loaded = false; cleanup_confirmed = true }

abbrev one_ended : Tables
one_ended = finish_stage (index_workers two_workers.workers) lost claimed (stage_on "a" "a1" "x")

abbrev both_ended : Tables
both_ended = finish_stage (index_workers two_workers.workers) sure one_ended (stage_on "b" "b1" "y")

unconfirmed_cleanup_charged_example :
    (sequence_state
        (reserve_admission both_ended two_workers two_stage_evaluation).0
        (stage_on "a" "a1" "x").sequence_key).active
      + 1
    ≤ local_open (
        sequence_state
          (reconcile
            (index_workers two_workers.workers)
            (reserve_admission both_ended two_workers two_stage_evaluation).0)
          (stage_on "a" "a1" "x").sequence_key)
unconfirmed_cleanup_charged_example =
    unconfirmed_cleanup_charged (index_workers two_workers.workers) two_workers lost claimed
      (reserve_admission both_ended two_workers two_stage_evaluation).0 (stage_on "a" "a1" "x")
      worker_a (commit_all-AreUnique no_tables two_claims (tt, tt)) refl refl a-IsPresent
      lost_unconfirmed
      (after_admission two_workers two_stage_evaluation
        (after_end (index_workers two_workers.workers) sure (stage_on "b" "b1" "y") no_more)
        unreached)
      unreached

a_reports_closed : reported_open worker_a.status.retained_shards "x" ≡ pos 0
unfolding reported_open
a_reports_closed = refl

covered_cleanup_released_example :
    local_open (
      sequence_state
        (reconcile (index_workers two_workers.workers) (record {
          reservations =
              ((stage_on "a" "a1" "x").sequence_key, record { active = 1; poisoned_after = 5 ∷ [] })
              ∷ [];
          workers = [];
        }))
        (stage_on "a" "a1" "x").sequence_key)
    ≡ 1
unfolding get mlx_swarm.Mesh.State.sequence_key_discrete string_discrete
covered_cleanup_released_example =
    covered_cleanup_released (index_workers two_workers.workers)
      (record {
        reservations =
            ((stage_on "a" "a1" "x").sequence_key, record { active = 1; poisoned_after = 5 ∷ [] })
            ∷ [];
        workers = [];
      })
      (stage_on "a" "a1" "x").sequence_key ((refl, tt), tt)
      (inr (worker_a, a-IsPresent, a_reports_closed, (omega arith, tt)))

-- A generation whose reservation is not released yet, and the release.
abbrev generated : Shared
generated = record {
  sequence = (finish_generate (begin_generate (prepared_sequence two_claims)).0 true).0;
  generating = 0;
  releasing = (finish_generate (begin_generate (prepared_sequence two_claims)).0 true).1 ∷ [];
  releases = [];
}

abbrev released : Shared
released = record generated { releasing = []; releases = generated.releasing }

one_generate :
    Calls
      (record {
        sequence = prepared_sequence two_claims;
        generating = 0;
        releasing = [];
        releases = [];
      })
      released
unfolding begin_generate
one_generate = call (call (call start (begins refl)) (returns 0 true refl)) (
    finishes_reservation []
      (finish_generate (begin_generate (prepared_sequence two_claims)).0 true).1 [] refl)

reservation_released_once_example : IsExclusive two_claims released
unfolding begin_generate finish_generate
reservation_released_once_example = reservation_released_once two_claims one_generate

abbrev two_bindings : List TargetBinding
two_bindings =
    record { index = 0; worker_id = "a"; instance_id = "a1"; endpoint = "http://a" }
    ∷ record { index = 1; worker_id = "b"; instance_id = "b1"; endpoint = "http://b" }
    ∷ []

bound_to_two : selected_target_bindings two_workers sharded_plan ≡ bound two_bindings
unfolding selected_target_bindings string_discrete mlx_swarm.Base.Decimal.decimal get index_workers
    mlx_swarm.Base.GoMap.put
bound_to_two = refl

bindings_match_claims_example :
    (r : StageReservation) × (get_elem? two_claims 1 ≡ some r)
    × (r.worker_key ≡ record { worker_id = "b"; instance_id = "b1" })
bindings_match_claims_example =
    bindings_match_claims no_tables two_workers two_stage_evaluation two_bindings two_claims
      bound_to_two first_admission 1
      (record { index = 1; worker_id = "b"; instance_id = "b1"; endpoint = "http://b" }) refl

score_plan-has_evidence_example : has_evidence scored_evaluation ≡ true
score_plan-has_evidence_example =
    score_plan-has_evidence owner_digests two_workers empty_profile sharded_plan scoring_request
      scored_evaluation plan_scored.0
