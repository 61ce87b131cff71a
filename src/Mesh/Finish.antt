-- ===== src/Mesh/Finish.antt =====
-- `finishReservation` and the observations that a reservation records before it.
use mlx_swarm.Base.{
  ℕ, ◌-◌, String, Bool, true, false, not, ◌&&◌, ◌||◌, List, [], ◌∷◌, ◌++◌, Option, none, some, ltb,
  ◌==◌, if◌then◌else◌, is_yes,
}
use mlx_swarm.Base.GoMap.{GoMap, get, put, delete, or_zero}
use mlx_swarm.Base.Int.{ℤ, pos, ltb_ℤ}
use mlx_swarm.Base.Text.{string_discrete, string_key}
use mlx_swarm.Base.Word.{add_u64}
use mlx_swarm.Registry.Types.{Worker, Inventory}
use mlx_swarm.Mesh.State.{
  SequenceKey, WorkerKey, sequence_key_key, worker_key_key, SequenceState, PendingMemory,
  WorkerState, zero_sequence, zero_worker, Tables, StageReservation, Outcome, unreconciled,
  add_reservation_bytes, subtract_available, observation_after,
}
use mlx_swarm.Registry.Index.{index_workers}
use mlx_swarm.Mesh.Reconcile.{same_instance, is_nil, is_idle}

-- What `ObserveState` answers: the shards that the worker holds, and the worker's call sequence.
pub record LoadedShard : Type 0 where
  pub shard_id : String
  pub open_sequence_count : ℤ

pub record StateObservation : Type 0 where
  pub loaded_shards : List LoadedShard
  pub observation_sequence : ℕ

unfoldable pub state_has_shard : List LoadedShard → String → Bool
state_has_shard [] id = false
state_has_shard (s ∷ ss) id =
    let rest = state_has_shard ss id in
    if is_yes (string_discrete s.shard_id id) then true else rest

-- The first shard with this ID decides.
unfoldable pub state_shard_open : List LoadedShard → String → Bool
state_shard_open [] id = false
state_shard_open (s ∷ ss) id =
    let rest = state_shard_open ss id in
    if is_yes (string_discrete s.shard_id id) then ltb_ℤ (pos 0) s.open_sequence_count else rest

-- One round of the loop of `observeSetup`; the flag says that this stage adds no error. `none` is
-- a call that failed.
unfoldable pub observe_setup_stage :
    Bool → StageReservation → Option StateObservation → StageReservation × Bool
unfolding state_has_shard
observe_setup_stage require_shards stage none = (stage, false)
observe_setup_stage require_shards stage (some o) =
    let present = state_has_shard o.loaded_shards stage.sequence_key.shard_id in
    if o.observation_sequence == 0 then (stage, false) else (
      record stage {
        setup_observed = true;
        setup_observation_sequence = o.observation_sequence;
        setup_shard_present = present;
      },
      not (require_shards && not present),
    )

-- The loop, with the answer of each stage's worker. The flag says that no stage had an error.
unfoldable pub observe_setup :
    Bool
    → List StageReservation
    → (StageReservation → Option StateObservation)
    → List StageReservation × Bool
unfolding observe_setup_stage
observe_setup require_shards [] ask = ([], true)
observe_setup require_shards (stage ∷ stages) ask =
    let (stage', fine) = observe_setup_stage require_shards stage (ask stage) in
    let (stages', rest_fine) = observe_setup require_shards stages ask in
    (stage' ∷ stages', fine && rest_fine)

unfoldable pub observe_cleanup_stage : StageReservation → Option StateObservation → StageReservation
unfolding state_shard_open
observe_cleanup_stage stage none = stage
observe_cleanup_stage stage (some o) = if o.observation_sequence == 0 then stage else record stage {
  cleanup_observed = true;
  cleanup_observation_sequence = o.observation_sequence;
  cleanup_shard_open = state_shard_open o.loaded_shards stage.sequence_key.shard_id;
}

unfoldable pub observe_cleanup :
    List StageReservation → (StageReservation → Option StateObservation) → List StageReservation
unfolding observe_cleanup_stage
observe_cleanup [] ask = []
observe_cleanup (stage ∷ stages) ask =
    observe_cleanup_stage stage (ask stage) ∷ observe_cleanup stages ask

-- A cleanup is confirmed by the caller, or by an observation that shows the shard closed.
unfoldable pub cleanup_confirmed : Outcome → StageReservation → Bool
cleanup_confirmed outcome stage =
    outcome.cleanup_confirmed || (stage.cleanup_observed && not stage.cleanup_shard_open)

-- The observation that must be reached before an unconfirmed cleanup is forgotten.
unfoldable pub cleanup_minimum : StageReservation → ℕ
unfolding observation_after
cleanup_minimum stage =
    if stage.cleanup_observed
    then observation_after stage.cleanup_observation_sequence
    else unreconciled

abbrev pub is_some {ℓ} : {A : Type ℓ} → Option A → Bool
is_some none = false
is_some (some a) = true

-- The sequence entry after a stage's end; `here` says that the incarnation is still in membership.
unfoldable pub finish_sequence : Bool → Outcome → StageReservation → SequenceState → SequenceState
unfolding cleanup_confirmed cleanup_minimum
finish_sequence here outcome stage s = record {
  active = s.active - 1;
  poisoned_after =
      if not (cleanup_confirmed outcome stage) && here
      then s.poisoned_after ++ cleanup_minimum stage ∷ []
      else s.poisoned_after;
}

-- Bytes that the next snapshot may not show yet, and the observation that will.
unfoldable pub pending_of : Outcome → StageReservation → PendingMemory
unfolding cleanup_confirmed cleanup_minimum add_reservation_bytes observation_after
pending_of outcome stage =
    let loaded =
      outcome.may_have_loaded && (not stage.setup_observed || stage.setup_shard_present) in
    let available : ℕ = if loaded then stage.load_memory_bytes else 0 in
    let minimum : ℕ =
      if loaded
      then if stage.setup_observed
        then observation_after stage.setup_observation_sequence
        else unreconciled
      else 0 in
    if cleanup_confirmed outcome stage
    then record {
      available_bytes = available;
      retained_bytes = 0;
      minimum_observation_sequence = minimum;
    }
    else record {
      available_bytes = (add_reservation_bytes available stage.sequence_memory_bytes).0;
      retained_bytes = stage.sequence_memory_bytes;
      minimum_observation_sequence =
          if ltb minimum (cleanup_minimum stage) then cleanup_minimum stage else minimum;
    }

unfoldable pub finish_worker : Bool → Outcome → StageReservation → WorkerState → WorkerState
unfolding pending_of subtract_available
finish_worker here outcome stage s =
    let pending = pending_of outcome stage in
    record {
      active_requests = s.active_requests - 1;
      active_available_bytes =
          subtract_available s.active_available_bytes
            (add_u64 stage.load_memory_bytes stage.sequence_memory_bytes);
      active_retained_bytes =
          subtract_available s.active_retained_bytes stage.sequence_memory_bytes;
      pending_memory =
          if ltb 0 pending.available_bytes && here
          then s.pending_memory ++ pending ∷ []
          else s.pending_memory;
    }

-- An entry with nothing left is deleted.
unfoldable pub store_sequence :
    GoMap SequenceKey SequenceState → SequenceKey → SequenceState → GoMap SequenceKey SequenceState
store_sequence m k s = if s.active == 0 && is_nil s.poisoned_after then delete m k else put m k s

unfoldable pub store_worker :
    GoMap WorkerKey WorkerState → WorkerKey → WorkerState → GoMap WorkerKey WorkerState
unfolding is_idle
store_worker m k s = if is_idle s then delete m k else put m k s

unfoldable pub finish_stage : GoMap String Worker → Outcome → Tables → StageReservation → Tables
unfolding same_instance
finish_stage workers outcome t stage =
    let here =
      is_some
        (same_instance (get workers stage.worker_key.worker_id) stage.worker_key.instance_id) in
    record {
      reservations = store_sequence t.reservations stage.sequence_key (
          finish_sequence here outcome stage
            (or_zero (get t.reservations stage.sequence_key) zero_sequence));
      workers =
          store_worker t.workers stage.worker_key (
            finish_worker here outcome stage
              (or_zero (get t.workers stage.worker_key) zero_worker));
    }

unfoldable pub finish_stages :
    GoMap String Worker → Outcome → Tables → List StageReservation → Tables
unfolding finish_stage
finish_stages workers outcome t [] = t
finish_stages workers outcome t (stage ∷ stages) =
    finish_stages workers outcome (finish_stage workers outcome t stage) stages

unfoldable pub finish_reservation : Inventory → Outcome → Tables → List StageReservation → Tables
unfolding finish_stages
finish_reservation inventory outcome t stages =
    finish_stages (index_workers inventory.workers) outcome t stages

-- A cleanup that is not confirmed is observed first.
unfoldable pub stages_at_end :
    (StageReservation → Option StateObservation)
    → Outcome
    → List StageReservation
    → List StageReservation
unfolding observe_cleanup
stages_at_end ask outcome stages =
    if outcome.cleanup_confirmed then stages else observe_cleanup stages ask

-- `sequenceReservation.finish`, without its `sync.Once`.
unfoldable pub finish :
    Inventory
    → (StageReservation → Option StateObservation)
    → Outcome
    → Tables
    → List StageReservation
    → Tables
finish inventory ask outcome t stages =
    finish_reservation inventory outcome t (stages_at_end ask outcome stages)
