-- ===== src/Mesh/State.antt =====
-- The reservation tables of a `SequenceScheduler` and their byte arithmetic.
use mlx_swarm.Base.{
  ℕ, ◌+◌, ◌-◌, String, Bool, true, false, ◌||◌, List, [], ◌∷◌, ltb, leb, ◌==◌, if◌then◌else◌,
}
use mlx_swarm.Base.GoMap.{Key, GoMap}
use mlx_swarm.Base.Text.{string_discrete}
use mlx_swarm.Base.Word.{u64_max}

pub record SequenceKey : Type 0 where
  pub worker_id : String
  pub instance_id : String
  pub shard_id : String

pub record WorkerKey : Type 0 where
  pub worker_id : String
  pub instance_id : String

unfoldable pub sequence_key_discrete : Discrete SequenceKey
sequence_key_discrete = hlevel string_discrete

unfoldable pub worker_key_discrete : Discrete WorkerKey
worker_key_discrete = hlevel string_discrete

instance abbrev pub sequence_key_key : Key SequenceKey
sequence_key_key = record { same? = sequence_key_discrete }

instance abbrev pub worker_key_key : Key WorkerKey
worker_key_key = record { same? = worker_key_discrete }

-- `active` counts up and down from 0, one for each admitted stage, and never below 0.
pub record SequenceState : Type 0 where
  pub active : ℕ
  pub poisoned_after : List ℕ

pub record PendingMemory : Type 0 where
  pub available_bytes : ℕ
  pub retained_bytes : ℕ
  pub minimum_observation_sequence : ℕ

pub record WorkerState : Type 0 where
  pub active_requests : ℕ
  pub active_available_bytes : ℕ
  pub active_retained_bytes : ℕ
  pub pending_memory : List PendingMemory

-- The zero values, which `m[k]` gives at a missing key.
abbrev pub zero_sequence : SequenceState
zero_sequence = record { active = 0; poisoned_after = [] }

abbrev pub zero_worker : WorkerState
zero_worker = record {
  active_requests = 0;
  active_available_bytes = 0;
  active_retained_bytes = 0;
  pending_memory = [];
}

-- The two maps that the scheduler's mutex guards.
pub record Tables : Type 0 where
  pub reservations : GoMap SequenceKey SequenceState
  pub workers : GoMap WorkerKey WorkerState

-- A stage's claim on its worker. The caller is no part of it: an observation is handed in.
pub record StageReservation : Type 0 where
  pub sequence_key : SequenceKey
  pub worker_key : WorkerKey
  pub load_memory_bytes : ℕ
  pub sequence_memory_bytes : ℕ
  pub setup_observed : Bool
  pub setup_shard_present : Bool
  pub setup_observation_sequence : ℕ
  pub cleanup_observed : Bool
  pub cleanup_shard_open : Bool
  pub cleanup_observation_sequence : ℕ

pub record Outcome : Type 0 where
  pub may_have_loaded : Bool
  pub cleanup_confirmed : Bool

abbrev pub unreconciled : ℕ
unreconciled = u64_max

-- The sum, or the largest word and an overflow.
unfoldable pub add_reservation_bytes : ℕ → ℕ → ℕ × Bool
add_reservation_bytes left right =
    if ltb (u64_max - right) left then (u64_max, true) else (left + right, false)

unfoldable pub subtract_available : ℕ → ℕ → ℕ
subtract_available available reserved = if leb available reserved then 0 else available - reserved

unfoldable pub observation_after : ℕ → ℕ
observation_after sequence =
    if sequence == 0 || sequence == unreconciled then unreconciled else sequence + 1

-- The loop over the pending memory, from the active bytes.
unfoldable pub reserve_pending : ℕ → ℕ → List PendingMemory → ℕ × ℕ × Bool
unfolding add_reservation_bytes
reserve_pending available retained [] = (available, retained, false)
reserve_pending available retained (p ∷ ps) =
    let a = add_reservation_bytes available p.available_bytes in
    let r = add_reservation_bytes retained p.retained_bytes in
    let rest = reserve_pending a.0 r.0 ps in if a.1 || r.1 then (0, 0, true) else rest

unfoldable pub reserved_worker_memory : WorkerState → ℕ × ℕ × Bool
unfolding reserve_pending
reserved_worker_memory s =
    reserve_pending s.active_available_bytes s.active_retained_bytes s.pending_memory
