-- ===== src/Mesh/Reconcile.antt =====
-- `reconcileReservationsLocked`: what a fresh membership snapshot clears from the tables.
use mlx_swarm.Base.{
  ℕ, String, Bool, true, false, ◌&&◌, List, [], ◌∷◌, Option, none, some, ltb, ◌==◌, if◌then◌else◌,
  is_yes,
}
use mlx_swarm.Base.GoMap.{GoMap, get, update_all}
use mlx_swarm.Base.Int.{ℤ, pos, eqb_ℤ}
use mlx_swarm.Base.Text.{string_discrete, string_key}
use mlx_swarm.Registry.Types.{RetainedShard, Worker}
use mlx_swarm.Mesh.State.{SequenceKey, WorkerKey, SequenceState, PendingMemory, WorkerState, Tables}

-- The open count of the first retained shard with this ID, or 0.
unfoldable pub reported_open : List RetainedShard → String → ℤ
reported_open [] id = pos 0
reported_open (s ∷ ss) id =
    let rest = reported_open ss id in
    if is_yes (string_discrete s.id id) then s.open_sequence_count else rest

-- The marks that an observation does not reach yet.
unfoldable pub uncovered : ℕ → List ℕ → List ℕ
uncovered seen [] = []
uncovered seen (m ∷ ms) = let rest = uncovered seen ms in if ltb seen m then m ∷ rest else rest

unfoldable pub uncovered_memory : ℕ → List PendingMemory → List PendingMemory
uncovered_memory seen [] = []
uncovered_memory seen (p ∷ ps) =
    let rest = uncovered_memory seen ps in
    if ltb seen p.minimum_observation_sequence then p ∷ rest else rest

-- The worker of the snapshot, if it is still the incarnation that the key names.
unfoldable pub same_instance : Option Worker → String → Option Worker
same_instance none instance_id = none
same_instance (some w) instance_id =
    if is_yes (string_discrete w.instance_id instance_id) then some w else none

unfoldable pub remaining_poison : Option Worker → String → List ℕ → List ℕ
unfolding reported_open uncovered
remaining_poison none shard_id ms = []
remaining_poison (some w) shard_id ms =
    if eqb_ℤ (reported_open w.status.retained_shards shard_id) (pos 0)
    then uncovered w.status.worker_observation_sequence ms
    else ms

abbrev pub is_nil {ℓ} : {A : Type ℓ} → List A → Bool
is_nil [] = true
is_nil (x ∷ xs) = false

-- The entry is kept as it is where no cleanup is open (`continue`), and deleted where nothing is left.
unfoldable pub reconcile_sequence :
    GoMap String Worker → SequenceKey → SequenceState → Option SequenceState
reconcile_sequence workers key state =
    let left =
      remaining_poison (same_instance (get workers key.worker_id) key.instance_id) key.shard_id
        state.poisoned_after in
    if is_nil state.poisoned_after
    then some state
    else if state.active == 0 && is_nil left
    then none
    else some (record state { poisoned_after = left })

unfoldable pub remaining_memory : Option Worker → List PendingMemory → List PendingMemory
unfolding uncovered_memory
remaining_memory none ps = []
remaining_memory (some w) ps = uncovered_memory w.status.worker_observation_sequence ps

unfoldable pub is_idle : WorkerState → Bool
is_idle s =
    s.active_requests == 0
    && s.active_available_bytes == 0
    && s.active_retained_bytes == 0
    && is_nil s.pending_memory

unfoldable pub reconcile_worker : GoMap String Worker → WorkerKey → WorkerState → Option WorkerState
reconcile_worker workers key state =
    let left =
      remaining_memory (same_instance (get workers key.worker_id) key.instance_id)
        state.pending_memory in
    let state' = record state { pending_memory = left } in
    if is_idle state' then none else some state'

unfoldable pub reconcile : GoMap String Worker → Tables → Tables
unfolding reconcile_sequence reconcile_worker
reconcile workers t = record {
  reservations = update_all (reconcile_sequence workers) t.reservations;
  workers = update_all (reconcile_worker workers) t.workers;
}
