-- ===== src/Mesh/Retained.antt =====
-- What reconciliation and observation leave alone: the claims.
use mlx_swarm.Base.{
  ◌≡◌, refl, String, Bool, List, [], ◌∷◌, Option, none, some, arith, Option-cases, Bool-cases, inl,
  inr,
}
use mlx_swarm.Base.GoMap.{
  GoMap, get, IsUnique, get-update_all, or_zero, put-IsUnique, delete-IsUnique, update_all-IsUnique,
}
use mlx_swarm.Base.Text.{string_key}
use mlx_swarm.Registry.Types.{Worker}
use mlx_swarm.Mesh.State.{
  SequenceKey, WorkerKey, sequence_key_key, worker_key_key, SequenceState, WorkerState,
  zero_sequence, zero_worker, Tables, StageReservation, Outcome,
}
use mlx_swarm.Mesh.Reconcile.{reconcile, reconcile_sequence, reconcile_worker, is_idle}
use mlx_swarm.Mesh.Admit.{sequence_state, worker_state, commit, commit_all}
use mlx_swarm.Mesh.Finish.{
  StateObservation, observe_setup, observe_setup_stage, observe_cleanup, observe_cleanup_stage,
  stages_at_end, finish_stage, finish_stages, store_sequence, store_worker,
}
use mlx_swarm.Mesh.Ledger.{sum_worker, sum_sequence, one, stage_bytes, sequence_bytes}

-- Both maps have one entry for each key.
abbrev pub AreUnique : Tables → Type 0
AreUnique t = IsUnique t.reservations × IsUnique t.workers

pub commit_all-AreUnique :
    (t : Tables) (rs : List StageReservation) → AreUnique t → AreUnique (commit_all t rs)
unfolding commit_all commit
commit_all-AreUnique t [] u = u
commit_all-AreUnique t (r ∷ rs) u =
    commit_all-AreUnique (commit t r) rs (put-IsUnique _ _ _ u.0, put-IsUnique _ _ _ u.1)

store_sequence-IsUnique :
    (m : GoMap SequenceKey SequenceState) (k : SequenceKey) (s : SequenceState)
    → IsUnique m
    → IsUnique (store_sequence m k s)
unfolding store_sequence
store_sequence-IsUnique m k s h = ground (arith, delete-IsUnique m k h, put-IsUnique m k s h)

store_worker-IsUnique :
    (m : GoMap WorkerKey WorkerState) (k : WorkerKey) (s : WorkerState)
    → IsUnique m
    → IsUnique (store_worker m k s)
unfolding store_worker
store_worker-IsUnique m k s h = elim (Bool-cases (is_idle s)) [
  | inl idle ↦ rw idle (delete-IsUnique m k h)
  | inr busy ↦ rw busy (put-IsUnique m k s h)
]

pub finish_stage-AreUnique :
    (ws : GoMap String Worker) (o : Outcome) (t : Tables) (r : StageReservation)
    → AreUnique t
    → AreUnique (finish_stage ws o t r)
unfolding finish_stage
finish_stage-AreUnique ws o t r u = (
  store_sequence-IsUnique t.reservations r.sequence_key _ u.0,
  store_worker-IsUnique t.workers r.worker_key _ u.1,
)

pub finish_stages-AreUnique :
    (ws : GoMap String Worker) (o : Outcome) (t : Tables) (rs : List StageReservation)
    → AreUnique t
    → AreUnique (finish_stages ws o t rs)
unfolding finish_stages
finish_stages-AreUnique ws o t [] u = u
finish_stages-AreUnique ws o t (r ∷ rs) u =
    finish_stages-AreUnique ws o (finish_stage ws o t r) rs (finish_stage-AreUnique ws o t r u)

pub reconcile-AreUnique :
    (ws : GoMap String Worker) (t : Tables) → AreUnique t → AreUnique (reconcile ws t)
unfolding reconcile
reconcile-AreUnique ws t u = (update_all-IsUnique _ _ u.0, update_all-IsUnique _ _ u.1)

reconcile_sequence-active :
    (ws : GoMap String Worker) (k : SequenceKey) (s : SequenceState)
    → (or_zero (reconcile_sequence ws k s) zero_sequence).active ≡ s.active
unfolding reconcile_sequence
reconcile_sequence-active ws k s = ground arith

pub reconcile-active :
    (ws : GoMap String Worker) (t : Tables) (k : SequenceKey)
    → AreUnique t
    → (sequence_state (reconcile ws t) k).active ≡ (sequence_state t k).active
unfolding reconcile
reconcile-active ws t k u = elim (Option-cases (get t.reservations k)) [
  | inl e ↦ rw (get-update_all (reconcile_sequence ws) t.reservations k u.0, e)
  | inr (s, e) ↦
      rw (get-update_all (reconcile_sequence ws) t.reservations k u.0, e)
        (reconcile_sequence-active ws k s)
]

abbrev SameActive : WorkerState → WorkerState → Type 0
SameActive u v =
    (v.active_requests ≡ u.active_requests)
    × (v.active_available_bytes ≡ u.active_available_bytes)
    × (v.active_retained_bytes ≡ u.active_retained_bytes)

reconcile_worker-active :
    (ws : GoMap String Worker) (k : WorkerKey) (s : WorkerState)
    → SameActive s (or_zero (reconcile_worker ws k s) zero_worker)
unfolding reconcile_worker is_idle
reconcile_worker-active ws k s = ground arith

pub reconcile-worker_active :
    (ws : GoMap String Worker) (t : Tables) (k : WorkerKey)
    → AreUnique t
    → SameActive (worker_state t k) (worker_state (reconcile ws t) k)
unfolding reconcile
reconcile-worker_active ws t k u = elim (Option-cases (get t.workers k)) [
  | inl e ↦ rw (get-update_all (reconcile_worker ws) t.workers k u.1, e) (refl, refl, refl)
  | inr (s, e) ↦
      rw (get-update_all (reconcile_worker ws) t.workers k u.1, e) (reconcile_worker-active ws k s)
]

-- The same claims, whatever was observed of them.
abbrev pub SameClaim : StageReservation → StageReservation → Type 0
SameClaim r q =
    (r.sequence_key ≡ q.sequence_key)
    × (r.worker_key ≡ q.worker_key)
    × (r.load_memory_bytes ≡ q.load_memory_bytes)
    × (r.sequence_memory_bytes ≡ q.sequence_memory_bytes)

abbrev pub SameClaims : List StageReservation → List StageReservation → Type 0
SameClaims [] [] = Unit
SameClaims (r ∷ rs) (q ∷ qs) = SameClaim r q × SameClaims rs qs
SameClaims _ _ = ⊥

pub SameClaims-refl : (rs : List StageReservation) → SameClaims rs rs
SameClaims-refl [] = tt
SameClaims-refl (r ∷ rs) = ((refl, refl, refl, refl), SameClaims-refl rs)

observe_setup_stage-SameClaim :
    (b : Bool) (r : StageReservation) (o : Option StateObservation)
    → SameClaim (observe_setup_stage b r o).0 r
unfolding observe_setup_stage
observe_setup_stage-SameClaim b r none = (refl, refl, refl, refl)
observe_setup_stage-SameClaim b r (some o) = ground arith

pub observe_setup-SameClaims :
    (b : Bool) (rs : List StageReservation) (ask : StageReservation → Option StateObservation)
    → SameClaims (observe_setup b rs ask).0 rs
unfolding observe_setup
observe_setup-SameClaims b [] ask = tt
observe_setup-SameClaims b (r ∷ rs) ask =
    (observe_setup_stage-SameClaim b r (ask r), observe_setup-SameClaims b rs ask)

observe_cleanup_stage-SameClaim :
    (r : StageReservation) (o : Option StateObservation) → SameClaim (observe_cleanup_stage r o) r
unfolding observe_cleanup_stage
observe_cleanup_stage-SameClaim r none = (refl, refl, refl, refl)
observe_cleanup_stage-SameClaim r (some o) = ground arith

pub observe_cleanup-SameClaims :
    (rs : List StageReservation) (ask : StageReservation → Option StateObservation)
    → SameClaims (observe_cleanup rs ask) rs
unfolding observe_cleanup
observe_cleanup-SameClaims [] ask = tt
observe_cleanup-SameClaims (r ∷ rs) ask =
    (observe_cleanup_stage-SameClaim r (ask r), observe_cleanup-SameClaims rs ask)

pub stages_at_end-SameClaims :
    (ask : StageReservation → Option StateObservation) (o : Outcome) (rs : List StageReservation)
    → SameClaims (stages_at_end ask o rs) rs
unfolding stages_at_end
stages_at_end-SameClaims ask o rs = elim (Bool-cases o.cleanup_confirmed) [
  | inl c ↦ rw c (SameClaims-refl rs)
  | inr c ↦ rw c (observe_cleanup-SameClaims rs ask)
]

pub SameClaims-sums :
    (rs qs : List StageReservation)
    → SameClaims rs qs
    → ((k : SequenceKey) → sum_sequence k rs ≡ sum_sequence k qs)
      × ((k : WorkerKey)
          → (sum_worker one k rs ≡ sum_worker one k qs)
            × (sum_worker stage_bytes k rs ≡ sum_worker stage_bytes k qs)
            × (sum_worker sequence_bytes k rs ≡ sum_worker sequence_bytes k qs))
SameClaims-sums [] [] h = (λ k. refl, λ k. (refl, refl, refl))
SameClaims-sums (r ∷ rs) (q ∷ qs) h =
    let rest = SameClaims-sums rs qs h.1 in
    (
      λ k. rw (h.0.0, rest.0 k),
      λ k. rw (h.0.1, h.0.2, h.0.3, (rest.1 k).0, (rest.1 k).1, (rest.1 k).2) (refl, refl, refl),
    )
SameClaims-sums _ _ h = elim h [ ]
