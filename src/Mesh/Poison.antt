-- ===== src/Mesh/Poison.antt =====
-- The marks that cleanups leave on a shard when nobody confirms them, and their release once the
-- membership covers them.

use mlx_swarm.Base.{
  ℕ, ◌≤◌, ◌≡◌, refl, sym, ap, ◌∙◌, String, false, List, [], ◌∷◌, ◌++◌, Option, none, some, arith,
  All, length, Option-cases, inl, inr, ◌⊎◌,
}
use mlx_swarm.Base.GoMap.{GoMap, get, get-update_all, or_zero}
use mlx_swarm.Base.Int.{pos}
use mlx_swarm.Base.Text.{string_key}
use mlx_swarm.Registry.Types.{Worker}
use mlx_swarm.Mesh.State.{
  SequenceKey, sequence_key_key, SequenceState, zero_sequence, Tables, StageReservation, Outcome,
}
use mlx_swarm.Mesh.Reconcile.{
  reconcile, reconcile_sequence, remaining_poison, reported_open, uncovered, same_instance,
}
use mlx_swarm.Mesh.Admit.{sequence_state, local_open}
use mlx_swarm.Mesh.Finish.{cleanup_confirmed, cleanup_minimum, finish_sequence, finish_stage}
use mlx_swarm.Mesh.Lookup.{sequence_state-finish}
use mlx_swarm.Mesh.Retained.{AreUnique, reconcile-active}

remaining_poison-nil : (w : Option Worker) (id : String) → remaining_poison w id [] ≡ []
unfolding remaining_poison
remaining_poison-nil none id = refl
remaining_poison-nil (some w) id = ground arith

reconcile_sequence-poison :
    (ws : GoMap String Worker) (k : SequenceKey) (s : SequenceState)
    → (or_zero (reconcile_sequence ws k s) zero_sequence).poisoned_after
      ≡ remaining_poison
          (same_instance (get ws k.worker_id) k.instance_id)
          k.shard_id
          s.poisoned_after
unfolding reconcile_sequence
reconcile_sequence-poison ws k s =
    ground
      (arith, remaining_poison-nil (same_instance (get ws k.worker_id) k.instance_id) k.shard_id)

-- What reconciliation leaves of a shard's marks.
pub reconcile-poison :
    (ws : GoMap String Worker) (t : Tables) (k : SequenceKey)
    → AreUnique t
    → (sequence_state (reconcile ws t) k).poisoned_after
      ≡ remaining_poison
          (same_instance (get ws k.worker_id) k.instance_id)
          k.shard_id
          (sequence_state t k).poisoned_after
unfolding reconcile
reconcile-poison ws t k u = elim (Option-cases (get t.reservations k)) [
  | inl e ↦
      rw (get-update_all (reconcile_sequence ws) t.reservations k u.0, e)
        (sym (remaining_poison-nil _ k.shard_id))
  | inr (s, e) ↦
      rw (get-update_all (reconcile_sequence ws) t.reservations k u.0, e)
        (reconcile_sequence-poison ws k s)
]

uncovered-All : (seen : ℕ) (ms : List ℕ) → All (λ m. m ≤ seen) ms → uncovered seen ms ≡ []
unfolding uncovered
uncovered-All seen [] h = refl
uncovered-All seen (m ∷ ms) h = ground (arith, uncovered-All seen ms h.1)

remaining_poison_drops :
    (w : Worker) (id : String) (ms : List ℕ)
    → reported_open w.status.retained_shards id ≡ pos 0
    → All (λ m. m ≤ w.status.worker_observation_sequence) ms
    → remaining_poison (some w) id ms ≡ []
unfolding remaining_poison
remaining_poison_drops w id ms e h =
    ground (arith, uncovered-All w.status.worker_observation_sequence ms h)

-- The snapshot has the worker under its ID, as the incarnation that the claim names.
abbrev pub IsPresent : GoMap String Worker → SequenceKey → Worker → Type 0
IsPresent ws k w = (get ws k.worker_id ≡ some w) × (w.instance_id ≡ k.instance_id)

pub same_instance-present :
    (ws : GoMap String Worker) (k : SequenceKey) (w : Worker)
    → IsPresent ws k w
    → same_instance (get ws k.worker_id) k.instance_id ≡ some w
unfolding same_instance
same_instance-present ws k w h = ground arith

pub finish-poison :
    (ws : GoMap String Worker) (o : Outcome) (t : Tables) (r : StageReservation) (w : Worker)
    → r.worker_key.worker_id ≡ r.sequence_key.worker_id
    → r.worker_key.instance_id ≡ r.sequence_key.instance_id
    → IsPresent ws r.sequence_key w
    → cleanup_confirmed o r ≡ false
    → (sequence_state (finish_stage ws o t r) r.sequence_key).poisoned_after
      ≡ (sequence_state t r.sequence_key).poisoned_after ++ (cleanup_minimum r ∷ [])
unfolding finish_sequence
finish-poison ws o t r w p q present unsure = ground (
  arith,
  sequence_state-finish ws o t r r.sequence_key,
  same_instance-present ws r.sequence_key w present,
)

-- Once a snapshot of the same incarnation reports the shard closed and has an observation that
-- reaches every mark of the shard, or once the incarnation is gone from the snapshot, reconciliation
-- charges the shard with its active claims alone.
pub covered_cleanup_released :
    (ws : GoMap String Worker) (t : Tables) (k : SequenceKey)
    → AreUnique t
    → (same_instance (get ws k.worker_id) k.instance_id ≡ none)
      ⊎ ((w : Worker) × IsPresent ws k w
          × (reported_open w.status.retained_shards k.shard_id ≡ pos 0)
          × All (λ m. m ≤ w.status.worker_observation_sequence) (sequence_state t k).poisoned_after)
    → local_open (sequence_state (reconcile ws t) k) ≡ (sequence_state t k).active
unfolding local_open remaining_poison
covered_cleanup_released ws t k u (inl gone) = omega (
  arith,
  reconcile-active ws t k u,
  ap length (
      reconcile-poison ws t k u
      ∙ ap (λ x. remaining_poison x k.shard_id (sequence_state t k).poisoned_after) gone),
)
covered_cleanup_released ws t k u (inr (w, present, closed, reached)) = omega (
  arith,
  reconcile-active ws t k u,
  ap length (
      reconcile-poison ws t k u
      ∙ ap (λ x. remaining_poison x k.shard_id (sequence_state t k).poisoned_after)
          (same_instance-present ws k w present)
      ∙ remaining_poison_drops w k.shard_id (sequence_state t k).poisoned_after closed reached),
)
