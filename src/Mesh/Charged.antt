-- ===== src/Mesh/Charged.antt =====
-- A cleanup that nobody confirmed stays charged to its shard until the membership covers it.
use mathlib.Core.Path.{subst⁻¹}
use mlx_swarm.Base.{
  ℕ, ◌+◌, ◌≤◌, ◌<◌, ◌≡◌, refl, ap, ◌∙◌, String, Bool, true, false, List, [], ◌∷◌, ◌++◌, some, arith,
  length, Member, ltb, Bool-cases, inl, inr, ◌⊎◌, ite,
}
use mlx_swarm.Base.GoMap.{GoMap}
use mlx_swarm.Base.Text.{string_key}
use mlx_swarm.Registry.Types.{Worker, Inventory}
use mlx_swarm.Registry.Index.{index_workers}
use mlx_swarm.Placement.Types.{PlanEvaluation}
use mlx_swarm.Mesh.State.{
  SequenceKey, sequence_key_discrete, SequenceState, Tables, StageReservation, Outcome,
}
use mlx_swarm.Mesh.Reconcile.{reconcile, remaining_poison, uncovered}
use mlx_swarm.Mesh.Admit.{
  ok, err, Result, sequence_state, local_open, claim_sequence, commit, commit_all, settle,
  has_evidence, reserve_admission,
}
use mlx_swarm.Mesh.Finish.{cleanup_confirmed, cleanup_minimum, finish_sequence, finish_stage}
use mlx_swarm.Mesh.Lookup.{still_here, sequence_state-commit, sequence_state-finish}
use mlx_swarm.Mesh.Retained.{
  AreUnique, commit_all-AreUnique, finish_stage-AreUnique, reconcile-AreUnique, reconcile-active,
}
use mlx_swarm.Mesh.Poison.{IsPresent, same_instance-present, reconcile-poison, finish-poison}

-- A snapshot has the shard's incarnation, with an observation that is older than the mark.
pub record Unreached (k : SequenceKey) (m : ℕ) (i : Inventory) : Type 0 where
  pub worker : Worker
  pub present : IsPresent (index_workers i.workers) k worker
  pub older : worker.status.worker_observation_sequence < m

-- What may happen to the tables while no snapshot reaches the mark: admissions of any plans, accepted
-- or refused, and the ends of any stages, with any outcome, against any membership.
pub data Later (k : SequenceKey) (m : ℕ) (t : Tables) : Tables → Type 0 where
  no_more : Later k m t t
  after_admission :
      {u : Tables} (i : Inventory) (e : PlanEvaluation)
      → Later k m t u
      → Unreached k m i
      → Later k m t (reserve_admission u i e).0
  after_end :
      {u : Tables} (ws : GoMap String Worker) (o : Outcome) (r : StageReservation)
      → Later k m t u
      → Later k m t (finish_stage ws o u r)

-- The tables have one entry for each key, and the shard has the mark.
abbrev Marked : SequenceKey → ℕ → Tables → Type 0
Marked k m t = AreUnique t × Member m (sequence_state t k).poisoned_after

Member-append : (m : ℕ) (xs ys : List ℕ) → Member m xs ⊎ Member m ys → Member m (xs ++ ys)
Member-append m [] ys (inl h) = absurd h
Member-append m [] ys (inr h) = h
Member-append m (x ∷ xs) ys (inl (inl e)) = inl e
Member-append m (x ∷ xs) ys (inl (inr h)) = inr (Member-append m xs ys (inl h))
Member-append m (x ∷ xs) ys (inr h) = inr (Member-append m xs ys (inr h))

Member-length : (m : ℕ) (xs : List ℕ) → Member m xs → 1 ≤ length xs
Member-length m [] h = absurd h
Member-length m (x ∷ xs) h = omega arith

uncovered-Member :
    (seen m : ℕ) (ms : List ℕ) → seen < m → Member m ms → Member m (uncovered seen ms)
unfolding uncovered
uncovered-Member seen m [] h i = i
uncovered-Member seen m (x ∷ ms) h (inl e) = rw (reaches e) (inl e)
  where
    reaches : m ≡ x → ltb seen x ≡ true
    reaches e = ground arith
uncovered-Member seen m (x ∷ ms) h (inr i) = elim (Bool-cases (ltb seen x)) [
  | inl b ↦ rw b (inr (uncovered-Member seen m ms h i))
  | inr b ↦ rw b (uncovered-Member seen m ms h i)
]

remaining_poison-Member :
    (w : Worker) (id : String) (m : ℕ) (ms : List ℕ)
    → w.status.worker_observation_sequence < m
    → Member m ms
    → Member m (remaining_poison (some w) id ms)
unfolding remaining_poison
remaining_poison-Member w id m ms h i =
    ground (arith, uncovered-Member w.status.worker_observation_sequence m ms h i)

finish_sequence-Member :
    (here : Bool) (o : Outcome) (r : StageReservation) (s : SequenceState) (m : ℕ)
    → Member m s.poisoned_after
    → Member m (finish_sequence here o r s).poisoned_after
unfolding finish_sequence
finish_sequence-Member here o r s m h =
    ground (arith, Member-append m s.poisoned_after (cleanup_minimum r ∷ []) (inl h))

ite-Member :
    {P : Type 0} (a b : SequenceState) (m : ℕ) (d : Dec P)
    → (P → Member m a.poisoned_after)
    → Member m b.poisoned_after
    → Member m (ite d a b).poisoned_after
ite-Member a b m (yes p) f h = f p
ite-Member a b m (no n) f h = h

-- The end of a stage, a claim and a reconciliation keep the mark.
finish_stage-Marked :
    (k : SequenceKey) (m : ℕ) (ws : GoMap String Worker) (o : Outcome) (t : Tables)
    (r : StageReservation)
    → Marked k m t
    → Marked k m (finish_stage ws o t r)
finish_stage-Marked k m ws o t r h = (
  finish_stage-AreUnique ws o t r h.0,
  subst⁻¹ (λ (s : SequenceState). Member m s.poisoned_after) (sequence_state-finish ws o t r k)
      (ite-Member _ _ m (sequence_key_discrete r.sequence_key k)
        (λ p.
          finish_sequence-Member (still_here ws r) o r (sequence_state t r.sequence_key) m
            (subst⁻¹ (λ j. Member m (sequence_state t j).poisoned_after) p h.1))
        h.1),
)

commit-Member :
    (k : SequenceKey) (m : ℕ) (t : Tables) (r : StageReservation)
    → Member m (sequence_state t k).poisoned_after
    → Member m (sequence_state (commit t r) k).poisoned_after
unfolding claim_sequence
commit-Member k m t r h =
    subst⁻¹ (λ (s : SequenceState). Member m s.poisoned_after) (sequence_state-commit t r k)
      (ite-Member _ _ m (sequence_key_discrete r.sequence_key k)
        (λ p. subst⁻¹ (λ j. Member m (sequence_state t j).poisoned_after) p h) h)

commit_all-Member :
    (k : SequenceKey) (m : ℕ) (t : Tables) (rs : List StageReservation)
    → Member m (sequence_state t k).poisoned_after
    → Member m (sequence_state (commit_all t rs) k).poisoned_after
unfolding commit_all
commit_all-Member k m t [] h = h
commit_all-Member k m t (r ∷ rs) h = commit_all-Member k m (commit t r) rs (commit-Member k m t r h)

reconcile-Marked :
    (k : SequenceKey) (m : ℕ) (i : Inventory) (t : Tables)
    → Unreached k m i
    → Marked k m t
    → Marked k m (reconcile (index_workers i.workers) t)
reconcile-Marked k m i t u h =
    let ws = index_workers i.workers in
    let left =
      reconcile-poison ws t k h.0
      ∙ ap (λ x. remaining_poison x k.shard_id (sequence_state t k).poisoned_after)
          (same_instance-present ws k u.worker u.present) in
    (
      reconcile-AreUnique ws t h.0,
      subst⁻¹ (Member m) left (remaining_poison-Member u.worker k.shard_id m _ u.older h.1),
    )

settle-Marked :
    (k : SequenceKey) (m : ℕ) (t : Tables) (c : Result (List StageReservation))
    → Marked k m t
    → Marked k m (settle t c).0
unfolding settle
settle-Marked k m t (err e) h = h
settle-Marked k m t (ok rs) h = (commit_all-AreUnique t rs h.0, commit_all-Member k m t rs h.1)

reserve_admission-Marked :
    (k : SequenceKey) (m : ℕ) (t : Tables) (i : Inventory) (e : PlanEvaluation)
    → Unreached k m i
    → Marked k m t
    → Marked k m (reserve_admission t i e).0
unfolding reserve_admission
reserve_admission-Marked k m t i e u h = elim (Bool-cases (has_evidence e)) [
  | inl full ↦ rw full (settle-Marked k m _ _ (reconcile-Marked k m i t u h))
  | inr partial ↦ rw partial h
]

Later-Marked :
    (k : SequenceKey) (m : ℕ) (t : Tables) {u : Tables}
    → Marked k m t
    → Later k m t u
    → Marked k m u
Later-Marked k m t h no_more = h
Later-Marked k m t h (after_admission {u} i e l n) =
    reserve_admission-Marked k m u i e n (Later-Marked k m t h l)
Later-Marked k m t h (after_end {u} ws o r l) =
    finish_stage-Marked k m ws o u r (Later-Marked k m t h l)

-- If a stage ends without its cleanup confirmed while its worker is in membership, then after any
-- later admissions, accepted or refused, against snapshots of the same incarnation whose observations
-- are older than the stage's cleanup mark, and any later ends of stages, confirmed or not, in any
-- order, a reconciliation with another such snapshot leaves at least one open charged to the shard
-- beyond its active ones, whatever opens the snapshots report: neither a failed close nor another
-- sequence that ends can free the slot before the worker has been seen again.
pub unconfirmed_cleanup_charged :
    (ws : GoMap String Worker) (i : Inventory) (o : Outcome) (t u : Tables) (r : StageReservation)
    (w : Worker)
    → AreUnique t
    → r.worker_key.worker_id ≡ r.sequence_key.worker_id
    → r.worker_key.instance_id ≡ r.sequence_key.instance_id
    → IsPresent ws r.sequence_key w
    → cleanup_confirmed o r ≡ false
    → Later r.sequence_key (cleanup_minimum r) (finish_stage ws o t r) u
    → Unreached r.sequence_key (cleanup_minimum r) i
    → (sequence_state u r.sequence_key).active + 1
      ≤ local_open (sequence_state (reconcile (index_workers i.workers) u) r.sequence_key)
unfolding local_open
unconfirmed_cleanup_charged ws i o t u r w unique p q present unsure later unreached =
    let k = r.sequence_key in
    let m = cleanup_minimum r in
    let mark =
      subst⁻¹ (Member m) (finish-poison ws o t r w p q present unsure)
        (Member-append m _ (m ∷ []) (inr (inl refl))) in
    let kept = Later-Marked k m _ (finish_stage-AreUnique ws o t r unique, mark) later in
    let left = reconcile-Marked k m i u unreached kept in
    omega (arith, reconcile-active (index_workers i.workers) u k kept.0, Member-length m _ left.1)
