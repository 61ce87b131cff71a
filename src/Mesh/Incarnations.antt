-- ===== src/Mesh/Incarnations.antt =====
-- The callers of a sequence and its claims name the same workers.
use mathlib.Core.Path.{subst⁻¹}
use mlx_swarm.Base.{ℕ, zero, suc, ◌+◌, ◌≡◌, refl, sym, ap, ◌∙◌, List, ◌∷◌, some, arith, get_elem?}
use mlx_swarm.Base.Text.{string_key}
use mlx_swarm.Registry.Types.{Worker, Inventory}
use mlx_swarm.Generation.Types.{ExecutionStage}
use mlx_swarm.Placement.Types.{PlanEvaluation, selected}
use mlx_swarm.Mesh.State.{WorkerKey, Tables, StageReservation}
use mlx_swarm.Registry.Index.{index_workers}
use mlx_swarm.Mesh.Reconcile.{reconcile}
use mlx_swarm.Mesh.Admit.{ok, reserve_admission, worker_key_of}
use mlx_swarm.Mesh.Reserved.{Reserved, none_left, stage_left, check_stages-Reserved}
use mlx_swarm.Mesh.Admission.{reserve_admission-ok}
use mlx_swarm.Mesh.Bindings.{
  TargetBinding, Bound, bound, unbound, bind_stage, bind_stages, selected_target_bindings,
}

bind_stage-bound :
    (index : ℕ) (s : ExecutionStage) (w : Worker) (rest : Bound) (bs : List TargetBinding)
    → bind_stage index s (some w) rest ≡ bound bs
    → (b : TargetBinding) × (bs' : List TargetBinding) × (bs ≡ b ∷ bs')
      × (rest ≡ bound bs')
      × (b.index ≡ index)
      × (record { worker_id = b.worker_id; instance_id = b.instance_id } ≡ worker_key_of w)
      × (b.endpoint ≡ w.endpoint)
bind_stage-bound index s w (bound bs') bs h = ground arith
bind_stage-bound index s w (unbound e) bs h = ground arith

-- A binding and a claim of one worker incarnation.
abbrev pub incarnation : TargetBinding → WorkerKey
incarnation b = record { worker_id = b.worker_id; instance_id = b.instance_id }

abbrev pub Matched : List TargetBinding → List StageReservation → Type 0
Matched bs rs =
    (i : ℕ) (b : TargetBinding)
    → get_elem? bs i ≡ some b
    → (r : StageReservation) × (get_elem? rs i ≡ some r) × (r.worker_key ≡ incarnation b)

Matched-next :
    (c : TargetBinding) (bs : List TargetBinding) (r : StageReservation)
    (rs : List StageReservation)
    → r.worker_key ≡ incarnation c
    → Matched bs rs
    → Matched (c ∷ bs) (r ∷ rs)
Matched-next c bs r rs same m zero b at = (r, refl, same ∙ ap incarnation (some_inj at))
  where
    some_inj : {x y : TargetBinding} → some x ≡ some y → x ≡ y
    some_inj h = ground arith
Matched-next c bs r rs same m (suc i) b at = m i b at

-- The bindings and the claims of the stages, in their order.
Reserved-bound :
    {t : Tables} {inv : List Worker} {ss : List ExecutionStage} {rs : List StageReservation}
    (index : ℕ) (bs : List TargetBinding)
    → Reserved t inv ss rs
    → bind_stages (index_workers inv) index ss ≡ bound bs
    → Matched bs rs
unfolding bind_stages
Reserved-bound index bs none_left h = λ i b at. ground arith
Reserved-bound {inv = inv} {ss = s ∷ ss} {rs = r ∷ rs} index bs
      (stage_left w cost found checked rest) h =
    let opened =
      ap (λ o. bind_stage index s o (bind_stages (index_workers inv) (index + 1) ss)) (sym found)
      ∙ h in
    let (c, bs', e, tail, _, same, _) = bind_stage-bound index s w _ bs opened in
    subst⁻¹ (λ l. Matched l (r ∷ rs)) e
      (Matched-next c bs' r rs (checked.worker_key ∙ sym same)
        (Reserved-bound (index + 1) bs' rest tail))

-- If the targets of a plan are bound against a snapshot, and its admission against the same snapshot
-- succeeds, then the worker incarnation that each stage is called at is the one on which the stage's
-- claim is made.
pub bindings_match_claims :
    (t : Tables) (i : Inventory) (e : PlanEvaluation) (bs : List TargetBinding)
    (rs : List StageReservation)
    → selected_target_bindings i e.plan ≡ bound bs
    → (reserve_admission t i e).1 ≡ ok rs
    → (n : ℕ) (b : TargetBinding) → get_elem? bs n ≡ some b
    → (r : StageReservation) × (get_elem? rs n ≡ some r)
      × (r.worker_key ≡ record { worker_id = b.worker_id; instance_id = b.instance_id })
unfolding selected_target_bindings
bindings_match_claims t i e bs rs bind admit =
    let o = reserve_admission-ok t i e rs admit in
    let reserved =
      check_stages-Reserved (reconcile (index_workers i.workers) t) i.workers e.plan.stages
        (selected e.stages) e.request.stages rs o.0 o.1 o.2 in
    Reserved-bound 0 bs reserved (ground (arith, bind))
