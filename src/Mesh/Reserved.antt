-- ===== src/Mesh/Reserved.antt =====
-- The reservations that a successful loop of checks makes, and the workers that they name.
use mathlib.Core.Path.{subst⁻¹}
use mlx_swarm.Base.{◌≡◌, ◌≢◌, String, List, [], ◌∷◌, some, arith, All, length}
use mlx_swarm.Base.GoMap.{GoMap, get, put, get-put}
use mlx_swarm.Base.Text.{string_key}
use mlx_swarm.Registry.Types.{Worker}
use mlx_swarm.Generation.Types.{ExecutionStage}
use mlx_swarm.Placement.Types.{Candidate, StageCostEstimate}
use mlx_swarm.Mesh.State.{SequenceKey, WorkerKey, Tables, StageReservation}
use mlx_swarm.Registry.Index.{index_workers, index_from}
use mlx_swarm.Mesh.Admit.{ok, check_stage, check_stages}
use mlx_swarm.Mesh.Capacity.{Checked, check_stage-ok}

-- A snapshot's index has each worker under its own ID.
index_from-id :
    (m : GoMap String Worker) (ws : List Worker)
    → ((id : String) (w : Worker) → get m id ≡ some w → w.id ≡ id)
    → (id : String) (w : Worker) → get (index_from m ws) id ≡ some w
    → w.id ≡ id
unfolding index_from
index_from-id m [] h id w e = h id w e
index_from-id m (v ∷ ws) h id w e =
    index_from-id (put m v.id v) ws (λ j u f. ground (arith, get-put m v.id j v, h j u)) id w e

pub index_workers-id :
    (ws : List Worker) (id : String) (w : Worker) → get (index_workers ws) id ≡ some w → w.id ≡ id
unfolding index_workers get
index_workers-id ws id w e = index_from-id [] ws (λ id w e. cc) id w e

-- The stages of a plan with the reservations that their checks made, all against the tables `t`.
pub data Reserved (t : Tables) (inv : List Worker)
    : List ExecutionStage → List StageReservation → Type 0 where
  none_left : Reserved t inv [] []
  stage_left :
      {s : ExecutionStage} {r : StageReservation} {ss : List ExecutionStage}
      {rs : List StageReservation} (w : Worker) (cost : StageCostEstimate)
      → get (index_workers inv) s.target_id ≡ some w
      → Checked t w s cost r
      → Reserved t inv ss rs
      → Reserved t inv (s ∷ ss) (r ∷ rs)

pub check_stages-ok :
    (t : Tables) (ws : GoMap String Worker) (s : ExecutionStage) (ss : List ExecutionStage)
    (c : Candidate) (cs : List Candidate) (k : StageCostEstimate) (ks : List StageCostEstimate)
    (rs : List StageReservation)
    → check_stages t ws (s ∷ ss) (c ∷ cs) (k ∷ ks) ≡ ok rs
    → (r : StageReservation) × (rs' : List StageReservation) × (rs ≡ r ∷ rs')
      × (check_stage t ws s c k ≡ ok r)
      × (check_stages t ws ss cs ks ≡ ok rs')
unfolding check_stages
check_stages-ok t ws s ss c cs k ks rs h = ground arith

check_stages-nil :
    (t : Tables) (ws : GoMap String Worker) (rs : List StageReservation)
    → check_stages t ws [] [] [] ≡ ok rs
    → rs ≡ []
unfolding check_stages
check_stages-nil t ws rs h = cc

pub check_stages-Reserved :
    (t : Tables) (inv : List Worker) (ss : List ExecutionStage) (cs : List Candidate)
    (ks : List StageCostEstimate) (rs : List StageReservation)
    → length ss ≡ length cs
    → length ss ≡ length ks
    → check_stages t (index_workers inv) ss cs ks ≡ ok rs
    → Reserved t inv ss rs
check_stages-Reserved t inv [] [] [] rs p q h =
    subst⁻¹ (Reserved t inv []) (check_stages-nil t (index_workers inv) rs h) none_left
check_stages-Reserved t inv (s ∷ ss) (c ∷ cs) (k ∷ ks) rs p q h =
    let (r, rs', e, head, rest) = check_stages-ok t _ s ss c cs k ks rs h in
    let (w, found, checked) = check_stage-ok t _ s c k r head in
    subst⁻¹ (Reserved t inv (s ∷ ss)) e (
      stage_left w k found checked
        (check_stages-Reserved t inv ss cs ks rs' (omega arith) (omega arith) rest))
check_stages-Reserved t inv _ _ _ rs p q h = absurd (omega arith)

-- The targets of a plan are distinct, as `ValidateExecutionPlan` has it.
abbrev pub Distinct : List ExecutionStage → Type 0
Distinct [] = Unit {0}
Distinct (s ∷ ss) = All (λ u. s.target_id ≢ u.target_id) ss × Distinct ss

-- A property of the stages' targets is one of the reserved keys.
pub targets-keys :
    (P : String → Type 0) {t : Tables} {inv : List Worker} {ss : List ExecutionStage}
    {rs : List StageReservation}
    → Reserved t inv ss rs
    → All (λ s. P s.target_id) ss
    → All (λ r. P r.worker_key.worker_id × P r.sequence_key.worker_id) rs
targets-keys P none_left a = tt
targets-keys P {inv} (stage_left {s} {r} w cost found checked rest) a =
    let same = index_workers-id inv s.target_id w found in
    let p = subst⁻¹ P same a.0 in
    (
      (
        subst⁻¹ (λ (k : WorkerKey). P k.worker_id) checked.worker_key p,
        subst⁻¹ (λ (k : SequenceKey). P k.worker_id) checked.sequence_key p,
      ),
      targets-keys P rest a.1,
    )
