-- ===== src/Mesh/Admission.antt =====
-- A whole admission stays within every limit that its snapshot reports.
use mathlib.Core.Path.{subst⁻¹, subst₂}
use mlx_swarm.Base.{
  Bool-cases, true, false, inl, inr, ◌≡◌, ◌≢◌, refl, sym, ap, ◌∙◌, String, List, [], ◌∷◌, some,
  arith, All, length,
}
use mlx_swarm.Base.GoMap.{get}
use mlx_swarm.Base.Text.{string_key}
use mlx_swarm.Registry.Types.{Worker, Inventory}
use mlx_swarm.Generation.Types.{ExecutionStage}
use mlx_swarm.Placement.Types.{StageCostEstimate, PlanEvaluation, selected}
use mlx_swarm.Mesh.State.{Tables, StageReservation}
use mlx_swarm.Registry.Index.{index_workers}
use mlx_swarm.Mesh.Reconcile.{reconcile}
use mlx_swarm.Mesh.Admit.{
  ok, err, AdmissionError, sequence_state, worker_state, sequence_key_of, worker_key_of,
  claim_sequence, claim_worker, check_stages, commit, settle, has_evidence, Result, commit_all,
  reserve_admission, incomplete_evidence,
}
use mlx_swarm.Mesh.Capacity.{Within, Checked, claim-Within}
use mlx_swarm.Mesh.Lookup.{sequence_state-commit, worker_state-commit}
use mlx_swarm.Mesh.Reserved.{
  index_workers-id, Reserved, none_left, stage_left, check_stages-Reserved, Distinct, targets-keys,
}

abbrev pub Elsewhere : String → StageReservation → Type 0
Elsewhere id q = (id ≢ q.worker_key.worker_id) × (id ≢ q.sequence_key.worker_id)

-- Claims on other workers leave a stage's two entries alone.
untouched :
    (t : Tables) (w : Worker) (s : ExecutionStage) (rs : List StageReservation)
    → All (Elsewhere w.id) rs
    → (sequence_state (commit_all t rs) (sequence_key_of w s)
        ≡ sequence_state t (sequence_key_of w s))
      × (worker_state (commit_all t rs) (worker_key_of w) ≡ worker_state t (worker_key_of w))
unfolding commit_all
untouched t w s [] a = (refl, refl)
untouched t w s (q ∷ rs) a =
    let (x, y) = untouched (commit t q) w s rs a.1 in
    (
      x ∙ ground (arith, sequence_state-commit t q (sequence_key_of w s)),
      y ∙ ground (arith, worker_state-commit t q (worker_key_of w)),
    )

-- The entries of these reservations are as they were when they were checked.
abbrev pub AsChecked : Tables → Tables → List StageReservation → Type 0
AsChecked t₀ t = All λ r.
    (sequence_state t r.sequence_key ≡ sequence_state t₀ r.sequence_key)
    × (worker_state t r.worker_key ≡ worker_state t₀ r.worker_key)

pub commit-AsChecked :
    (t₀ t : Tables) (w : Worker) (s : ExecutionStage) (r : StageReservation)
    (rs : List StageReservation)
    → r.sequence_key ≡ sequence_key_of w s
    → r.worker_key ≡ worker_key_of w
    → All (Elsewhere w.id) rs
    → AsChecked t₀ t rs
    → AsChecked t₀ (commit t r) rs
commit-AsChecked t₀ t w s r [] k l a h = tt
commit-AsChecked t₀ t w s r (q ∷ rs) k l a h = (
  (
    ground (arith, sequence_state-commit t r q.sequence_key),
    ground (arith, worker_state-commit t r q.worker_key),
  ),
  commit-AsChecked t₀ t w s r rs k l a.1 h.1,
)

-- A stage holds its claim on a worker of the snapshot, within the limits of that worker.
abbrev pub Held : List Worker → Tables → ExecutionStage → StageReservation → Type 0
Held inv t s r =
    (w : Worker) × (get (index_workers inv) s.target_id ≡ some w)
    × (r.sequence_key ≡ sequence_key_of w s)
    × (r.worker_key ≡ worker_key_of w)
    × Within w s.shard_id (sequence_state t r.sequence_key) (worker_state t r.worker_key)

abbrev pub AllHeld : List Worker → Tables → List ExecutionStage → List StageReservation → Type 0
AllHeld inv t [] [] = Unit
AllHeld inv t (s ∷ ss) (r ∷ rs) = Held inv t s r × AllHeld inv t ss rs
AllHeld inv t _ _ = ⊥

commit_self :
    (t₀ t : Tables) (r : StageReservation)
    → sequence_state t r.sequence_key ≡ sequence_state t₀ r.sequence_key
    → worker_state t r.worker_key ≡ worker_state t₀ r.worker_key
    → (sequence_state (commit t r) r.sequence_key
        ≡ claim_sequence (sequence_state t₀ r.sequence_key))
      × (worker_state (commit t r) r.worker_key ≡ claim_worker r (worker_state t₀ r.worker_key))
commit_self t₀ t r p q = (
  ground (arith, sequence_state-commit t r r.sequence_key),
  ground (arith, worker_state-commit t r r.worker_key),
)

held_after :
    (t₀ t : Tables) (w : Worker) (s : ExecutionStage) (cost : StageCostEstimate)
    (r : StageReservation) (rs : List StageReservation)
    → Checked t₀ w s cost r
    → All (Elsewhere w.id) rs
    → AsChecked t₀ t (r ∷ rs)
    → Within w s.shard_id
        (sequence_state (commit_all (commit t r) rs) r.sequence_key)
        (worker_state (commit_all (commit t r) rs) r.worker_key)
held_after t₀ t w s cost r rs checked apart a =
    let (x, y) = untouched (commit t r) w s rs apart in
    let (u, v) = commit_self t₀ t r a.0.0 a.0.1 in
    let k = checked.sequence_key in
    let l = checked.worker_key in
    subst₂ (Within w s.shard_id)
      (sym (
        ap (sequence_state (commit_all (commit t r) rs)) k
        ∙ x
        ∙ ap (sequence_state (commit t r)) (sym k)
        ∙ u
        ∙ ap (λ z. claim_sequence (sequence_state t₀ z)) k))
      (sym (
        ap (worker_state (commit_all (commit t r) rs)) l
        ∙ y
        ∙ ap (worker_state (commit t r)) (sym l)
        ∙ v
        ∙ ap (λ z. claim_worker r (worker_state t₀ z)) l))
      (claim-Within t₀ w s cost r checked)

Reserved-AllHeld :
    {inv : List Worker} (t₀ t : Tables) {ss : List ExecutionStage} {rs : List StageReservation}
    → Reserved t₀ inv ss rs
    → Distinct ss
    → AsChecked t₀ t rs
    → AllHeld inv (commit_all t rs) ss rs
unfolding commit_all
Reserved-AllHeld t₀ t none_left d a = tt
Reserved-AllHeld {inv} t₀ t (stage_left {s} {r} {ss} {rs} w cost found checked rest) d a =
    let same = index_workers-id inv s.target_id w found in
    let apart =
      targets-keys (λ x. w.id ≢ x) rest (subst⁻¹ (λ i. All (λ u. i ≢ u.target_id) ss) same d.0) in
    (
      (
        w,
        found,
        checked.sequence_key,
        checked.worker_key,
        held_after t₀ t w s cost r rs checked apart a,
      ),
      Reserved-AllHeld t₀ (commit t r) rest d.1
          (commit-AsChecked t₀ t w s r rs checked.sequence_key checked.worker_key apart a.1),
    )

pub AsChecked-refl : (t : Tables) (rs : List StageReservation) → AsChecked t t rs
AsChecked-refl t [] = tt
AsChecked-refl t (r ∷ rs) = ((refl, refl), AsChecked-refl t rs)

settle-ok :
    (t : Tables) (x : Result (List StageReservation)) (rs : List StageReservation)
    → (settle t x).1 ≡ ok rs
    → (x ≡ ok rs) × ((settle t x).0 ≡ commit_all t rs)
unfolding settle
settle-ok t (err a) rs h = cc
settle-ok t (ok qs) rs h = (h, cc)

settle-err :
    (t : Tables) (x : Result (List StageReservation)) (a : AdmissionError)
    → (settle t x).1 ≡ err a
    → (settle t x).0 ≡ t
unfolding settle
settle-err t (err b) a h = refl
settle-err t (ok qs) a h = cc

has_evidence-lengths :
    (e : PlanEvaluation)
    → has_evidence e ≡ true
    → (length e.plan.stages ≡ length (selected e.stages))
      × (length e.plan.stages ≡ length e.request.stages)
unfolding has_evidence
has_evidence-lengths e h = ground arith

-- A successful admission has passed every stage's checks on the reconciled tables, and has made
-- every claim on them.
pub reserve_admission-ok :
    (t : Tables) (i : Inventory) (e : PlanEvaluation) (rs : List StageReservation)
    → (reserve_admission t i e).1 ≡ ok rs
    → (length e.plan.stages ≡ length (selected e.stages))
      × (length e.plan.stages ≡ length e.request.stages)
      × (check_stages
            (reconcile (index_workers i.workers) t)
            (index_workers i.workers)
            e.plan.stages
            (selected e.stages)
            e.request.stages
          ≡ ok rs)
      × ((reserve_admission t i e).0 ≡ commit_all (reconcile (index_workers i.workers) t) rs)
unfolding reserve_admission
reserve_admission-ok t i e rs h = elim (Bool-cases (has_evidence e)) [
  | inl full ↦
      let (p, q) = has_evidence-lengths e full in
      let (x, y) = settle-ok _ _ rs (rw full at h) in (p, q, x, rw full y)
  | inr partial ↦ absurd (let f : err incomplete_evidence ≡ ok rs = rw partial at h in cc f)
]

-- If an admission of a plan with distinct targets succeeds, it reserves one claim for each stage of
-- the plan, on the worker that the snapshot has under the stage's target ID; and with all the claims
-- made, each of those workers is within its four limits: the reported and local opens of the stage's
-- shard, the worker's requests, the bytes reserved against its available memory, and the bytes
-- against its retained-byte budget, pending memory included and the sums of bytes not wrapped.
pub admission_within_limits :
    (t : Tables) (i : Inventory) (e : PlanEvaluation) (rs : List StageReservation)
    → Distinct e.plan.stages
    → (reserve_admission t i e).1 ≡ ok rs
    → AllHeld i.workers (reserve_admission t i e).0 e.plan.stages rs
admission_within_limits t i e rs d h =
    let (p, q, checks, after) = reserve_admission-ok t i e rs h in
    let t' = reconcile (index_workers i.workers) t in
    subst⁻¹ (λ (u : Tables). AllHeld i.workers u e.plan.stages rs) after
      (Reserved-AllHeld t' t'
        (check_stages-Reserved t' i.workers e.plan.stages (selected e.stages) e.request.stages rs p
          q checks)
        d (AsChecked-refl t' rs))

-- An admission that is refused, whatever the reason, claims nothing: where the evidence is
-- incomplete, that is the reason and the tables are those it found, and where the evidence is
-- complete, the tables are those it found, reconciled with the snapshot.
pub refusal_claims_nothing :
    (t : Tables) (i : Inventory) (e : PlanEvaluation) (x : AdmissionError)
    → (reserve_admission t i e).1 ≡ err x
    → (has_evidence e ≡ false → (x ≡ incomplete_evidence) × ((reserve_admission t i e).0 ≡ t))
      × (has_evidence e ≡ true
          → (reserve_admission t i e).0 ≡ reconcile (index_workers i.workers) t)
unfolding reserve_admission
refusal_claims_nothing t i e x h = (
  λ partial. (cc (rw partial at h), rw partial refl),
  λ full. rw full (settle-err _ _ x (rw full at h)),
)
