-- ===== src/Mesh/Balance.antt =====
-- Every interleaving of admissions, observations and ends keeps the counters equal to what the open
-- reservations account for.
use mathlib.Core.Path.{subst, subst⁻¹}
use mlx_swarm.Base.{inl, inr, ◌+◌, ◌≡◌, ◌≢◌, String, List, [], ◌∷◌, some, arith, All}
use mlx_swarm.Base.GoMap.{GoMap, get, put, get-put-some}
use mlx_swarm.Base.Text.{string_key}
use mlx_swarm.Registry.Types.{Worker}
use mlx_swarm.Generation.Types.{ExecutionStage}
use mlx_swarm.Placement.Types.{StageCostEstimate}
use mlx_swarm.Mesh.State.{WorkerKey, Tables, StageReservation}
use mlx_swarm.Registry.Index.{index_workers, index_from}
use mlx_swarm.Mesh.Admit.{worker_state, commit, commit_all}
use mlx_swarm.Mesh.Capacity.{IsWord, Checked, claim_worker_exact}
use mlx_swarm.Mesh.Lookup.{worker_state-commit}
use mlx_swarm.Mesh.Reserved.{
  index_workers-id, Reserved, none_left, stage_left, Distinct, targets-keys,
}
use mlx_swarm.Mesh.Admission.{AsChecked, commit-AsChecked}
use mlx_swarm.Mesh.Ledger.{sum_worker, stage_bytes, sequence_bytes}

index_from-All :
    (P : Worker → Type 0) (m : GoMap String Worker) (ws : List Worker)
    → ((id : String) (w : Worker) → get m id ≡ some w → P w)
    → All P ws
    → (id : String) (w : Worker) → get (index_from m ws) id ≡ some w
    → P w
unfolding index_from
index_from-All P m [] h a id w e = h id w e
index_from-All P m (v ∷ ws) h a id w e =
    index_from-All P (put m v.id v) ws
      (λ j u f. elim (get-put-some m v.id j v u f) [
        | inl same ↦ subst P same a.0
        | inr old ↦ h j u old
      ])
      a.1 id w e

pub index_workers-All :
    (P : Worker → Type 0) (ws : List Worker)
    → All P ws
    → (id : String) (w : Worker) → get (index_workers ws) id ≡ some w
    → P w
unfolding index_workers get
index_workers-All P ws a id w e = index_from-All P [] ws (λ j u f. cc) a id w e

claim-bytes :
    (t₀ t : Tables) (w : Worker) (s : ExecutionStage) (cost : StageCostEstimate)
    (r : StageReservation) (k : WorkerKey)
    → IsWord w
    → Checked t₀ w s cost r
    → worker_state t r.worker_key ≡ worker_state t₀ r.worker_key
    → let u = worker_state t k in
      let v = worker_state (commit t r) k in
      (v.active_available_bytes ≡ u.active_available_bytes + sum_worker stage_bytes k (r ∷ []))
      × (v.active_retained_bytes ≡ u.active_retained_bytes + sum_worker sequence_bytes k (r ∷ []))
claim-bytes t₀ t w s cost r k word checked same = ground (
  arith,
  worker_state-commit t r k,
  claim_worker_exact t₀ w s cost r word checked,
  checked.worker_key,
)

pub commit_all-bytes :
    {inv : List Worker} (t₀ t : Tables) {ss : List ExecutionStage} {rs : List StageReservation}
    (k : WorkerKey)
    → Reserved t₀ inv ss rs
    → Distinct ss
    → ((id : String) (w : Worker) → get (index_workers inv) id ≡ some w → IsWord w)
    → AsChecked t₀ t rs
    → let u = worker_state t k in
      let v = worker_state (commit_all t rs) k in
      (v.active_available_bytes ≡ u.active_available_bytes + sum_worker stage_bytes k rs)
      × (v.active_retained_bytes ≡ u.active_retained_bytes + sum_worker sequence_bytes k rs)
unfolding commit_all
commit_all-bytes t₀ t k none_left d word a = (omega arith, omega arith)
commit_all-bytes {inv} t₀ t k (stage_left {s} {r} {ss} {rs} w cost found checked rest) d word a =
    let same = index_workers-id inv s.target_id w found in
    let apart =
      targets-keys (λ x. w.id ≢ x) rest (subst⁻¹ (λ i. All (λ u. i ≢ u.target_id) ss) same d.0) in
    let later = commit-AsChecked t₀ t w s r rs checked.sequence_key checked.worker_key apart a.1 in
    omega (
      arith,
      claim-bytes t₀ t w s cost r k (word s.target_id w found) checked a.0.1,
      commit_all-bytes t₀ (commit t r) k rest d.1 word later,
    )
