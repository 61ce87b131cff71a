-- ===== src/Generation/Pipeline.antt =====
-- What `ValidateExecutionPlan` guarantees of the stages that it accepts.
use mlx_swarm.Base.{
  first_fault, and_also, ℕ, zero, suc, ◌+◌, ◌≡◌, refl, ap, List, [], ◌∷◌, Option, none, some, arith,
  length, get_elem?, ◌==◌, Bool-cases, inl, inr,
}
use mlx_swarm.Base.Int.{ℤ, pos, ◌≤ℤ◌, leb_ℤ}
use mlx_swarm.Generation.Types.{ExecutionStage, ExecutionPlan}
use mlx_swarm.Generation.Plan.{
  header_faults, revision_fault, validate_shards, PlanError, Seen, see, nothing_seen,
  validate_stages, validate_execution_plan, Digests,
}
use mlx_swarm.Generation.Sound.{StageFits, stage_faults-none}

-- The stages after those that were seen: each fits, and the last one ends at the layer count.
pub data Pipeline (layer_count : ℤ) (total : ℕ) : ℕ → Seen → List ExecutionStage → Type 0 where
  at_end :
      {index : ℕ} {seen : Seen}
      → seen.expected_start ≡ layer_count
      → Pipeline layer_count total index seen []
  next_stage :
      {index : ℕ} {seen : Seen} {s : ExecutionStage} {ss : List ExecutionStage}
      → StageFits layer_count index (index + 1 == total) seen s
      → Pipeline layer_count total (index + 1) (see seen s) ss
      → Pipeline layer_count total index seen (s ∷ ss)

and_also-none : (a b : Option PlanError) → and_also a b ≡ none → (a ≡ none) × (b ≡ none)
and_also-none none b h = (refl, h)
and_also-none (some e) b h = ground arith

-- The parts of an accepted plan's validation.
pub accepted :
    (d : Digests) (plan : ExecutionPlan)
    → validate_execution_plan d plan ≡ none
    → (first_fault (header_faults plan) ≡ none)
      × (validate_stages plan.model.layer_count (length plan.stages) 0 nothing_seen plan.stages
          ≡ none)
      × (revision_fault d plan ≡ none)
      × (validate_shards d plan.model 0 plan.stages ≡ none)
unfolding validate_execution_plan
accepted d plan h =
    let head = and_also-none _ _ h in
    let body = and_also-none _ _ head.1 in
    let tail = and_also-none _ _ body.1 in (head.0, body.0, tail.0, tail.1)

pub validate_stages-Pipeline :
    (layer_count : ℤ) (total index : ℕ) (seen : Seen) (ss : List ExecutionStage)
    → validate_stages layer_count total index seen ss ≡ none
    → Pipeline layer_count total index seen ss
unfolding validate_stages
validate_stages-Pipeline layer_count total index seen [] h = at_end (ground arith)
validate_stages-Pipeline layer_count total index seen (s ∷ ss) h =
    let both = and_also-none _ _ h in
    next_stage (stage_faults-none layer_count index (index + 1 == total) seen s both.0)
      (validate_stages-Pipeline layer_count total (index + 1) (see seen s) ss both.1)

-- A layer of a stage's range.
abbrev pub Runs : ExecutionStage → ℤ → Type 0
Runs s layer = (s.layer_start ≤ℤ layer) × ¬ (s.layer_end ≤ℤ layer)

-- The layers of a pipeline's stages do not stand before the expected start.
Pipeline-after :
    (layer_count : ℤ) (total index : ℕ) (seen : Seen) (ss : List ExecutionStage)
    → Pipeline layer_count total index seen ss
    → (i : ℕ) (s : ExecutionStage) → get_elem? ss i ≡ some s
    → seen.expected_start ≤ℤ s.layer_start
Pipeline-after layer_count total index seen [] p i s h = ground arith
Pipeline-after layer_count total index seen (s ∷ ss) (next_stage f p) zero t h =
    ground (arith, f.starts)
Pipeline-after layer_count total index seen (s ∷ ss) (next_stage f p) (suc i) t h = ground (
  arith,
  f.starts,
  f.not_empty,
  Pipeline-after layer_count total (index + 1) (see seen s) ss p i t h,
)

-- No other stage runs a layer.
abbrev pub OnlyAt : List ExecutionStage → ℤ → ℕ → Type 0
OnlyAt ss layer i = (j : ℕ) (t : ExecutionStage) → get_elem? ss j ≡ some t → Runs t layer → j ≡ i

OnlyAt-later :
    (s : ExecutionStage) (ss : List ExecutionStage) (layer : ℤ) (i : ℕ)
    → s.layer_end ≤ℤ layer
    → OnlyAt ss layer i
    → OnlyAt (s ∷ ss) layer (suc i)
OnlyAt-later s ss layer i e unique zero u h r = ground arith
OnlyAt-later s ss layer i e unique (suc j) u h r = ap suc (unique j u h r)

OnlyAt-first :
    (s : ExecutionStage) (ss : List ExecutionStage) (layer : ℤ)
    → ¬ (s.layer_end ≤ℤ layer)
    → ((j : ℕ) (t : ExecutionStage) → get_elem? ss j ≡ some t → s.layer_end ≤ℤ t.layer_start)
    → OnlyAt (s ∷ ss) layer 0
OnlyAt-first s ss layer e after zero u h r = refl
OnlyAt-first s ss layer e after (suc j) u h r = ground (arith, after j u h)

-- Every layer from the expected start on is run by one stage, and by no other.
Pipeline-covers :
    (layer_count : ℤ) (total index : ℕ) (seen : Seen) (ss : List ExecutionStage)
    → Pipeline layer_count total index seen ss
    → (layer : ℤ) → seen.expected_start ≤ℤ layer
    → ¬ (layer_count ≤ℤ layer)
    → (i : ℕ) × (s : ExecutionStage) × (get_elem? ss i ≡ some s) × Runs s layer × OnlyAt ss layer i
Pipeline-covers layer_count total index seen [] (at_end e) layer low high = ground (arith, e)
Pipeline-covers layer_count total index seen (s ∷ ss) (next_stage f p) layer low high =
    elim (Bool-cases (leb_ℤ s.layer_end layer)) [
      | inl e ↦
          let (i, t, at, runs, unique) =
            Pipeline-covers layer_count total (index + 1) (see seen s) ss p layer (ground arith)
              high in
          (suc i, t, at, runs, OnlyAt-later s ss layer i (ground arith) unique)
      | inr e ↦ (
        0,
        s,
        refl,
        ground (arith, f.starts),
        OnlyAt-first s ss layer (ground arith)
            (λ j u h. Pipeline-after layer_count total (index + 1) (see seen s) ss p j u h),
      )
    ]

-- In an accepted plan every layer of the model belongs to the range of exactly one stage: there is
-- a stage that runs it, and a stage at any other position does not.
pub validate_execution_plan-covers :
    (d : Digests) (plan : ExecutionPlan)
    → validate_execution_plan d plan ≡ none
    → (layer : ℕ) → ¬ (plan.model.layer_count ≤ℤ pos layer)
    → (i : ℕ) × (s : ExecutionStage) × (get_elem? plan.stages i ≡ some s)
      × Runs s (pos layer)
      × OnlyAt plan.stages (pos layer) i
validate_execution_plan-covers d plan h layer high =
    Pipeline-covers plan.model.layer_count (length plan.stages) 0 nothing_seen plan.stages
      (validate_stages-Pipeline _ _ _ _ _ (accepted d plan h).1) (pos layer) (ground arith) high
