-- ===== src/Generation/Split.antt =====
-- The ranges of a balanced split.
use mlx_swarm.Base.{
  ℕ, map, zero, suc, ◌+◌, ◌*◌, ◌/◌, ◌%◌, ◌^◌, ◌≤◌, ◌<◌, ◌≡◌, refl, sym, ap, ◌∙◌, String, List, [],
  ◌∷◌, some, arith, length, get_elem?, min, ltb, Bool-cases, inl, inr,
}
use mathlib.Core.Path.{subst}
use native.Mathlib.Nat.{mul-le-mul_right}
use mlx_swarm.Base.Int.{ℤ, pos, add_int, add_int-pos}
use mlx_swarm.Generation.Types.{StageResponseMode, ExecutionModel, ExecutionStage, ExecutionPlan}
use mlx_swarm.Generation.Plan.{Digests, plan, build_execution_plan, revision_stage}
use mlx_swarm.Generation.Roundtrip.{build_execution_plan-validates}
use mlx_swarm.Generation.Balanced.{
  quotient, remainder, stage_size, balanced_stages, build_balanced_execution_plan,
}

-- The layer where the stage of a target starts: one more layer for each earlier target that took
-- one of the remainder.
abbrev pub edge : ℕ → ℕ → ℕ → ℕ
edge layers n i = i * (layers / n) + min i (layers % n)

edge-suc :
    (layers n i : ℕ)
    → 1 ≤ n
    → (i < layers % n → edge layers n (suc i) ≡ edge layers n i + (layers / n + 1))
      × (layers % n ≤ i → edge layers n (suc i) ≡ edge layers n i + layers / n)
edge-suc layers n i h = ((λ b. omega arith), (λ b. omega arith))

edge-all : (layers n : ℕ) → 1 ≤ n → edge layers n n ≡ layers
edge-all layers n h = omega arith

edge-le : (layers n i : ℕ) → 1 ≤ n → i ≤ n → edge layers n i ≤ layers
edge-le layers n i h le = omega (arith, mul-le-mul_right (layers / n) le, edge-all layers n h)

size-more :
    (base rest i : ℕ)
    → i < rest
    → base + 1 < 2 ^ 63
    → stage_size (pos base) (pos rest) i ≡ pos (base + 1)
unfolding stage_size
size-more base rest i h low = ground (arith, add_int-pos base 1 low)

size-less : (base rest i : ℕ) → rest ≤ i → stage_size (pos base) (pos rest) i ≡ pos base
unfolding stage_size
size-less base rest i h = ground arith

-- The end of a stage that starts at its edge is the next edge; the sum does not wrap.
stage-end :
    (layers n i : ℕ)
    → 1 ≤ n
    → layers < 2 ^ 63
    → suc i ≤ n
    → add_int (pos (edge layers n i)) (stage_size (pos (layers / n)) (pos (layers % n)) i)
      ≡ pos (edge layers n (suc i))
stage-end layers n i h low le =
    let step = edge-suc layers n i h in
    let bound = edge-le layers n (suc i) h le in
    elim (Bool-cases (ltb i (layers % n))) [
      | inl b ↦
          let more : i < layers % n = ground (arith, b) in
          let next = step.0 more in
          ap (add_int (pos (edge layers n i)))
            (size-more (layers / n) (layers % n) i more (omega (arith, bound, next)))
          ∙ add_int-pos (edge layers n i) (layers / n + 1) (omega (arith, bound, next))
          ∙ ap pos (sym next)
      | inr b ↦
          let less : layers % n ≤ i = ground (arith, b) in
          let next = step.1 less in
          ap (add_int (pos (edge layers n i))) (size-less (layers / n) (layers % n) i less)
          ∙ add_int-pos (edge layers n i) (layers / n) (omega (arith, bound, next))
          ∙ ap pos (sym next)
    ]

some-inj : {x y : ExecutionStage} → some x ≡ some y → x ≡ y
some-inj h = ground arith

abbrev pub At : ℕ → ℕ → ℕ → ExecutionStage → Type 0
At layers n i s =
    (s.layer_start ≡ pos (edge layers n i)) × (s.layer_end ≡ pos (edge layers n (suc i)))

-- The i-th stage is that of the i-th target.
balanced_stages-target :
    (base rest : ℤ) (n : ℕ) (terminal : StageResponseMode) (index : ℕ) (start : ℤ)
    (ids : List String) (i : ℕ) (s : ExecutionStage)
    → get_elem? (balanced_stages base rest n terminal index start ids) i ≡ some s
    → get_elem? ids i ≡ some s.target_id
unfolding balanced_stages
balanced_stages-target base rest n terminal index start [] i s e = ground arith
balanced_stages-target base rest n terminal index start (id ∷ ids) zero s e =
    ap some (ap (λ x. x.target_id) (some-inj e))
balanced_stages-target base rest n terminal index start (id ∷ ids) (suc i) s e =
    balanced_stages-target base rest n terminal (index + 1) _ ids i s e

balanced_stages-At :
    (layers n : ℕ) (terminal : StageResponseMode) (index : ℕ) (start : ℤ) (ids : List String)
    → 1 ≤ n
    → layers < 2 ^ 63
    → index + length ids ≤ n
    → start ≡ pos (edge layers n index)
    → (i : ℕ) (s : ExecutionStage)
    → get_elem? (balanced_stages (pos (layers / n)) (pos (layers % n)) n terminal index start ids) i
      ≡ some s
    → At layers n (index + i) s
unfolding balanced_stages
balanced_stages-At layers n terminal index start [] h low fits p i s e = ground arith
balanced_stages-At layers n terminal index start (id ∷ ids) h low fits p zero s e =
    let sum =
      ap (λ z. add_int z (stage_size (pos (layers / n)) (pos (layers % n)) index)) p
      ∙ stage-end layers n index h low (omega arith) in
    subst (λ k. At layers n k s) index_zero (subst (At layers n index) (some-inj e) (p, sum))
  where
    index_zero : index ≡ index + 0
    index_zero = omega arith
balanced_stages-At layers n terminal index start (id ∷ ids) h low fits p (suc i) s e =
    let end = stage-end layers n index h low (omega arith) in
    let tail =
      balanced_stages-At layers n terminal (index + 1) _ ids h low (omega arith)
        (ap (λ z. add_int z (stage_size (pos (layers / n)) (pos (layers % n)) index)) p
          ∙ end
          ∙ ap (λ k. pos (edge layers n k)) (omega arith))
        i s e in
    subst (λ k. At layers n k s) (omega arith) tail

-- Two lists with the same images have elements with the same image at each position.
same_images :
    {A B : Type 0} (f : A → B) (xs ys : List A)
    → map f xs ≡ map f ys
    → (i : ℕ) (x : A) → get_elem? xs i ≡ some x
    → (y : A) × (get_elem? ys i ≡ some y) × (f x ≡ f y)
same_images f [] ys m i x h = absurd (cc h)
same_images f (z ∷ xs) [] m i x h = absurd (cc m)
same_images f (z ∷ xs) (y ∷ ys) m zero x h = (y, refl, cc)
same_images f (z ∷ xs) (y ∷ ys) m (suc i) x h = same_images f xs ys (cc) i x h

built_balanced :
    (d : Digests) (model : ExecutionModel) (ids : List String) (terminal : StageResponseMode)
    (p : ExecutionPlan)
    → build_balanced_execution_plan d model ids terminal ≡ plan p
    → (1 ≤ length ids)
      × (build_execution_plan d model "" (
            balanced_stages
              (quotient model.layer_count (length ids))
              (remainder model.layer_count (length ids))
              (length ids)
              terminal
              0
              (pos 0)
              ids)
          ≡ plan p)
unfolding build_balanced_execution_plan
built_balanced d model [] terminal p h = absurd (cc h)
built_balanced d model (id ∷ ids) terminal p h = (omega arith, ground arith)

-- If `BuildBalancedExecutionPlan` makes a plan for a model with fewer than 2^63 layers, then its
-- i-th stage is on the i-th target, starts at layer i * q + min i r and ends where the next one starts, for
-- the quotient q and the remainder r of the layers by the targets: every stage has q layers, and the
-- first r stages one more.
pub build_balanced_execution_plan-edges :
    (d : Digests) (model : ExecutionModel) (layers : ℕ) (ids : List String)
    (terminal : StageResponseMode) (p : ExecutionPlan)
    → model.layer_count ≡ pos layers
    → layers < 2 ^ 63
    → build_balanced_execution_plan d model ids terminal ≡ plan p
    → (i : ℕ) (s : ExecutionStage) → get_elem? p.stages i ≡ some s
    → (get_elem? ids i ≡ some s.target_id)
      × (s.layer_start ≡ pos (edge layers (length ids) i))
      × (s.layer_end ≡ pos (edge layers (length ids) (suc i)))
unfolding quotient remainder
build_balanced_execution_plan-edges d model layers ids terminal p count low h i s at =
    let b = built_balanced d model ids terminal p h in
    let v = build_execution_plan-validates d model "" _ p b.1 in
    let (t, at', same) = same_images revision_stage p.stages _ v.3 i s at in
    let n = length ids in
    let at_layers =
      subst
        (λ z.
          get_elem? (balanced_stages (quotient z n) (remainder z n) n terminal 0 (pos 0) ids) i
          ≡ some t)
        count at' in
    let r =
      balanced_stages-At layers n terminal 0 (pos 0) ids b.0 low (omega arith)
        (ap pos (omega arith)) i t at_layers in
    let here = subst (λ k. At layers n k t) (omega arith) r in
    let target = balanced_stages-target _ _ n terminal 0 (pos 0) ids i t at' in
    (
      target ∙ ap some (sym (ap (λ x. x.target_id) same)),
      ap (λ x. x.layer_start) same ∙ here.0,
      ap (λ x. x.layer_end) same ∙ here.1,
    )
