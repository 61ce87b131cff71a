-- ===== src/Placement/RangedPlans.antt =====
-- Every partial plan of the search is made of ranges of the request.
use mathlib.Core.Path.{subst}
use mlx_swarm.Base.{
  ◌≡◌, refl, Bool, not, ◌&&◌, ◌||◌, List, [], ◌∷◌, ◌++◌, map, ◌==◌, Bool-cases, inl, inr, All,
  Member, Option-cases,
}
use mlx_swarm.Base.Int.{ℤ, ltb_ℤ, eqb_ℤ}
use mlx_swarm.Base.GoMap.{get, put, delete, or_zero}
use mlx_swarm.Base.Text.{string_key}
use mlx_swarm.Base.Results.{Result, ok, err, >>=-ok, ok-injective}
use mlx_swarm.Base.Series.{
  AllEntries, All-append, All-sort_by, get-AllEntries, put-AllEntries, delete-AllEntries,
}
use mlx_swarm.Generation.Types.{ExecutionStage}
use mlx_swarm.Generation.Plan.{RevisionStage, revision_stage}
use mlx_swarm.Placement.Types.{StageCostEstimate}
use mlx_swarm.Placement.Validate.{PlacementError}
use mlx_swarm.Placement.ScorePlan.{as_score}
use mlx_swarm.Placement.Scoring.{merge_stage_score}
use mlx_swarm.Placement.PlanTypes.{
  RangeCostEstimate, PlanConstructionRequest, PlanStageOption, PlanRangeSearch, PartialPlan,
}
use mlx_swarm.Placement.Partial.{
  layer_key, Bucket, States, partial_uses_worker, partial_worker_set_key, next_stage,
  extend_partial_plan, all_partial_plans, ordered_partial_plans, ordered_bucket, is_improvement,
  keep_better,
}
use mlx_swarm.Placement.Planner.{
  or_error_stop, each, Expansion, expand_option, expand_range, expand,
}

-- What each step of a loop keeps, the loop keeps.
pub each-All :
    {E A S : Type 0} (P : S → Type 0) (Q : A → Type 0) (f : A → S → Result E S) (xs : List A)
    (s t : S)
    → ((x : A) (s t : S) → Q x → P s → f x s ≡ ok t → P t)
    → All Q xs
    → P s
    → each f xs s ≡ ok t
    → P t
unfolding each
each-All P Q f [] s t step a p h = subst P (ok-injective h) p
each-All P Q f (x ∷ xs) s t step a p h =
    let u = >>=-ok (f x s) _ h in each-All P Q f xs u.0 t step a.1 (step x s u.0 a.0 p u.1) u.2

-- A stage and its estimate are those of a range.
abbrev pub IsRange : List RangeCostEstimate → RevisionStage → StageCostEstimate → Type 0
IsRange ranges s e =
    (r : RangeCostEstimate) × Member r ranges
    × (s.layer_start ≡ r.layer_start)
    × (s.layer_end ≡ r.layer_end)
    × (e ≡ r.estimate)

-- The stages and the estimates are as many, and each pair is that of a range.
abbrev pub Ranged : List RangeCostEstimate → List RevisionStage → List StageCostEstimate → Type 0
Ranged ranges [] [] = Unit
Ranged ranges (s ∷ ss) (e ∷ es) = IsRange ranges s e × Ranged ranges ss es
Ranged ranges _ _ = ⊥

Ranged-append :
    (ranges : List RangeCostEstimate) (ss : List ExecutionStage) (es : List StageCostEstimate)
    (s : ExecutionStage) (e : StageCostEstimate)
    → Ranged ranges (map revision_stage ss) es
    → IsRange ranges (revision_stage s) e
    → Ranged ranges (map revision_stage (ss ++ (s ∷ []))) (es ++ (e ∷ []))
Ranged-append ranges [] [] s e h x = (x, tt)
Ranged-append ranges [] (f ∷ es) s e h x = elim h [ ]
Ranged-append ranges (t ∷ ss) [] s e h x = elim h [ ]
Ranged-append ranges (t ∷ ss) (f ∷ es) s e h x = (h.0, Ranged-append ranges ss es s e h.1 x)

abbrev IsOption : PlanStageOption → Type 0
IsOption o = Unit

any_options : (os : List PlanStageOption) → All IsOption os
any_options [] = tt
any_options (o ∷ os) = (tt, any_options os)

module _ (q : PlanConstructionRequest) where
  abbrev pub IsRanged : PartialPlan → Type 0
  IsRanged c = Ranged q.ranges (map revision_stage c.stages) c.estimates

  abbrev pub AllRanged : States → Type 0
  AllRanged states = AllEntries (λ end bucket. AllEntries (λ key c. IsRanged c) bucket) states

  extend_partial_plan-IsRanged :
      (state : PartialPlan) (r : RangeCostEstimate) (o : PlanStageOption) (c : PartialPlan)
      → IsRanged state
      → Member r q.ranges
      → extend_partial_plan state q r o ≡ ok c
      → IsRanged c
  unfolding extend_partial_plan next_stage
  extend_partial_plan-IsRanged state r o c h m e =
      let x =
        >>=-ok
          (as_score
            (merge_stage_score state.score o.worker o.candidate r.estimate o.compute o.transfer))
          _ e in
      subst IsRanged (ok-injective x.2) (
        Ranged-append q.ranges state.stages state.estimates (next_stage state.stages q r o)
          r.estimate h (r, m, refl, refl, refl))

  pub get-AllRanged :
      (states : States) (end : ℤ)
      → AllRanged states
      → AllEntries (λ key c. IsRanged c) (or_zero (get states end) [])
  get-AllRanged states end a = elim (Option-cases (get states end)) [
    | inl e ↦ rw e tt
    | inr (b, e) ↦
        rw e
          (get-AllEntries (λ end bucket. AllEntries (λ key c. IsRanged c) bucket) states end b a e)
  ]

  pub delete-AllRanged :
      (states : States) (end : ℤ) → AllRanged states → AllRanged (delete states end)
  delete-AllRanged states end a =
      delete-AllEntries (λ end bucket. AllEntries (λ key c. IsRanged c) bucket) states end a

  keep_better-AllRanged :
      (states : States) (c : PartialPlan)
      → AllRanged states
      → IsRanged c
      → AllRanged (keep_better states c)
  unfolding keep_better
  keep_better-AllRanged states c a h =
      let bucket = or_zero (get states c.end) [] in
      let key = partial_worker_set_key c.stages in
      elim (Bool-cases (is_improvement (get bucket key) c)) [
        | inl b ↦ rw b (
            put-AllEntries (λ end bucket. AllEntries (λ key c. IsRanged c) bucket) states c.end
              (put bucket key c) a
              (put-AllEntries (λ key c. IsRanged c) bucket key c (get-AllRanged states c.end a) h))
        | inr b ↦ rw b a
      ]

  values-Ranged :
      (bucket : Bucket)
      → AllEntries (λ key c. IsRanged c) bucket
      → All IsRanged (map (λ e. e.1) bucket)
  values-Ranged [] a = tt
  values-Ranged (e ∷ bucket) a = (a.0, values-Ranged bucket a.1)

  all_partial_plans-Ranged :
      (states : States) → AllRanged states → All IsRanged (all_partial_plans states)
  all_partial_plans-Ranged [] a = tt
  all_partial_plans-Ranged ((end, bucket) ∷ m) a =
      All-append IsRanged (map (λ e. e.1) bucket) (all_partial_plans m) (values-Ranged bucket a.0)
        (all_partial_plans-Ranged m a.1)

  ordered_partial_plans-Ranged :
      (states : States) → AllRanged states → All IsRanged (ordered_partial_plans states)
  unfolding ordered_partial_plans
  ordered_partial_plans-Ranged states a =
      All-sort_by IsRanged _ (all_partial_plans states) (all_partial_plans-Ranged states a)

  pub ordered_bucket-Ranged :
      (bucket : Bucket)
      → AllEntries (λ key c. IsRanged c) bucket
      → All IsRanged (ordered_bucket bucket)
  unfolding ordered_bucket
  ordered_bucket-Ranged bucket a =
      All-sort_by IsRanged _ (map (λ e. e.1) bucket) (values-Ranged bucket a)

  -- The ranges of the search are those of the request.
  abbrev pub IsListed : PlanRangeSearch → Type 0
  IsListed search = Member search.range q.ranges

  expand_option-Ranged :
      (state : PartialPlan) (r : RangeCostEstimate) (o : PlanStageOption) (s t : Expansion)
      → IsRanged state
      → Member r q.ranges
      → AllRanged s.next
      → expand_option q state r o s ≡ ok t
      → AllRanged t.next
  unfolding expand_option
  expand_option-Ranged state r o s t ranged m a h =
      elim (Bool-cases (partial_uses_worker state.stages o.worker.id)) [
        | inl e ↦ subst (λ u. AllRanged u.next) (ok-injective (rw e at h)) a
        | inr e ↦ elim (Bool-cases (s.operations == q.max_search_operations)) [
          | inl f ↦ absurd (cc (rw f at (rw e at h)))
          | inr f ↦
              let u =
                >>=-ok (or_error_stop (extend_partial_plan state q r o)) _ (rw f at (rw e at h)) in
              subst (λ u. AllRanged u.next) (ok-injective u.2)
                (keep_better-AllRanged s.next u.0 a
                  (extend_partial_plan-IsRanged state r o u.0 ranged m (no_stop _ u.0 u.1)))
        ]
      ]
    where
      no_stop :
          (x : Result PlacementError PartialPlan) (c : PartialPlan)
          → or_error_stop x ≡ ok c
          → x ≡ ok c
      no_stop (ok d) c h = cc h
      no_stop (err e) c h = absurd (cc h)

  expand_range-Ranged :
      (last : Bool) (state : PartialPlan) (search : PlanRangeSearch) (s t : Expansion)
      → IsRanged state
      → IsListed search
      → AllRanged s.next
      → expand_range q last state search s ≡ ok t
      → AllRanged t.next
  unfolding expand_range
  expand_range-Ranged last state search s t ranged m a h =
      elim (Bool-cases (
        not (eqb_ℤ search.range.layer_start state.end)
        || (ltb_ℤ search.range.layer_end q.model.layer_count && last))) [
          | inl e ↦ subst (λ u. AllRanged u.next) (ok-injective (rw e at h)) a
          | inr e ↦
              each-All (λ u. AllRanged u.next) IsOption (expand_option q state search.range)
                search.options s t
                (λ o s t x a h. expand_option-Ranged state search.range o s t ranged m a h)
                (any_options search.options) a (rw e at h)
        ]

  pub expand-Ranged :
      (last : Bool) (ranges : List PlanRangeSearch) (states : States) (s t : Expansion)
      → All IsListed ranges
      → AllRanged states
      → AllRanged s.next
      → expand q last ranges states s ≡ ok t
      → AllRanged t.next
  unfolding expand
  expand-Ranged last ranges states s t listed ranged a h =
      each-All (λ u. AllRanged u.next) IsRanged (λ state. each (expand_range q last state) ranges)
        (ordered_partial_plans states) s t
        (λ state s t r a h.
          each-All (λ u. AllRanged u.next) IsListed (expand_range q last state) ranges s t
            (λ search s t m a h. expand_range-Ranged last state search s t r m a h) listed a h)
        (ordered_partial_plans-Ranged states ranged) a h
