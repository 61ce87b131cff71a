-- ===== src/Placement/Work.antt =====
-- The operations of the search, counted apart from its counter.
use mlx_swarm.Base.{
  ℕ, zero, suc, ◌+◌, ◌≤◌, ◌<◌, ◌≡◌, refl, Bool, false, not, ◌&&◌, ◌||◌, List, [], ◌∷◌, ◌==◌, arith,
  Bool-cases, inl, inr, if◌then◌else◌,
}
use mlx_swarm.Base.Int.{ltb_ℤ, eqb_ℤ}
use mlx_swarm.Base.GoMap.{delete}
use mlx_swarm.Base.Results.{Result, ok, err, ◌>>=◌}
use mlx_swarm.Placement.Validate.{PlacementError}
use mlx_swarm.Placement.PlanTypes.{
  RangeCostEstimate, PlanConstructionRequest, PlanStageOption, PlanRangeSearch, PartialPlan,
}
use mlx_swarm.Placement.Partial.{
  layer_key, States, partial_uses_worker, extend_partial_plan, ordered_partial_plans,
}
use mlx_swarm.Placement.Planner.{
  Stop, out_of_operations, search_error, or_error_stop, each, Expansion, expand_option,
  expand_range, expand,
}

abbrev pub sum_of : {A : Type 0} → (A → ℕ) → List A → ℕ
sum_of f [] = 0
sum_of f (x ∷ xs) = f x + sum_of f xs

-- The extensions of a partial plan by the options of a range, and those of a whole round.
abbrev pub option_extensions : PartialPlan → PlanStageOption → ℕ
option_extensions state o = if partial_uses_worker state.stages o.worker.id then 0 else 1

abbrev pub range_extensions : PlanConstructionRequest → Bool → PartialPlan → PlanRangeSearch → ℕ
range_extensions q last state search =
    if not (eqb_ℤ search.range.layer_start state.end)
      || (ltb_ℤ search.range.layer_end q.model.layer_count && last)
    then 0
    else sum_of (option_extensions state) search.options

abbrev pub extensions : PlanConstructionRequest → Bool → List PlanRangeSearch → States → ℕ
extensions q last ranges states =
    sum_of (λ state. sum_of (range_extensions q last state) ranges) (ordered_partial_plans states)

-- A part of a round that makes `n` extensions from `s`: it has counted each of them and is within
-- the limit, or it stopped since they are more than the limit allows, or an extension failed.
abbrev pub Counted : ℕ → ℕ → ℕ → Result Stop Expansion → Type 0
Counted limit start n (ok t) = (t.operations ≡ start + n) × (t.operations ≤ limit)
Counted limit start n (err out_of_operations) = limit < start + n
Counted limit start n (err (search_error e)) = Unit

Counted-shift :
    (limit start a middle n : ℕ) (r : Result Stop Expansion)
    → middle ≡ start + a
    → Counted limit middle n r
    → Counted limit start (a + n) r
Counted-shift limit start a middle n (ok t) e c = (omega (arith, c.0, e), c.1)
Counted-shift limit start a middle n (err out_of_operations) e c = omega (arith, c, e)
Counted-shift limit start a middle n (err (search_error x)) e c = tt

Counted-bind :
    (limit start a n : ℕ) (r : Result Stop Expansion) (k : Expansion → Result Stop Expansion)
    → Counted limit start a r
    → ((t : Expansion) → t.operations ≤ limit → Counted limit t.operations n (k t))
    → Counted limit start (a + n) (r >>= k)
Counted-bind limit start a n (ok t) k c f =
    Counted-shift limit start a t.operations n (k t) c.0 (f t c.1)
Counted-bind limit start a n (err out_of_operations) k c f = omega (arith, c)
Counted-bind limit start a n (err (search_error x)) k c f = tt

each-Counted :
    {A : Type 0} (limit : ℕ) (f : A → Expansion → Result Stop Expansion) (g : A → ℕ)
    → ((x : A) (s : Expansion) → s.operations ≤ limit → Counted limit s.operations (g x) (f x s))
    → (xs : List A) (s : Expansion) → s.operations ≤ limit
    → Counted limit s.operations (sum_of g xs) (each f xs s)
unfolding each
each-Counted limit f g h [] s w = (omega arith, w)
each-Counted limit f g h (x ∷ xs) s w =
    Counted-bind limit s.operations (g x) (sum_of g xs) (f x s) (each f xs) (h x s w)
      (each-Counted limit f g h xs)

module _ (q : PlanConstructionRequest) where
  extended-Counted :
      (start : ℕ) (r : Result PlacementError PartialPlan) (k : PartialPlan → States)
      → suc start ≤ q.max_search_operations
      → Counted q.max_search_operations start 1
          (or_error_stop r >>= λ c. ok (record { operations = start + 1; next = k c }))
  extended-Counted start (ok c) k h = (refl, omega arith)
  extended-Counted start (err e) k h = tt

  expand_option-Counted :
      (state : PartialPlan) (r : RangeCostEstimate) (o : PlanStageOption) (s : Expansion)
      → s.operations ≤ q.max_search_operations
      → Counted q.max_search_operations s.operations
          (option_extensions state o)
          (expand_option q state r o s)
  unfolding expand_option
  expand_option-Counted state r o s w =
      elim (Bool-cases (partial_uses_worker state.stages o.worker.id)) [
        | inl e ↦ rw e (omega arith, w)
        | inr e ↦ elim (Bool-cases (s.operations == q.max_search_operations)) [
          | inl f ↦ rw e (rw f (ground arith))
          | inr f ↦ rw e (
              rw f
                (extended-Counted s.operations (extend_partial_plan state q r o) _ (ground arith)))
        ]
      ]

  expand_range-Counted :
      (last : Bool) (state : PartialPlan) (search : PlanRangeSearch) (s : Expansion)
      → s.operations ≤ q.max_search_operations
      → Counted q.max_search_operations s.operations
          (range_extensions q last state search)
          (expand_range q last state search s)
  unfolding expand_range
  expand_range-Counted last state search s w =
      elim (Bool-cases (
        not (eqb_ℤ search.range.layer_start state.end)
        || (ltb_ℤ search.range.layer_end q.model.layer_count && last))) [
          | inl e ↦ rw e (omega arith, w)
          | inr e ↦ rw e (
              each-Counted q.max_search_operations (expand_option q state search.range)
                (option_extensions state) (expand_option-Counted state search.range) search.options
                s w)
        ]

  pub expand-Counted :
      (last : Bool) (ranges : List PlanRangeSearch) (states : States) (s : Expansion)
      → s.operations ≤ q.max_search_operations
      → Counted q.max_search_operations s.operations
          (extensions q last ranges states)
          (expand q last ranges states s)
  unfolding expand
  expand-Counted last ranges states s w =
      each-Counted q.max_search_operations (λ state. each (expand_range q last state) ranges)
        (λ state. sum_of (range_extensions q last state) ranges)
        (λ state.
          each-Counted q.max_search_operations (expand_range q last state)
            (range_extensions q last state) (expand_range-Counted last state) ranges)
        (ordered_partial_plans states) s w

  -- The rounds that are left from some states make `n` extensions; where the search is cut short, the
  -- round that the limit stopped counts whole.
  pub data Work (ranges : List PlanRangeSearch) : Bool → ℕ → States → ℕ → Type 0 where
    no_rounds : (whole : Bool) (states : States) → Work ranges whole zero states 0
    no_states : (whole : Bool) (left : ℕ) → Work ranges whole (suc left) [] 0
    round :
        (whole : Bool) (left : ℕ) (states : States) (start : ℕ) (x : Expansion) (n : ℕ)
        → expand q (left == 0) ranges states (record { operations = start; next = [] }) ≡ ok x
        → Work ranges whole left (delete x.next q.model.layer_count) n
        → Work ranges whole (suc left) states (extensions q (left == 0) ranges states + n)
    cut_short :
        (left : ℕ) (states : States)
        → Work ranges false (suc left) states (extensions q (left == 0) ranges states)
