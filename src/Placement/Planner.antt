-- ===== src/Placement/Planner.antt =====
-- internal/placement/planner.go: the dynamic programming search for a plan.

use mlx_swarm.Base.{
  ℕ, zero, suc, ◌+◌, Bool, true, not, ◌&&◌, ◌||◌, List, [], ◌∷◌, Option, none, some, length, ◌==◌,
  if◌then◌else◌, is_yes,
}
use mlx_swarm.Base.Int.{ltb_ℤ, eqb_ℤ}
use mlx_swarm.Base.Decimal.{decimal}
use mlx_swarm.Base.GoMap.{get, delete, or_zero}
use mlx_swarm.Base.Text.{string_key}
use mlx_swarm.Base.Results.{Result, ok, err, ◌>>=◌, ◌>>◌, refuse_if}
use mlx_swarm.Registry.Types.{Inventory}
use mlx_swarm.Generation.Types.{ExecutionPlan}
use mlx_swarm.Generation.Plan.{Digests, Built, plan, invalid, build_execution_plan}
use mlx_swarm.Placement.Types.{ProfileSnapshot, PlanEvaluation}
use mlx_swarm.Placement.Samples.{is_less}
use mlx_swarm.Placement.Validate.{PlacementError, bad_plan, score_disagrees}
use mlx_swarm.Placement.ScorePlan.{score_plan}
use mlx_swarm.Placement.Compare.{compare_plan_evaluations}
use mlx_swarm.Placement.PlanTypes.{
  RangeCostEstimate, PlanConstructionRequest, PlanStageOption, PlanRangeSearch, PartialPlan,
  score_discrete,
}
use mlx_swarm.Placement.Partial.{
  layer_key, States, partial_uses_worker, extend_partial_plan, ordered_partial_plans,
  ordered_bucket, keep_better,
}

-- What ends the search before its last round.
pub data Stop : Type 0 where
  out_of_operations : Stop
  search_error : PlacementError → Stop

abbrev pub or_error_stop {ℓ} : {A : Type ℓ} → Result PlacementError A → Result Stop A
or_error_stop (ok a) = ok a
or_error_stop (err e) = err (search_error e)

-- A loop that carries a state and that an error ends.
unfoldable pub each {ℓ} :
    {E A : Type 0} {S : Type ℓ} → (A → S → Result E S) → List A → S → Result E S
each f [] s = ok s
each f (x ∷ xs) s = f x s >>= each f xs

-- The counter of operations, and the partial plans of the next round.
pub record Expansion : Type 0 where
  pub operations : ℕ
  pub next : States

unfoldable pub expand_option :
    PlanConstructionRequest
    → PartialPlan
    → RangeCostEstimate
    → PlanStageOption
    → Expansion
    → Result Stop Expansion
expand_option q state r o s =
    if partial_uses_worker state.stages o.worker.id
    then ok s
    else if s.operations == q.max_search_operations
    then err out_of_operations
    else do
      candidate ← or_error_stop (extend_partial_plan state q r o)
      ok (record { operations = s.operations + 1; next = keep_better s.next candidate })

-- The ranges that begin where a partial plan ends; in the last round, those that end the model.
unfoldable pub expand_range :
    PlanConstructionRequest
    → Bool
    → PartialPlan
    → PlanRangeSearch
    → Expansion
    → Result Stop Expansion
unfolding expand_option each
expand_range q last state search s =
    if not (eqb_ℤ search.range.layer_start state.end)
      || (ltb_ℤ search.range.layer_end q.model.layer_count && last)
    then ok s
    else each (expand_option q state search.range) search.options s

unfoldable pub expand :
    PlanConstructionRequest
    → Bool
    → List PlanRangeSearch
    → States
    → Expansion
    → Result Stop Expansion
unfolding expand_range each
expand q last ranges states s =
    each (λ state. each (expand_range q last state) ranges) (ordered_partial_plans states) s

abbrev pub as_plan : Built → Result PlacementError ExecutionPlan
as_plan (plan p) = ok p
as_plan (invalid e) = err (bad_plan e)

-- `evaluateCompletePlan`.
unfoldable pub evaluate_complete_plan :
    Digests
    → Inventory
    → ProfileSnapshot
    → PlanConstructionRequest
    → PartialPlan
    → Result PlacementError PlanEvaluation
evaluate_complete_plan d inv profile q candidate = do
  p ← as_plan (build_execution_plan d q.model (decimal inv.revision) candidate.stages)
  evaluation ← score_plan d inv profile p (record q.scoring { stages = candidate.estimates })
  refuse_if
      (not evaluation.eligible || not (is_yes (score_discrete evaluation.score candidate.score)))
      score_disagrees
  ok evaluation

-- The complete plans that were evaluated, and the best of them.
pub record Selection : Type 0 where
  pub complete : ℕ
  pub selected_plan : Option PlanEvaluation

abbrev pub is_better : Option PlanEvaluation → PlanEvaluation → Bool
is_better none e = true
is_better (some best) e = is_less (compare_plan_evaluations e best)

unfoldable pub select :
    Digests
    → Inventory
    → ProfileSnapshot
    → PlanConstructionRequest
    → PartialPlan
    → Selection
    → Result PlacementError Selection
select d inv profile q candidate s = do
  e ← evaluate_complete_plan d inv profile q candidate
  ok (record {
    complete = s.complete + 1;
    selected_plan = if is_better s.selected_plan e then some e else s.selected_plan;
  })

-- The counters of the search and its selection, at the start of a round.
pub record Search : Type 0 where
  pub operations : ℕ
  pub retained_states : ℕ
  pub selection : Selection

abbrev pub count_states : States → ℕ
count_states [] = 0
count_states ((end, bucket) ∷ m) = length bucket + count_states m

-- What the rounds end with: the search and what stopped it.
pub data Searched : Type 0 where
  finished : Search → Searched
  stopped : Search → Searched
  failed : PlacementError → Searched

abbrev pub after_expansion : Result Stop Expansion → Search → (Expansion → Searched) → ℕ → Searched
after_expansion (ok x) s continue limit = continue x
after_expansion (err out_of_operations) s continue limit = stopped (record s { operations = limit })
after_expansion (err (search_error e)) s continue limit = failed e

abbrev pub after_selection : Result PlacementError Selection → (Selection → Searched) → Searched
after_selection (ok x) continue = continue x
after_selection (err e) continue = failed e

module _ (d : Digests) (inv : Inventory) (profile : ProfileSnapshot) (q : PlanConstructionRequest)
    (ranges : List PlanRangeSearch) where
  -- The rounds that are left, one for each stage count. An empty round ends the search. The limit
  -- of operations is reached when the counter equals it.
  unfoldable pub rounds : ℕ → States → Search → Searched
  unfolding expand select each count_states delete get
  rounds zero states s = finished s
  rounds (suc left) [] s = finished s
  rounds (suc left) (b ∷ bs) s =
      after_expansion
        (expand q (left == 0) ranges (b ∷ bs) (record { operations = s.operations; next = [] })) s
        (λ x.
          after_selection
            (each (select d inv profile q)
              (ordered_bucket (or_zero (get x.next q.model.layer_count) [])) s.selection)
            (λ selection. rounds left (delete x.next q.model.layer_count) (record {
              operations = x.operations;
              retained_states = s.retained_states + count_states x.next;
              selection = selection;
            })))
        q.max_search_operations
