-- ===== src/Placement/Construct.antt =====
-- internal/placement/planner.go: `ConstructPlan`.
use mlx_swarm.Base.{
  ℕ, suc, String, true, false, ◌||◌, List, [], ◌∷◌, ◌++◌, map, none, length, ltb, if◌then◌else◌,
}
use mlx_swarm.Base.Int.{pos, pos_part}
use mlx_swarm.Base.GoMap.{GoMap}
use mlx_swarm.Base.Text.{string_key, seen_in}
use mlx_swarm.Base.Results.{Result, ok, err, ◌>>=◌}
use mlx_swarm.Registry.Types.{Worker, Inventory}
use mlx_swarm.Registry.Index.{index_workers}
use mlx_swarm.Generation.Plan.{Digests}
use mlx_swarm.Placement.Types.{ProfileSnapshot, zero_score}
use mlx_swarm.Placement.Arithmetic.{multiply_uint64}
use mlx_swarm.Placement.Validate.{PlacementError}
use mlx_swarm.Placement.PlanTypes.{
  RangeCostEstimate, PlanConstructionRequest, RangePlanEvaluation, PlanConstructionResult,
  PlanRangeSearch, Construction, constructed, limit_reached, not_constructed,
}
use mlx_swarm.Placement.Ranges.{normalize_plan_construction_request, prepare_plan_range}
use mlx_swarm.Placement.Partial.{States}
use mlx_swarm.Placement.Planner.{Search, Searched, finished, stopped, failed, rounds}

-- The ranges with their options, in their order.
unfoldable pub prepare_all :
    Digests
    → Inventory
    → ProfileSnapshot
    → PlanConstructionRequest
    → GoMap String Worker
    → List RangeCostEstimate
    → Result PlacementError (List PlanRangeSearch)
unfolding prepare_plan_range
prepare_all d inv profile q workers [] = ok []
prepare_all d inv profile q workers (r ∷ rs) = do
  search ← prepare_plan_range d inv profile q workers r
  rest ← prepare_all d inv profile q workers rs
  ok (search ∷ rest)

abbrev pub range_evidence : PlanRangeSearch → RangePlanEvaluation
range_evidence s = record {
  layer_start = s.range.layer_start;
  layer_end = s.range.layer_end;
  estimate = s.range.estimate;
  eligibility = s.evaluation;
}

-- The workers that any range has an option on.
abbrev pub option_ids : List PlanRangeSearch → List String
option_ids [] = []
option_ids (s ∷ ss) = map (λ o. o.worker.id) s.options ++ option_ids ss

unfoldable pub count_distinct : List String → List String → ℕ
unfolding seen_in
count_distinct seen [] = 0
count_distinct seen (id ∷ ids) =
    let rest = count_distinct (id ∷ seen) ids in if seen_in id seen then rest else suc rest

-- The evidence of a range that is not evaluated.
abbrev pub no_evidence : RangePlanEvaluation
no_evidence = record {
  layer_start = pos 0;
  layer_end = pos 0;
  estimate = record {
    load_memory_bytes = 0;
    sequence_memory_bytes = 0;
    prefill_wire_bytes = 0;
    decode_wire_bytes_per_step = 0;
    fallback_prefill_compute_micros = 0;
    fallback_decode_compute_micros_per_step = 0;
  };
  eligibility = [];
}

-- The result before the ranges are evaluated.
abbrev pub empty_result :
    Inventory → ProfileSnapshot → PlanConstructionRequest → PlanConstructionResult
empty_result inv profile q = record {
  schema_version = pos 1;
  inventory_revision = inv.revision;
  profile_revision = profile.revision;
  generated_at = inv.generated_at;
  request = q;
  candidate_worker_count = 0;
  search_operation_count = 0;
  retained_search_state_count = 0;
  complete_plan_count = 0;
  search_limit_reached = false;
  ranges = map (λ r. no_evidence) q.ranges;
  selected_plan = none;
}

-- The result with the counters of a search.
abbrev pub with_search : PlanConstructionResult → Search → PlanConstructionResult
with_search result s = record result {
  search_operation_count = s.operations;
  retained_search_state_count = s.retained_states;
  complete_plan_count = s.selection.complete;
}

-- No plan is selected where the limit was reached.
abbrev pub construction_of : PlanConstructionResult → Searched → Construction
construction_of result (finished s) =
    constructed (record (with_search result s) { selected_plan = s.selection.selected_plan })
construction_of result (stopped s) =
    limit_reached (record (with_search result s) { search_limit_reached = true })
construction_of result (failed e) = not_constructed e

-- The one partial plan of the first round, which has no stage.
abbrev pub first_states : States
first_states =
    (pos 0, ("", record { end = pos 0; stages = []; estimates = []; score = zero_score }) ∷ []) ∷ []

-- The result after the ranges are evaluated.
abbrev pub evaluated_result :
    Inventory
    → ProfileSnapshot
    → PlanConstructionRequest
    → List PlanRangeSearch
    → PlanConstructionResult
evaluated_result inv profile q ranges = record (empty_result inv profile q) {
  ranges = map range_evidence ranges;
  candidate_worker_count = count_distinct [] (option_ids ranges);
}

-- The rounds on the evaluated ranges, after the operations that evaluate them.
unfoldable pub search_ranges :
    Digests
    → Inventory
    → ProfileSnapshot
    → PlanConstructionRequest
    → ℕ
    → Result PlacementError (List PlanRangeSearch)
    → Construction
unfolding rounds count_distinct
search_ranges d inv profile q operations (err e) = not_constructed e
search_ranges d inv profile q operations (ok ranges) =
    construction_of (evaluated_result inv profile q ranges) (
      rounds d inv profile q ranges (pos_part q.max_stages) first_states (record {
        operations = operations;
        retained_states = 0;
        selection = record { complete = 0; selected_plan = none };
      }))

unfoldable pub construct_normalized :
    Digests
    → Inventory
    → ProfileSnapshot
    → Result PlacementError PlanConstructionRequest
    → Construction
unfolding search_ranges prepare_all
construct_normalized d inv profile (err e) = not_constructed e
construct_normalized d inv profile (ok q) =
    let initial = multiply_uint64 (length q.ranges) (length inv.workers) in
    if initial.1 || ltb q.max_search_operations initial.0
    then limit_reached (record (empty_result inv profile q) { search_limit_reached = true })
    else search_ranges d inv profile q initial.0
        (prepare_all d inv profile q (index_workers inv.workers) q.ranges)

-- `ConstructPlan`.
unfoldable pub construct_plan :
    Digests → Inventory → ProfileSnapshot → PlanConstructionRequest → Construction
unfolding construct_normalized
construct_plan d inv profile given =
    construct_normalized d inv profile (normalize_plan_construction_request d inv profile given)
