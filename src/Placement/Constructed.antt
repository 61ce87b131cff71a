-- ===== src/Placement/Constructed.antt =====
-- What `ConstructPlan` returns.
use mathlib.Core.Path.{subst, subst⁻¹}
use mlx_swarm.Base.{
  ℕ, ◌+◌, ◌*◌, ◌≤◌, ◌<◌, ◌≡◌, refl, sym, ap, ◌∙◌, Bool, true, false, List, [], ◌∷◌, length, map,
  none, some, arith, inl, inr, Bool-cases, ltb, ◌||◌, ◌⊎◌, All, dec_le, Member, String,
}
use mlx_swarm.Base.Int.{pos_part}
use mlx_swarm.Base.GoMap.{GoMap}
use mlx_swarm.Base.Word.{u64_max}
use mlx_swarm.Base.Results.{Result, ok, err, >>=-ok, ok-injective}
use mlx_swarm.Registry.Types.{Worker, Inventory}
use mlx_swarm.Registry.Index.{index_workers}
use mlx_swarm.Base.Text.{string_key}
use mlx_swarm.Base.Decimal.{decimal}
use mlx_swarm.Generation.Plan.{Digests, validate_execution_plan, revision_stage}
use mlx_swarm.Generation.Roundtrip.{build_execution_plan-validates}
use mlx_swarm.Placement.Types.{ProfileSnapshot, PlanEvaluation}
use mlx_swarm.Placement.Arithmetic.{multiply_uint64, multiply_uint64-exact}
use mlx_swarm.Placement.Validate.{PlacementError, normalize_scoring_request}
use mlx_swarm.Placement.Guarantees.{Fitting, score_plan-Fitting, score_plan-request}
use mlx_swarm.Placement.PlanTypes.{
  RangeCostEstimate, PlanConstructionRequest, PlanConstructionResult, PlanRangeSearch, Construction,
  constructed, limit_reached, not_constructed,
}
use mlx_swarm.Placement.Eligibility.{evaluate_candidates}
use mlx_swarm.Placement.ScorePlan.{as_candidates}
use mlx_swarm.Placement.Ranges.{
  normalize_plan_construction_request, range_shard, as_shard, range_requirement, options_of,
  prepare_plan_range,
}
use mlx_swarm.Placement.Planner.{Search, Searched, rounds, finished, stopped, failed}
use mlx_swarm.Placement.Construct.{
  prepare_all, evaluated_result, construction_of, first_states, search_ranges, construct_normalized,
  construct_plan,
}
use mlx_swarm.Placement.Work.{Work}
use mlx_swarm.Placement.RangedPlans.{Ranged, IsListed}
use mlx_swarm.Placement.Searches.{Selected, IsSafe, rounds-IsSafe}

module _ (d : Digests) (inv : Inventory) (profile : ProfileSnapshot) where
  -- The evaluations of each range on each worker, with which the search starts.
  abbrev pub evaluations : PlanConstructionRequest → ℕ
  evaluations q = length q.ranges * length inv.workers

  -- The rounds of a request's search on its evaluated ranges make `n` extensions.
  abbrev pub SearchWork : PlanConstructionRequest → Bool → ℕ → Type 0
  SearchWork q whole n =
      (ranges : List PlanRangeSearch) × (prepare_all d inv profile q (index_workers inv.workers)
          q.ranges
        ≡ ok ranges)
      × Work q ranges whole (pos_part q.max_stages) first_states n

  -- A construction within its limit of operations. One that succeeds has counted every evaluation and
  -- every extension of a partial plan, has not reached the limit, and selects only a scored plan of
  -- the request. One that reached the limit selects none, and the evaluations, or the evaluations and
  -- the extensions, are more than the limit or than a uint64.
  abbrev pub IsBounded : PlanConstructionRequest → Construction → Type 0
  IsBounded given (constructed r) =
      (normalize_plan_construction_request d inv profile given ≡ ok r.request)
      × ((n : ℕ) × SearchWork r.request true n
          × (r.search_operation_count ≡ evaluations r.request + n))
      × (r.search_operation_count ≤ r.request.max_search_operations)
      × (r.search_limit_reached ≡ false)
      × Selected d inv profile r.request r.selected_plan
  IsBounded given (limit_reached r) =
      (normalize_plan_construction_request d inv profile given ≡ ok r.request)
      × ((u64_max < evaluations r.request)
          ⊎ (r.request.max_search_operations < evaluations r.request)
          ⊎ ((n : ℕ) × SearchWork r.request false n
              × (r.request.max_search_operations < evaluations r.request + n)))
      × (r.search_operation_count ≤ r.request.max_search_operations)
      × (r.search_limit_reached ≡ true)
      × (r.selected_plan ≡ none)
  IsBounded given (not_constructed e) = Unit

  -- The ranges of the search are those of the request, in their order.
  prepared_range :
      (q : PlanConstructionRequest) (workers : GoMap String Worker) (r : RangeCostEstimate)
      (search : PlanRangeSearch)
      → prepare_plan_range d inv profile q workers r ≡ ok search
      → search.range ≡ r
  unfolding prepare_plan_range
  prepared_range q workers r search h =
      let shard = >>=-ok (as_shard (range_shard d q.model r)) _ h in
      let evaluation =
        >>=-ok (as_candidates (evaluate_candidates inv (range_requirement q r shard.0))) _
          shard.2 in
      let options = >>=-ok (options_of profile q r workers evaluation.0) _ evaluation.2 in
      ap (λ s. s.range) (sym (ok-injective options.2))

  prepare_all-ranges :
      (q : PlanConstructionRequest) (workers : GoMap String Worker) (rs : List RangeCostEstimate)
      (searches : List PlanRangeSearch)
      → prepare_all d inv profile q workers rs ≡ ok searches
      → map (λ s. s.range) searches ≡ rs
  unfolding prepare_all
  prepare_all-ranges q workers [] searches h = ap (map (λ s. s.range)) (sym (ok-injective h))
  prepare_all-ranges q workers (r ∷ rs) searches h =
      let s = >>=-ok (prepare_plan_range d inv profile q workers r) _ h in
      let rest = >>=-ok (prepare_all d inv profile q workers rs) _ s.2 in
      ap (map (λ x. x.range)) (sym (ok-injective rest.2))
      ∙ cc (prepared_range q workers r s.0 s.1, prepare_all-ranges q workers rs rest.0 rest.1)

  listed :
      (q : PlanConstructionRequest) (rs : List RangeCostEstimate) (searches : List PlanRangeSearch)
      → map (λ s. s.range) searches ≡ rs
      → ((r : RangeCostEstimate) → Member r rs → Member r q.ranges)
      → All (IsListed q) searches
  listed q rs [] h m = tt
  listed q [] (s ∷ ss) h m = absurd (cc h)
  listed q (r ∷ rs) (s ∷ ss) h m =
      (m s.range (inl (cc h)), listed q rs ss (cc h) (λ x i. m x (inr i)))

  construction_of-IsBounded :
      (given q : PlanConstructionRequest) (ranges : List PlanRangeSearch)
      (result : PlanConstructionResult) (s : Searched)
      → normalize_plan_construction_request d inv profile given ≡ ok q
      → prepare_all d inv profile q (index_workers inv.workers) q.ranges ≡ ok ranges
      → result.request ≡ q
      → result.search_limit_reached ≡ false
      → result.selected_plan ≡ none
      → IsSafe d inv profile q ranges (evaluations q) (pos_part q.max_stages) first_states s
      → IsBounded given (construction_of result s)
  construction_of-IsBounded given q ranges result (finished s) g p e l n ((k, w, c), b, v) =
      rw e (g, (k, (ranges, p, w), c), b, l, v)
  construction_of-IsBounded given q ranges result (stopped s) g p e l n ((k, w, c), b) =
      rw e (g, inr (inr (k, (ranges, p, w), c)), omega (arith, b), refl, n)
  construction_of-IsBounded given q ranges result (failed x) g p e l n w = tt

  abbrev first_search : ℕ → Search
  first_search operations = record {
    operations = operations;
    retained_states = 0;
    selection = record { complete = 0; selected_plan = none };
  }

  search_ranges-IsBounded :
      (given q : PlanConstructionRequest) (operations : ℕ)
      (ranges : Result PlacementError (List PlanRangeSearch))
      → normalize_plan_construction_request d inv profile given ≡ ok q
      → prepare_all d inv profile q (index_workers inv.workers) q.ranges ≡ ranges
      → operations ≡ evaluations q
      → operations ≤ q.max_search_operations
      → IsBounded given (search_ranges d inv profile q operations ranges)
  unfolding search_ranges
  search_ranges-IsBounded given q operations (err e) g p c h = tt
  search_ranges-IsBounded given q operations (ok ranges) g p c h =
      construction_of-IsBounded given q ranges (evaluated_result inv profile q ranges) _ g p refl
        refl refl
        (subst
          (λ start. IsSafe d inv profile q ranges start (pos_part q.max_stages) first_states (
            rounds d inv profile q ranges (pos_part q.max_stages) first_states
              (first_search operations)))
          c
          (rounds-IsSafe d inv profile q ranges (pos_part q.max_stages) first_states
            (first_search operations)
            (listed q q.ranges ranges (prepare_all-ranges q _ q.ranges ranges p) (λ r m. m))
            ((tt, tt), tt) h tt))

  too_many :
      (a b limit : ℕ)
      → ((multiply_uint64 a b).1 || ltb limit (multiply_uint64 a b).0) ≡ true
      → (u64_max < a * b) ⊎ (limit < a * b)
  too_many a b limit h = elim (dec_le (a * b) u64_max) [
    | no over ↦ inl (omega arith)
    | yes fits ↦
        let exact = (multiply_uint64-exact a b (a * b)).1 (fits, refl) in
        inr (ground (arith, exact))
  ]

  over_limit : {A B C : Type 0} → A ⊎ B → A ⊎ B ⊎ C
  over_limit (inl a) = inl a
  over_limit (inr b) = inr (inl b)

  exact_product : (a b : ℕ) → (multiply_uint64 a b).1 ≡ false → (multiply_uint64 a b).0 ≡ a * b
  exact_product a b h =
      ((multiply_uint64-exact a b (multiply_uint64 a b).0).0
        (ap (λ x. ((multiply_uint64 a b).0, x)) h)).1

  construct_normalized-IsBounded :
      (given : PlanConstructionRequest) (r : Result PlacementError PlanConstructionRequest)
      → normalize_plan_construction_request d inv profile given ≡ r
      → IsBounded given (construct_normalized d inv profile r)
  unfolding construct_normalized
  construct_normalized-IsBounded given (err e) g = tt
  construct_normalized-IsBounded given (ok q) g =
      let initial = multiply_uint64 (length q.ranges) (length inv.workers) in
      elim (Bool-cases (initial.1 || ltb q.max_search_operations initial.0)) [
        | inl e ↦
            rw e (g, over_limit (too_many _ _ q.max_search_operations e), omega arith, refl, refl)
        | inr e ↦
            let whole : initial.1 ≡ false = ground (arith, e) in
            rw e (
              search_ranges-IsBounded given q initial.0
                (prepare_all d inv profile q (index_workers inv.workers) q.ranges) g refl
                (exact_product _ _ whole) (ground (arith, e)))
      ]

  -- For every inventory, profile and request, a construction that succeeds has counted one operation
  -- for each range on each worker and one for each extension that its rounds make of a partial plan,
  -- is within the limit of its normalized request, says that the limit is not reached, and selects no
  -- plan or an eligible one that is built from ranges of the request and that `ScorePlan` scored under
  -- the request's scoring with their estimates. One that reached the limit says so, selects no plan,
  -- and had more operations to make than the limit allows or a uint64 holds.
  pub construct_plan-IsBounded :
      (given : PlanConstructionRequest) → IsBounded given (construct_plan d inv profile given)
  unfolding construct_plan
  construct_plan-IsBounded given =
      construct_normalized-IsBounded given (normalize_plan_construction_request d inv profile given)
        refl

  -- For every plan that a construction selects: its digests and its stages pass the validation of
  -- execution plans, it has the model of the normalized construction request, and it is eligible; it
  -- is scored under the normalized scoring request of that construction request, with one estimate
  -- for each stage, which is that of a range of the construction request with the stage's layers; and
  -- each of its stages targets a worker of the inventory that meets every constraint of the
  -- requirement that the stage, its estimate and that scoring request make.
  pub construct_plan-Fitting :
      (given : PlanConstructionRequest) (r : PlanConstructionResult) (e : PlanEvaluation)
      → construct_plan d inv profile given ≡ constructed r
      → r.selected_plan ≡ some e
      → (normalize_plan_construction_request d inv profile given ≡ ok r.request)
        × (validate_execution_plan d e.plan ≡ none)
        × (e.plan.model ≡ r.request.model)
        × (e.eligible ≡ true)
        × (e.request
            ≡ normalize_scoring_request (record r.request.scoring { stages = e.request.stages }))
        × Ranged r.request.ranges (map revision_stage e.plan.stages) e.request.stages
        × Fitting inv e.plan.model e.request e.plan.stages e.request.stages e.stages
  unfolding normalize_scoring_request
  construct_plan-Fitting given r e h g =
      let bounded = subst (IsBounded given) h (construct_plan-IsBounded given) in
      let s = subst (Selected d inv profile r.request) g bounded.4 in
      let q = record r.request.scoring { stages = s.candidate.estimates } in
      let v =
        build_execution_plan-validates d r.request.model (decimal inv.revision) s.candidate.stages
          e.plan s.built in
      let same = score_plan-request d inv profile e.plan q e s.scored in
      let estimates : e.request.stages ≡ s.candidate.estimates = ap (λ x. x.stages) same in
      (
        bounded.0,
        v.0,
        v.1,
        s.eligible,
        same
            ∙ ap (λ l. normalize_scoring_request (record r.request.scoring { stages = l }))
                (sym estimates),
        subst⁻¹ (Ranged r.request.ranges (map revision_stage e.plan.stages)) estimates
            (subst⁻¹ (λ l. Ranged r.request.ranges l s.candidate.estimates) v.3 s.ranged),
        subst⁻¹ (λ x. Fitting inv e.plan.model x e.plan.stages x.stages e.stages) same
            ((score_plan-Fitting d inv profile e.plan q e s.scored).2 s.eligible),
      )
