-- ===== src/Placement/Searches.antt =====
-- What the search keeps through its loops.
use mathlib.Core.Path.{subst, subst⁻¹}
use mlx_swarm.Base.{
  ℕ, zero, suc, ◌+◌, ◌≤◌, ◌<◌, ◌≡◌, refl, sym, ap, ◌∙◌, Bool, true, false, not, ◌||◌, List, [], ◌∷◌,
  Option, none, some, ◌==◌, arith, Bool-cases, inl, inr, is_yes,
}
use mlx_swarm.Base.GoMap.{get, delete, or_zero}
use mlx_swarm.Base.Text.{string_key}
use mlx_swarm.Base.Results.{Result, ok, err, >>=-ok, ok-injective, refuse_if, refuse_if-ok}
use mlx_swarm.Registry.Types.{Inventory}
use mlx_swarm.Generation.Types.{ExecutionPlan}
use mlx_swarm.Generation.Plan.{Digests, Built, plan, invalid, build_execution_plan}
use mlx_swarm.Base.Decimal.{decimal}
use mlx_swarm.Placement.Types.{ProfileSnapshot, PlanEvaluation}
use mlx_swarm.Placement.Validate.{PlacementError, score_disagrees}
use mlx_swarm.Placement.ScorePlan.{score_plan}
use mlx_swarm.Placement.Guarantees.{score_plan-Fitting}
use mlx_swarm.Placement.PlanTypes.{
  PlanConstructionRequest, PlanRangeSearch, PartialPlan, score_discrete,
}
use mlx_swarm.Placement.Partial.{layer_key, States, ordered_bucket}
use mlx_swarm.Placement.Planner.{
  Stop, out_of_operations, search_error, each, Expansion, expand, as_plan, evaluate_complete_plan,
  Selection, is_better, select, Search, Searched, finished, stopped, failed, after_expansion,
  after_selection, rounds,
}
use mlx_swarm.Base.{All}
use mlx_swarm.Placement.Work.{
  Counted, extensions, expand-Counted, Work, no_rounds, no_states, round, cut_short,
}
use mlx_swarm.Placement.RangedPlans.{
  each-All, IsRanged, AllRanged, IsListed, expand-Ranged, ordered_bucket-Ranged, get-AllRanged,
  delete-AllRanged,
}

module _ (d : Digests) (inv : Inventory) (profile : ProfileSnapshot)
    (q : PlanConstructionRequest) where
  -- An evaluation of the search: the plan is built from a complete candidate, whose stages and
  -- estimates are those of ranges of the request, and scored under the request's scoring with the
  -- candidate's estimates; it is eligible and has the candidate's score.
  pub record IsScored (e : PlanEvaluation) : Type 0 where
    pub candidate : PartialPlan
    pub ranged : IsRanged q candidate
    pub built : build_execution_plan d q.model (decimal inv.revision) candidate.stages ≡ plan e.plan
    pub scored :
        score_plan d inv profile e.plan (record q.scoring { stages = candidate.estimates }) ≡ ok e
    pub eligible : e.eligible ≡ true
    pub agrees : e.score ≡ candidate.score

  -- The best plan so far, if any, is scored.
  abbrev pub Selected : Option PlanEvaluation → Type 0
  Selected none = Unit
  Selected (some e) = IsScored e

  as_plan-ok : (b : Built) (p : ExecutionPlan) → as_plan b ≡ ok p → b ≡ plan p
  as_plan-ok (plan p) r h = cc h
  as_plan-ok (invalid e) r h = absurd (cc h)

  evaluate_complete_plan-IsScored :
      (candidate : PartialPlan) (e : PlanEvaluation)
      → IsRanged q candidate
      → evaluate_complete_plan d inv profile q candidate ≡ ok e
      → IsScored e
  unfolding evaluate_complete_plan
  evaluate_complete_plan-IsScored candidate e ranged h =
      let built = build_execution_plan d q.model (decimal inv.revision) candidate.stages in
      let p = >>=-ok (as_plan built) _ h in
      let request = record q.scoring { stages = candidate.estimates } in
      let x = >>=-ok (score_plan d inv profile p.0 request) _ p.2 in
      let same = (score_plan-Fitting d inv profile p.0 request x.0 x.1).0 in
      let differs : Bool =
        not x.0.eligible || not (is_yes (score_discrete x.0.score candidate.score)) in
      let c = >>=-ok (refuse_if differs score_disagrees) _ x.2 in
      let agrees = refuse_if-ok differs score_disagrees c.1 in
      subst IsScored (ok-injective c.2) (record {
        candidate = candidate;
        ranged = ranged;
        built = as_plan-ok built p.0 p.1 ∙ ap plan (sym same);
        scored = subst⁻¹ (λ r. score_plan d inv profile r request ≡ ok x.0) same x.1;
        eligible = ground (arith, agrees);
        agrees = ground (arith, agrees);
      })

  select-Selected :
      (candidate : PartialPlan) (s t : Selection)
      → IsRanged q candidate
      → Selected s.selected_plan
      → select d inv profile q candidate s ≡ ok t
      → Selected t.selected_plan
  unfolding select
  select-Selected candidate s t ranged w h =
      let e = >>=-ok (evaluate_complete_plan d inv profile q candidate) _ h in
      let scored = evaluate_complete_plan-IsScored candidate e.0 ranged e.1 in
      subst (λ u. Selected u.selected_plan) (ok-injective e.2)
        (elim (Bool-cases (is_better s.selected_plan e.0)) [ inl b ↦ rw b scored | inr b ↦ rw b w ])

  module _ (ranges : List PlanRangeSearch) where
    -- What the rounds that are left from some states end with, after `start` operations: a search that
    -- ends has counted all their extensions, is within its limit and selected a scored plan, if any; a
    -- search that the limit stopped has more extensions to make than it allows.
    abbrev pub IsSafe : ℕ → ℕ → States → Searched → Type 0
    IsSafe start left states (finished s) =
        ((n : ℕ) × Work q ranges true left states n × (s.operations ≡ start + n))
        × (s.operations ≤ q.max_search_operations)
        × Selected s.selection.selected_plan
    IsSafe start left states (stopped s) =
        ((n : ℕ) × Work q ranges false left states n × (q.max_search_operations < start + n))
        × (s.operations ≡ q.max_search_operations)
    IsSafe start left states (failed e) = Unit

    -- One more round, before the others.
    round-IsSafe :
        (start left : ℕ) (states : States) (x : Expansion) (r : Searched)
        → expand q (left == 0) ranges states (record { operations = start; next = [] }) ≡ ok x
        → x.operations ≡ start + extensions q (left == 0) ranges states
        → IsSafe x.operations left (delete x.next q.model.layer_count) r
        → IsSafe start (suc left) states r
    round-IsSafe start left states x (finished s) h e ((n, w, c), l, v) =
        ((_, round true left states start x n h w, omega (arith, c, e)), l, v)
    round-IsSafe start left states x (stopped s) h e ((n, w, c), l) =
        ((_, round false left states start x n h w, omega (arith, c, e)), l)
    round-IsSafe start left states x (failed y) h e c = tt

    after_expansion-IsSafe :
        (left : ℕ) (states : States) (r : Result Stop Expansion) (s : Search)
        (continue : Expansion → Searched)
        → Counted q.max_search_operations s.operations (extensions q (left == 0) ranges states) r
        → ((x : Expansion) → r ≡ ok x → IsSafe s.operations (suc left) states (continue x))
        → IsSafe s.operations
            (suc left)
            states
            (after_expansion r s continue q.max_search_operations)
    after_expansion-IsSafe left states (ok x) s continue c h = h x refl
    after_expansion-IsSafe left states (err out_of_operations) s continue c h =
        ((_, cut_short left states, c), refl)
    after_expansion-IsSafe left states (err (search_error e)) s continue c h = tt

    after_selection-IsSafe :
        (start left : ℕ) (states : States) (r : Result PlacementError Selection)
        (continue : Selection → Searched)
        → ((x : Selection) → r ≡ ok x → IsSafe start left states (continue x))
        → IsSafe start left states (after_selection r continue)
    after_selection-IsSafe start left states (ok x) continue h = h x refl
    after_selection-IsSafe start left states (err e) continue h = tt

    Counted-ok :
        (start n : ℕ) (r : Result Stop Expansion) (x : Expansion)
        → Counted q.max_search_operations start n r
        → r ≡ ok x
        → (x.operations ≡ start + n) × (x.operations ≤ q.max_search_operations)
    Counted-ok start n r x c h = subst (Counted q.max_search_operations start n) h c

    pub rounds-IsSafe :
        (left : ℕ) (states : States) (s : Search)
        → All (IsListed q) ranges
        → AllRanged q states
        → s.operations ≤ q.max_search_operations
        → Selected s.selection.selected_plan
        → IsSafe s.operations left states (rounds d inv profile q ranges left states s)
    unfolding rounds
    rounds-IsSafe zero states s a g w v = ((0, no_rounds true states, omega arith), w, v)
    rounds-IsSafe (suc left) [] s a g w v = ((0, no_states true left, omega arith), w, v)
    rounds-IsSafe (suc left) (b ∷ bs) s a g w v =
        let first : Expansion = record { operations = s.operations; next = [] } in
        let c = expand-Counted q (left == 0) ranges (b ∷ bs) first w in
        after_expansion-IsSafe left (b ∷ bs) (expand q (left == 0) ranges (b ∷ bs) first) s _ c
          λ x h.
            let counted = Counted-ok s.operations _ _ x c h in
            let next = expand-Ranged q (left == 0) ranges (b ∷ bs) first x a g tt h in
            let complete = or_zero (get x.next q.model.layer_count) [] in
            after_selection-IsSafe s.operations (suc left) (b ∷ bs)
              (each (select d inv profile q) (ordered_bucket complete) s.selection) _
              λ selection f. round-IsSafe s.operations left (b ∷ bs) x _ h counted.0 (
                rounds-IsSafe left (delete x.next q.model.layer_count) _ a
                  (delete-AllRanged q x.next q.model.layer_count next) counted.1
                  (each-All (λ u. Selected u.selected_plan) (IsRanged q) (select d inv profile q)
                    (ordered_bucket complete) s.selection selection select-Selected
                    (ordered_bucket-Ranged q complete
                      (get-AllRanged q x.next q.model.layer_count next))
                    v f))
