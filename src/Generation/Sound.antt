-- ===== src/Generation/Sound.antt =====
-- What `ValidateExecutionPlan` accepts: exactly the well-formed pipelines.
use mathlib.Core.Bool.{xor}
use mlx_swarm.Base.{
  first_fault, ℕ, ◌≡◌, ◌≢◌, refl, String, Bool, true, false, not, ◌&&◌, List, [], ◌∷◌, none, arith,
  All, ◌==◌, Bool-cases, inl, inr, ◌⊎◌, ◌↔◌,
}
use mlx_swarm.Base.Int.{ℤ, ◌≤ℤ◌, ltb_ℤ, leb_ℤ, eqb_ℤ}
use mlx_swarm.Base.Text.{is_empty_string, seen_in}
use mlx_swarm.Generation.Types.{StageResponseMode, tensor, sampled_token, ExecutionStage}
use mlx_swarm.Generation.Plan.{PlanError, Seen, stage_faults, is_supported, is_tensor}

-- A string that no element of a list is.
abbrev pub Unseen : String → List String → Type 0
Unseen id = All (λ s. s ≢ id)

seen_in-false : (id : String) (seen : List String) → seen_in id seen ≡ false → Unseen id seen
unfolding seen_in
seen_in-false id [] h = tt
seen_in-false id (s ∷ seen) h = ground (arith, seen_in-false id seen)

-- One stage of a well-formed pipeline, after the stages that were seen.
pub record StageFits (layer_count : ℤ) (index : ℕ) (last : Bool) (seen : Seen) (s : ExecutionStage)
    : Type 0 where
  pub named : s.name ≢ ""
  pub name_new : Unseen s.name seen.names
  pub targeted : s.target_id ≢ ""
  pub target_new : Unseen s.target_id seen.targets
  pub sharded : s.shard_id ≢ ""
  pub shard_new : Unseen s.shard_id seen.shards
  pub starts : s.layer_start ≡ seen.expected_start
  pub not_empty : ¬ (s.layer_end ≤ℤ s.layer_start)
  pub within : s.layer_end ≤ℤ layer_count
  pub input : s.owns_input ≡ (index == 0)
  pub output : s.owns_output ≡ last
  pub response : (s.response_mode ≡ tensor) ⊎ ((last ≡ true) × (s.response_mode ≡ sampled_token))

-- No fault is found just when every test fails.
abbrev pub AllFalse : List (Bool × PlanError) → Type 0
AllFalse = All (λ t. t.0 ≡ false)

pub first_fault-none : (l : List (Bool × PlanError)) → first_fault l ≡ none → AllFalse l
first_fault-none [] h = tt
first_fault-none ((b, e) ∷ l) h = elim (Bool-cases b) [
  | inl t ↦ absurd (cc (rw t at h))
  | inr f ↦ (f, first_fault-none l (rw f at h))
]

pub none-first_fault : (l : List (Bool × PlanError)) → AllFalse l → first_fault l ≡ none
none-first_fault [] h = refl
none-first_fault ((b, e) ∷ l) h = rw h.0 (none-first_fault l h.1)

pub xor-false : (a b : Bool) → (xor a b ≡ false) ↔ (a ≡ b)
unfolding xor
xor-false true true = ground arith
xor-false true false = ground arith
xor-false false true = ground arith
xor-false false false = ground arith

not_equal-false : (x y : ℤ) → not (eqb_ℤ x y) ≡ false → x ≡ y
not_equal-false x y h = ground arith

leb_ℤ-false : (x y : ℤ) → leb_ℤ x y ≡ false → ¬ (x ≤ℤ y)
leb_ℤ-false x y h = ground arith

ltb_ℤ-false : (x y : ℤ) → ltb_ℤ x y ≡ false → y ≤ℤ x
ltb_ℤ-false x y h = ground arith

-- The two tests of a stage's response mode.
response_tests :
    (last : Bool) (mode : StageResponseMode)
    → (last && not (is_supported mode)) ≡ false
    → (not last && not (is_tensor mode)) ≡ false
    → (mode ≡ tensor) ⊎ ((last ≡ true) × (mode ≡ sampled_token))
response_tests true mode h g = ground arith
response_tests false mode h g = ground arith

is_empty_string-false : (s : String) → (is_empty_string s ≡ false) ↔ (s ≢ "")
is_empty_string-false s = ground arith

pub stage_faults-none :
    (layer_count : ℤ) (index : ℕ) (last : Bool) (seen : Seen) (s : ExecutionStage)
    → first_fault (stage_faults layer_count index last seen s) ≡ none
    → StageFits layer_count index last seen s
stage_faults-none layer_count index last seen s h =
    let f = first_fault-none (stage_faults layer_count index last seen s) h in
    record {
      named = (is_empty_string-false s.name).0 f.0;
      name_new = seen_in-false s.name seen.names f.1.0;
      targeted = (is_empty_string-false s.target_id).0 f.1.1.0;
      target_new = seen_in-false s.target_id seen.targets f.1.1.1.0;
      sharded = (is_empty_string-false s.shard_id).0 f.1.1.1.1.0;
      shard_new = seen_in-false s.shard_id seen.shards f.1.1.1.1.1.0;
      starts = not_equal-false s.layer_start seen.expected_start f.1.1.1.1.1.1.0;
      not_empty = leb_ℤ-false s.layer_end s.layer_start f.1.1.1.1.1.1.1.0;
      within = ltb_ℤ-false layer_count s.layer_end f.1.1.1.1.1.1.1.1.0;
      input = (xor-false s.owns_input (index == 0)).0 f.1.1.1.1.1.1.1.1.1.0;
      output = (xor-false s.owns_output last).0 f.1.1.1.1.1.1.1.1.1.1.0;
      response =
          response_tests last s.response_mode f.1.1.1.1.1.1.1.1.1.1.1.0 f.1.1.1.1.1.1.1.1.1.1.1.1.0;
    }
