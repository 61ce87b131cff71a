-- ===== src/Generation/Agreement.antt =====
-- `DeriveExecutionShardID` agrees with `ValidateExecutionPlan` on the shards of an accepted plan.
use mathlib.Core.Bool.{xor}
use mathlib.Core.Path.{subst}
use mlx_swarm.Base.{
  ℕ, zero, suc, ◌+◌, ◌≡◌, sym, ap, ◌∙◌, Bool, true, false, ◌||◌, List, [], ◌∷◌, none, some, arith,
  length, get_elem?, ◌==◌,
}
use mlx_swarm.Base.Int.{ℤ, pos, ◌≤ℤ◌, ltb_ℤ, leb_ℤ, eqb_ℤ}
use mlx_swarm.Base.Text.{is_empty_string}
use mlx_swarm.Generation.Types.{ExecutionModel, ExecutionStage, ExecutionPlan}
use mlx_swarm.Generation.Plan.{
  Seen, see, nothing_seen, header_faults, validate_shards, validate_execution_plan,
  execution_shard_id, Digests, derive_execution_shard_id, shard_id, shard_of, shard_faults,
}
use mlx_swarm.Generation.Sound.{StageFits, first_fault-none, none-first_fault}
use mlx_swarm.Generation.Pipeline.{Pipeline, at_end, next_stage, accepted, validate_stages-Pipeline}

-- A range within the model, and ownership by the boundary layers.
pub record Bounded (layer_count : ℤ) (s : ExecutionStage) : Type 0 where
  pub low : pos 0 ≤ℤ s.layer_start
  pub not_empty : ¬ (s.layer_end ≤ℤ s.layer_start)
  pub high : s.layer_end ≤ℤ layer_count
  pub input : s.owns_input ≡ eqb_ℤ s.layer_start (pos 0)
  pub output : s.owns_output ≡ eqb_ℤ s.layer_end layer_count

-- A stage is the last one just when it ends at the layer count.
last-end :
    (layer_count : ℤ) (total index : ℕ) (seen : Seen) (s : ExecutionStage)
    (ss : List ExecutionStage)
    → Pipeline layer_count total (index + 1) (see seen s) ss
    → index + suc (length ss) ≡ total
    → (index + 1 == total) ≡ eqb_ℤ s.layer_end layer_count
last-end layer_count total index seen s [] (at_end e) n = ground arith
last-end layer_count total index seen s (t ∷ ts) (next_stage f p) n =
    ground (arith, f.starts, f.not_empty, f.within)

first_Bounded :
    (layer_count : ℤ) (total index : ℕ) (seen : Seen) (s : ExecutionStage)
    (ss : List ExecutionStage)
    → StageFits layer_count index (index + 1 == total) seen s
    → Pipeline layer_count total (index + 1) (see seen s) ss
    → pos 0 ≤ℤ seen.expected_start
    → (index == 0) ≡ eqb_ℤ seen.expected_start (pos 0)
    → index + suc (length ss) ≡ total
    → (t : ExecutionStage) → some s ≡ some t
    → Bounded layer_count t
first_Bounded layer_count total index seen s ss f p low first n t h =
    let same : s ≡ t = ground arith in
    subst (Bounded layer_count) same (record {
      low = ground (arith, f.starts);
      not_empty = f.not_empty;
      high = f.within;
      input = f.input ∙ first ∙ ap (λ z. eqb_ℤ z (pos 0)) (sym f.starts);
      output = f.output ∙ last-end layer_count total index seen s ss p n;
    })

Pipeline-Bounded :
    (layer_count : ℤ) (total index : ℕ) (seen : Seen) (ss : List ExecutionStage)
    → Pipeline layer_count total index seen ss
    → pos 0 ≤ℤ seen.expected_start
    → (index == 0) ≡ eqb_ℤ seen.expected_start (pos 0)
    → index + length ss ≡ total
    → (i : ℕ) (s : ExecutionStage) → get_elem? ss i ≡ some s
    → Bounded layer_count s
Pipeline-Bounded layer_count total index seen [] p low first n i s h = ground arith
Pipeline-Bounded layer_count total index seen (s ∷ ss) (next_stage f p) low first n (suc i) t h =
    Pipeline-Bounded layer_count total (index + 1) (see seen s) ss p
      (ground (arith, f.starts, f.not_empty)) (ground (arith, f.starts, f.not_empty)) (omega arith)
      i t h
Pipeline-Bounded layer_count total index seen (s ∷ ss) (next_stage f p) low first n zero t h =
    first_Bounded layer_count total index seen s ss f p low first n t h

pub validate_shards-match :
    (d : Digests) (model : ExecutionModel) (index : ℕ) (ss : List ExecutionStage)
    → validate_shards d model index ss ≡ none
    → (i : ℕ) (s : ExecutionStage) → get_elem? ss i ≡ some s
    → s.shard_id ≡ execution_shard_id d model s
unfolding validate_shards
validate_shards-match d model index [] h i s e = ground arith
validate_shards-match d model index (s ∷ ss) h zero t e = ground arith
validate_shards-match d model index (s ∷ ss) h (suc i) t e =
    validate_shards-match d model (index + 1) ss (ground arith) i t e

xor-same : (a b : Bool) → a ≡ b → xor a b ≡ false
unfolding xor
xor-same true b p = ground arith
xor-same false b p = ground arith

-- The shard ID that `DeriveExecutionShardID` makes of the range and the ownership of a stage of an
-- accepted plan is the stage's own: it accepts them, and the IDs are equal.
pub derive_execution_shard_id-agrees :
    (d : Digests) (plan : ExecutionPlan)
    → validate_execution_plan d plan ≡ none
    → (i : ℕ) (s : ExecutionStage) → get_elem? plan.stages i ≡ some s
    → derive_execution_shard_id d plan.model s.layer_start s.layer_end s.owns_input s.owns_output
      ≡ shard_id s.shard_id
unfolding derive_execution_shard_id execution_shard_id
derive_execution_shard_id-agrees d plan h i s e =
    let head = first_fault-none (header_faults plan) (accepted d plan h).0 in
    let b =
      Pipeline-Bounded plan.model.layer_count (length plan.stages) 0 nothing_seen plan.stages
        (validate_stages-Pipeline _ _ _ _ _ (accepted d plan h).1) (ground arith) (ground arith)
        (omega arith) i s e in
    let id = validate_shards-match d plan.model 0 plan.stages (accepted d plan h).3 i s e in
    let incomplete : (is_empty_string plan.model.id
          || is_empty_string plan.model.checkpoint_fingerprint
          || leb_ℤ plan.model.layer_count (pos 0))
        ≡ false =
      ground (arith, head.1.0, head.1.1.0, head.1.1.1.0) in
    let range : (ltb_ℤ s.layer_start (pos 0)
          || leb_ℤ s.layer_end s.layer_start
          || ltb_ℤ plan.model.layer_count s.layer_end)
        ≡ false =
      ground (arith, b.low, b.not_empty, b.high) in
    let owned : (xor s.owns_input (eqb_ℤ s.layer_start (pos 0))
          || xor s.owns_output (eqb_ℤ s.layer_end plan.model.layer_count))
        ≡ false =
      ground (arith, xor-same _ _ b.input, xor-same _ _ b.output) in
    ap (λ f. shard_of f (execution_shard_id d plan.model s))
      (none-first_fault
        (shard_faults plan.model s.layer_start s.layer_end s.owns_input s.owns_output)
        (incomplete, (range, (owned, tt))))
    ∙ ap shard_id (sym id)
