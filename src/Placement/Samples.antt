-- ===== src/Placement/Samples.antt =====
-- internal/placement/profile.go: the samples of one series, and the summary of their values.
use Prim.Native.Nat.{compare, Ordering}
use Prim.Native.Nat.Ordering.{lt}
use mlx_swarm.Base.{
  ℕ, zero, suc, ◌+◌, ◌-◌, ◌*◌, ◌/◌, Bool, true, false, List, [], ◌∷◌, length, get_elem?, ltb, leb,
  if◌then◌else◌, sort_by,
}
use mlx_swarm.Base.Int.{pos}
use mlx_swarm.Base.GoMap.{or_zero}
use mlx_swarm.Base.Order.{or_else}
use mlx_swarm.Placement.Types.{ValueDistribution}
use mlx_swarm.Placement.Arithmetic.{bytes_per_second}

pub record LinkSample : Type 0 where
  pub observed_at : ℕ
  pub rtt_micros : ℕ
  pub payload_bytes : ℕ
  pub elapsed_micros : ℕ

pub record ComputeSample : Type 0 where
  pub observed_at : ℕ
  pub input_token_count : ℕ
  pub compute_micros : ℕ

-- What the store needs of a sample: its time, and the order of the samples of a series.
pub record Sample (S : Type 0) : Type 0 where
  pub observed : S → ℕ
  pub order : S → S → Ordering

-- `sortLinkObservations` and `sortComputeObservations`.
abbrev pub link_order : LinkSample → LinkSample → Ordering
link_order l r = or_else (compare l.observed_at r.observed_at) (
    or_else (compare l.rtt_micros r.rtt_micros) (
      or_else (compare l.payload_bytes r.payload_bytes)
        (compare l.elapsed_micros r.elapsed_micros)))

abbrev pub compute_order : ComputeSample → ComputeSample → Ordering
compute_order l r = or_else (compare l.observed_at r.observed_at) (
    or_else (compare l.input_token_count r.input_token_count)
      (compare l.compute_micros r.compute_micros))

instance abbrev pub link_sample : Sample LinkSample
link_sample = record { observed = λ s. s.observed_at; order = link_order }

instance abbrev pub compute_sample : Sample ComputeSample
compute_sample = record { observed = λ s. s.observed_at; order = compute_order }

abbrev pub is_less : Ordering → Bool
is_less lt = true
is_less other = false

abbrev pub drop {ℓ} : {A : Type ℓ} → ℕ → List A → List A
drop zero xs = xs
drop (suc n) [] = []
drop (suc n) (x ∷ xs) = drop n xs

-- `retainNewest`.
unfoldable pub retain_newest : {S : Type 0} → List S → ℕ → List S
retain_newest xs limit = if leb (length xs) limit then xs else drop (length xs - limit) xs

module _ {S : Type 0} ⦃sample : Sample S⦄ where
  -- The samples not before the cutoff, `at` less the maximum age.
  unfoldable pub retained : ℕ → ℕ → List S → List S
  retained max_age at [] = []
  retained max_age at (s ∷ ss) =
      let rest = retained max_age at ss in
      if ltb (sample.observed s + max_age) at then rest else s ∷ rest

  -- Those of them that are not after `at`.
  unfoldable pub fresh : ℕ → List S → List S
  fresh at [] = []
  fresh at (s ∷ ss) =
      let rest = fresh at ss in if ltb at (sample.observed s) then rest else s ∷ rest

  unfoldable pub sort_samples : List S → List S
  sort_samples = sort_by (λ a b. is_less (sample.order a b))

  -- The latest time of some samples, from the first one's.
  unfoldable pub latest_from : ℕ → List S → ℕ
  latest_from latest [] = latest
  latest_from latest (s ∷ ss) =
      latest_from (if ltb latest (sample.observed s) then sample.observed s else latest) ss

-- `nearestRank`; the index is in range for a list that is not empty.
unfoldable pub nearest_rank : List ℕ → ℕ → ℕ
nearest_rank sorted percentile =
    let index = (percentile * length sorted + 99) / 100 in
    or_zero (get_elem? sorted ((if ltb index 1 then 1 else index) - 1)) 0

unfoldable pub summarize_sorted : List ℕ → ValueDistribution
unfolding nearest_rank
summarize_sorted sorted = record {
  count = pos (length sorted);
  minimum = or_zero (get_elem? sorted 0) 0;
  p50 = nearest_rank sorted 50;
  p95 = nearest_rank sorted 95;
  maximum = or_zero (get_elem? sorted (length sorted - 1)) 0;
}

-- `summarizeValues`; with no value, all numbers are zero.
unfoldable pub summarize_values : List ℕ → ValueDistribution
unfolding summarize_sorted
summarize_values values = summarize_sorted (sort_by ltb values)

-- The throughput of the samples with a payload.
unfoldable pub throughput : List LinkSample → List ℕ
throughput [] = []
throughput (s ∷ ss) =
    let rest = throughput ss in
    if ltb 0 s.payload_bytes then bytes_per_second s.payload_bytes s.elapsed_micros ∷ rest else rest
