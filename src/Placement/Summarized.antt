-- ===== src/Placement/Summarized.antt =====
-- The profile of a fresh series passes the validation of the snapshot that holds it.
use native.Mathlib.Nat.{le-div_iff_mul-le}
use mlx_swarm.Base.{
  ℕ, zero, suc, ◌+◌, ◌*◌, ◌/◌, ◌≤◌, ◌≡◌, ◌≢◌, refl, Bool, true, false, ◌||◌, List, [], ◌∷◌, Option,
  none, map, length, arith, ltb, ◌==◌, String, is_yes, All, Bool-cases, inl, inr, min,
}
use mlx_swarm.Base.Int.{pos}
use mlx_swarm.Base.Text.{string_discrete}
use mlx_swarm.Base.Series.{All-map}
use mlx_swarm.Placement.Types.{LinkKey, ComputeKey, ProfileSnapshot}
use mlx_swarm.Placement.Arithmetic.{bytes_per_second, bytes_per_second-exact}
use mlx_swarm.Placement.Profiles.{
  validate_distribution, is_stale, series_seen, link_fault, compute_fault, link_key_key,
  compute_key_key,
}
use mlx_swarm.Placement.Samples.{
  LinkSample, ComputeSample, link_sample, compute_sample, latest_from, summarize_values, throughput,
}
use mlx_swarm.Placement.Normalized.{LinkNamed, LinkMeasured, ComputeNamed, ComputeMeasured}
use mlx_swarm.Placement.Snapshot.{first_time, summarize_link, summarize_compute}
use mlx_swarm.Placement.Summaries.{summarize_values-validates}

-- A transfer of at least one byte per second.
abbrev pub Rated : LinkSample → Type 0
Rated s = s.elapsed_micros ≤ s.payload_bytes * 1000000

rated_positive :
    (payload elapsed : ℕ)
    → elapsed ≢ 0
    → elapsed ≤ payload * 1000000
    → 1 ≤ bytes_per_second payload elapsed
rated_positive payload elapsed some_time h =
    let q : 1 ≤ payload * 1000000 / elapsed = (le-div_iff_mul-le (omega arith)).1 (omega arith) in
    rw (bytes_per_second-exact payload elapsed some_time) (ground (arith, q))

is_yes-false : {P : Type 0} (d : Dec P) → ¬ P → is_yes d ≡ false
is_yes-false (yes p) h = absurd (h p)
is_yes-false (no n) h = refl

not_same : (s t : String) → s ≢ t → is_yes (string_discrete s t) ≡ false
not_same s t h = is_yes-false (string_discrete s t) h

some_elapsed :
    (s : LinkSample) → LinkMeasured s → ltb 0 s.payload_bytes ≡ true → s.elapsed_micros ≢ 0
some_elapsed s m h = ground (arith, m.transfer)

throughput-All :
    (xs : List LinkSample) → All LinkMeasured xs → All Rated xs → All (λ x. 1 ≤ x) (throughput xs)
unfolding throughput
throughput-All [] m r = tt
throughput-All (s ∷ ss) m r = elim (Bool-cases (ltb 0 s.payload_bytes)) [
  | inl e ↦ rw e (
    rated_positive s.payload_bytes s.elapsed_micros (some_elapsed s m.0 e) r.0,
    throughput-All ss m.1 r.1,
  )
  | inr e ↦ rw e (throughput-All ss m.1 r.1)
]

length-throughput : (xs : List LinkSample) → length (throughput xs) ≤ length xs
unfolding throughput
length-throughput [] = omega arith
length-throughput (s ∷ ss) = ground (arith, length-throughput ss)

map-All :
    {A B : Type 0} (P : B → Type 0) (f : A → B) (xs : List A)
    → All (λ x. P (f x)) xs
    → All P (map f xs)
map-All P f [] a = tt
map-All P f (x ∷ xs) a = (a.0, map-All P f xs a.1)

length-map : {A B : Type 0} (f : A → B) (xs : List A) → length (map f xs) ≡ length xs
length-map f [] = refl
length-map f (x ∷ xs) = omega (arith, length-map f xs)

no_values : (limit : ℕ) → validate_distribution (summarize_values []) true (pos limit) ≡ none
unfolding validate_distribution summarize_values mlx_swarm.Placement.Samples.summarize_sorted
    mlx_swarm.Placement.Samples.nearest_rank mlx_swarm.Placement.Profiles.distribution_discrete
    mlx_swarm.Base.Int.ℤ-discrete mlx_swarm.Base.ℕ_discrete
no_values limit = refl

-- No value is allowed where an empty distribution is.
summarize_values-allowed :
    (xs : List ℕ) (limit : ℕ)
    → length xs ≤ limit
    → All (λ x. 1 ≤ x) xs
    → validate_distribution (summarize_values xs) true (pos limit) ≡ none
unfolding validate_distribution summarize_values
summarize_values-allowed [] limit l a = no_values limit
summarize_values-allowed (x ∷ xs) limit l a =
    summarize_values-validates (x ∷ xs) limit true (omega arith) l a

-- The values of some samples.
measured-validates :
    {S : Type 0} (V : S → Type 0) (f : S → ℕ) (xs : List S) (limit : ℕ)
    → ((s : S) → V s → f s ≢ 0)
    → 1 ≤ length xs
    → length xs ≤ limit
    → All V xs
    → validate_distribution (summarize_values (map f xs)) false (pos limit) ≡ none
measured-validates V f xs limit g some_left limited v =
    let n = length-map f xs in
    summarize_values-validates (map f xs) limit false (omega (arith, n)) (omega (arith, n))
      (map-All (λ x. 1 ≤ x) f xs (All-map V (λ s. 1 ≤ f s) (λ s h. omega (arith, g s h)) xs v))

module _ (p : ProfileSnapshot) (limit : ℕ) (held : p.max_samples_per_series ≡ pos limit) where
  pub link_fault-none :
      (k : LinkKey) (xs : List LinkSample) (seen : List LinkKey)
      → LinkNamed k
      → 1 ≤ length xs
      → length xs ≤ limit
      → All LinkMeasured xs
      → All Rated xs
      → is_stale p (latest_from (first_time xs) xs) ≡ false
      → series_seen k seen ≡ false
      → link_fault p seen (summarize_link k xs) ≡ none
  unfolding link_fault summarize_link
  link_fault-none k xs seen named some_left limited measured rated recent unseen =
      let v = throughput-All xs measured rated in
      let n = length-throughput xs in
      rw held (
        rw named.labels (
          rw (not_same k.source_id k.target_id named.endpoints) (
            rw recent (
              rw
                (measured-validates LinkMeasured (λ s. s.rtt_micros) xs limit (λ s m. m.rtt)
                  some_left limited measured)
                (rw (summarize_values-allowed (throughput xs) limit (omega (arith, n)) v)
                  (rw unseen refl))))))

  pub compute_fault-none :
      (k : ComputeKey) (xs : List ComputeSample) (seen : List ComputeKey)
      → ComputeNamed k
      → 1 ≤ length xs
      → length xs ≤ limit
      → All ComputeMeasured xs
      → is_stale p (latest_from (first_time xs) xs) ≡ false
      → series_seen k seen ≡ false
      → compute_fault p seen (summarize_compute k xs) ≡ none
  unfolding compute_fault summarize_compute
  compute_fault-none k xs seen named some_left limited measured recent unseen = rw held (
      rw named.labels (
        rw recent (
          rw
            (measured-validates ComputeMeasured (λ s. s.input_token_count) xs limit
              (λ s m. m.tokens) some_left limited measured)
            (rw
              (measured-validates ComputeMeasured (λ s. s.compute_micros) xs limit (λ s m. m.micros)
                some_left limited measured)
              (rw unseen (ground (arith, named.range)))))))
