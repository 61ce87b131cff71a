-- ===== src/Placement/Arithmetic.antt =====
-- internal/placement/scoring.go, profile.go: the uint64 arithmetic of costs. `bits.Mul64` and
-- `bits.Div64` are the standard library's 128-bit product and quotient.
use mlx_swarm.Base.{
  ℕ, ◌+◌, ◌-◌, ◌*◌, ◌/◌, ◌%◌, ◌^◌, ◌≤◌, ◌<◌, ◌≡◌, ◌≢◌, ◌↔◌, Bool, true, false, not, ◌&&◌, ltb, leb,
  ◌==◌, if◌then◌else◌, min, arith, dec_lt, ◌⊎◌, inl, inr, ap, ◌∙◌,
}
use mlx_swarm.Base.Word.{u64_max}
use mlx_swarm.Base.Results.{Result, ok, err, unless_overflow}
use mlx_swarm.Placement.Eligibility.{add_uint64}
use native.Mathlib.Nat.{
  div-add-mod', mod-lt, mul-le-mul_right, le-div_iff_mul-le, mul_comm, mul-add-div_right,
}

pub data ScoreError : Type 0 where
  zero_denominator estimate_overflow rounded_overflow repetition_overflow : ScoreError
  compute_overflow prefill_overflow decode_overflow transfer_overflow : ScoreError
  score_overflow negative_counters : ScoreError

-- `multiplyUint64`: the product, or zero and an overflow.
unfoldable pub multiply_uint64 : ℕ → ℕ → ℕ × Bool
multiply_uint64 a b =
    if not (a == 0) && ltb (u64_max / a) b then (0, true) else (a * b % 2 ^ 64, false)

-- `bits.Div64(high, low, denominator)`.
abbrev quotient_of : ℕ → ℕ → ℕ → ℕ
quotient_of high low d = (high * 2 ^ 64 + low) / d

abbrev remainder_of : ℕ → ℕ → ℕ → ℕ
remainder_of high low d = (high * 2 ^ 64 + low) % d

abbrev round_up : ℕ → ℕ → Result ScoreError ℕ
round_up quotient remainder =
    if ltb 0 remainder
    then if quotient == u64_max then err rounded_overflow else ok (quotient + 1)
    else ok quotient

-- `multiplyDivideCeil`.
unfoldable pub multiply_divide_ceil : ℕ → ℕ → ℕ → Result ScoreError ℕ
multiply_divide_ceil a b d =
    let high = a * b / 2 ^ 64 in
    let low = a * b % 2 ^ 64 in
    if d == 0
    then err zero_denominator
    else if leb d high
    then err estimate_overflow
    else round_up (quotient_of high low d) (remainder_of high low d)

-- `checkedScoreAdd`.
unfoldable pub checked_score_add : ℕ → ℕ → Result ScoreError ℕ
unfolding add_uint64
checked_score_add a b = unless_overflow score_overflow (add_uint64 a b)

-- `bytesPerSecond`; a zero elapsed time would panic, and no stored sample has one with a payload.
unfoldable pub bytes_per_second : ℕ → ℕ → ℕ
bytes_per_second payload elapsed =
    let whole = payload / elapsed in
    let result = whole * 1000000 % 2 ^ 64 in
    let scaled = payload % elapsed * 1000000 in
    let partial = quotient_of (scaled / 2 ^ 64) (scaled % 2 ^ 64) elapsed in
    if ltb (u64_max / 1000000) whole
    then u64_max
    else if ltb (u64_max - partial) result
    then u64_max
    else result + partial

-- A guard by a quotient is a guard of the product.
le_div-mul : (a b : ℕ) → a ≢ 0 → (leb b (u64_max / a) ≡ true) ↔ (a * b ≤ u64_max)
le_div-mul a b h =
    let r : (b ≤ u64_max / a) ↔ (b * a ≤ u64_max) = le-div_iff_mul-le (omega arith) in
    ground (arith, r, mul_comm a b)

-- A product overflows exactly when it exceeds a uint64; otherwise it is the exact product.
pub multiply_uint64-exact :
    (a b p : ℕ) → (multiply_uint64 a b ≡ (p, false)) ↔ ((a * b ≤ u64_max) × (p ≡ a * b))
unfolding multiply_uint64
multiply_uint64-exact a b p = ground (arith, le_div-mul a b)

-- The quotient and the remainder of what is below a multiple.
Ceiling : ℕ → ℕ → ℕ → Type 0
Ceiling n d q = (n ≤ q * d) × (q * d < n + d)

div-exact : (n d : ℕ) → d ≢ 0 → (n / d * d + n % d ≡ n) × (n % d < d)
div-exact n d h = (div-add-mod' n d, mod-lt n (omega arith))

next_multiple : (d p q : ℕ) → p < q → p * d + d ≤ q * d
next_multiple d p q h = omega (arith, mul-le-mul_right d h)

-- The ceiling of an exact division is unique.
unique_ceiling : (n d p q : ℕ) → n ≤ p * d → p * d < n + d → n ≤ q * d → q * d < n + d → p ≡ q
unique_ceiling n d p q a b c e = elim (dec_lt p q) [
  | yes l ↦ absurd (omega (arith, next_multiple d p q l))
  | no m ↦ elim (dec_lt q p) [
    | yes l ↦ absurd (omega (arith, next_multiple d q p l))
    | no k ↦ omega arith
  ]
]

-- The source's computation on the product `n`.
ceil_of : ℕ → ℕ → Result ScoreError ℕ
ceil_of n d =
    if d == 0
    then err zero_denominator
    else if leb d (n / 2 ^ 64)
    then err estimate_overflow
    else round_up (n / d) (n % d)

-- A quotient by more than the high word fits a uint64.
quotient_fits : (n d : ℕ) → d ≢ 0 → n / 2 ^ 64 < d → n / d ≤ u64_max
quotient_fits n d h l = elim (dec_lt u64_max (n / d)) [
  | yes g ↦ absurd (omega (arith, mul-le-mul_right d g, div-exact n d h))
  | no g ↦ omega arith
]

round_up-cases :
    (k r q : ℕ)
    → round_up k r ≡ ok q
    → ((r ≡ 0) × (q ≡ k)) ⊎ ((0 < r) × (k ≢ u64_max) × (q ≡ k + 1))
round_up-cases k r q h = ground arith

round_up_sound :
    (n d k r q : ℕ)
    → k * d + r ≡ n
    → r < d
    → k ≤ u64_max
    → round_up k r ≡ ok q
    → (q ≤ u64_max) × (n ≤ q * d) × (q * d < n + d)
round_up_sound n d k r q e l f h = elim (round_up-cases k r q h) [
  | inl c ↦ (omega arith, omega (arith, ap (λ x. x * d) c.1), omega (arith, ap (λ x. x * d) c.1))
  | inr c ↦
      let s : q * d ≡ k * d + d = ap (λ x. x * d) c.2 ∙ omega arith in
      (omega arith, omega arith, omega arith)
]

ceil_of_sound :
    (n d q : ℕ) → ceil_of n d ≡ ok q → (d ≢ 0) × (q ≤ u64_max) × (n ≤ q * d) × (q * d < n + d)
unfolding ceil_of
ceil_of_sound n d q h =
    ground (arith, quotient_fits n d, div-exact n d, round_up_sound n d (n / d) (n % d) q)

-- A ceiling that fits a uint64 leaves the high word below the denominator.
high_fits : (n d q : ℕ) → q ≤ u64_max → n ≤ q * d → d ≢ 0 → n / 2 ^ 64 < d
high_fits n d q f h z = omega (arith, mul-le-mul_right d f)

round_up_complete :
    (n d k r q : ℕ)
    → k * d + r ≡ n
    → r < d
    → q ≤ u64_max
    → n ≤ q * d
    → q * d < n + d
    → round_up k r ≡ ok q
round_up_complete n d k r q e l f a b = elim (dec_lt 0 r) [
  | yes g ↦
      let s : q ≡ k + 1 = unique_ceiling n d q (k + 1) a b (omega arith) (omega arith) in
      ground arith
  | no g ↦ let s : q ≡ k = unique_ceiling n d q k a b (omega arith) (omega arith) in ground arith
]

ceil_of_complete :
    (n d q : ℕ) → d ≢ 0 → q ≤ u64_max → n ≤ q * d → q * d < n + d → ceil_of n d ≡ ok q
unfolding ceil_of
ceil_of_complete n d q z f a b =
    ground (arith, high_fits n d q, div-exact n d, round_up_complete n d (n / d) (n % d) q)

-- For any two factors and any denominator, the estimate is `q` exactly when the denominator is not
-- zero, `q` is the quotient rounded up, and it fits a uint64; otherwise it is an error.
pub multiply_divide_ceil-exact :
    (a b d q : ℕ)
    → (multiply_divide_ceil a b d ≡ ok q)
      ↔ ((d ≢ 0) × (q ≤ u64_max) × (a * b ≤ q * d) × (q * d < a * b + d))
unfolding multiply_divide_ceil ceil_of
multiply_divide_ceil-exact a b d q =
    let words : a * b / 2 ^ 64 * 2 ^ 64 + a * b % 2 ^ 64 ≡ a * b = omega arith in
    (
      λ h. ceil_of_sound (a * b) d q (rw words at h),
      λ c. rw words (ceil_of_complete (a * b) d q c.0 c.1 c.2 c.3),
    )

-- The throughput's two parts, of the whole quotient and of the remainder.
floor_parts : (p e : ℕ) → e ≢ 0 → p * 1000000 / e ≡ p / e * 1000000 + p % e * 1000000 / e
floor_parts p e h =
    let f = div-exact p e h in
    let w : p * 1000000 ≡ p / e * 1000000 * e + p % e * 1000000 = omega arith in
    ap (λ x. x / e) w ∙ mul-add-div_right (omega arith) _ _

small_part : (r e : ℕ) → r < e → r * 1000000 / e ≤ 1000000
small_part r e h =
    let g = div-exact (r * 1000000) e (omega arith) in
    elim (dec_lt 1000000 (r * 1000000 / e)) [
      | yes m ↦ absurd (omega (arith, next_multiple e 1000000 (r * 1000000 / e) m))
      | no m ↦ omega arith
    ]

-- For every payload and every positive elapsed time, the throughput is the quotient of a million
-- times the payload, rounded down and held to the greatest uint64.
pub bytes_per_second-exact :
    (payload elapsed : ℕ)
    → elapsed ≢ 0
    → bytes_per_second payload elapsed ≡ min (payload * 1000000 / elapsed) u64_max
unfolding bytes_per_second
bytes_per_second-exact p e h =
    let s = p % e * 1000000 in
    let words : s / 2 ^ 64 * 2 ^ 64 + s % 2 ^ 64 ≡ s = omega arith in
    let small = small_part (p % e) e (mod-lt p (omega arith)) in
    rw words (rw (floor_parts p e h) (ground arith))
