-- ===== src/Placement/StoreHistory.antt =====
-- The stores that the operations reach from a new one.
use mathlib.Core.Path.{subst}
use mlx_swarm.Base.{
  ℕ, ◌≤◌, ◌%◌, ◌≡◌, Bool, false, not, ◌||◌, ◌==◌, List, arith, Bool-cases, inl, inr, ltb,
}
use mlx_swarm.Base.Int.{ℤ, pos, ltb_ℤ, pos_part}
use mlx_swarm.Base.Results.{ok, refuse_if, >>=-ok, refuse_if-ok, ok-injective}
use mlx_swarm.Placement.Observe.{
  LinkObservation, ComputeObservation, invalid_max_age, invalid_limits,
}
use mlx_swarm.Placement.Store.{
  ProfileConfig, ProfileStore, or_default, new_profile_store, series_count, observe_link,
  observe_compute_batch,
}
use mlx_swarm.Placement.Snapshot.{snapshot}
use mlx_swarm.Placement.WellFormed.{
  IsWellFormed, prune_expired-IsWellFormed, observe_link-IsWellFormed,
}
use mlx_swarm.Placement.Batches.{observe_compute_batch-IsWellFormed}

-- Any sequence of observations and snapshots, whether they are accepted or refused.
pub data Reached : ProfileStore → Type 0 where
  reached_new :
      (config : ProfileConfig) (s : ProfileStore) → new_profile_store config ≡ ok s → Reached s
  reached_link :
      (s : ProfileStore) (at : ℕ) (o : LinkObservation)
      → Reached s
      → Reached (observe_link s at o).1
  reached_batch :
      (s : ProfileStore) (at : ℕ) (os : List ComputeObservation)
      → Reached s
      → Reached (observe_compute_batch s at os).1
  reached_snapshot : (s : ProfileStore) (at : ℕ) → Reached s → Reached (snapshot s at).1

or_default-positive :
    (z : ℤ) (default : ℕ)
    → 1 ≤ default
    → ltb_ℤ (or_default z default) (pos 0) ≡ false
    → 1 ≤ pos_part (or_default z default)
or_default-positive z default h l = ground arith

age_valid :
    (z : ℤ)
    → (ltb_ℤ z (pos 1000000) || not (pos_part z % 1000000 == 0)) ≡ false
    → (1000000 ≤ pos_part z) × (pos_part z % 1000000 ≡ 0)
age_valid z h = ground arith

or_false : (a b : Bool) → (a || b) ≡ false → (a ≡ false) × (b ≡ false)
or_false a b h = ground arith

new_profile_store-IsWellFormed :
    (config : ProfileConfig) (s : ProfileStore) → new_profile_store config ≡ ok s → IsWellFormed s
unfolding new_profile_store series_count
new_profile_store-IsWellFormed config s h =
    let max_age = or_default config.max_age 300000000000 in
    let max_samples = or_default config.max_samples_per_series 64 in
    let max_series = or_default config.max_series 4096 in
    let bad_age : Bool = ltb_ℤ max_age (pos 1000000) || not (pos_part max_age % 1000000 == 0) in
    let bad_limits : Bool = ltb_ℤ max_samples (pos 0) || ltb_ℤ max_series (pos 0) in
    let a = >>=-ok (refuse_if bad_age invalid_max_age) _ h in
    let b = >>=-ok (refuse_if bad_limits invalid_limits) _ a.2 in
    let age = age_valid max_age (refuse_if-ok bad_age invalid_max_age a.1) in
    let split =
      or_false (ltb_ℤ max_samples (pos 0)) (ltb_ℤ max_series (pos 0))
        (refuse_if-ok bad_limits invalid_limits b.1) in
    subst IsWellFormed (ok-injective b.2) (record {
      some_samples = or_default-positive config.max_samples_per_series 64 (omega arith) split.0;
      some_series = or_default-positive config.max_series 4096 (omega arith) split.1;
      aged = age.0;
      whole = age.1;
      links_valid = record { unique = tt; entries = tt };
      compute_valid = record { unique = tt; entries = tt };
      bounded = omega arith;
      counted = omega arith;
    })

snapshot-IsWellFormed :
    (s : ProfileStore) (at : ℕ) → IsWellFormed s → IsWellFormed (snapshot s at).1
unfolding snapshot
snapshot-IsWellFormed s at w = elim (Bool-cases (at == 0)) [
  | inl e ↦ rw e w
  | inr e ↦ elim (Bool-cases (ltb at s.latest_accepted_at)) [
    | inl f ↦ rw e (rw f w)
    | inr f ↦ rw e (rw f (prune_expired-IsWellFormed s at w))
  ]
]

-- After any sequence of observations and snapshots of a new store, its bounds are positive, its
-- maximum age is a positive number of whole milliseconds, it has no more series than its limit and
-- each key has one, and every series has a sample, no more samples than the limit, valid labels, a
-- valid measurement in every sample, and no sample after the latest accepted time.
pub Reached-IsWellFormed : (s : ProfileStore) → Reached s → IsWellFormed s
Reached-IsWellFormed _ (reached_new config s h) = new_profile_store-IsWellFormed config s h
Reached-IsWellFormed _ (reached_link s at o r) =
    observe_link-IsWellFormed s at o (Reached-IsWellFormed s r)
Reached-IsWellFormed _ (reached_batch s at os r) =
    observe_compute_batch-IsWellFormed s at os (Reached-IsWellFormed s r)
Reached-IsWellFormed _ (reached_snapshot s at r) =
    snapshot-IsWellFormed s at (Reached-IsWellFormed s r)
