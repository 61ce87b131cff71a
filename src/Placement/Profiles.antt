-- ===== src/Placement/Profiles.antt =====
-- internal/placement/scoring.go: the validation of a profile snapshot.
use mlx_swarm.Base.{
  ℕ, ◌+◌, ◌-◌, ◌*◌, ◌/◌, ◌^◌, String, Bool, true, false, not, ◌&&◌, ◌||◌, List, [], ◌∷◌, Option,
  none, some, length, first_fault, and_also, ltb, leb, ◌==◌, if◌then◌else◌, is_yes, ℕ_discrete,
}
use mlx_swarm.Base.Int.{ℤ, pos, pos_part, ltb_ℤ, leb_ℤ, eqb_ℤ, ℤ-discrete}
use mlx_swarm.Base.Text.{string_discrete, is_empty_string, trim_space, byte_length}
use mlx_swarm.Base.GoMap.{Key}
use mlx_swarm.Placement.Types.{
  ValueDistribution, LinkKey, ComputeKey, LinkProfile, ComputeProfile, ProfileSnapshot,
}

unfoldable pub link_key_discrete : Discrete LinkKey
link_key_discrete = hlevel string_discrete

unfoldable pub compute_key_discrete : Discrete ComputeKey
compute_key_discrete = hlevel (string_discrete, ℤ-discrete)

instance abbrev pub link_key_key : Key LinkKey
link_key_key = record { same? = link_key_discrete }

instance abbrev pub compute_key_key : Key ComputeKey
compute_key_key = record { same? = compute_key_discrete }

pub data ProfileFault : Type 0 where
  incomplete_metadata invalid_bounds invalid_label invalid_link : ProfileFault
  empty_distribution inconsistent_distribution duplicated_series invalid_compute : ProfileFault

-- `maxProfileLabelBytes`.
abbrev pub max_label_bytes : ℕ
max_label_bytes = 1024

-- `validateSnapshotLabels`.
unfoldable pub is_label : String → Bool
is_label s =
    not (is_empty_string s)
    && leb (byte_length s) max_label_bytes
    && is_yes (string_discrete (trim_space s) s)

unfoldable pub all_labels : List String → Bool
unfolding is_label
all_labels [] = true
all_labels (s ∷ ss) = let rest = all_labels ss in is_label s && rest

abbrev pub zero_distribution : ValueDistribution
zero_distribution = record { count = pos 0; minimum = 0; p50 = 0; p95 = 0; maximum = 0 }

unfoldable pub distribution_discrete : Discrete ValueDistribution
distribution_discrete = hlevel (ℤ-discrete, ℕ_discrete)

-- `validateDistribution`.
unfoldable pub validate_distribution : ValueDistribution → Bool → ℤ → Option ProfileFault
unfolding distribution_discrete
validate_distribution d allow_empty max_count =
    if eqb_ℤ d.count (pos 0)
    then if allow_empty && is_yes (distribution_discrete d zero_distribution)
      then none
      else some empty_distribution
    else if ltb_ℤ d.count (pos 0)
        || ltb_ℤ max_count d.count
        || (d.minimum == 0)
        || ltb d.p50 d.minimum
        || ltb d.p95 d.p50
        || ltb d.maximum d.p95
    then some inconsistent_distribution
    else none

-- Before the cutoff, `generated_at` less the maximum age, or after the generation.
abbrev pub is_stale : ProfileSnapshot → ℕ → Bool
is_stale p at =
    ltb (at + pos_part p.max_age_millis * 1000000) p.generated_at || ltb p.generated_at at

abbrev pub series_seen : {K : Type 0} ⦃key : Key K⦄ → K → List K → Bool
series_seen k [] = false
series_seen ⦃key⦄ k (j ∷ seen) = let rest = series_seen k seen in is_yes (key.same? j k) || rest

unfoldable pub link_fault : ProfileSnapshot → List LinkKey → LinkProfile → Option ProfileFault
link_fault p seen l =
    and_also
      (first_fault (
        (
          not (
              all_labels (
                l.source_id ∷ l.source_instance_id ∷ l.target_id ∷ l.target_instance_id ∷ l.protocol
                ∷ l.tensor_encoding ∷ [])),
          invalid_label,
        )
        ∷ (
          is_yes (string_discrete l.source_id l.target_id) || is_stale p l.latest_observed_at,
          invalid_link,
        )
        ∷ []))
      (and_also (validate_distribution l.rtt_micros false p.max_samples_per_series) (
        and_also (validate_distribution l.effective_bytes_per_second true p.max_samples_per_series)
          (if series_seen l.key seen then some duplicated_series else none)))

unfoldable pub compute_fault :
    ProfileSnapshot → List ComputeKey → ComputeProfile → Option ProfileFault
compute_fault p seen c =
    and_also
      (first_fault (
        (
          not (
              all_labels (
                c.worker_id ∷ c.worker_instance_id ∷ c.backend ∷ c.model.id
                ∷ c.model.checkpoint_fingerprint ∷ c.operation ∷ [])),
          invalid_label,
        )
        ∷ (
          leb_ℤ c.model.layer_count (pos 0)
              || ltb_ℤ c.layer_start (pos 0)
              || leb_ℤ c.layer_end c.layer_start
              || ltb_ℤ c.model.layer_count c.layer_end
              || is_stale p c.latest_observed_at,
          invalid_compute,
        )
        ∷ []))
      (and_also (validate_distribution c.input_token_count false p.max_samples_per_series) (
        and_also (validate_distribution c.compute_micros false p.max_samples_per_series)
          (if series_seen c.key seen then some duplicated_series else none)))

-- The first fault of some profiles, each with the keys of those before it.
unfoldable pub profiles_fault :
    {K P : Type 0}
    → (List K → P → Option ProfileFault)
    → (P → K)
    → List K
    → List P
    → Option ProfileFault
profiles_fault fault key_of seen [] = none
profiles_fault fault key_of seen (p ∷ ps) =
    and_also (fault seen p) (profiles_fault fault key_of (key_of p ∷ seen) ps)

-- `validateProfileSnapshot`.
unfoldable pub validate_profile_snapshot : ProfileSnapshot → Option ProfileFault
validate_profile_snapshot p =
    and_also
      (first_fault (
        (
          (p.generated_at == 0)
              || leb_ℤ p.max_age_millis (pos 0)
              || leb_ℤ p.max_samples_per_series (pos 0)
              || leb_ℤ p.max_series (pos 0),
          incomplete_metadata,
        )
        ∷ (
          ltb_ℤ (pos ((2 ^ 63 - 1) / 1000000)) p.max_age_millis
              || ltb_ℤ p.max_series (pos (length p.links + length p.compute)),
          invalid_bounds,
        )
        ∷ []))
      (and_also (profiles_fault (link_fault p) (λ l. l.key) [] p.links)
        (profiles_fault (compute_fault p) (λ c. c.key) [] p.compute))
