-- ===== src/Placement/Normalized.antt =====
-- What a normalized observation is.
use mathlib.Core.Path.{subst}
use mathlib.Core.Bool.{xor}
use mlx_swarm.Base.{◌≡◌, ◌≢◌, String, Bool, true, false, ◌||◌, [], ◌∷◌, arith, ◌==◌, is_yes}
use mlx_swarm.Base.Int.{pos, ltb_ℤ, leb_ℤ}
use mlx_swarm.Base.Text.{differing_strings, string_discrete}
use mlx_swarm.Base.Trim.{byte_length-trim_space, trim_space_idem}
use mlx_swarm.Base.Results.{ok, refuse_if, >>=-ok, refuse_if-ok, ok-injective}
use mlx_swarm.Generation.Sound.{xor-false}
use mlx_swarm.Placement.Types.{LinkKey, ComputeKey}
use mlx_swarm.Placement.Profiles.{is_label, all_labels}
use mlx_swarm.Placement.Samples.{LinkSample, ComputeSample}
use mlx_swarm.Placement.Observe.{
  LinkObservation, ComputeObservation, same_endpoints, no_time_or_rtt, half_transfer, invalid_range,
  no_time_or_values, normalize_profile_label, normalize_link_observation,
  normalize_compute_observation,
}

-- The identity of a link: six labels, and two endpoints.
pub record LinkNamed (k : LinkKey) : Type 0 where
  pub labels :
      all_labels (
        k.source_id ∷ k.source_instance_id ∷ k.target_id ∷ k.target_instance_id ∷ k.protocol
        ∷ k.tensor_encoding ∷ [])
      ≡ true
  pub endpoints : k.source_id ≢ k.target_id

-- A measurement of a link: a time, a round trip, and a payload with its elapsed time or neither.
pub record LinkMeasured (s : LinkSample) : Type 0 where
  pub timed : s.observed_at ≢ 0
  pub rtt : s.rtt_micros ≢ 0
  pub transfer : (s.payload_bytes == 0) ≡ (s.elapsed_micros == 0)

pub record ComputeNamed (k : ComputeKey) : Type 0 where
  pub labels :
      all_labels (
        k.worker_id ∷ k.worker_instance_id ∷ k.backend ∷ k.model.id ∷ k.model.checkpoint_fingerprint
        ∷ k.operation ∷ [])
      ≡ true
  pub range :
      (leb_ℤ k.model.layer_count (pos 0)
        || ltb_ℤ k.layer_start (pos 0)
        || leb_ℤ k.layer_end k.layer_start
        || ltb_ℤ k.model.layer_count k.layer_end)
      ≡ false

pub record ComputeMeasured (s : ComputeSample) : Type 0 where
  pub timed : s.observed_at ≢ 0
  pub tokens : s.input_token_count ≢ 0
  pub micros : s.compute_micros ≢ 0

normalize_profile_label-is_label :
    (v s : String) → normalize_profile_label v ≡ ok s → is_label s ≡ true
unfolding normalize_profile_label is_label
normalize_profile_label-is_label v s h = ground (arith, byte_length-trim_space v, trim_space_idem v)

all_six :
    (a b c d e f : String)
    → is_label a ≡ true
    → is_label b ≡ true
    → is_label c ≡ true
    → is_label d ≡ true
    → is_label e ≡ true
    → is_label f ≡ true
    → all_labels (a ∷ b ∷ c ∷ d ∷ e ∷ f ∷ []) ≡ true
unfolding all_labels
all_six a b c d e f p q r s t u = simp (p, q, r, s, t, u)

-- An accepted link observation names its series and is a measurement.
pub normalize_link_observation-ok :
    (given o : LinkObservation)
    → normalize_link_observation given ≡ ok o
    → LinkNamed o.key × LinkMeasured o.sample
unfolding normalize_link_observation
normalize_link_observation-ok given o h =
    let a = >>=-ok (normalize_profile_label given.source_id) _ h in
    let b = >>=-ok (normalize_profile_label given.target_id) _ a.2 in
    let c = >>=-ok (normalize_profile_label given.source_instance_id) _ b.2 in
    let d = >>=-ok (normalize_profile_label given.target_instance_id) _ c.2 in
    let x = >>=-ok (refuse_if (is_yes (string_discrete a.0 b.0)) same_endpoints) _ d.2 in
    let e = >>=-ok (normalize_profile_label given.protocol) _ x.2 in
    let f = >>=-ok (normalize_profile_label given.tensor_encoding) _ e.2 in
    let y =
      >>=-ok (refuse_if ((given.observed_at == 0) || (given.rtt_micros == 0)) no_time_or_rtt) _
        f.2 in
    let z =
      >>=-ok (refuse_if (xor (given.payload_bytes == 0) (given.elapsed_micros == 0)) half_transfer)
        _ y.2 in
    let label = normalize_profile_label-is_label in
    subst (λ u. LinkNamed u.key × LinkMeasured u.sample) (ok-injective z.2)
      (
        record {
          labels =
              all_six a.0 c.0 b.0 d.0 e.0 f.0 (label _ _ a.1) (label _ _ c.1) (label _ _ b.1)
                (label _ _ d.1) (label _ _ e.1) (label _ _ f.1);
          endpoints = differing_strings a.0 b.0 (refuse_if-ok _ same_endpoints x.1);
        },
        record {
          timed = ground (
            arith,
            refuse_if-ok ((given.observed_at == 0) || (given.rtt_micros == 0)) no_time_or_rtt y.1,
          );
          rtt = ground (
            arith,
            refuse_if-ok ((given.observed_at == 0) || (given.rtt_micros == 0)) no_time_or_rtt y.1,
          );
          transfer = (xor-false _ _).0 (refuse_if-ok _ half_transfer z.1);
        },
      )

-- An accepted compute observation names its series and is a measurement.
pub normalize_compute_observation-ok :
    (given o : ComputeObservation)
    → normalize_compute_observation given ≡ ok o
    → ComputeNamed o.key × ComputeMeasured o.sample
unfolding normalize_compute_observation
normalize_compute_observation-ok given o h =
    let range : Bool =
      leb_ℤ given.model.layer_count (pos 0)
      || ltb_ℤ given.layer_start (pos 0)
      || leb_ℤ given.layer_end given.layer_start
      || ltb_ℤ given.model.layer_count given.layer_end in
    let values : Bool =
      (given.observed_at == 0) || (given.input_token_count == 0) || (given.compute_micros == 0) in
    let a = >>=-ok (normalize_profile_label given.worker_id) _ h in
    let b = >>=-ok (normalize_profile_label given.worker_instance_id) _ a.2 in
    let c = >>=-ok (normalize_profile_label given.backend) _ b.2 in
    let d = >>=-ok (normalize_profile_label given.model.id) _ c.2 in
    let e = >>=-ok (normalize_profile_label given.model.checkpoint_fingerprint) _ d.2 in
    let f = >>=-ok (normalize_profile_label given.operation) _ e.2 in
    let x = >>=-ok (refuse_if range invalid_range) _ f.2 in
    let y = >>=-ok (refuse_if values no_time_or_values) _ x.2 in
    let label = normalize_profile_label-is_label in
    let measured = refuse_if-ok values no_time_or_values y.1 in
    subst (λ u. ComputeNamed u.key × ComputeMeasured u.sample) (ok-injective y.2)
      (
        record {
          labels =
              all_six a.0 b.0 c.0 d.0 e.0 f.0 (label _ _ a.1) (label _ _ b.1) (label _ _ c.1)
                (label _ _ d.1) (label _ _ e.1) (label _ _ f.1);
          range = refuse_if-ok range invalid_range x.1;
        },
        record {
          timed = ground (arith, measured);
          tokens = ground (arith, measured);
          micros = ground (arith, measured);
        },
      )
