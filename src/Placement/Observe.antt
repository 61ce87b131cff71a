-- ===== src/Placement/Observe.antt =====
-- internal/placement/profile.go: the observations, and their normalization.
use mathlib.Core.Bool.{xor}
use mlx_swarm.Base.{String, ◌||◌, ltb, ◌==◌, if◌then◌else◌, is_yes}
use mlx_swarm.Base.Int.{pos, ltb_ℤ, leb_ℤ}
use mlx_swarm.Base.Text.{string_discrete, is_empty_string, trim_space, byte_length}
use mlx_swarm.Base.Results.{Result, ok, err, ◌>>=◌, ◌>>◌, refuse_if}
use mlx_swarm.Placement.Types.{LinkKey, ComputeKey}
use mlx_swarm.Placement.Profiles.{max_label_bytes}
use mlx_swarm.Placement.Samples.{LinkSample, ComputeSample}

-- The identity fields of an observation are those of the key of its series, its measurements those
-- of the sample.
pub record LinkObservation : Type 0 where
  pub key : LinkKey
  pub open key use *
  pub sample : LinkSample
  pub open sample use *

pub record ComputeObservation : Type 0 where
  pub key : ComputeKey
  pub open key use *
  pub sample : ComputeSample
  pub open sample use *

pub data ProfileError : Type 0 where
  label_too_long label_required same_endpoints no_time_or_rtt half_transfer : ProfileError
  invalid_range no_time_or_values no_acceptance_time in_the_future already_stale : ProfileError
  series_limit revision_exhausted empty_batch no_snapshot_time rewind : ProfileError
  invalid_max_age invalid_limits : ProfileError

-- `normalizeProfileLabel`.
unfoldable pub normalize_profile_label : String → Result ProfileError String
normalize_profile_label value =
    if ltb max_label_bytes (byte_length value)
    then err label_too_long
    else if is_empty_string (trim_space value)
    then err label_required
    else ok (trim_space value)

-- `normalizeLinkObservation`, which leaves the sample as it is.
unfoldable pub normalize_link_observation : LinkObservation → Result ProfileError LinkObservation
unfolding normalize_profile_label
normalize_link_observation o = do
  source_id ← normalize_profile_label o.source_id
  target_id ← normalize_profile_label o.target_id
  source_instance_id ← normalize_profile_label o.source_instance_id
  target_instance_id ← normalize_profile_label o.target_instance_id
  refuse_if (is_yes (string_discrete source_id target_id)) same_endpoints
  protocol ← normalize_profile_label o.protocol
  tensor_encoding ← normalize_profile_label o.tensor_encoding
  refuse_if ((o.observed_at == 0) || (o.rtt_micros == 0)) no_time_or_rtt
  refuse_if (xor (o.payload_bytes == 0) (o.elapsed_micros == 0)) half_transfer
  ok (record {
    key = record {
      source_id = source_id;
      source_instance_id = source_instance_id;
      target_id = target_id;
      target_instance_id = target_instance_id;
      protocol = protocol;
      tensor_encoding = tensor_encoding;
    };
    sample = o.sample;
  })

-- `normalizeComputeObservation`.
unfoldable pub normalize_compute_observation :
    ComputeObservation → Result ProfileError ComputeObservation
unfolding normalize_profile_label
normalize_compute_observation o = do
  worker_id ← normalize_profile_label o.worker_id
  worker_instance_id ← normalize_profile_label o.worker_instance_id
  backend ← normalize_profile_label o.backend
  model_id ← normalize_profile_label o.model.id
  fingerprint ← normalize_profile_label o.model.checkpoint_fingerprint
  operation ← normalize_profile_label o.operation
  refuse_if
      (leb_ℤ o.model.layer_count (pos 0)
        || ltb_ℤ o.layer_start (pos 0)
        || leb_ℤ o.layer_end o.layer_start
        || ltb_ℤ o.model.layer_count o.layer_end)
      invalid_range
  refuse_if ((o.observed_at == 0) || (o.input_token_count == 0) || (o.compute_micros == 0))
      no_time_or_values
  ok (record {
    key = record {
      worker_id = worker_id;
      worker_instance_id = worker_instance_id;
      backend = backend;
      model = record {
        id = model_id;
        checkpoint_fingerprint = fingerprint;
        layer_count = o.model.layer_count;
      };
      operation = operation;
      layer_start = o.layer_start;
      layer_end = o.layer_end;
    };
    sample = o.sample;
  })
