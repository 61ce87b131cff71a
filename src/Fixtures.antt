-- ===== src/Fixtures.antt =====
-- Test data that the tests of several parts share: two workers, and a plan of two stages.
use mlx_swarm.Base.{String, true, false, [], ◌∷◌}
use mlx_swarm.Base.Int.{pos}
use mlx_swarm.Registry.Types.{
  healthy, Transport, Capabilities, Status, Registration, Worker, Inventory,
}
use mlx_swarm.Generation.Types.{
  tensor, sampled_token, ExecutionModel, ExecutionStage, ExecutionPlan,
}
use mlx_swarm.Placement.Types.{
  Candidate, StageCostEstimate, PlanScoringRequest, ProfileSnapshot, StagePlanEvaluation,
  PlanEvaluation, zero_compute, zero_transfer, zero_score,
}

abbrev pub framed : Transport
framed = record {
  protocol = "h2";
  tensor_encodings = "raw" ∷ [];
  max_request_bytes = pos 1024;
  tls = true;
}

abbrev pub capabilities_of_two : Capabilities
capabilities_of_two = record {
  backend = "mlx";
  runtime = "swift";
  os = "macos";
  architecture = "arm64";
  device = "m4";
  physical_memory_bytes = 1000;
  adapters = "qwen" ∷ [];
  operations =
      "closeSequence" ∷ "decode" ∷ "detokenize" ∷ "loadShard" ∷ "modelInfo" ∷ "openSequence"
      ∷ "prefill" ∷ "state" ∷ "tokenize" ∷ [];
  checkpoint_fingerprints = [];
  admission = record {
    max_concurrent_requests = pos 2;
    max_open_sequences_per_shard = pos 2;
    retained_byte_budget = 100;
  };
  transports = framed ∷ [];
}

abbrev pub idle_status : Status
idle_status = record {
  health = healthy;
  available_memory_bytes = 500;
  memory_pressure_bytes = 0;
  open_sequence_count = pos 0;
  retained_bytes = 0;
  restart_count = pos 0;
  recent_failure_count = pos 0;
  worker_observation_sequence = 7;
  retained_shards = [];
}

abbrev pub registration_with : String → String → String → Registration
registration_with id instance_id endpoint = record {
  schema_version = pos 1;
  id = id;
  instance_id = instance_id;
  endpoint = endpoint;
  capabilities = capabilities_of_two;
  status = idle_status;
}

abbrev pub worker_with : Registration → Worker
worker_with r = record {
  registration = r;
  registered_at = 1;
  last_seen = 1;
  expires_at = 100;
  status_observed_at = 1;
}

abbrev pub worker_a : Worker
worker_a = worker_with (registration_with "a" "a1" "http://a")

abbrev pub worker_b : Worker
worker_b = worker_with (registration_with "b" "b1" "http://b")

abbrev pub two_workers : Inventory
two_workers = record {
  schema_version = pos 1;
  revision = 2;
  generated_at = 2;
  lease_ttl_millis = pos 30000;
  workers = worker_a ∷ worker_b ∷ [];
}

abbrev pub small_model : ExecutionModel
small_model = record { id = "m"; checkpoint_fingerprint = "f"; layer_count = pos 4 }

abbrev pub first_stage : ExecutionStage
first_stage = record {
  name = "s0";
  target_id = "a";
  shard_id = "";
  layer_start = pos 0;
  layer_end = pos 2;
  owns_input = true;
  owns_output = false;
  response_mode = tensor;
}

abbrev pub last_stage : ExecutionStage
last_stage = record {
  name = "s1";
  target_id = "b";
  shard_id = "";
  layer_start = pos 2;
  layer_end = pos 4;
  owns_input = false;
  owns_output = true;
  response_mode = sampled_token;
}

-- The two stages with shard IDs, in a plan.
abbrev pub sharded_plan : ExecutionPlan
sharded_plan = record {
  schema_version = "2";
  revision = "r";
  inventory_revision = "2";
  model = small_model;
  stages = record first_stage { shard_id = "x" } ∷ record last_stage { shard_id = "y" } ∷ [];
}

abbrev pub candidate_on : String → Candidate
candidate_on id = record {
  worker_id = id;
  endpoint = "";
  eligible = true;
  reuses_retained_shard = false;
  retained_shard_id = "";
  required_additional_memory_bytes = 60;
  rejections = [];
}

abbrev pub stage_cost : StageCostEstimate
stage_cost = record {
  load_memory_bytes = 50;
  sequence_memory_bytes = 10;
  prefill_wire_bytes = 100;
  decode_wire_bytes_per_step = 20;
  fallback_prefill_compute_micros = 300;
  fallback_decode_compute_micros_per_step = 30;
}

abbrev pub scoring_request : PlanScoringRequest
scoring_request = record {
  adapter = "qwen";
  transport = record { protocol = "h2"; tensor_encoding = "raw"; require_tls = true };
  coordinator_id = "c";
  coordinator_instance_id = "c1";
  status_max_age_millis = pos 0;
  prefill_input_tokens = 8;
  decode_steps = 4;
  fallback_rtt_micros = 100;
  fallback_bytes_per_second = 1000000;
  stages = stage_cost ∷ stage_cost ∷ [];
}

abbrev pub evaluated_stage : ExecutionStage → Candidate → StagePlanEvaluation
evaluated_stage s c = record {
  index = 0;
  stage = s;
  eligibility = c ∷ [];
  selected_candidate = c;
  compute = zero_compute;
  transfer = zero_transfer;
}

abbrev pub two_stage_evaluation : PlanEvaluation
two_stage_evaluation = record {
  schema_version = pos 1;
  inventory_revision = 2;
  profile_revision = 0;
  profile_max_age_millis = pos 1000;
  generated_at = 2;
  plan = sharded_plan;
  request = scoring_request;
  eligible = true;
  stages =
      evaluated_stage first_stage (candidate_on "a")
      ∷ evaluated_stage last_stage (candidate_on "b")
      ∷ [];
  score = zero_score;
}

abbrev pub empty_profile : ProfileSnapshot
empty_profile = record {
  schema_version = pos 1;
  revision = 0;
  generated_at = 2;
  max_age_millis = pos 1000;
  max_samples_per_series = pos 4;
  max_series = pos 4;
  links = [];
  compute = [];
}
