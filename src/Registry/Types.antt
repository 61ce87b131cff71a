-- ===== src/Registry/Types.antt =====
-- The membership records of internal/registry/types.go. A Go `int` is an integer, a `uint64` a
-- natural number, a `time.Time` its nanoseconds since Go's zero time, and a `time.Duration` an
-- integer of nanoseconds.
use mlx_swarm.Base.{ℕ, String, Bool, Option, List, ℕ_discrete}
use mlx_swarm.Base.Int.{ℤ, ℤ-discrete}
use mlx_swarm.Base.Text.{string_discrete}

-- `Health` is a string in the source; only three values are supported.
pub data Health : Type 0 where
  healthy degraded draining : Health
  unsupported : String → Health

pub record Transport : Type 0 where
  pub protocol : String
  pub tensor_encodings : List String
  pub max_request_bytes : ℤ
  pub tls : Bool

pub record AdmissionLimits : Type 0 where
  pub max_concurrent_requests : ℤ
  pub max_open_sequences_per_shard : ℤ
  pub retained_byte_budget : ℕ

pub record Capabilities : Type 0 where
  pub backend : String
  pub runtime : String
  pub os : String
  pub architecture : String
  pub device : String
  pub physical_memory_bytes : ℕ
  pub adapters : List String
  pub operations : List String
  pub checkpoint_fingerprints : List String
  pub admission : AdmissionLimits
  pub transports : List Transport

pub record RetainedShard : Type 0 where
  pub id : String
  pub model_id : String
  pub checkpoint_fingerprint : String
  pub layer_start : ℤ
  pub layer_end : ℤ
  pub owns_input : Bool
  pub owns_output : Bool
  pub memory_bytes : ℕ
  pub open_sequence_count : ℤ

pub record Status : Type 0 where
  pub health : Health
  pub available_memory_bytes : ℕ
  pub memory_pressure_bytes : ℕ
  pub open_sequence_count : ℤ
  pub retained_bytes : ℕ
  pub restart_count : ℤ
  pub recent_failure_count : ℤ
  pub worker_observation_sequence : ℕ
  pub retained_shards : List RetainedShard

pub record Registration : Type 0 where
  pub schema_version : ℤ
  pub id : String
  pub instance_id : String
  pub endpoint : String
  pub capabilities : Capabilities
  pub status : Status

pub record Heartbeat : Type 0 where
  pub schema_version : ℤ
  pub instance_id : String
  pub status : Option Status

pub record Worker : Type 0 where
  pub registration : Registration
  pub open registration use *
  pub registered_at : ℕ
  pub last_seen : ℕ
  pub expires_at : ℕ
  pub status_observed_at : ℕ

pub record Mutation : Type 0 where
  pub inventory_revision : ℕ
  pub worker : Worker

pub record Inventory : Type 0 where
  pub schema_version : ℤ
  pub revision : ℕ
  pub generated_at : ℕ
  pub lease_ttl_millis : ℤ
  pub workers : List Worker

-- `reflect.DeepEqual` on registrations and on statuses, which compares their contents.
unfoldable pub registration_discrete : Discrete Registration
registration_discrete = hlevel (string_discrete, ℕ_discrete, ℤ-discrete)

unfoldable pub status_discrete : Discrete Status
status_discrete = hlevel (string_discrete, ℕ_discrete, ℤ-discrete)
