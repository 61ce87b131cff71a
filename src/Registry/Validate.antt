-- ===== src/Registry/Validate.antt =====
-- internal/registry/registry.go: the validation of identities, registrations and statuses.
use Prim.Native.Char.{code}
use mlx_swarm.Base.{
  ℕ, suc, ◌+◌, String, Bool, true, false, not, ◌&&◌, ◌||◌, List, [], ◌∷◌, Option, none, some,
  length, first_fault, and_also, ltb, leb, ◌==◌, if◌then◌else◌, is_yes,
}
use mlx_swarm.Base.Int.{ℤ, pos, ltb_ℤ, leb_ℤ, eqb_ℤ, add_int}
use mlx_swarm.Base.Text.{string_discrete, is_empty_string, trim_space}
use mlx_swarm.Registry.Types.{
  Health, unsupported, Transport, Capabilities, RetainedShard, Status, Registration,
}

pub data RegistryError : Type 0 where
  wrong_schema invalid_id invalid_instance invalid_endpoint : RegistryError
  backend_required runtime_required platform_required device_required memory_required :
      RegistryError
  adapters_required operations_required requests_required sequences_required : RegistryError
  budget_required transports_required : RegistryError
  incomplete_transport : ℕ → RegistryError
  duplicated_transport : String → RegistryError
  unsupported_health memory_exceeds_physical negative_counters wrong_sequence_count : RegistryError
  incomplete_shard : ℕ → RegistryError
  duplicated_shard : String → RegistryError
  duplicate_worker duplicate_instance duplicate_endpoint : RegistryError
  worker_not_found stale_instance lease_expired invalid_identity : RegistryError

-- What net/url says of an endpoint: its canonical form, and whether it parses to an http(s) URL
-- with a host and without credentials, a query or a fragment.
pub record Urls : Type 0 where
  pub canonical_endpoint : String → String
  pub is_endpoint : String → Bool

-- `SchemaVersion`.
abbrev pub schema_version : ℤ
schema_version = pos 1

-- Letters, digits, '.', '_', ':' and '-'.
unfoldable pub is_identity_char : ℕ → Bool
is_identity_char c =
    (leb 97 c && leb c 122)
    || (leb 65 c && leb c 90)
    || (leb 48 c && leb c 57)
    || c == 46
    || c == 95
    || c == 58
    || c == 45

unfoldable pub all_identity : String → Bool
unfolding is_identity_char
all_identity String.[] = true
all_identity (String.◌∷◌ c s) = let rest = all_identity s in is_identity_char (code c) && rest

-- The bytes of a string of ASCII characters, which are its characters.
unfoldable pub string_length : String → ℕ
string_length String.[] = 0
string_length (String.◌∷◌ c s) = suc (string_length s)

-- The source tests the bytes first; a string that is not ASCII fails the second test in any case.
unfoldable pub valid_identity_part : String → Bool
unfolding all_identity string_length
valid_identity_part s = not (is_empty_string s) && leb (string_length s) 128 && all_identity s

unfoldable pub validate_identity : String → ℤ → String → Option RegistryError
unfolding valid_identity_part
validate_identity id schema instance_id = first_fault (
    (not (eqb_ℤ schema schema_version), wrong_schema)
    ∷ (not (valid_identity_part id), invalid_id)
    ∷ (not (valid_identity_part instance_id), invalid_instance)
    ∷ [])

abbrev pub is_supported_health : Health → Bool
is_supported_health (unsupported s) = false
is_supported_health h = true

-- The loop over the retained shards, with the ID of the shard before and the sum so far; it
-- returns the error, or the sum.
pub data Summed : Type 0 where
  sum : ℤ → Summed
  shard_fault : RegistryError → Summed

abbrev pub is_id_before : Option String → String → Bool
is_id_before none id = false
is_id_before (some before) id = is_yes (string_discrete before id)

unfoldable pub sum_shards : ℕ → Option String → ℤ → List RetainedShard → Summed
sum_shards index before total [] = sum total
sum_shards index before total (s ∷ ss) =
    let rest = sum_shards (index + 1) (some s.id) (add_int total s.open_sequence_count) ss in
    if is_empty_string s.id
      || is_empty_string s.model_id
      || is_empty_string s.checkpoint_fingerprint
      || ltb_ℤ s.layer_start (pos 0)
      || leb_ℤ s.layer_end s.layer_start
      || ltb_ℤ s.open_sequence_count (pos 0)
    then shard_fault (incomplete_shard index)
    else if is_id_before before s.id
    then shard_fault (duplicated_shard s.id)
    else rest

abbrev pub check_sum : ℤ → Summed → Option RegistryError
check_sum reported (shard_fault e) = some e
check_sum reported (sum total) = if eqb_ℤ reported total then none else some wrong_sequence_count

unfoldable pub validate_status : Status → Capabilities → Option RegistryError
unfolding sum_shards
validate_status s c =
    and_also
      (first_fault (
        (not (is_supported_health s.health), unsupported_health)
        ∷ (ltb c.physical_memory_bytes s.available_memory_bytes, memory_exceeds_physical)
        ∷ (
          ltb_ℤ s.open_sequence_count (pos 0)
              || ltb_ℤ s.restart_count (pos 0)
              || ltb_ℤ s.recent_failure_count (pos 0),
          negative_counters,
        )
        ∷ []))
      (check_sum s.open_sequence_count (sum_shards 0 none (pos 0) s.retained_shards))

abbrev pub is_blank : String → Bool
is_blank s = is_empty_string (trim_space s)

unfoldable pub validate_transports : ℕ → Option String → List Transport → Option RegistryError
validate_transports index before [] = none
validate_transports index before (t ∷ ts) =
    let rest = validate_transports (index + 1) (some t.protocol) ts in
    if is_blank t.protocol || (length t.tensor_encodings == 0) || leb_ℤ t.max_request_bytes (pos 0)
    then some (incomplete_transport index)
    else if is_id_before before t.protocol
    then some (duplicated_transport t.protocol)
    else rest

abbrev pub capability_faults : Capabilities → List (Bool × RegistryError)
capability_faults c =
    (is_blank c.backend, backend_required)
    ∷ (is_blank c.runtime, runtime_required)
    ∷ (is_blank c.os || is_blank c.architecture, platform_required)
    ∷ (is_blank c.device, device_required)
    ∷ (c.physical_memory_bytes == 0, memory_required)
    ∷ (length c.adapters == 0, adapters_required)
    ∷ (length c.operations == 0, operations_required)
    ∷ (leb_ℤ c.admission.max_concurrent_requests (pos 0), requests_required)
    ∷ (leb_ℤ c.admission.max_open_sequences_per_shard (pos 0), sequences_required)
    ∷ (c.admission.retained_byte_budget == 0, budget_required)
    ∷ (length c.transports == 0, transports_required)
    ∷ []

unfoldable pub validate_registration : Urls → Registration → Option RegistryError
unfolding validate_identity validate_transports validate_status
validate_registration urls r = and_also (validate_identity r.id r.schema_version r.instance_id) (
    and_also (if urls.is_endpoint r.endpoint then none else some invalid_endpoint) (
      and_also (first_fault (capability_faults r.capabilities)) (
        and_also (validate_transports 0 none r.capabilities.transports)
          (validate_status r.status r.capabilities))))
