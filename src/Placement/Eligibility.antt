-- ===== src/Placement/Eligibility.antt =====
-- internal/placement/eligibility.go: the hard constraints that every worker of an inventory is put
-- to for one stage.
use mathlib.Core.Bool.{xor}
use mlx_swarm.Base.{
  ℕ, ◌+◌, ◌-◌, ◌*◌, ◌/◌, ◌^◌, String, Bool, true, false, not, ◌&&◌, ◌||◌, List, [], ◌∷◌, ◌++◌, map,
  Option, none, some, length, first_fault, ltb, ◌==◌, if◌then◌else◌, is_yes, sort_by,
}
use mlx_swarm.Base.Int.{ℤ, pos, negsuc, ltb_ℤ, leb_ℤ, eqb_ℤ}
use mlx_swarm.Base.Word.{u64_max, add_u64}
use mlx_swarm.Base.Text.{string_discrete, is_empty_string, seen_in, str_lt, trim_space}
use mlx_swarm.Registry.Types.{Health, healthy, Transport, RetainedShard, Worker, Inventory}
use mlx_swarm.Registry.Leases.{status_fresh}
use mlx_swarm.Registry.Validate.{schema_version}
use mlx_swarm.Placement.Types.{
  RejectionCode, stale_status, unhealthy, unsupported_adapter, incompatible_checkpoint,
  unsupported_operation, unsupported_transport, unsupported_encoding, tls_required,
  worker_capacity_exhausted, insufficient_memory, retained_budget_exceeded,
  sequence_capacity_exhausted, StageRequirement, Candidate,
}

pub data InputError : Type 0 where
  wrong_inventory_schema no_generation_time no_lease_ttl incomplete_model no_adapter : InputError
  invalid_range wrong_input_owner wrong_output_owner no_memory_estimate memory_overflow : InputError
  no_transport negative_status_age status_age_too_large : InputError

-- The requirement with its texts trimmed.
abbrev pub trim_requirement : StageRequirement → StageRequirement
trim_requirement q = record q {
  adapter = trim_space q.adapter;
  shard_id = trim_space q.shard_id;
  transport = record q.transport {
    protocol = trim_space q.transport.protocol;
    tensor_encoding = trim_space q.transport.tensor_encoding;
  };
}

-- The maximum age that counts: the requirement's own, or the lease's duration.
abbrev pub status_age : Inventory → StageRequirement → ℤ
status_age inv q =
    if eqb_ℤ q.status_max_age_millis (pos 0) then inv.lease_ttl_millis else q.status_max_age_millis

abbrev pub input_faults : Inventory → StageRequirement → List (Bool × InputError)
input_faults inv q =
    (not (eqb_ℤ inv.schema_version schema_version), wrong_inventory_schema)
    ∷ (inv.generated_at == 0, no_generation_time)
    ∷ (leb_ℤ inv.lease_ttl_millis (pos 0), no_lease_ttl)
    ∷ (
      is_empty_string q.model.id
          || is_empty_string q.model.checkpoint_fingerprint
          || leb_ℤ q.model.layer_count (pos 0),
      incomplete_model,
    )
    ∷ (is_empty_string q.adapter, no_adapter)
    ∷ (
      ltb_ℤ q.layer_start (pos 0)
          || leb_ℤ q.layer_end q.layer_start
          || ltb_ℤ q.model.layer_count q.layer_end,
      invalid_range,
    )
    ∷ (xor q.owns_input (eqb_ℤ q.layer_start (pos 0)), wrong_input_owner)
    ∷ (xor q.owns_output (eqb_ℤ q.layer_end q.model.layer_count), wrong_output_owner)
    ∷ ((q.load_memory_bytes == 0) || (q.sequence_memory_bytes == 0), no_memory_estimate)
    ∷ (ltb (u64_max - q.sequence_memory_bytes) q.load_memory_bytes, memory_overflow)
    ∷ (
      is_empty_string q.transport.protocol || is_empty_string q.transport.tensor_encoding,
      no_transport,
    )
    ∷ (ltb_ℤ q.status_max_age_millis (pos 0), negative_status_age)
    ∷ (ltb_ℤ (pos ((2 ^ 63 - 1) / 1000000)) (status_age inv q), status_age_too_large)
    ∷ []

-- `compatibleRetainedShard`: the first retained shard that is the required one.
unfoldable pub is_compatible : StageRequirement → RetainedShard → Bool
is_compatible q s =
    is_yes (string_discrete s.id q.shard_id)
    && is_yes (string_discrete s.model_id q.model.id)
    && is_yes (string_discrete s.checkpoint_fingerprint q.model.checkpoint_fingerprint)
    && eqb_ℤ s.layer_start q.layer_start
    && eqb_ℤ s.layer_end q.layer_end
    && not (xor s.owns_input q.owns_input)
    && not (xor s.owns_output q.owns_output)

abbrev pub first_compatible : StageRequirement → List RetainedShard → Option RetainedShard
first_compatible q [] = none
first_compatible q (s ∷ ss) =
    let rest = first_compatible q ss in if is_compatible q s then some s else rest

unfoldable pub compatible_retained_shard :
    List RetainedShard → StageRequirement → Option RetainedShard
unfolding is_compatible
compatible_retained_shard ss q = if is_empty_string q.shard_id then none else first_compatible q ss

-- `advertisedTransport`.
unfoldable pub advertised_transport : List Transport → String → Option Transport
advertised_transport [] protocol = none
advertised_transport (t ∷ ts) protocol =
    let rest = advertised_transport ts protocol in
    if is_yes (string_discrete t.protocol protocol) then some t else rest

-- `stageOperations`, which sorts the operations' names.
unfoldable pub stage_operations : StageRequirement → List String
unfolding str_lt
stage_operations q = sort_by str_lt (
    ("closeSequence" ∷ "decode" ∷ "loadShard" ∷ "modelInfo" ∷ "openSequence" ∷ "prefill" ∷ "state"
      ∷ [])
    ++ (if q.owns_input then "detokenize" ∷ "tokenize" ∷ [] else []))

abbrev pub missing_operations : List String → List String → List String
missing_operations advertised [] = []
missing_operations advertised (o ∷ os) =
    let rest = missing_operations advertised os in if seen_in o advertised then rest else o ∷ rest

-- `addUint64`: the sum, or the greatest value and an overflow.
unfoldable pub add_uint64 : ℕ → ℕ → ℕ × Bool
add_uint64 a b = if ltb (u64_max - b) a then (u64_max, true) else (a + b, false)

abbrev pub reject : Bool → RejectionCode → List RejectionCode
reject test code = if test then code ∷ [] else []

abbrev pub transport_rejections : Option Transport → StageRequirement → List RejectionCode
transport_rejections none q = unsupported_transport ∷ []
transport_rejections (some t) q =
    reject (not (seen_in q.transport.tensor_encoding t.tensor_encodings)) unsupported_encoding
    ++ reject (q.transport.require_tls && not t.tls) tls_required

abbrev pub is_full : Option RetainedShard → Worker → Bool
is_full none w = false
is_full (some s) w =
    leb_ℤ w.capabilities.admission.max_open_sequences_per_shard s.open_sequence_count

abbrev pub is_healthy : Health → Bool
is_healthy healthy = true
is_healthy h = false

abbrev pub required_memory : Option RetainedShard → StageRequirement → ℕ
required_memory none q = add_u64 q.sequence_memory_bytes q.load_memory_bytes
required_memory (some s) q = q.sequence_memory_bytes

abbrev pub shard_name : Option RetainedShard → String
shard_name none = ""
shard_name (some s) = s.id

abbrev pub is_some : Option RetainedShard → Bool
is_some none = false
is_some (some s) = true

-- The rejections of one constraint after the other.
abbrev pub join : List (List RejectionCode) → List RejectionCode
join [] = []
join (codes ∷ rest) = codes ++ join rest

-- The constraints of `evaluateCandidate`, in its order; a rejection is its code.
abbrev pub constraints :
    ℕ
    → ℤ
    → StageRequirement
    → List String
    → Worker
    → Option RetainedShard
    → List (List RejectionCode)
constraints at max_age q operations w retained =
    reject (not (status_fresh w at max_age)) stale_status
    ∷ reject (not (is_healthy w.status.health)) unhealthy
    ∷ reject (not (seen_in q.adapter w.capabilities.adapters)) unsupported_adapter
    ∷ reject
        (not (length w.capabilities.checkpoint_fingerprints == 0)
          && not (seen_in q.model.checkpoint_fingerprint w.capabilities.checkpoint_fingerprints))
        incompatible_checkpoint
    ∷ reject (not (length (missing_operations w.capabilities.operations operations) == 0))
        unsupported_operation
    ∷ transport_rejections (advertised_transport w.capabilities.transports q.transport.protocol) q
    ∷ reject (leb_ℤ w.capabilities.admission.max_concurrent_requests w.status.open_sequence_count)
        worker_capacity_exhausted
    ∷ reject (ltb w.status.available_memory_bytes (required_memory retained q)) insufficient_memory
    ∷ (let projected = add_uint64 w.status.retained_bytes q.sequence_memory_bytes in
        reject (projected.1 || ltb w.capabilities.admission.retained_byte_budget projected.0)
          retained_budget_exceeded)
    ∷ reject (is_full retained w) sequence_capacity_exhausted
    ∷ []

unfoldable pub rejections :
    ℕ → ℤ → StageRequirement → List String → Worker → Option RetainedShard → List RejectionCode
unfolding status_fresh seen_in advertised_transport add_uint64
rejections at max_age q operations w retained =
    join (constraints at max_age q operations w retained)

unfoldable pub evaluate_candidate : ℕ → ℤ → StageRequirement → List String → Worker → Candidate
unfolding rejections compatible_retained_shard
evaluate_candidate at max_age q operations w =
    let retained = compatible_retained_shard w.status.retained_shards q in
    let found = rejections at max_age q operations w retained in
    record {
      worker_id = w.id;
      endpoint = w.endpoint;
      eligible = length found == 0;
      reuses_retained_shard = is_some retained;
      retained_shard_id = shard_name retained;
      required_additional_memory_bytes = required_memory retained q;
      rejections = found;
    }

pub data Evaluated : Type 0 where
  candidates : List Candidate → Evaluated
  bad_input : InputError → Evaluated

abbrev pub evaluated : Option InputError → List Candidate → Evaluated
evaluated none cs = candidates cs
evaluated (some e) cs = bad_input e

-- A duration of so many milliseconds, in nanoseconds.
abbrev pub millis : ℤ → ℤ
millis (pos n) = pos (n * 1000000)
millis (negsuc n) = negsuc (n * 1000000 + 999999)

-- `EvaluateCandidates`; of the evaluation, the candidates are kept.
unfoldable pub evaluate_candidates : Inventory → StageRequirement → Evaluated
unfolding stage_operations evaluate_candidate str_lt trim_space
evaluate_candidates inv given =
    let q = trim_requirement given in
    evaluated (first_fault (input_faults inv q)) (
      map (evaluate_candidate inv.generated_at (millis (status_age inv q)) q (stage_operations q))
        (sort_by (λ a b. str_lt a.id b.id) inv.workers))
