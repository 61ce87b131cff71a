-- ===== src/Placement/Eligible.antt =====
-- When `evaluateCandidate` finds a worker eligible.
use mlx_swarm.Base.{
  ◌↔◌, ap, ℕ, ◌+◌, ◌≤◌, ◌≡◌, refl, String, Bool, true, false, not, ◌||◌, List, [], ◌∷◌, ◌++◌,
  Option, none, some, arith, All, length, ltb, ◌==◌, ◌⊎◌,
}
use mlx_swarm.Base.Int.{ℤ, ◌≤ℤ◌}
use mlx_swarm.Base.Text.{seen_in}
use mlx_swarm.Base.Word.{u64_max}
use mlx_swarm.Registry.Types.{Health, healthy, Transport, RetainedShard, Worker}
use mlx_swarm.Registry.Leases.{status_fresh}
use mlx_swarm.Placement.Types.{RejectionCode, StageRequirement}
use mlx_swarm.Placement.Eligibility.{
  compatible_retained_shard, advertised_transport, missing_operations, add_uint64, reject,
  transport_rejections, is_full, is_healthy, required_memory, rejections, evaluate_candidate, join,
  constraints,
}

-- What a worker must have for a stage.
pub record Fits (at : ℕ) (max_age : ℤ) (q : StageRequirement) (operations : List String)
    (w : Worker) : Type 0 where
  pub fresh : status_fresh w at max_age ≡ true
  pub health : w.status.health ≡ healthy
  pub adapter : seen_in q.adapter w.capabilities.adapters ≡ true
  pub checkpoint :
      (length w.capabilities.checkpoint_fingerprints ≡ 0)
      ⊎ (seen_in q.model.checkpoint_fingerprint w.capabilities.checkpoint_fingerprints ≡ true)
  pub operated : All (λ o. seen_in o w.capabilities.operations ≡ true) operations
  pub transport :
      (t : Transport) × (advertised_transport w.capabilities.transports q.transport.protocol
        ≡ some t)
      × (seen_in q.transport.tensor_encoding t.tensor_encodings ≡ true)
      × (q.transport.require_tls ≡ true → t.tls ≡ true)
  pub requests :
      ¬ (w.capabilities.admission.max_concurrent_requests ≤ℤ w.status.open_sequence_count)
  pub memory :
      required_memory (compatible_retained_shard w.status.retained_shards q) q
      ≤ w.status.available_memory_bytes
  pub budget :
      w.status.retained_bytes + q.sequence_memory_bytes
      ≤ w.capabilities.admission.retained_byte_budget
  pub room :
      (s : RetainedShard)
      → compatible_retained_shard w.status.retained_shards q ≡ some s
      → ¬ (w.capabilities.admission.max_open_sequences_per_shard ≤ℤ s.open_sequence_count)

append-nil : {A : Type 0} (xs ys : List A) → xs ++ ys ≡ [] → (xs ≡ []) × (ys ≡ [])
append-nil [] ys h = (refl, h)
append-nil (x ∷ xs) ys h = absurd (cc h)

length-nil : {A : Type 0} (xs : List A) → (length xs == 0) ≡ true → xs ≡ []
length-nil [] h = refl
length-nil (x ∷ xs) h = ground arith

reject-nil : (b : Bool) (c : RejectionCode) → reject b c ≡ [] → b ≡ false
reject-nil b c h = ground arith

missing-nil :
    (advertised os : List String)
    → missing_operations advertised os ≡ []
    → All (λ o. seen_in o advertised ≡ true) os
missing-nil advertised [] h = tt
missing-nil advertised (o ∷ os) h = ground (arith, missing-nil advertised os)

transport-nil :
    (o : Option Transport) (q : StageRequirement)
    → transport_rejections o q ≡ []
    → (t : Transport) × (o ≡ some t)
      × (seen_in q.transport.tensor_encoding t.tensor_encodings ≡ true)
      × (q.transport.require_tls ≡ true → t.tls ≡ true)
transport-nil none q h = absurd (cc h)
transport-nil (some t) q h =
    let both =
      append-nil (reject (not (seen_in q.transport.tensor_encoding t.tensor_encodings)) _) _ h in
    (t, refl, ground (arith, reject-nil _ _ both.0), ground (arith, reject-nil _ _ both.1))

is_healthy-true : (h : Health) → is_healthy h ≡ true → h ≡ healthy
is_healthy-true healthy e = refl
is_healthy-true h e = ground arith

join-nil : (l : List (List RejectionCode)) → join l ≡ [] → All (λ codes. codes ≡ []) l
join-nil [] h = tt
join-nil (c ∷ cs) h = let both = append-nil c (join cs) h in (both.0, join-nil cs both.1)

fits-budget :
    (retained sequence budget : ℕ)
    → ((add_uint64 retained sequence).1 || ltb budget (add_uint64 retained sequence).0) ≡ false
    → retained + sequence ≤ budget
unfolding add_uint64
fits-budget retained sequence budget h = ground arith

full-none :
    (o : Option RetainedShard) (w : Worker)
    → is_full o w ≡ false
    → (s : RetainedShard) → o ≡ some s
    → ¬ (w.capabilities.admission.max_open_sequences_per_shard ≤ℤ s.open_sequence_count)
full-none none w h s e = ground arith
full-none (some t) w h s e = ground arith

pub eligible-Fits :
    (at : ℕ) (max_age : ℤ) (q : StageRequirement) (operations : List String) (w : Worker)
    → (evaluate_candidate at max_age q operations w).eligible ≡ true
    → Fits at max_age q operations w
unfolding evaluate_candidate rejections
eligible-Fits at max_age q operations w h =
    let e = length-nil _ h in
    let retained = compatible_retained_shard w.status.retained_shards q in
    let f = join-nil (constraints at max_age q operations w retained) e in
    record {
      fresh = ground (arith, reject-nil _ _ f.0);
      health = is_healthy-true _ (ground (arith, reject-nil _ _ f.1.0));
      adapter = ground (arith, reject-nil _ _ f.1.1.0);
      checkpoint = ground (arith, reject-nil _ _ f.1.1.1.0);
      operated = missing-nil _ _ (length-nil _ (ground (arith, reject-nil _ _ f.1.1.1.1.0)));
      transport = transport-nil _ q f.1.1.1.1.1.0;
      requests = ground (arith, reject-nil _ _ f.1.1.1.1.1.1.0);
      memory = ground (arith, reject-nil _ _ f.1.1.1.1.1.1.1.0);
      budget = fits-budget _ _ _ (reject-nil _ _ f.1.1.1.1.1.1.1.1.0);
      room = full-none _ w (reject-nil _ _ f.1.1.1.1.1.1.1.1.1.0);
    }

reject-false : (b : Bool) (c : RejectionCode) → b ≡ false → reject b c ≡ []
reject-false b c h = ground arith

nil-missing :
    (advertised os : List String)
    → All (λ o. seen_in o advertised ≡ true) os
    → missing_operations advertised os ≡ []
nil-missing advertised [] h = refl
nil-missing advertised (o ∷ os) h = ground (arith, nil-missing advertised os h.1)

nil-transport :
    (o : Option Transport) (q : StageRequirement) (t : Transport)
    → o ≡ some t
    → seen_in q.transport.tensor_encoding t.tensor_encodings ≡ true
    → (q.transport.require_tls ≡ true → t.tls ≡ true)
    → transport_rejections o q ≡ []
nil-transport none q t e seen tls = absurd (cc e)
nil-transport (some u) q t e seen tls = ground arith

none-full :
    (o : Option RetainedShard) (w : Worker)
    → ((s : RetainedShard)
        → o ≡ some s
        → ¬ (w.capabilities.admission.max_open_sequences_per_shard ≤ℤ s.open_sequence_count))
    → is_full o w ≡ false
none-full none w h = refl
none-full (some t) w h = let room = h t refl in ground arith

nil-join : (l : List (List RejectionCode)) → All (λ codes. codes ≡ []) l → join l ≡ []
nil-join [] h = refl
nil-join (c ∷ cs) h = rw h.0 (nil-join cs h.1)

budget-fits :
    (retained sequence budget : ℕ)
    → budget ≤ u64_max
    → retained + sequence ≤ budget
    → ((add_uint64 retained sequence).1 || ltb budget (add_uint64 retained sequence).0) ≡ false
unfolding add_uint64
budget-fits retained sequence budget word h = ground arith

Fits-eligible :
    (at : ℕ) (max_age : ℤ) (q : StageRequirement) (operations : List String) (w : Worker)
    → w.capabilities.admission.retained_byte_budget ≤ u64_max
    → Fits at max_age q operations w
    → (evaluate_candidate at max_age q operations w).eligible ≡ true
unfolding evaluate_candidate rejections
Fits-eligible at max_age q operations w word f =
    let retained = compatible_retained_shard w.status.retained_shards q in
    let all : All (λ codes. codes ≡ []) (constraints at max_age q operations w retained) = (
      reject-false _ _ (ground (arith, f.fresh)),
      (
        reject-false _ _ (ap (λ h. not (is_healthy h)) f.health),
        (
          reject-false _ _ (ground (arith, f.adapter)),
          (
            reject-false _ _ (ground (arith, f.checkpoint)),
            (
              reject-false _ _ (ap (λ l. not (length l == 0)) (nil-missing _ _ f.operated)),
              (
                nil-transport _ q f.transport.0 f.transport.1 f.transport.2 f.transport.3,
                (
                  reject-false _ _ (ground (arith, f.requests)),
                  (
                    reject-false _ _ (ground (arith, f.memory)),
                    (
                      reject-false _ _ (budget-fits _ _ _ word f.budget),
                      (reject-false _ _ (none-full _ w f.room), tt),
                    ),
                  ),
                ),
              ),
            ),
          ),
        ),
      ),
    ) in
    ap (λ l. length l == 0) (nil-join (constraints at max_age q operations w retained) all)

-- For a worker whose retained budget is a word of 64 bits, `evaluateCandidate` finds it eligible for
-- a stage just when its status is fresh and its health good, it has the stage's adapter, its
-- checkpoint unless it names none, every required operation, a transport of the required protocol
-- with the encoding, and TLS where that is required, a free request slot, the memory that is
-- required, room in its retained budget for the sequence, and a free sequence slot in the shard that
-- the stage reuses.
pub evaluate_candidate-Fits :
    (at : ℕ) (max_age : ℤ) (q : StageRequirement) (operations : List String) (w : Worker)
    → w.capabilities.admission.retained_byte_budget ≤ u64_max
    → ((evaluate_candidate at max_age q operations w).eligible ≡ true)
      ↔ Fits at max_age q operations w
evaluate_candidate-Fits at max_age q operations w word =
    (eligible-Fits at max_age q operations w, Fits-eligible at max_age q operations w word)
