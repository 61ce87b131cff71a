-- ===== src/Registry/Leases.antt =====
-- internal/registry/registry.go: the registry of leased workers. Each operation takes the time that
-- the clock shows under the lock, and returns the registry that it leaves.
use mlx_swarm.Base.{
  ℕ, ◌+◌, ◌-◌, ◌/◌, ◌^◌, String, Bool, true, false, not, ◌&&◌, ◌||◌, List, [], ◌∷◌, Option, none,
  some, min, ltb, leb, ◌==◌, if◌then◌else◌, is_yes, sort_by,
}
use mlx_swarm.Base.Int.{ℤ, pos, negsuc, leb_ℤ}
use mlx_swarm.Base.Word.{add_u64}
use mlx_swarm.Base.GoMap.{GoMap, get, put, delete, update_all}
use mlx_swarm.Base.Text.{string_discrete, string_key, str_lt}
use mlx_swarm.Registry.Types.{
  Status, Registration, Heartbeat, Worker, Mutation, Inventory, registration_discrete,
  status_discrete,
}
use mlx_swarm.Registry.Validate.{
  RegistryError, duplicate_worker, duplicate_instance, duplicate_endpoint, worker_not_found,
  stale_instance, lease_expired, invalid_identity, Urls, schema_version, valid_identity_part,
  validate_identity, validate_status, validate_registration,
}
use mlx_swarm.Registry.Normalize.{normalize_status, normalize_registration}

pub record Registry : Type 0 where
  pub workers : GoMap String Worker
  pub revision : ℕ
  pub ttl : ℕ

-- `DefaultLeaseTTL`, 30 s.
abbrev pub default_lease_ttl : ℕ
default_lease_ttl = 30000000000

-- A lease duration that is not positive is the default one.
abbrev pub lease_ttl : ℤ → ℕ
lease_ttl (pos n) = if n == 0 then default_lease_ttl else n
lease_ttl (negsuc n) = default_lease_ttl

unfoldable pub new : ℤ → Registry
new ttl = record { workers = []; revision = 0; ttl = lease_ttl ttl }

-- `Worker.StatusFresh`; the difference of two times stops at the greatest duration.
unfoldable pub status_fresh : Worker → ℕ → ℤ → Bool
status_fresh w at max_age =
    not (leb_ℤ max_age (pos 0) || (w.status_observed_at == 0) || ltb at w.status_observed_at)
    && leb_ℤ (pos (min (at - w.status_observed_at) (2 ^ 63 - 1))) max_age

-- `!now.Before(worker.ExpiresAt)`.
abbrev pub is_expired : ℕ → Worker → Bool
is_expired now w = leb w.expires_at now

abbrev pub any_expired : ℕ → GoMap String Worker → Bool
any_expired now [] = false
any_expired now ((id, w) ∷ m) = let rest = any_expired now m in is_expired now w || rest

abbrev pub keep_leased : ℕ → String → Worker → Option Worker
keep_leased now id w = if is_expired now w then none else some w

abbrev pub bump : Bool → ℕ → ℕ
bump changed revision = if changed then add_u64 revision 1 else revision

-- `expireLocked`.
unfoldable pub expire : ℕ → Registry → Registry
expire now r = record r {
  workers = update_all (keep_leased now) r.workers;
  revision = bump (any_expired now r.workers) r.revision;
}

pub data Outcome : Type 0 where
  mutated : Mutation → Outcome
  removed : Outcome
  refused : RegistryError → Outcome

-- `if err != nil { return err }`, with the registry as it is.
unfoldable pub or_refuse : Option RegistryError → Registry → Outcome × Registry → Outcome × Registry
or_refuse none r next = next
or_refuse (some e) r next = (refused e, r)

-- `if existing, ok := r.workers[id]; ok { found } absent`.
unfoldable pub with_lease :
    Option Worker → Outcome × Registry → (Worker → Outcome × Registry) → Outcome × Registry
with_lease none absent found = absent
with_lease (some w) absent found = found w

-- `if test { return x }; return y`.
unfoldable pub branch : Bool → Outcome × Registry → Outcome × Registry → Outcome × Registry
branch true x y = x
branch false x y = y

-- The loop of `register` over the workers under other IDs. Go does not fix the order of the loop;
-- a registration that clashes with two workers may be refused for either.
unfoldable pub conflict : Registration → GoMap String Worker → Option RegistryError
conflict input [] = none
conflict input ((id, w) ∷ m) =
    let rest = conflict input m in
    if is_yes (string_discrete id input.id)
    then rest
    else if is_yes (string_discrete w.instance_id input.instance_id)
    then some duplicate_instance
    else if is_yes (string_discrete w.endpoint input.endpoint)
    then some duplicate_endpoint
    else rest

-- The worker stored, with the revision that goes with it.
unfoldable pub store : String → Worker → ℕ → Registry → Outcome × Registry
store id w revision r = (
  mutated (record { inventory_revision = revision; worker = w }),
  record r { workers = put r.workers id w; revision = revision },
)

-- A registration under an ID that has a lease.
unfoldable pub renew : ℕ → Bool → Registration → Worker → Registry → Outcome × Registry
unfolding store status_fresh
renew now fresh input existing r =
    let kept : Registration = if fresh then input else record input { status = existing.status } in
    branch (is_yes (string_discrete existing.instance_id input.instance_id))
      (store input.id
        (record {
          registration = kept;
          registered_at = existing.registered_at;
          last_seen = now;
          expires_at = now + r.ttl;
          status_observed_at = if fresh then now else existing.status_observed_at;
        })
        (bump
          (not (is_yes (registration_discrete existing.registration kept))
            || (fresh && not (status_fresh existing now (pos r.ttl))))
          r.revision)
        r)
      (refused duplicate_worker, r)

unfoldable pub enter : ℕ → Bool → Registration → Registry → Outcome × Registry
unfolding store
enter now fresh input r =
    store input.id
      (record {
        registration = input;
        registered_at = now;
        last_seen = now;
        expires_at = now + r.ttl;
        status_observed_at = if fresh then now else 0;
      })
      (add_u64 r.revision 1) r

-- `register` under the lock, after the expiry.
unfoldable pub register_leased : ℕ → Bool → Registration → Registry → Outcome × Registry
unfolding conflict renew enter
register_leased now fresh input r = or_refuse (conflict input r.workers) r (
    with_lease (get r.workers input.id) (enter now fresh input r)
      (λ existing. renew now fresh input existing r))

unfoldable pub register : Urls → ℕ → Bool → Registration → Registry → Outcome × Registry
unfolding normalize_registration validate_registration register_leased expire
register urls now fresh given r =
    let input = normalize_registration urls given in
    or_refuse (validate_registration urls input) r (register_leased now fresh input (expire now r))

-- The lease that has run out: the worker goes, then the others that are expired.
unfoldable pub drop_expired : ℕ → String → Registry → Registry
unfolding expire
drop_expired now id r =
    expire now (record r { workers = delete r.workers id; revision = add_u64 r.revision 1 })

-- A heartbeat's status, in its normal form.
abbrev pub normal_status : Option Status → Option Status
normal_status none = none
normal_status (some s) = some (normalize_status s)

unfoldable pub refresh : ℕ → String → Option Status → Worker → Registry → Outcome × Registry
unfolding store status_fresh
refresh now id none w r =
    store id (record w { last_seen = now; expires_at = now + r.ttl }) r.revision r
refresh now id (some s) w r = or_refuse (validate_status s w.capabilities) r (
    store id
      (record w {
        registration = record w.registration { status = s };
        last_seen = now;
        expires_at = now + r.ttl;
        status_observed_at = now;
      })
      (bump (not (is_yes (status_discrete w.status s)) || not (status_fresh w now (pos r.ttl)))
        r.revision)
      r)

-- An operation on the lease of `id`, which is to be a lease of `instance_id` that has not expired.
unfoldable pub on_lease :
    ℕ → String → String → (Worker → Outcome × Registry) → Registry → Outcome × Registry
unfolding drop_expired expire
on_lease now id instance_id held r =
    with_lease (get r.workers id) (refused worker_not_found, expire now r)
      (λ existing.
        branch (is_expired now existing) (refused lease_expired, drop_expired now id r)
          (branch (is_yes (string_discrete existing.instance_id instance_id)) (held existing)
            (refused stale_instance, expire now r)))

unfoldable pub heartbeat : ℕ → String → Heartbeat → Registry → Outcome × Registry
unfolding validate_identity on_lease refresh
heartbeat now id beat r = or_refuse (validate_identity id beat.schema_version beat.instance_id) r (
    on_lease now id beat.instance_id
      (λ existing. refresh now id (normal_status beat.status) existing (expire now r)) r)

-- The lease goes from a registry whose expired leases are gone.
unfoldable pub release : String → Registry → Outcome × Registry
release id r =
    (removed, record r { workers = delete r.workers id; revision = add_u64 r.revision 1 })

unfoldable pub remove : ℕ → String → String → Registry → Outcome × Registry
unfolding valid_identity_part on_lease release
remove now id instance_id r =
    or_refuse
      (if valid_identity_part id && valid_identity_part instance_id
        then none
        else some invalid_identity)
      r (on_lease now id instance_id (λ existing. release id (expire now r)) r)

abbrev pub entries : GoMap String Worker → List Worker
entries [] = []
entries ((id, w) ∷ m) = w ∷ entries m

unfoldable pub snapshot : ℕ → Registry → Inventory × Registry
unfolding expire str_lt
snapshot now r =
    let rest = expire now r in
    (
      record {
        schema_version = schema_version;
        revision = rest.revision;
        generated_at = now;
        lease_ttl_millis = pos (rest.ttl / 1000000);
        workers = sort_by (λ a b. str_lt a.id b.id) (entries rest.workers);
      },
      rest,
    )
