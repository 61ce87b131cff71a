-- ===== src/Registry/Invariant.antt =====
-- The operations of the registry preserve its invariant, on every branch.
use mlx_swarm.Base.{ℕ, ◌≡◌, refl, sym, ◌∙◌, String, Bool, true, false, Option, none, some, arith}
use mlx_swarm.Base.Word.{add_u64}
use mlx_swarm.Base.GoMap.{get, delete, IsUnique, get-update_all}
use mlx_swarm.Base.Text.{string_key}
use mlx_swarm.Registry.Types.{Status, Registration, Heartbeat, Worker}
use mlx_swarm.Registry.Validate.{Urls}
use mlx_swarm.Registry.Normalize.{normalize_registration}
use mlx_swarm.Registry.Branches.{or_refuse-branches, with_lease-branches, branch-branches}
use mlx_swarm.Registry.Leases.{
  Registry, Outcome, is_expired, keep_leased, expire, conflict, store, renew, enter,
  register_leased, register, drop_expired, refresh, heartbeat, remove, release, on_lease,
  normal_status,
}
use mlx_swarm.Registry.Sound.{
  Sound, Alone, Sound-put, Alone-same, conflict-none, expire-Sound, delete-Sound, SoundAfter,
}

store-Sound :
    (id : String) (w : Worker) (revision : ℕ) (r : Registry)
    → Sound r.workers
    → w.id ≡ id
    → Alone r.workers id w
    → SoundAfter (store id w revision r)
unfolding store
store-Sound id w revision r s own alone = record { sound = Sound-put r.workers id w s own alone }

-- A lease that changes neither its ID nor its instance nor its endpoint.
keep-Sound :
    (id : String) (w v : Worker) (revision : ℕ) (r : Registry)
    → Sound r.workers
    → get r.workers id ≡ some w
    → w.id ≡ v.id
    → w.instance_id ≡ v.instance_id
    → w.endpoint ≡ v.endpoint
    → SoundAfter (store id v revision r)
keep-Sound id w v revision r s h same e f =
    store-Sound id v revision r s (sym same ∙ s.own id w h) (Alone-same r.workers id w v s h e f)

renew-Sound :
    (now : ℕ) (fresh : Bool) (input : Registration) (existing : Worker) (r : Registry)
    → Sound r.workers
    → conflict input r.workers ≡ none
    → SoundAfter (renew now fresh input existing r)
unfolding renew
renew-Sound now true input existing r s c =
    branch-branches SoundAfter _ _ _
      (λ t. store-Sound _ _ _ r s refl (conflict-none input r.workers c))
      (λ f. record { sound = s })
renew-Sound now false input existing r s c =
    branch-branches SoundAfter _ _ _
      (λ t. store-Sound _ _ _ r s refl (conflict-none input r.workers c))
      (λ f. record { sound = s })

register_leased-Sound :
    (now : ℕ) (fresh : Bool) (input : Registration) (r : Registry)
    → Sound r.workers
    → SoundAfter (register_leased now fresh input r)
unfolding register_leased enter
register_leased-Sound now fresh input r s =
    or_refuse-branches SoundAfter (conflict input r.workers) r _ (λ e. record { sound = s })
      (λ c.
        with_lease-branches SoundAfter (get r.workers input.id) _ _
          (λ absent. store-Sound _ _ _ r s refl (conflict-none input r.workers c))
          (λ existing found. renew-Sound now fresh input existing r s c))

pub register-Sound :
    (urls : Urls) (now : ℕ) (fresh : Bool) (given : Registration) (r : Registry)
    → Sound r.workers
    → SoundAfter (register urls now fresh given r)
unfolding register
register-Sound urls now fresh given r s =
    or_refuse-branches SoundAfter _ r _ (λ e. record { sound = s })
      (λ valid.
        register_leased-Sound now fresh (normalize_registration urls given) (expire now r)
          (expire-Sound now r s))

drop_expired-Sound :
    (now : ℕ) (id : String) (r : Registry) → Sound r.workers → Sound (drop_expired now id r).workers
unfolding drop_expired
drop_expired-Sound now id r s =
    expire-Sound now (record r { workers = delete r.workers id; revision = add_u64 r.revision 1 })
      (delete-Sound r.workers id s)

refresh-Sound :
    (now : ℕ) (id : String) (status : Option Status) (w : Worker) (r : Registry)
    → Sound r.workers
    → get r.workers id ≡ some w
    → SoundAfter (refresh now id status w r)
unfolding refresh
refresh-Sound now id none w r s h = keep-Sound id w _ _ r s h refl refl refl
refresh-Sound now id (some status) w r s h =
    or_refuse-branches SoundAfter _ r _ (λ e. record { sound = s })
      (λ valid. keep-Sound id w _ _ r s h refl refl refl)

-- A lease that is not expired outlives an expiry.
pub expire-keeps :
    (now : ℕ) (r : Registry) (id : String) (w : Worker)
    → IsUnique r.workers
    → get r.workers id ≡ some w
    → is_expired now w ≡ false
    → get (expire now r).workers id ≡ some w
unfolding expire
expire-keeps now r id w u h e = ground (arith, get-update_all (keep_leased now) r.workers id u)

on_lease-Sound :
    (now : ℕ) (id instance_id : String) (held : Worker → Outcome × Registry) (r : Registry)
    → Sound r.workers
    → ((w : Worker) → get (expire now r).workers id ≡ some w → SoundAfter (held w))
    → SoundAfter (on_lease now id instance_id held r)
unfolding on_lease
on_lease-Sound now id instance_id held r s on_held =
    with_lease-branches SoundAfter _ _ _ (λ absent. record { sound = expire-Sound now r s })
      (λ w found.
        branch-branches SoundAfter _ _ _
          (λ expired. record { sound = drop_expired-Sound now id r s })
          (λ live.
            branch-branches SoundAfter _ _ _
              (λ same. on_held w (expire-keeps now r id w s.unique found live))
              (λ stale. record { sound = expire-Sound now r s })))

pub heartbeat-Sound :
    (now : ℕ) (id : String) (beat : Heartbeat) (r : Registry)
    → Sound r.workers
    → SoundAfter (heartbeat now id beat r)
unfolding heartbeat
heartbeat-Sound now id beat r s =
    or_refuse-branches SoundAfter _ r _ (λ e. record { sound = s })
      (λ valid. on_lease-Sound now id beat.instance_id _ r s (λ w found.
        refresh-Sound now id (normal_status beat.status) w (expire now r) (expire-Sound now r s)
          found))

pub remove-Sound :
    (now : ℕ) (id instance_id : String) (r : Registry)
    → Sound r.workers
    → SoundAfter (remove now id instance_id r)
unfolding remove release
remove-Sound now id instance_id r s =
    or_refuse-branches SoundAfter _ r _ (λ e. record { sound = s })
      (λ valid. on_lease-Sound now id instance_id _ r s (λ w found. record {
        sound = delete-Sound (expire now r).workers id (expire-Sound now r s);
      }))
