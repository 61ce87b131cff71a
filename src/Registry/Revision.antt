-- ===== src/Registry/Revision.antt =====
-- The revision of the registry: it stands for the registrations, with their statuses.
use mlx_swarm.Base.{
  ℕ, ◌^◌, ◌<◌, ◌≡◌, refl, ap, ◌∙◌, String, Bool, true, false, not, ◌||◌, Option, none, some, arith,
  is_yes, inl, inr,
}
use mlx_swarm.Base.Word.{add_u64}
use mlx_swarm.Base.GoMap.{get, delete, IsUnique, get-put}
use mlx_swarm.Base.Text.{string_key}
use mlx_swarm.Registry.Types.{
  Status, Registration, Heartbeat, Worker, registration_discrete, status_discrete,
}
use mlx_swarm.Registry.Validate.{Urls}
use mlx_swarm.Registry.Normalize.{normalize_registration}
use mlx_swarm.Registry.Branches.{or_refuse-branches, with_lease-branches, branch-branches}
use mlx_swarm.Registry.Leases.{
  Registry, Outcome, removed, bump, expire, store, renew, enter, register_leased, register,
  drop_expired, refresh, on_lease, heartbeat, remove, release, snapshot, normal_status,
}
use mlx_swarm.Registry.Sound.{Sound}
use mlx_swarm.Registry.Invariant.{expire-keeps}
use mlx_swarm.Registry.History.{
  Request, register_request, heartbeat_request, remove_request, snapshot_request, serve,
}
use mlx_swarm.Registry.Follows.{
  registration_in, registration_of, Follows, unchanged, moved, Follows-trans, Follows-Same,
  expire-Follows, FollowsAfter,
}

store-Follows :
    (changed : Bool) (id : String) (w : Worker) (r : Registry)
    → (changed ≡ false → registration_of r id ≡ some w.registration)
    → FollowsAfter 1 r (store id w (bump changed r.revision) r)
unfolding store
store-Follows true id w r same = record { after = moved 1 r _ (omega arith) refl }
store-Follows false id w r same = record {
  after = unchanged 1 r _ (λ j. ground (arith, get-put r.workers id j w, same refl)) refl;
}

refl-Follows : (n : ℕ) (r : Registry) → Follows n r r
refl-Follows n r = unchanged n r r (λ id. refl) refl

changed-kept :
    (a b : Registration) (x : Bool)
    → (not (is_yes (registration_discrete a b)) || x) ≡ false
    → a ≡ b
changed-kept a b x h = elim (registration_discrete a b) [ yes p ↦ p | no n ↦ ground arith ]

renew-Follows :
    (now : ℕ) (fresh : Bool) (input : Registration) (existing : Worker) (r : Registry)
    → get r.workers input.id ≡ some existing
    → FollowsAfter 1 r (renew now fresh input existing r)
unfolding renew
renew-Follows now true input existing r h =
    branch-branches (FollowsAfter 1 r) _ _ _
      (λ t.
        store-Follows _ input.id _ r
          (λ same. ap registration_in h ∙ ap some (changed-kept _ _ _ same)))
      (λ f. record { after = refl-Follows 1 r })
renew-Follows now false input existing r h =
    branch-branches (FollowsAfter 1 r) _ _ _
      (λ t.
        store-Follows _ input.id _ r
          (λ same. ap registration_in h ∙ ap some (changed-kept _ _ _ same)))
      (λ f. record { after = refl-Follows 1 r })

enter-Follows :
    (now : ℕ) (fresh : Bool) (input : Registration) (r : Registry)
    → FollowsAfter 1 r (enter now fresh input r)
unfolding enter
enter-Follows now fresh input r = store-Follows true input.id _ r (λ same. ground arith)

weaken : {r o : Registry} → Follows 2 r o → Follows 3 r o
weaken f = elim f.follows [
  | inl p ↦ record { follows = inl p }
  | inr p ↦ record { follows = inr (p.0, p.1, omega arith, p.3) }
]

-- What an operation does after the leases that ran out are gone.
then-Follows :
    (r : Registry) (now : ℕ) (o : Outcome × Registry)
    → FollowsAfter 1 (expire now r) o
    → FollowsAfter 3 r o
then-Follows r now o f = record {
  after = weaken (Follows-trans 1 1 r (expire now r) o.1 (expire-Follows now r) f.after);
}

register_leased-Follows :
    (now : ℕ) (fresh : Bool) (input : Registration) (r : Registry)
    → FollowsAfter 1 r (register_leased now fresh input r)
unfolding register_leased
register_leased-Follows now fresh input r =
    or_refuse-branches (FollowsAfter 1 r) _ r _ (λ e. record { after = refl-Follows 1 r })
      (λ c.
        with_lease-branches (FollowsAfter 1 r) _ _ _ (λ absent. enter-Follows now fresh input r)
          (λ existing found. renew-Follows now fresh input existing r found))

register-Follows :
    (urls : Urls) (now : ℕ) (fresh : Bool) (given : Registration) (r : Registry)
    → FollowsAfter 3 r (register urls now fresh given r)
unfolding register
register-Follows urls now fresh given r =
    or_refuse-branches (FollowsAfter 3 r) _ r _ (λ e. record { after = refl-Follows 3 r })
      (λ valid.
        then-Follows r now _
          (register_leased-Follows now fresh (normalize_registration urls given) (expire now r)))

changed-status :
    (w : Worker) (s : Status) (x : Bool)
    → (not (is_yes (status_discrete w.status s)) || x) ≡ false
    → w.status ≡ s
changed-status w s x h = elim (status_discrete w.status s) [ yes p ↦ p | no n ↦ ground arith ]

refresh-Follows :
    (now : ℕ) (id : String) (status : Option Status) (w : Worker) (r : Registry)
    → get r.workers id ≡ some w
    → FollowsAfter 1 r (refresh now id status w r)
unfolding refresh
refresh-Follows now id none w r h = store-Follows false id _ r (λ same. ap registration_in h)
refresh-Follows now id (some s) w r h =
    or_refuse-branches (FollowsAfter 1 r) _ r _ (λ e. record { after = refl-Follows 1 r })
      (λ valid. store-Follows _ id _ r (λ same.
        ap registration_in h
        ∙ ap (λ t. some (record w.registration { status = t })) (changed-status w s _ same)))

drop_expired-Follows : (now : ℕ) (id : String) (r : Registry) → Follows 3 r (drop_expired now id r)
unfolding drop_expired
drop_expired-Follows now id r =
    let gone : Registry = record r {
      workers = delete r.workers id;
      revision = add_u64 r.revision 1;
    } in
    weaken (
      Follows-trans 1 1 r gone (expire now gone) (moved 1 r gone (omega arith) refl)
        (expire-Follows now gone))

on_lease-Follows :
    (now : ℕ) (id instance_id : String) (held : Worker → Outcome × Registry) (r : Registry)
    → IsUnique r.workers
    → ((w : Worker)
        → get (expire now r).workers id ≡ some w
        → FollowsAfter 1 (expire now r) (held w))
    → FollowsAfter 3 r (on_lease now id instance_id held r)
unfolding on_lease
on_lease-Follows now id instance_id held r u on_held =
    with_lease-branches (FollowsAfter 3 r) _ _ _
      (λ absent. then-Follows r now _ (record { after = refl-Follows 1 _ }))
      (λ w found.
        branch-branches (FollowsAfter 3 r) _ _ _
          (λ over. record { after = drop_expired-Follows now id r })
          (λ live.
            branch-branches (FollowsAfter 3 r) _ _ _
              (λ same. then-Follows r now _ (on_held w (expire-keeps now r id w u found live)))
              (λ stale. then-Follows r now _ (record { after = refl-Follows 1 _ }))))

heartbeat-Follows :
    (now : ℕ) (id : String) (beat : Heartbeat) (r : Registry)
    → IsUnique r.workers
    → FollowsAfter 3 r (heartbeat now id beat r)
unfolding heartbeat
heartbeat-Follows now id beat r u =
    or_refuse-branches (FollowsAfter 3 r) _ r _ (λ e. record { after = refl-Follows 3 r })
      (λ valid.
        on_lease-Follows now id beat.instance_id _ r u
          (λ w found. refresh-Follows now id (normal_status beat.status) w (expire now r) found))

remove-Follows :
    (now : ℕ) (id instance_id : String) (r : Registry)
    → IsUnique r.workers
    → FollowsAfter 3 r (remove now id instance_id r)
unfolding remove release
remove-Follows now id instance_id r u =
    or_refuse-branches (FollowsAfter 3 r) _ r _ (λ e. record { after = refl-Follows 3 r })
      (λ valid.
        on_lease-Follows now id instance_id _ r u
          (λ w found. record { after = moved 1 _ _ (omega arith) refl }))

serve-Follows :
    (urls : Urls) (now : ℕ) (q : Request) (r : Registry)
    → Sound r.workers
    → Follows 3 r (serve urls now q r)
unfolding serve snapshot
serve-Follows urls now (register_request fresh input) r s =
    (register-Follows urls now fresh input r).after
serve-Follows urls now (heartbeat_request id beat) r s =
    (heartbeat-Follows now id beat r s.unique).after
serve-Follows urls now (remove_request id instance_id) r s =
    (remove-Follows now id instance_id r s.unique).after
serve-Follows urls now snapshot_request r s =
    (then-Follows r now (removed, expire now r) (record { after = refl-Follows 1 _ })).after

-- An operation on a sound registry, whose revision is a word of 64 bits, that leaves the revision as
-- it was also leaves every registration, with its status, as it was: the same IDs are registered,
-- with equal contents.
pub serve-revision :
    (urls : Urls) (now : ℕ) (q : Request) (r : Registry)
    → Sound r.workers
    → r.revision < 2 ^ 64
    → (serve urls now q r).revision ≡ r.revision
    → (id : String) → registration_of (serve urls now q r) id ≡ registration_of r id
serve-revision urls now q r s low e =
    Follows-Same r (serve urls now q r) (serve-Follows urls now q r s) low e
