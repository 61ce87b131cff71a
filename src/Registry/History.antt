-- ===== src/Registry/History.antt =====
-- The histories of a registry: any sequence of its operations, each at the time that the clock
-- then shows, whichever way the clock goes.
use mlx_swarm.Base.{ℕ, ◌≡◌, String, Bool, some}
use mlx_swarm.Base.Int.{ℤ}
use mlx_swarm.Base.GoMap.{get}
use mlx_swarm.Base.Text.{string_key}
use mlx_swarm.Registry.Types.{Registration, Heartbeat, Worker}
use mlx_swarm.Registry.Validate.{Urls}
use mlx_swarm.Registry.Leases.{Registry, register, heartbeat, remove, snapshot, new}
use mlx_swarm.Registry.Sound.{Sound, Apart, expire-Sound}
use mlx_swarm.Registry.Invariant.{register-Sound, heartbeat-Sound, remove-Sound}

-- A request to the registry.
pub data Request : Type 0 where
  register_request : Bool → Registration → Request
  heartbeat_request : String → Heartbeat → Request
  remove_request : String → String → Request
  snapshot_request : Request

unfoldable pub serve : Urls → ℕ → Request → Registry → Registry
unfolding register heartbeat remove snapshot
serve urls now (register_request fresh input) r = (register urls now fresh input r).1
serve urls now (heartbeat_request id beat) r = (heartbeat now id beat r).1
serve urls now (remove_request id instance_id) r = (remove now id instance_id r).1
serve urls now snapshot_request r = (snapshot now r).1

pub data Reach (urls : Urls) (ttl : ℤ) : Registry → Type 0 where
  opened : Reach urls ttl (new ttl)
  served :
      {r : Registry} (now : ℕ) (q : Request)
      → Reach urls ttl r
      → Reach urls ttl (serve urls now q r)

pub serve-Sound :
    (urls : Urls) (now : ℕ) (q : Request) (r : Registry)
    → Sound r.workers
    → Sound (serve urls now q r).workers
unfolding serve snapshot
serve-Sound urls now (register_request fresh input) r s =
    (register-Sound urls now fresh input r s).sound
serve-Sound urls now (heartbeat_request id beat) r s = (heartbeat-Sound now id beat r s).sound
serve-Sound urls now (remove_request id instance_id) r s =
    (remove-Sound now id instance_id r s).sound
serve-Sound urls now snapshot_request r s = expire-Sound now r s

new-Sound : (ttl : ℤ) → Sound (new ttl).workers
unfolding new get
new-Sound ttl = record {
  unique = tt;
  own = λ id w h. cc;
  instances = λ i j v w g h e. cc;
  endpoints = λ i j v w g h e. cc;
}

pub Reach-Sound : (urls : Urls) (ttl : ℤ) (r : Registry) → Reach urls ttl r → Sound r.workers
Reach-Sound urls ttl _ opened = new-Sound ttl
Reach-Sound urls ttl _ (served now q p) = serve-Sound urls now q _ (Reach-Sound urls ttl _ p)

-- After any sequence of registrations, heartbeats, removals and snapshots, refused ones included,
-- each worker of the registry stands under its own ID, and two leases with the same worker instance
-- or with the same endpoint are one lease.
pub leases-Apart :
    (urls : Urls) (ttl : ℤ) (r : Registry)
    → Reach urls ttl r
    → ((id : String) (w : Worker) → get r.workers id ≡ some w → w.id ≡ id)
      × Apart (λ w. w.instance_id) r.workers
      × Apart (λ w. w.endpoint) r.workers
leases-Apart urls ttl r p = let s = Reach-Sound urls ttl r p in (s.own, s.instances, s.endpoints)
