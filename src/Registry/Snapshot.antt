-- ===== src/Registry/Snapshot.antt =====
-- What a snapshot lists.
use mlx_swarm.Base.{ℕ, ◌<◌, String, Bool, List, [], ◌∷◌, arith, All, insert_by, sort_by}
use mlx_swarm.Base.GoMap.{GoMap, update_all}
use mlx_swarm.Registry.Types.{Worker}
use mlx_swarm.Registry.Leases.{Registry, keep_leased, expire, entries, snapshot}

module _ {A : Type 0} (P : A → Type 0) (before : A → A → Bool) where
  All-insert_by : (x : A) (xs : List A) → P x → All P xs → All P (insert_by before x xs)
  All-insert_by x [] p ps = (p, tt)
  All-insert_by x (y ∷ ys) p ps = ground (arith, All-insert_by x ys p ps.1)

  All-sort_by : (xs : List A) → All P xs → All P (sort_by before xs)
  All-sort_by [] ps = tt
  All-sort_by (x ∷ xs) ps = All-insert_by x (sort_by before xs) ps.0 (All-sort_by xs ps.1)

abbrev Leased : ℕ → Worker → Type 0
Leased now w = now < w.expires_at

entries-Leased :
    (now : ℕ) (m : GoMap String Worker)
    → All (Leased now) (entries (update_all (keep_leased now) m))
unfolding update_all
entries-Leased now [] = tt
entries-Leased now ((id, w) ∷ m) = ground (arith, entries-Leased now m)

-- A snapshot lists no worker whose lease has run out when it is generated: each one expires later.
pub snapshot-leased :
    (now : ℕ) (r : Registry)
    → All (λ w. (snapshot now r).0.generated_at < w.expires_at) (snapshot now r).0.workers
unfolding snapshot expire
snapshot-leased now r = All-sort_by (Leased now) _ _ (entries-Leased now r.workers)
