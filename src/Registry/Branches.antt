-- ===== src/Registry/Branches.antt =====
-- A property of an operation's outcome holds when it holds on each branch.
use mlx_swarm.Base.{◌≡◌, refl, Bool, true, false, Option, none, some}
use mlx_swarm.Registry.Types.{Worker}
use mlx_swarm.Registry.Validate.{RegistryError}
use mlx_swarm.Registry.Leases.{Registry, Outcome, refused, or_refuse, with_lease, branch}

module _ (P : Outcome × Registry → Type 0) where
  pub or_refuse-branches :
      (o : Option RegistryError) (r : Registry) (next : Outcome × Registry)
      → ((e : RegistryError) → P (refused e, r))
      → (o ≡ none → P next)
      → P (or_refuse o r next)
  unfolding or_refuse
  or_refuse-branches none r next refusal rest = rest refl
  or_refuse-branches (some e) r next refusal rest = refusal e

  pub with_lease-branches :
      (o : Option Worker) (absent : Outcome × Registry) (found : Worker → Outcome × Registry)
      → (o ≡ none → P absent)
      → ((w : Worker) → o ≡ some w → P (found w))
      → P (with_lease o absent found)
  unfolding with_lease
  with_lease-branches none absent found a f = a refl
  with_lease-branches (some w) absent found a f = f w refl

  pub branch-branches :
      (b : Bool) (x y : Outcome × Registry)
      → (b ≡ true → P x)
      → (b ≡ false → P y)
      → P (branch b x y)
  unfolding branch
  branch-branches true x y t f = t refl
  branch-branches false x y t f = f refl
