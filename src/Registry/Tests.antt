-- ===== src/Registry/Tests.antt =====
-- Runs of the registry's theorems.
use mlx_swarm.Base.{
  ℕ, ◌<◌, ◌^◌, ◌≡◌, refl, String, Bool, true, false, List, [], ◌∷◌, Option, none, some, arith,
}
use mlx_swarm.Base.Int.{ℤ, pos}
use mlx_swarm.Base.GoMap.{get}
use mlx_swarm.Base.Text.{string_key}
use mlx_swarm.Fixtures.{registration_with}
use mlx_swarm.Registry.Types.{Worker, Registration}
use mlx_swarm.Base.{All}
use mlx_swarm.Registry.Validate.{Urls}
use mlx_swarm.Registry.Leases.{Registry, Outcome, refused, new, register, snapshot}
use mlx_swarm.Registry.Validate.{duplicate_instance}
use mlx_swarm.Registry.Sound.{Apart}
use mlx_swarm.Registry.History.{
  Request, register_request, serve, Reach, opened, served, leases-Apart, Reach-Sound,
}
use mlx_swarm.Registry.Snapshot.{snapshot-leased}
use mlx_swarm.Registry.Follows.{registration_of}
use mlx_swarm.Registry.Revision.{serve-revision}

-- Every endpoint is canonical and accepted.
abbrev any_url : Urls
any_url = record { canonical_endpoint = λ s. s; is_endpoint = λ s. true }

abbrev enter_a : Request
enter_a = register_request true (registration_with "a" "a1" "http://a")

abbrev enter_b : Request
enter_b = register_request true (registration_with "b" "b1" "http://b")

abbrev with_two : Registry
with_two = serve any_url 2 enter_b (serve any_url 1 enter_a (new (pos 100)))

two_registered : Reach any_url (pos 100) with_two
two_registered = served 2 enter_b (served 1 enter_a opened)

-- A second worker of one instance is refused.
clash_test :
    (register any_url 3 true (registration_with "c" "b1" "http://c") with_two).0
    ≡ refused duplicate_instance
unfolding register mlx_swarm.Registry.Leases.or_refuse mlx_swarm.Base.Int.ℤ-discrete
    mlx_swarm.Base.ℕ_discrete mlx_swarm.Base.Text.string_discrete mlx_swarm.Base.Text.trim_space
    mlx_swarm.Base.GoMap.update_all serve new mlx_swarm.Registry.Leases.with_lease get
    mlx_swarm.Base.GoMap.put
clash_test = refl

leases-Apart_example :
    ((id : String) (w : Worker) → get with_two.workers id ≡ some w → w.id ≡ id)
    × Apart (λ w. w.instance_id) with_two.workers
    × Apart (λ w. w.endpoint) with_two.workers
leases-Apart_example = leases-Apart any_url (pos 100) with_two two_registered

snapshot-leased_example :
    All
      (λ w. (snapshot 101 with_two).0.generated_at < w.expires_at)
      (snapshot 101 with_two).0.workers
snapshot-leased_example = snapshot-leased 101 with_two

with_two_revision : with_two.revision ≡ 2
unfolding serve mlx_swarm.Registry.Leases.or_refuse mlx_swarm.Base.Int.ℤ-discrete
    mlx_swarm.Base.ℕ_discrete mlx_swarm.Base.Text.string_discrete mlx_swarm.Base.Text.trim_space
    mlx_swarm.Base.GoMap.update_all new mlx_swarm.Registry.Leases.with_lease get
    mlx_swarm.Base.GoMap.put
with_two_revision = refl

same_revision : (serve any_url 3 enter_a with_two).revision ≡ with_two.revision
unfolding serve new mlx_swarm.Registry.Leases.or_refuse mlx_swarm.Base.Int.ℤ-discrete
    mlx_swarm.Base.ℕ_discrete mlx_swarm.Base.Text.string_discrete mlx_swarm.Base.Text.trim_space
    mlx_swarm.Base.GoMap.update_all get mlx_swarm.Registry.Leases.with_lease
    mlx_swarm.Base.GoMap.put mlx_swarm.Registry.Leases.branch
    mlx_swarm.Registry.Types.registration_discrete
same_revision = refl

low_revision : with_two.revision < 2 ^ 64
low_revision = omega (arith, with_two_revision)

serve-revision_example :
    registration_of (serve any_url 3 enter_a with_two) "b" ≡ registration_of with_two "b"
serve-revision_example =
    serve-revision any_url 3 enter_a with_two
      (Reach-Sound any_url (pos 100) with_two two_registered) low_revision same_revision "b"
