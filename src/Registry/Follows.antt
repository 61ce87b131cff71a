-- ===== src/Registry/Follows.antt =====
-- How a registry follows another: the changes of its revision and of its registrations.
use mlx_swarm.Base.{
  ℕ, ◌+◌, ◌%◌, ◌^◌, ◌≤◌, ◌<◌, ◌≡◌, refl, ap, ◌∙◌, String, false, [], ◌∷◌, Option, none, some, arith,
  ◌⊎◌, inl, inr, Bool-cases,
}
use mlx_swarm.Base.Word.{add_u64}
use mlx_swarm.Base.GoMap.{GoMap, get, update_all}
use mlx_swarm.Base.Text.{string_key}
use mlx_swarm.Registry.Types.{Registration, Worker}
use mlx_swarm.Registry.Leases.{Registry, Outcome, keep_leased, any_expired, bump, expire}

abbrev pub registration_in : Option Worker → Option Registration
registration_in none = none
registration_in (some w) = some w.registration

-- The registration under an ID.
abbrev pub registration_of : Registry → String → Option Registration
registration_of r id = registration_in (get r.workers id)

abbrev Same : Registry → Registry → Type 0
Same r o = (id : String) → registration_of o id ≡ registration_of r id

-- A registry that follows another: nothing of the registrations changed, or the revision went on by
-- at most `n`.
pub record Follows (n : ℕ) (r o : Registry) : Type 0 where
  pub follows :
      (Same r o × (o.revision ≡ r.revision))
      ⊎ ((k : ℕ) × (1 ≤ k) × (k ≤ n) × (o.revision ≡ (r.revision + k) % 2 ^ 64))

pub unchanged : (n : ℕ) (r o : Registry) → Same r o → o.revision ≡ r.revision → Follows n r o
unchanged n r o s e = record { follows = inl (s, e) }

pub moved : (n : ℕ) (r o : Registry) → 1 ≤ n → o.revision ≡ add_u64 r.revision 1 → Follows n r o
moved n r o h e = record { follows = inr (1, omega arith, h, e) }

pub Follows-trans :
    (n m : ℕ) (r s o : Registry) → Follows n r s → Follows m s o → Follows (n + m) r o
Follows-trans n m r s o f g = elim f.follows [
  | inl p ↦ elim g.follows [
    | inl q ↦ record { follows = inl ((λ id. q.0 id ∙ p.0 id), q.1 ∙ p.1) }
    | inr q ↦ record {
      follows = inr (q.0, q.1, omega arith, q.3 ∙ ap (λ v. (v + q.0) % 2 ^ 64) p.1);
    }
  ]
  | inr p ↦ elim g.follows [
    | inl q ↦ record { follows = inr (p.0, p.1, omega arith, q.1 ∙ p.3) }
    | inr q ↦ record { follows = inr (p.0 + q.0, omega arith, omega arith, omega arith) }
  ]
]

-- A revision that did not move.
pub Follows-Same :
    (r o : Registry) → Follows 3 r o → r.revision < 2 ^ 64 → o.revision ≡ r.revision → Same r o
Follows-Same r o f low e = elim f.follows [ inl p ↦ p.0 | inr p ↦ absurd (omega arith) ]

none_expired :
    (now : ℕ) (m : GoMap String Worker)
    → any_expired now m ≡ false
    → update_all (keep_leased now) m ≡ m
unfolding update_all
none_expired now [] h = refl
none_expired now ((id, w) ∷ m) h = ground (arith, none_expired now m)

pub expire-Follows : (now : ℕ) (r : Registry) → Follows 1 r (expire now r)
unfolding expire
expire-Follows now r = elim (Bool-cases (any_expired now r.workers)) [
  | inl t ↦ moved 1 r (expire now r) (omega arith) (ap (λ b. bump b r.revision) t)
  | inr f ↦
      unchanged 1 r (expire now r)
        (λ id. ap (λ m. registration_in (get m id)) (none_expired now r.workers f))
        (ap (λ b. bump b r.revision) f)
]

pub record FollowsAfter (n : ℕ) (r : Registry) (o : Outcome × Registry) : Type 0 where
  pub after : Follows n r o.1

-- A worker is stored under a revision that moves when the test says so; when it does not, the
-- registration is the one that was there.
