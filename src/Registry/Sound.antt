-- ===== src/Registry/Sound.antt =====
-- A well-formed registry: each worker stands under its own ID, and no two leases share an instance
-- or an endpoint.
use mlx_swarm.Base.{ℕ, ◌≡◌, ◌≢◌, sym, ap, ◌∙◌, String, [], ◌∷◌, none, some, arith, inl, inr, ◌⊎◌}
use mlx_swarm.Base.GoMap.{
  GoMap, get, put, delete, IsUnique, get-put, get-delete, get-update_all, put-IsUnique,
  delete-IsUnique, update_all-IsUnique,
}
use mlx_swarm.Base.Text.{string_discrete, string_key}
use mlx_swarm.Registry.Types.{Registration, Worker}
use mlx_swarm.Registry.Leases.{Registry, Outcome, keep_leased, expire, conflict}

-- No two leases have one value of a field.
abbrev pub Apart : (Worker → String) → GoMap String Worker → Type 0
Apart field m =
    (i j : String) (v w : Worker) → get m i ≡ some v → get m j ≡ some w → field v ≡ field w → i ≡ j

-- The leases of a well-formed registry.
pub record Sound (m : GoMap String Worker) : Type 0 where
  pub unique : IsUnique m
  pub own : (id : String) (w : Worker) → get m id ≡ some w → w.id ≡ id
  pub instances : Apart (λ w. w.instance_id) m
  pub endpoints : Apart (λ w. w.endpoint) m

abbrev pub Sub : GoMap String Worker → GoMap String Worker → Type 0
Sub m n = (id : String) (w : Worker) → get m id ≡ some w → get n id ≡ some w

Sound-Sub : (m n : GoMap String Worker) → IsUnique m → Sub m n → Sound n → Sound m
Sound-Sub m n u sub s = record {
  unique = u;
  own = λ id w h. s.own id w (sub id w h);
  instances = λ i j v w g h. s.instances i j v w (sub i v g) (sub j w h);
  endpoints = λ i j v w g h. s.endpoints i j v w (sub i v g) (sub j w h);
}

-- A worker whose instance and endpoint no other lease has.
abbrev pub Alone : GoMap String Worker → String → Worker → Type 0
Alone m id w =
    (j : String) (v : Worker)
    → j ≢ id
    → get m j ≡ some v
    → (v.instance_id ≢ w.instance_id) × (v.endpoint ≢ w.endpoint)

put-cases :
    (m : GoMap String Worker) (id : String) (w : Worker) (j : String) (v : Worker)
    → get (put m id w) j ≡ some v
    → ((j ≡ id) × (v ≡ w)) ⊎ ((j ≢ id) × (get m j ≡ some v))
put-cases m id w j v h = elim (string_discrete id j) [
  | yes p ↦ inl (sym p, ground (arith, get-put m id j w))
  | no n ↦ inr ((λ p. n (sym p)), ground (arith, get-put m id j w))
]

Apart-put :
    (field : Worker → String) (m : GoMap String Worker) (id : String) (w : Worker)
    → Apart field m
    → ((j : String) (v : Worker) → j ≢ id → get m j ≡ some v → field v ≢ field w)
    → Apart field (put m id w)
Apart-put field m id w apart alone i j v u g h e = elim (put-cases m id w i v g) [
  | inl p ↦ elim (put-cases m id w j u h) [
    | inl q ↦ p.0 ∙ sym q.0
    | inr q ↦ absurd (alone j u q.0 q.1 (sym e ∙ ap field p.1))
  ]
  | inr p ↦ elim (put-cases m id w j u h) [
    | inl q ↦ absurd (alone i v p.0 p.1 (e ∙ ap field q.1))
    | inr q ↦ apart i j v u p.1 q.1 e
  ]
]

pub Sound-put :
    (m : GoMap String Worker) (id : String) (w : Worker)
    → Sound m
    → w.id ≡ id
    → Alone m id w
    → Sound (put m id w)
Sound-put m id w s own alone = record {
  unique = put-IsUnique m id w s.unique;
  own = λ j v h. ground (arith, get-put m id j w, s.own j v);
  instances = Apart-put (λ u. u.instance_id) m id w s.instances (λ j v n h. (alone j v n h).0);
  endpoints = Apart-put (λ u. u.endpoint) m id w s.endpoints (λ j v n h. (alone j v n h).1);
}

-- A lease that its holder renews stays apart from the others.
pub Alone-same :
    (m : GoMap String Worker) (id : String) (v w : Worker)
    → Sound m
    → get m id ≡ some v
    → v.instance_id ≡ w.instance_id
    → v.endpoint ≡ w.endpoint
    → Alone m id w
Alone-same m id v w s h e f j u n g = (
  (λ p. n (s.instances j id u v g h (p ∙ sym e))),
  (λ p. n (s.endpoints j id u v g h (p ∙ sym f))),
)

pub conflict-none :
    (input : Registration) (m : GoMap String Worker)
    → conflict input m ≡ none
    → (j : String) (v : Worker) → j ≢ input.id
    → get m j ≡ some v
    → (v.instance_id ≢ input.instance_id) × (v.endpoint ≢ input.endpoint)
unfolding conflict get
conflict-none input [] h j v n e = ground arith
conflict-none input ((id, w) ∷ m) h j v n e = elim (string_discrete id j) [
  | yes p ↦ ground arith
  | no q ↦ conflict-none input m (ground arith) j v n (ground arith)
]

expire-Sub : (now : ℕ) (r : Registry) → IsUnique r.workers → Sub (expire now r).workers r.workers
unfolding expire
expire-Sub now r u id w h = ground (arith, get-update_all (keep_leased now) r.workers id u)

pub expire-Sound : (now : ℕ) (r : Registry) → Sound r.workers → Sound (expire now r).workers
unfolding expire
expire-Sound now r s =
    Sound-Sub (expire now r).workers r.workers
      (update_all-IsUnique (keep_leased now) r.workers s.unique) (expire-Sub now r s.unique) s

pub delete-Sound : (m : GoMap String Worker) (id : String) → Sound m → Sound (delete m id)
delete-Sound m id s =
    Sound-Sub (delete m id) m (delete-IsUnique m id s.unique)
      (λ j w h. ground (arith, get-delete m id j)) s

-- The invariant of the registry that an operation leaves.
pub record SoundAfter (o : Outcome × Registry) : Type 0 where
  pub sound : Sound o.1.workers
