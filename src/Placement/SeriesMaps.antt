-- ===== src/Placement/SeriesMaps.antt =====
-- The maps of series of the store.
use mlx_swarm.Base.{ℕ, suc, ◌≤◌, ◌≡◌, List, [], some, length, arith, All, Option-cases, inl, inr}
use mlx_swarm.Base.GoMap.{
  Key, GoMap, get, or_zero, update_all, IsUnique, put-IsUnique, update_all-IsUnique,
}
use mlx_swarm.Base.Series.{
  AllEntries, All-map, get-AllEntries, put-AllEntries, update_all-AllEntries, length-put,
  length-put-some,
}
use mlx_swarm.Placement.Samples.{Sample}
use mlx_swarm.Placement.Store.{keep_series, new_series, add_sample}
use mlx_swarm.Placement.Kept.{IsSeries, keep_series-IsSeries, insert_sample-IsSeries}

module _ {K S : Type 0} ⦃key : Key K⦄ ⦃sample : Sample S⦄ (N : K → Type 0) (V : S → Type 0) where
  -- Every key has one series, and both are valid.
  pub record SeriesMap (limit latest : ℕ) (m : GoMap K (List S)) : Type 0 where
    pub unique : IsUnique m
    pub entries : AllEntries (λ k xs. N k × IsSeries V limit latest xs) m

  pub later-SeriesMap :
      (limit latest at : ℕ) (m : GoMap K (List S))
      → latest ≤ at
      → SeriesMap limit latest m
      → SeriesMap limit at m
  later-SeriesMap limit latest at m h s = record {
    unique = s.unique;
    entries =
        All-map _ _
          (λ e p. (
            p.0,
            record {
              some_left = p.1.some_left;
              limited = p.1.limited;
              valid = p.1.valid;
              past = All-map _ _ (λ x q. omega arith) e.1 p.1.past;
            },
          ))
          m s.entries;
  }

  pub prune-SeriesMap :
      (limit latest max_age at : ℕ) (m : GoMap K (List S))
      → SeriesMap limit latest m
      → SeriesMap limit latest (update_all (keep_series max_age at) m)
  prune-SeriesMap limit latest max_age at m s = record {
    unique = update_all-IsUnique (keep_series max_age at) m s.unique;
    entries =
        update_all-AllEntries (keep_series max_age at) (λ k xs. N k × IsSeries V limit latest xs)
          (λ k xs. N k × IsSeries V limit latest xs) m
          (λ k xs ys p h. (p.0, keep_series-IsSeries V limit latest max_age at k xs ys p.1 h))
          s.entries;
  }

  -- The samples of a key, none where it has no series.
  series_of :
      (limit latest : ℕ) (m : GoMap K (List S)) (k : K)
      → SeriesMap limit latest m
      → All V (or_zero (get m k) []) × All (λ s. sample.observed s ≤ latest) (or_zero (get m k) [])
  series_of limit latest m k s = elim (Option-cases (get m k)) [
    | inl e ↦ rw e (tt, tt)
    | inr e ↦
        let p = get-AllEntries (λ k xs. N k × IsSeries V limit latest xs) m k e.0 s.entries e.1 in
        rw e.1 (p.1.valid, p.1.past)
  ]

  pub add_sample-SeriesMap :
      (limit latest : ℕ) (m : GoMap K (List S)) (k : K) (x : S)
      → 1 ≤ limit
      → SeriesMap limit latest m
      → N k
      → V x
      → sample.observed x ≤ latest
      → SeriesMap limit latest (add_sample m limit k x)
  unfolding add_sample new_series
  add_sample-SeriesMap limit latest m k x positive s n v p =
      let old = series_of limit latest m k s in
      let new =
        insert_sample-IsSeries V limit latest (or_zero (get m k) []) x positive old.0 old.1 v p in
      record {
        unique = put-IsUnique m k (new_series m limit k x) s.unique;
        entries =
            put-AllEntries (λ k xs. N k × IsSeries V limit latest xs) m k (new_series m limit k x)
              s.entries (n, new);
      }

module _ {K S : Type 0} ⦃key : Key K⦄ ⦃sample : Sample S⦄ where
  pub length-add_sample :
      (m : GoMap K (List S)) (limit : ℕ) (k : K) (x : S)
      → length (add_sample m limit k x) ≤ suc (length m)
  unfolding add_sample
  length-add_sample m limit k x = length-put m k (new_series m limit k x)

  pub length-add_sample-some :
      (m : GoMap K (List S)) (limit : ℕ) (k : K) (x : S) (xs : List S)
      → get m k ≡ some xs
      → length (add_sample m limit k x) ≤ length m
  unfolding add_sample
  length-add_sample-some m limit k x xs h = length-put-some m k (new_series m limit k x) xs h
