-- ===== src/Worker/Rounds.antt =====
-- What the code relies on of the workers, and what the rounds of a close keep.
use mathlib.Core.Path.{subst}
use mathlib.Core.List.{reverse}
use mlx_swarm.Base.{
  ◌≡◌, refl, sym, ap, ◌∙◌, String, Bool, true, false, ◌||◌, List, [], ◌∷◌, ◌++◌, Option, none, some,
  ◌⊎◌, inl, inr, Bool-cases,
}
use mlx_swarm.Base.Text.{contains}
use mlx_swarm.Worker.Sequence.{
  Answer, accepted, rejected, transport_failure, open_sequence, close_sequence, OpenedSequence,
  Calls, close_failure, close_sequence_on, close_rounds, cleanup,
}
use mlx_swarm.Worker.Cleanup.{In, In-append_left, In-append_right, In-reverse}

-- What the code relies on of the workers. `holds w p` says that the sequence is open for this owner on
-- its worker, or that `late w p`: an open of it, whose answer was lost, is on its way. A close that is
-- rejected since the sequence is not open, or its shard not loaded, may have overtaken such an open.
pub record WorkerLaws {W : Type 0} (calls : Calls W) : Type 1 where
  pub holds : W → OpenedSequence → Type 0
  pub late : W → OpenedSequence → Type 0
  pub late_holds : (w : W) (p : OpenedSequence) → late w p → holds w p
  pub opens_only :
      (w : W) (o p : OpenedSequence) → holds (calls w open_sequence o).0 p → (p ≡ o) ⊎ holds w p
  pub only_lost_late :
      (w : W) (o p : OpenedSequence)
      → late (calls w open_sequence o).0 p
      → late w p ⊎ ((p ≡ o) × ((calls w open_sequence o).1 ≡ transport_failure))
  pub rejection_opens_nothing :
      (w : W) (o p : OpenedSequence) (m : String)
      → (calls w open_sequence o).1 ≡ rejected m
      → holds (calls w open_sequence o).0 p
      → holds w p
  pub close_opens_nothing :
      (w : W) (o p : OpenedSequence) → holds (calls w close_sequence o).0 p → holds w p
  pub close_delays_nothing :
      (w : W) (o p : OpenedSequence) → late (calls w close_sequence o).0 p → late w p
  pub accepted_close :
      (w : W) (o : OpenedSequence)
      → (calls w close_sequence o).1 ≡ accepted
      → ¬ holds (calls w close_sequence o).0 o
  pub gone_close :
      (w : W) (o : OpenedSequence) (m : String)
      → (calls w close_sequence o).1 ≡ rejected m
      → (contains m "is not open on shard" || contains m "is not loaded") ≡ true
      → holds (calls w close_sequence o).0 o
      → late w o

module _ {W : Type 0} (calls : Calls W) (laws : WorkerLaws calls) where
  open laws use {
    holds, late, late_holds, opens_only, only_lost_late, rejection_opens_nothing,
    close_opens_nothing, close_delays_nothing, accepted_close, gone_close,
  }

  -- A close that was answered as if the sequence were gone, while its open was on its way.
  pub record Overtook (p : OpenedSequence) : Type 0 where
    pub closing : W
    pub message : String
    pub on_its_way : late closing p
    pub answered : (calls closing close_sequence p).1 ≡ rejected message
    pub taken_for_gone :
        (contains message "is not open on shard" || contains message "is not loaded") ≡ true

  close_keeps : (w : W) (o p : OpenedSequence) → holds (close_sequence_on calls w o).0 p → holds w p
  unfolding close_sequence_on
  close_keeps w o p h = close_opens_nothing w o p h

  close_keeps_late :
      (w : W) (o p : OpenedSequence) → late (close_sequence_on calls w o).0 p → late w p
  unfolding close_sequence_on
  close_keeps_late w o p h = close_delays_nothing w o p h

  -- A close without a failure leaves the sequence closed, unless it overtook its open.
  closed_gone :
      (w : W) (o : OpenedSequence)
      → (close_sequence_on calls w o).1 ≡ none
      → holds (close_sequence_on calls w o).0 o
      → late w o × Overtook o
  unfolding close_sequence_on
  closed_gone w o e h = go (calls w close_sequence o).1 refl
    where
      go : (a : Answer) → (calls w close_sequence o).1 ≡ a → late w o × Overtook o
      go accepted f = absurd (accepted_close w o f h)
      go (rejected m) f =
          elim (Bool-cases (contains m "is not open on shard" || contains m "is not loaded")) [
            | inl gone ↦
                let l = gone_close w o m f gone h in
                (
                  l,
                  record {
                    closing = w;
                    message = m;
                    on_its_way = l;
                    answered = f;
                    taken_for_gone = gone;
                  },
                )
            | inr other ↦ absurd (
                let none_some : close_failure (rejected m) ≡ none = ap close_failure (sym f) ∙ e in
                cc (rw other at none_some))
          ]
      go transport_failure f = absurd (
          let none_some : close_failure transport_failure ≡ none = ap close_failure (sym f) ∙ e in
          cc none_some)

  -- A result of the rounds opens nothing, and still tracks what was tracked and is open, unless a close
  -- overtook its open.
  abbrev Tracks :
      W → List OpenedSequence → List OpenedSequence → W × List OpenedSequence × Bool → Type 0
  Tracks w os retained r =
      (p : OpenedSequence)
      → holds r.0 p
      → holds w p × (In p os ⊎ In p retained → In p r.1 ⊎ (late w p × Overtook p))

  round_skipped :
      (w : W) (o : OpenedSequence) (os retained : List OpenedSequence)
      (r : W × List OpenedSequence × Bool)
      → Tracks w os (retained ++ (o ∷ [])) r
      → Tracks w (o ∷ os) retained r
  round_skipped w o os retained r t p h = (
    (t p h).0,
    λ x. (t p h).1 (elim x [
      | inl i ↦ elim i [ inl e ↦ inr (In-append_right p retained (o ∷ []) (inl e)) | inr j ↦ inl j ]
      | inr j ↦ inr (In-append_left p retained (o ∷ []) j)
    ]),
  )

  round_closed :
      (w : W) (o : OpenedSequence) (os retained : List OpenedSequence)
      (r : W × List OpenedSequence × Bool)
      → (close_sequence_on calls w o).1 ≡ none
      → Tracks (close_sequence_on calls w o).0 os retained r
      → Tracks w (o ∷ os) retained r
  round_closed w o os retained r done t p h = (
    close_keeps w o p (t p h).0,
    λ x. elim x [
      | inl i ↦ elim i [
        | inl e ↦ inr (
            subst (λ q. late w q × Overtook q) (sym e)
              (closed_gone w o done (subst (holds (close_sequence_on calls w o).0) e (t p h).0)))
        | inr j ↦ earlier ((t p h).1 (inl j))
      ]
      | inr j ↦ earlier ((t p h).1 (inr j))
    ],
  )
    where
      earlier :
          In p r.1 ⊎ (late (close_sequence_on calls w o).0 p × Overtook p)
          → In p r.1 ⊎ (late w p × Overtook p)
      earlier (inl i) = inl i
      earlier (inr (l, v)) = inr (close_keeps_late w o p l, v)

  -- A close that failed before the other rounds.
  round_failed :
      (w : W) (o : OpenedSequence) (os retained : List OpenedSequence)
      (r : W × List OpenedSequence × Bool)
      → Tracks (close_sequence_on calls w o).0 os (retained ++ (o ∷ [])) r
      → Tracks w os (retained ++ (o ∷ [])) r
  round_failed w o os retained r t p h = (close_keeps w o p (t p h).0, λ x. earlier ((t p h).1 x))
    where
      earlier :
          In p r.1 ⊎ (late (close_sequence_on calls w o).0 p × Overtook p)
          → In p r.1 ⊎ (late w p × Overtook p)
      earlier (inl i) = inl i
      earlier (inr (l, v)) = inr (close_keeps_late w o p l, v)

  rounds_track :
      (should : OpenedSequence → Bool) (w : W) (os retained : List OpenedSequence) (fine : Bool)
      → Tracks w os retained (close_rounds calls should w os retained fine)
  unfolding close_rounds
  rounds_track should w [] retained fine =
      λ p h. (h, λ x. elim x [ inl n ↦ absurd n | inr i ↦ inl i ])
  rounds_track should w (o ∷ os) retained fine =
      go (should o) refl (close_sequence_on calls w o).1 refl
        (rounds_track should w os (retained ++ (o ∷ [])) fine)
        (rounds_track should (close_sequence_on calls w o).0 os (retained ++ (o ∷ [])) false)
        (rounds_track should (close_sequence_on calls w o).0 os retained fine)
    where
      w' : W
      w' = (close_sequence_on calls w o).0

      go :
          (b : Bool)
          → should o ≡ b
          → (a : Option Answer) → (close_sequence_on calls w o).1 ≡ a
          → Tracks w os
              (retained ++ (o ∷ []))
              (close_rounds calls should w os (retained ++ (o ∷ [])) fine)
          → Tracks w' os
              (retained ++ (o ∷ []))
              (close_rounds calls should w' os (retained ++ (o ∷ [])) false)
          → Tracks w' os retained (close_rounds calls should w' os retained fine)
          → Tracks w (o ∷ os) retained (close_rounds calls should w (o ∷ os) retained fine)
      go false b a e skip keep drop = rw b (
          round_skipped w o os retained (close_rounds calls should w os (retained ++ (o ∷ [])) fine)
            skip)
      go true b none e skip keep drop =
          rw (b, e)
            (round_closed w o os retained (close_rounds calls should w' os retained fine) e drop)
      go true b (some x) e skip keep drop =
          rw (b, e)
            (round_skipped w o os retained
              (close_rounds calls should w' os (retained ++ (o ∷ [])) false)
              (round_failed w o os retained
                (close_rounds calls should w' os (retained ++ (o ∷ [])) false) keep))

  pub cleanup_tracks :
      (w : W) (opened : List OpenedSequence) (p : OpenedSequence)
      → holds (cleanup calls w opened).0 p
      → holds w p × (In p opened → In p (cleanup calls w opened).1 ⊎ (late w p × Overtook p))
  unfolding cleanup
  cleanup_tracks w opened p h =
      let (before, kept) = rounds_track (λ o. true) w (reverse opened) [] true p h in
      (before, λ i. back (kept (inl (In-reverse p opened i))))
    where
      back :
          In p (close_rounds calls (λ o. true) w (reverse opened) [] true).1
            ⊎ (late w p × Overtook p)
          → In p (cleanup calls w opened).1 ⊎ (late w p × Overtook p)
      back (inl i) = inl (In-reverse p _ i)
      back (inr l) = inr l
