-- ===== src/Worker/Ownership.antt =====
-- No sequence that `OpenSequences` may have opened escapes the set that it returns.
use mathlib.Core.Path.{subst}
use mlx_swarm.Base.{
  ◌≡◌, refl, sym, ap, String, true, List, [], ◌∷◌, ◌++◌, Option, none, some, ◌⊎◌, inl, inr,
  Bool-cases,
}
use mlx_swarm.Worker.Sequence.{
  Opened, Answer, accepted, rejected, transport_failure, open_sequence, SequenceTarget,
  OpenedSequence, OpenError, failed, failed_with_rollback, Calls, cleanup, track, rollback,
  open_all, matrix, check_open, open_sequences,
}
use mlx_swarm.Worker.Cleanup.{on_answer_elim, cleanup-ok, In, In-append_left, In-append_right}
use mlx_swarm.Worker.Rounds.{WorkerLaws, Overtook, cleanup_tracks}

-- The sequences of a returned set; a nil set has none.
abbrev pub tracked : Option (List OpenedSequence) → List OpenedSequence
tracked none = []
tracked (some os) = os

module _ {W : Type 0} (calls : Calls W) (laws : WorkerLaws calls) where
  open laws use {
    holds, late, late_holds, opens_only, only_lost_late, rejection_opens_nothing,
    close_opens_nothing, close_delays_nothing, accepted_close, gone_close,
  }

  -- The error of an open whose answer was lost.
  abbrev pub IsLost : Option OpenError → Type 0
  IsLost e =
      (e ≡ some (failed transport_failure)) ⊎ (e ≡ some (failed_with_rollback transport_failure))

  -- The one open that may escape: it is the open that ended the call, its answer was lost, and the
  -- close of the rollback overtook it.
  pub record Escaped (p : OpenedSequence) (e : Option OpenError) : Type 0 where
    pub opening : W
    pub unanswered : (calls opening open_sequence p).1 ≡ transport_failure
    pub reported : IsLost e
    pub overtook : Overtook calls laws p

  abbrev Kept : OpenedSequence → Opened → Type 0
  Kept p r = In p (tracked r.0) ⊎ Escaped p r.1

  rollback_tracks :
      (w : W) (opened : List OpenedSequence) (a : Answer) (p : OpenedSequence)
      → (holds w p → In p opened)
      → (late w p
          → (v : W) × ((calls v open_sequence p).1 ≡ transport_failure) × (a ≡ transport_failure))
      → holds (rollback calls w opened a).0 p
      → Kept p (rollback calls w opened a).1
  unfolding rollback
  rollback_tracks w opened a p known lost h = elim (Bool-cases (cleanup calls w opened).2) [
    | inl fine ↦
        let here : holds (cleanup calls w opened).0 p = rw fine at h in
        rw fine (
          escape none (failed a) (λ e. inl (ap (λ x. some (failed x)) e))
            (nothing_left fine (before_and_after here)))
    | inr partial ↦ rw partial (
        escape (some (cleanup calls w opened).1) (failed_with_rollback a)
          (λ e. inr (ap (λ x. some (failed_with_rollback x)) e))
          (before_and_after (rw partial at h)))
  ]
    where
      before_and_after :
          holds (cleanup calls w opened).0 p
          → In p (cleanup calls w opened).1 ⊎ (late w p × Overtook calls laws p)
      before_and_after here =
          let (before, kept) = cleanup_tracks calls laws w opened p here in kept (known before)

      nothing_left :
          (cleanup calls w opened).2 ≡ true
          → In p (cleanup calls w opened).1 ⊎ (late w p × Overtook calls laws p)
          → In p [] ⊎ (late w p × Overtook calls laws p)
      nothing_left fine (inl i) = inl (subst (In p) (cleanup-ok calls w opened fine) i)
      nothing_left fine (inr l) = inr l

      escape :
          (set : Option (List OpenedSequence)) (e : OpenError)
          → (a ≡ transport_failure → IsLost (some e))
          → In p (tracked set) ⊎ (late w p × Overtook calls laws p)
          → Kept p (set, some e)
      escape set e f (inl i) = inl i
      escape set e f (inr (l, v)) =
          let (sent, unanswered, same) = lost l in
          inr (record { opening = sent; unanswered = unanswered; reported = f same; overtook = v })

  opened_tracked :
      (w : W) (opened : List OpenedSequence) (o p : OpenedSequence)
      → (holds w p → In p opened)
      → (a : Answer) → (calls w open_sequence o).1 ≡ a
      → holds (calls w open_sequence o).0 p
      → In p (track a o opened)
  opened_tracked w opened o p known (rejected m) e h = known (rejection_opens_nothing w o p m e h)
  opened_tracked w opened o p known accepted e h = new_or_old (opens_only w o p h)
    where
      new_or_old : (p ≡ o) ⊎ holds w p → In p (opened ++ (o ∷ []))
      new_or_old (inl same) = In-append_right p opened (o ∷ []) (inl same)
      new_or_old (inr old) = In-append_left p opened (o ∷ []) (known old)
  opened_tracked w opened o p known transport_failure e h = new_or_old (opens_only w o p h)
    where
      new_or_old : (p ≡ o) ⊎ holds w p → In p (opened ++ (o ∷ []))
      new_or_old (inl same) = In-append_right p opened (o ∷ []) (inl same)
      new_or_old (inr old) = In-append_left p opened (o ∷ []) (known old)

  -- What is late after an open, where it was not before, is that open, and its answer was lost.
  late_after :
      (w : W) (o p : OpenedSequence)
      → ¬ late w p
      → late (calls w open_sequence o).0 p
      → (v : W) × ((calls v open_sequence p).1 ≡ transport_failure)
        × ((calls w open_sequence o).1 ≡ transport_failure)
  late_after w o p early l = elim (only_lost_late w o p l) [
    | inl before ↦ absurd (early before)
    | inr (same, lost) ↦
        (w, subst (λ q. (calls w open_sequence q).1 ≡ transport_failure) (sym same) lost, lost)
  ]

  not_late :
      (w : W) (o p : OpenedSequence)
      → ¬ late w p
      → (calls w open_sequence o).1 ≡ accepted
      → ¬ late (calls w open_sequence o).0 p
  not_late w o p early e l = let x = late_after w o p early l in absurd (cc (e, x.2))

  open_all_tracks :
      (w : W) (opened os : List OpenedSequence) (p : OpenedSequence)
      → (holds w p → In p opened)
      → ¬ late w p
      → holds (open_all calls w opened os).0 p
      → Kept p (open_all calls w opened os).1
  unfolding open_all
  open_all_tracks w opened [] p known early = λ h. inl (known h)
  open_all_tracks w opened (o ∷ os) p known early =
      let a = (calls w open_sequence o).1 in
      let w' = (calls w open_sequence o).0 in
      let new = opened_tracked w opened o p known a refl in
      on_answer_elim {A = W × Opened} (λ r. holds r.0 p → Kept p r.1) a
        (λ e. open_all_tracks w' (track a o opened) os p new (not_late w o p early e))
        (rollback_tracks w' (track a o opened) a p new (late_after w o p early))

  -- For workers that meet `WorkerLaws` (an open opens at most its own sequence, nothing if it is
  -- rejected, and may take effect later only if its answer was lost; a close opens and delays nothing;
  -- after an accepted close the sequence is neither open nor on its way, and after one that is rejected
  -- as not open or not loaded it is not open, but may be on its way if it was before): whatever
  -- `OpenSequences` returns, if a sequence was neither open nor on its way before the call, and it is
  -- open or on its way after it, then the set that is returned tracks it, so that a later `Cleanup`
  -- can close it, and a nil set leaves no such sequence, but for one case: the sequence's own open
  -- lost its answer, the call returns the error of a lost answer, and the close of the rollback was
  -- answered as if the sequence were gone while its open was on its way. There is no such case on the
  -- other paths: success, rejected checks, and an open that was rejected, whether or not the rollback
  -- fails.
  pub open_sequences_no_orphan :
      (w : W) (owner : Option String) (targets : List SequenceTarget) (ids : List String)
      (p : OpenedSequence)
      → ¬ holds w p
      → holds (open_sequences calls w owner targets ids).0 p
      → In p (tracked (open_sequences calls w owner targets ids).1.0)
        ⊎ Escaped p (open_sequences calls w owner targets ids).1.1
  unfolding open_sequences
  open_sequences_no_orphan w owner targets ids p fresh = go (check_open targets ids) owner refl
    where
      go :
          (e : Option OpenError) (name : Option String)
          → check_open targets ids ≡ e
          → holds (open_sequences calls w name targets ids).0 p
          → Kept p (open_sequences calls w name targets ids).1
      go (some x) name e = rw (e, open_sequences) (λ h. absurd (fresh h))
      go none none e = rw (e, open_sequences) (λ h. absurd (fresh h))
      go none (some name) e =
          rw (e, open_sequences)
            (open_all_tracks w [] (matrix name ids targets) p (λ h. absurd (fresh h))
              (λ l. absurd (fresh (late_holds w p l))))
