-- ===== src/Worker/Tests.antt =====
-- Runs of the theorems on sequences, with workers that keep a list of what is open.
use mlx_swarm.Base.{
  ◌≡◌, refl, String, true, [], ◌∷◌, Option, none, some, arith, is_yes, inl, inr, ◌⊎◌, if◌then◌else◌,
  ℕ_discrete,
}
use mlx_swarm.Base.Text.{string_discrete}
use mlx_swarm.Worker.Sequence.{
  Answer, accepted, rejected, transport_failure, Command, open_sequence, close_sequence,
  SequenceTarget, OpenedSequence, Calls, close_using, open_sequences, check_open, failed,
  failed_with_rollback,
}
use mlx_swarm.Worker.Cleanup.{unless, close_using-ok, In}
use mlx_swarm.Worker.Rounds.{WorkerLaws}
use mlx_swarm.Worker.Ownership.{Escaped, tracked, open_sequences_no_orphan}

-- One worker with room for one sequence. It rejects an open when it is full, and a close of what is
-- not open; the answers to the closes of "q" are lost before they take effect.
unfoldable opened_discrete : Discrete OpenedSequence
opened_discrete = hlevel (string_discrete, ℕ_discrete)

abbrev if_open : {A : Type 0} → Option OpenedSequence → OpenedSequence → A → A → A
if_open none o x y = y
if_open (some p) o x y = if is_yes (opened_discrete p o) then x else y

abbrev narrow : Calls (Option OpenedSequence)
narrow none open_sequence o = (some o, accepted)
narrow (some p) open_sequence o = (some p, rejected "the worker is full")
narrow w close_sequence o =
    if is_yes (string_discrete o.sequence_id "q")
    then (w, transport_failure)
    else if_open w o (none, accepted) (w, rejected "sequence is not open on shard")

-- A worker that opens and closes as it is told.
abbrev obeying : Calls (Option OpenedSequence)
obeying w open_sequence o = (some o, accepted)
obeying w close_sequence o = (none, accepted)

abbrev target_x : SequenceTarget
target_x = record { name = "stage"; caller = some 0; shard_id = "x" }

abbrev opened_q : OpenedSequence
opened_q = record { target = target_x; sequence_id = "q"; owner_id = "me" }

abbrev opened_r : OpenedSequence
opened_r = record { target = target_x; sequence_id = "r"; owner_id = "me" }

narrow_opens :
    (w : Option OpenedSequence) (o p : OpenedSequence)
    → (narrow w open_sequence o).0 ≡ some p
    → (p ≡ o) ⊎ (w ≡ some p)
narrow_opens none o p h = inl (ground arith)
narrow_opens (some q) o p h = inr h

narrow_rejects :
    (w : Option OpenedSequence) (o p : OpenedSequence) (m : String)
    → (narrow w open_sequence o).1 ≡ rejected m
    → (narrow w open_sequence o).0 ≡ some p
    → w ≡ some p
narrow_rejects none o p m e h = absurd (cc e)
narrow_rejects (some q) o p m e h = h

narrow_closes :
    (w : Option OpenedSequence) (o p : OpenedSequence)
    → (narrow w close_sequence o).0 ≡ some p
    → w ≡ some p
narrow_closes none o p h = ground arith
narrow_closes (some q) o p h = ground arith

narrow-accepted :
    (w : Option OpenedSequence) (o : OpenedSequence)
    → (narrow w close_sequence o).1 ≡ accepted
    → ¬ ((narrow w close_sequence o).0 ≡ some o)
narrow-accepted none o e h = ground arith
narrow-accepted (some q) o e h = ground arith

narrow_gone :
    (w : Option OpenedSequence) (o : OpenedSequence) (m : String)
    → (narrow w close_sequence o).1 ≡ rejected m
    → ¬ ((narrow w close_sequence o).0 ≡ some o)
narrow_gone none o m e h = ground arith
narrow_gone (some q) o m e h = elim (opened_discrete q o) [
  | yes p ↦ ground arith
  | no n ↦ ground arith
]

-- No open of this worker is late.
abbrev NeverLate : Option OpenedSequence → OpenedSequence → Type 0
NeverLate w p = ⊥

abbrev narrow_laws : WorkerLaws narrow
narrow_laws = record {
  holds = λ w p. w ≡ some p;
  late = NeverLate;
  late_holds = λ w p l. absurd l;
  opens_only = narrow_opens;
  only_lost_late = λ w o p l. absurd l;
  rejection_opens_nothing = narrow_rejects;
  close_opens_nothing = narrow_closes;
  close_delays_nothing = λ w o p l. absurd l;
  accepted_close = narrow-accepted;
  gone_close = λ w o m e g h. absurd (narrow_gone w o m e h);
}

closed_fine :
    (close_using obeying
      (λ o. is_yes (string_discrete o.sequence_id "q"))
      (some opened_q)
      (opened_q ∷ opened_r ∷ [])).2
    ≡ true
unfolding close_using mlx_swarm.Worker.Sequence.close_rounds string_discrete
    mlx_swarm.Worker.Sequence.close_sequence_on
closed_fine = refl

close_using-ok_example :
    (close_using obeying
      (λ o. is_yes (string_discrete o.sequence_id "q"))
      (some opened_q)
      (opened_q ∷ opened_r ∷ [])).1
    ≡ unless (λ o. is_yes (string_discrete o.sequence_id "q")) (opened_q ∷ opened_r ∷ [])
close_using-ok_example =
    close_using-ok obeying (λ o. is_yes (string_discrete o.sequence_id "q")) (some opened_q)
      (opened_q ∷ opened_r ∷ []) closed_fine

not_open_before : ¬ (none ≡ some opened_q)
not_open_before e = absurd (cc e)

-- "q" is opened, "r" finds the worker full, and the close of "q" is lost.
open_after :
    ((open_sequences narrow none (some "me") (target_x ∷ []) ("q" ∷ "r" ∷ [])).0 ≡ some opened_q)
    × ((open_sequences narrow none (some "me") (target_x ∷ []) ("q" ∷ "r" ∷ [])).1.1
        ≡ some (failed_with_rollback (rejected "the worker is full")))
unfolding open_sequences check_open string_discrete mlx_swarm.Worker.Sequence.open_all
    mlx_swarm.Worker.Sequence.rollback mlx_swarm.Worker.Sequence.cleanup
    mlx_swarm.Worker.Sequence.close_rounds mlx_swarm.Worker.Sequence.close_sequence_on
open_after = (refl, refl)

open_sequences_no_orphan_example :
    In opened_q
      (tracked (open_sequences narrow none (some "me") (target_x ∷ []) ("q" ∷ "r" ∷ [])).1.0)
    ⊎ Escaped narrow narrow_laws opened_q
        (open_sequences narrow none (some "me") (target_x ∷ []) ("q" ∷ "r" ∷ [])).1.1
open_sequences_no_orphan_example =
    open_sequences_no_orphan narrow narrow_laws none (some "me") (target_x ∷ []) ("q" ∷ "r" ∷ [])
      opened_q not_open_before open_after.0

-- A worker that applies an open after the answer was lost: the state is the open on its way. The close
-- of the rollback overtakes it, and nothing tracks the sequence that will be open. The worker meets the
-- laws.
abbrev delayed : Calls (Option OpenedSequence)
delayed w open_sequence o = (some o, transport_failure)
delayed w close_sequence o = (w, rejected "is not open on shard")

overtaken_open :
    open_sequences delayed none (some "me") (target_x ∷ []) ("q" ∷ [])
    ≡ (some opened_q, (none, some (failed transport_failure)))
unfolding open_sequences check_open string_discrete mlx_swarm.Worker.Sequence.open_all
    mlx_swarm.Worker.Sequence.rollback mlx_swarm.Worker.Sequence.cleanup
    mlx_swarm.Worker.Sequence.close_rounds mlx_swarm.Worker.Sequence.close_sequence_on
    mlx_swarm.Base.Text.contains
overtaken_open = refl

abbrev delayed_laws : WorkerLaws delayed
delayed_laws = record {
  holds = λ w p. w ≡ some p;
  late = λ w p. w ≡ some p;
  late_holds = λ w p l. l;
  opens_only = λ w o p h. inl (ground arith);
  only_lost_late = λ w o p l. inr (ground arith, refl);
  rejection_opens_nothing = λ w o p m e h. absurd (cc e);
  close_opens_nothing = λ w o p h. h;
  close_delays_nothing = λ w o p l. l;
  accepted_close = λ w o e. absurd (cc e);
  gone_close = λ w o m e g h. h;
}
