-- ===== src/Worker/Sequence.antt =====
-- `SequenceSet`: the sequences that one owner opened across worker shards.
use mathlib.Core.List.{reverse}
use mlx_swarm.Base.{
  ℕ, ◌+◌, String, Bool, true, false, not, ◌||◌, List, [], ◌∷◌, ◌++◌, Option, none, some,
  if◌then◌else◌, is_yes,
}
use mlx_swarm.Base.Text.{string_discrete, contains, seen_in, is_empty_string}

-- A `PersistentCaller`'s answer: an accepted request, a `WorkerResponseError` with its message, or
-- any other failure, which says nothing about the worker.
pub data Answer : Type 0 where
  accepted : Answer
  rejected : String → Answer
  transport_failure : Answer

pub data Command : Type 0 where
  open_sequence close_sequence : Command

-- A target; its caller is a reference, `none` for a nil one. The name only labels errors.
pub record SequenceTarget : Type 0 where
  pub name : String
  pub caller : Option ℕ
  pub shard_id : String

pub record OpenedSequence : Type 0 where
  pub target : SequenceTarget
  pub sequence_id : String
  pub owner_id : String

pub data OpenError : Type 0 where
  targets_empty sequence_ids_empty sequence_id_empty owner_unavailable : OpenError
  target_without_caller target_without_shard : ℕ → OpenError
  duplicate_sequence_id : String → OpenError
  failed failed_with_rollback : Answer → OpenError

-- The workers behind the callers, as they answer one request. `W` is their state.
abbrev pub Calls : Type 0 → Type 0
Calls W = W → Command → OpenedSequence → W × Answer

abbrev pub has_caller : Option ℕ → Bool
has_caller none = false
has_caller (some c) = true

unfoldable pub check_targets : ℕ → List SequenceTarget → Option OpenError
check_targets index [] = none
check_targets index (t ∷ ts) =
    let rest = check_targets (index + 1) ts in
    if not (has_caller t.caller)
    then some (target_without_caller index)
    else if is_empty_string t.shard_id
    then some (target_without_shard index)
    else rest

unfoldable pub check_ids : List String → List String → Option OpenError
unfolding seen_in
check_ids seen [] = none
check_ids seen (id ∷ ids) =
    let rest = check_ids (id ∷ seen) ids in
    if is_empty_string id
    then some sequence_id_empty
    else if seen_in id seen
    then some (duplicate_sequence_id id)
    else rest

-- The error of `closeSequence`: a worker that has no such sequence or shard any more counts as
-- closed.
unfoldable pub close_failure : Answer → Option Answer
close_failure accepted = none
close_failure (rejected m) =
    if contains m "is not open on shard" || contains m "is not loaded"
    then none
    else some (rejected m)
close_failure transport_failure = some transport_failure

-- A rejection is definitive; any other failure may have opened the sequence.
abbrev pub may_be_open : Answer → Bool
may_be_open accepted = true
may_be_open (rejected m) = false
may_be_open transport_failure = true

abbrev pub track : Answer → OpenedSequence → List OpenedSequence → List OpenedSequence
track answer o opened = if may_be_open answer then opened ++ (o ∷ []) else opened

-- What `OpenSequences` returns beside the workers: the set, if it is not nil, and the error.
abbrev pub Opened : Type 0
Opened = Option (List OpenedSequence) × Option OpenError

-- Any error ends the loops.
abbrev pub on_answer : {A : Type 0} → Answer → A → A → A
on_answer accepted x y = x
on_answer (rejected m) x y = y
on_answer transport_failure x y = y

module _ {W : Type 0} (calls : Calls W) where
  unfoldable pub close_sequence_on : W → OpenedSequence → W × Option Answer
  unfolding close_failure
  close_sequence_on w o = let (w', answer) = calls w close_sequence o in (w', close_failure answer)

  -- The loop of `closeUsing` over the tracked sequences from the last, with what it retains so far;
  -- the flag says that no close failed.
  unfoldable pub close_rounds :
      (OpenedSequence → Bool)
      → W
      → List OpenedSequence
      → List OpenedSequence
      → Bool
      → W × List OpenedSequence × Bool
  close_rounds should w [] retained fine = (w, retained, fine)
  close_rounds should w (o ∷ os) retained fine =
      let (w', failure) = close_sequence_on w o in
      let skip = close_rounds should w os (retained ++ (o ∷ [])) fine in
      let keep = close_rounds should w' os (retained ++ (o ∷ [])) false in
      let drop = close_rounds should w' os retained fine in
      if not (should o) then skip else elim failure [ none ↦ drop | some _ ↦ keep ]

  -- `closeUsing`: the workers, the sequences still tracked, in their old order, and whether every
  -- close succeeded.
  unfoldable pub close_using :
      (OpenedSequence → Bool) → W → List OpenedSequence → W × List OpenedSequence × Bool
  close_using should w opened =
      let (w', retained, fine) = close_rounds should w (reverse opened) [] true in
      (w', reverse retained, fine)

  -- `Close` and `Cleanup` differ in their deadlines only.
  unfoldable pub cleanup : W → List OpenedSequence → W × List OpenedSequence × Bool
  unfolding close_using
  cleanup = close_using (λ o. true)

  unfoldable pub close_id : String → W → List OpenedSequence → W × List OpenedSequence × Bool
  unfolding close_using
  close_id id = close_using (λ o. is_yes (string_discrete o.sequence_id id))

  -- The error path of an open that failed.
  unfoldable pub rollback : W → List OpenedSequence → Answer → W × Opened
  rollback w opened answer =
      let (w', retained, fine) = cleanup w opened in
      if fine
      then (w', (none, some (failed answer)))
      else (w', (some retained, some (failed_with_rollback answer)))

  -- The two loops, over the pairs of an ID and a target in their order.
  unfoldable pub open_all : W → List OpenedSequence → List OpenedSequence → W × Opened
  open_all w opened [] = (w, (some opened, none))
  open_all w opened (o ∷ os) =
      let (w', answer) = calls w open_sequence o in
      let next = open_all w' (track answer o opened) os in
      let failed_open = rollback w' (track answer o opened) answer in
      on_answer answer next failed_open

abbrev pub on_targets : String → String → List SequenceTarget → List OpenedSequence
on_targets owner id [] = []
on_targets owner id (t ∷ ts) =
    record { target = t; sequence_id = id; owner_id = owner } ∷ on_targets owner id ts

abbrev pub matrix : String → List String → List SequenceTarget → List OpenedSequence
matrix owner [] targets = []
matrix owner (id ∷ ids) targets = on_targets owner id targets ++ matrix owner ids targets

abbrev pub or_else : Option OpenError → Option OpenError → Option OpenError
or_else none e = e
or_else (some x) e = some x

abbrev pub is_empty_list {ℓ} : {A : Type ℓ} → List A → OpenError → Option OpenError
is_empty_list [] e = some e
is_empty_list (x ∷ xs) e = none

-- The checks before anything is opened, in their order.
unfoldable pub check_open : List SequenceTarget → List String → Option OpenError
unfolding check_targets check_ids
check_open targets ids = or_else (is_empty_list targets targets_empty) (
    or_else (check_targets 0 targets)
      (or_else (is_empty_list ids sequence_ids_empty) (check_ids [] ids)))

-- `OpenSequences`; the owner is a fresh random name, `none` if no randomness could be read.
unfoldable pub open_sequences :
    {W : Type 0}
    → Calls W
    → W
    → Option String
    → List SequenceTarget
    → List String
    → W × (Option (List OpenedSequence) × Option OpenError)
open_sequences calls w owner targets ids = elim (check_open targets ids) [
  | some e ↦ (w, (none, some e))
  | none ↦ elim owner [
    | none ↦ (w, (none, some owner_unavailable))
    | some name ↦ open_all calls w [] (matrix name ids targets)
  ]
]
