-- ===== src/Mesh/Session.antt =====
-- `ScheduledSequence`: one `Generate` attempt on a reservation that is ended once.
use mlx_swarm.Base.{
  ℕ, suc, ◌+◌, ◌≡◌, refl, sym, ◌∙◌, Bool, true, List, [], ◌∷◌, ◌++◌, Option, none, some, arith, ◌⊎◌,
  inl, inr,
}
use mlx_swarm.Mesh.State.{StageReservation, Outcome}

pub data Phase : Type 0 where
  prepared running finished closed : Phase

-- The session is opaque to this code; a pointer that was set to nil is `none`.
pub record ScheduledSequence : Type 0 where
  pub phase : Phase
  pub reservation : Option (List StageReservation)

pub data SessionError : Type 0 where
  sequence_already_run sequence_running : SessionError

-- `reservation.finish(outcome)` on the stages of the reservation that a call took, none for a nil
-- one.
pub record Release : Type 0 where
  pub stages : Option (List StageReservation)
  pub outcome : Outcome

abbrev pub confirmed : Bool → Outcome
confirmed b = record { may_have_loaded = true; cleanup_confirmed = b }

-- The part of `Generate` under the mutex, before the session runs.
unfoldable pub begin_generate : ScheduledSequence → ScheduledSequence × Option SessionError
begin_generate s = elim s.phase [
  | prepared ↦ (record s { phase = running }, none)
  | _ ↦ (s, some sequence_already_run)
]

-- The part of `finish` under the mutex, which `Generate` calls when the session has returned, and
-- the release that it then makes outside.
unfoldable pub finish_generate : ScheduledSequence → Bool → ScheduledSequence × Release
finish_generate s cleanup_confirmed = (
  record { phase = finished; reservation = none },
  record { stages = s.reservation; outcome = confirmed cleanup_confirmed },
)

-- The part of `Close` under the mutex, and the release that it then makes outside.
unfoldable pub close : ScheduledSequence → ScheduledSequence × Option SessionError × Option Release
close s = elim s.phase [
  | running ↦ (s, some sequence_running, none)
  | prepared ↦ (
    record { phase = closed; reservation = none },
    none,
    some (record { stages = s.reservation; outcome = confirmed true }),
  )
  | finished ↦ (s, none, none)
  | closed ↦ (s, none, none)
]

-- `Prepare`'s result.
abbrev pub prepared_sequence : List StageReservation → ScheduledSequence
prepared_sequence rs = record { phase = prepared; reservation = some rs }

-- A sequence shared by callers: the calls of `Generate` whose session runs, the calls that have left
-- the mutex with the reservation and have yet to call its `finish`, and the releases made so far.
pub record Shared : Type 0 where
  pub sequence : ScheduledSequence
  pub generating : ℕ
  pub releasing : List Release
  pub releases : List Release

-- The steps of calls on different goroutines: a section under the mutex is one step, and the
-- `reservation.finish` that follows it is another, with other calls between them.
pub data Call (s : Shared) : Shared → Type 0 where
  begins :
      (begin_generate s.sequence).1 ≡ none
      → Call s
          (record s { sequence = (begin_generate s.sequence).0; generating = s.generating + 1 })
  is_refused :
      (e : SessionError)
      → (begin_generate s.sequence).1 ≡ some e
      → Call s (record s { sequence = (begin_generate s.sequence).0 })
  returns :
      (n : ℕ) (b : Bool)
      → s.generating ≡ suc n
      → Call s (record s {
        sequence = (finish_generate s.sequence b).0;
        generating = n;
        releasing = (finish_generate s.sequence b).1 ∷ s.releasing;
      })
  closes :
      (r : Release)
      → (close s.sequence).2 ≡ some r
      → Call s (record s { sequence = (close s.sequence).0; releasing = r ∷ s.releasing })
  closes_nothing :
      (close s.sequence).2 ≡ none → Call s (record s { sequence = (close s.sequence).0 })
  finishes_reservation :
      (before : List Release) (r : Release) (after : List Release)
      → s.releasing ≡ before ++ (r ∷ after)
      → Call s (record s { releasing = before ++ after; releases = r ∷ s.releases })

pub data Calls (s : Shared) : Shared → Type 0 where
  start : Calls s s
  call : {t u : Shared} → Calls s t → Call t u → Calls s u

abbrev pub whole_release : List StageReservation → Bool → Release
whole_release rs b = record { stages = some rs; outcome = confirmed b }

-- Either one call is about to make the release, or it has been made, and never again.
abbrev pub Once : Release → List Release → List Release → Type 0
Once r p l = ((p ≡ r ∷ []) × (l ≡ [])) ⊎ ((p ≡ []) × (l ≡ r ∷ []))

-- At most one session runs, only in the running phase; the reservation is there until one call takes
-- it, which releases it once.
abbrev pub Exclusive :
    List StageReservation
    → Phase
    → Option (List StageReservation)
    → ℕ
    → List Release
    → List Release
    → Type 0
Exclusive rs prepared r n p l = (r ≡ some rs) × (n ≡ 0) × (p ≡ []) × (l ≡ [])
Exclusive rs running r n p l = (r ≡ some rs) × (n ≡ 1) × (p ≡ []) × (l ≡ [])
Exclusive rs finished r n p l = (r ≡ none) × (n ≡ 0) × ((b : Bool) × Once (whole_release rs b) p l)
Exclusive rs closed r n p l = (r ≡ none) × (n ≡ 0) × Once (whole_release rs true) p l

abbrev pub IsExclusive : List StageReservation → Shared → Type 0
IsExclusive rs s =
    Exclusive rs s.sequence.phase s.sequence.reservation s.generating s.releasing s.releases

one_left :
    (x : Release) (before : List Release) (r : Release) (after : List Release)
    → x ∷ [] ≡ before ++ (r ∷ after)
    → (x ≡ r) × (before ++ after ≡ [])
one_left x [] r after h = (cc h, cc h)
one_left x (b ∷ []) r after h = absurd (cc h)
one_left x (b ∷ c ∷ bs) r after h = absurd (cc h)

none_left :
    (before : List Release) (r : Release) (after : List Release) → ¬ ([] ≡ before ++ (r ∷ after))
none_left [] r after h = absurd (cc h)
none_left (b ∷ bs) r after h = absurd (cc h)

release-Once :
    (x r : Release) (p l before after : List Release)
    → Once x p l
    → p ≡ before ++ (r ∷ after)
    → Once x (before ++ after) (r ∷ l)
release-Once x r p l before after (inl h) e =
    let left = one_left x before r after (sym h.0 ∙ e) in inr (left.1, cc (left.0, h.1))
release-Once x r p l before after (inr h) e = absurd (none_left before r after (sym h.0 ∙ e))

step-Exclusive :
    (rs : List StageReservation) (p : Phase) (r : Option (List StageReservation)) (n : ℕ)
    (pending l : List Release) {u : Shared}
    → Exclusive rs p r n pending l
    → Call
        (record {
          sequence = record { phase = p; reservation = r };
          generating = n;
          releasing = pending;
          releases = l;
        })
        u
    → IsExclusive rs u
unfolding begin_generate finish_generate close
step-Exclusive rs prepared r n q l h (begins e) = ground arith
step-Exclusive rs running r n q l h (begins e) = cc
step-Exclusive rs finished r n q l h (begins e) = cc
step-Exclusive rs closed r n q l h (begins e) = cc
step-Exclusive rs prepared r n q l h (is_refused x e) = cc
step-Exclusive rs running r n q l h (is_refused x e) = h
step-Exclusive rs finished r n q l h (is_refused x e) = h
step-Exclusive rs closed r n q l h (is_refused x e) = h
step-Exclusive rs prepared r n q l h (returns m b e) = absurd (omega arith)
step-Exclusive rs running r n q l h (returns m b e) =
    (refl, omega arith, (b, inl (ground arith, h.3)))
step-Exclusive rs finished r n q l h (returns m b e) = absurd (omega (arith, h.1))
step-Exclusive rs closed r n q l h (returns m b e) = absurd (omega (arith, h.1))
step-Exclusive rs prepared r n q l h (closes x e) = (refl, h.1, inl (ground arith, h.3))
step-Exclusive rs running r n q l h (closes x e) = cc
step-Exclusive rs finished r n q l h (closes x e) = cc
step-Exclusive rs closed r n q l h (closes x e) = cc
step-Exclusive rs prepared r n q l h (closes_nothing e) = cc
step-Exclusive rs running r n q l h (closes_nothing e) = h
step-Exclusive rs finished r n q l h (closes_nothing e) = h
step-Exclusive rs closed r n q l h (closes_nothing e) = h
step-Exclusive rs prepared r n q l h (finishes_reservation before x after e) =
    absurd (none_left before x after (sym h.2 ∙ e))
step-Exclusive rs running r n q l h (finishes_reservation before x after e) =
    absurd (none_left before x after (sym h.2 ∙ e))
step-Exclusive rs finished r n q l h (finishes_reservation before x after e) =
    (h.0, h.1, (h.2.0, release-Once _ x q l before after h.2.1 e))
step-Exclusive rs closed r n q l h (finishes_reservation before x after e) =
    (h.0, h.1, release-Once _ x q l before after h.2 e)

-- Whatever calls of `Generate` and `Close` interleave on a prepared sequence, at most one session
-- runs at a time, and only in the running phase; the reservation is held, and nothing is released,
-- while the sequence is prepared or running; once it is finished or closed no session runs, and
-- either exactly one call has the reservation, with all its stages, and has yet to release it, or it
-- has been released exactly once, with all its stages, and no call is about to release it again.
pub reservation_released_once :
    (rs : List StageReservation) {s : Shared}
    → Calls
        (record { sequence = prepared_sequence rs; generating = 0; releasing = []; releases = [] })
        s
    → IsExclusive rs s
reservation_released_once rs start = (refl, refl, refl, refl)
reservation_released_once rs (call {t} cs c) =
    step-Exclusive rs t.sequence.phase t.sequence.reservation t.generating t.releasing t.releases
      (reservation_released_once rs cs) c
