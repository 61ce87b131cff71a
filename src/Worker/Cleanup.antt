-- ===== src/Worker/Cleanup.antt =====
-- What the closes of a `SequenceSet` leave tracked, for any workers.
use mathlib.Core.Path.{subst⁻¹}
use mathlib.Core.List.{reverse, reverse-cons, reverse-reverse, append-nil, append_assoc}
use mlx_swarm.Base.{
  ◌≡◌, refl, sym, ap, ◌∙◌, Bool, true, false, List, [], ◌∷◌, ◌++◌, if◌then◌else◌, arith, ◌⊎◌, inl,
  inr,
}
use mlx_swarm.Worker.Sequence.{
  Answer, accepted, rejected, transport_failure, OpenedSequence, Calls, close_sequence_on,
  close_rounds, on_answer, close_using, cleanup,
}

-- The tracked sequences that a close does not concern, in their order.
abbrev pub unless : (OpenedSequence → Bool) → List OpenedSequence → List OpenedSequence
unless should [] = []
unless should (o ∷ os) = if should o then unless should os else o ∷ unless should os

unless-append :
    (should : OpenedSequence → Bool) (xs ys : List OpenedSequence)
    → unless should (xs ++ ys) ≡ unless should xs ++ unless should ys
unless-append should [] ys = refl
unless-append should (x ∷ xs) ys = ground (arith, unless-append should xs ys)

unless-reverse :
    (should : OpenedSequence → Bool) (xs : List OpenedSequence)
    → unless should (reverse xs) ≡ reverse (unless should xs)
unless-reverse should [] = refl
unless-reverse should (x ∷ xs) =
    ap (unless should) (reverse-cons x xs)
    ∙ unless-append should (reverse xs) (x ∷ [])
    ∙ ap (λ l. l ++ unless should (x ∷ [])) (unless-reverse should xs)
    ∙ last_step (should x) refl
  where
    last_step :
        (b : Bool)
        → should x ≡ b
        → reverse (unless should xs) ++ unless should (x ∷ []) ≡ reverse (unless should (x ∷ xs))
    last_step true e = rw e (append-nil _)
    last_step false e = rw e (sym (reverse-cons x (unless should xs)))

-- An element of a list, at some place.
abbrev pub In : OpenedSequence → List OpenedSequence → Type 0
In p [] = ⊥
In p (o ∷ os) = (p ≡ o) ⊎ In p os

pub In-append_left : (p : OpenedSequence) (xs ys : List OpenedSequence) → In p xs → In p (xs ++ ys)
In-append_left p (x ∷ xs) ys (inl e) = inl e
In-append_left p (x ∷ xs) ys (inr h) = inr (In-append_left p xs ys h)
In-append_left p [] ys h = elim h [ ]

pub In-append_right : (p : OpenedSequence) (xs ys : List OpenedSequence) → In p ys → In p (xs ++ ys)
In-append_right p [] ys h = h
In-append_right p (x ∷ xs) ys h = inr (In-append_right p xs ys h)

pub In-reverse : (p : OpenedSequence) (xs : List OpenedSequence) → In p xs → In p (reverse xs)
In-reverse p (x ∷ xs) (inl e) =
    subst⁻¹ (In p) (reverse-cons x xs) (In-append_right p (reverse xs) (x ∷ []) (inl e))
In-reverse p (x ∷ xs) (inr h) =
    subst⁻¹ (In p) (reverse-cons x xs) (In-append_left p (reverse xs) (x ∷ []) (In-reverse p xs h))
In-reverse p [] h = elim h [ ]

-- What holds of both ways on holds after the answer.
pub on_answer_elim :
    {A : Type 0} (P : A → Type 0) (a : Answer) {x y : A}
    → (a ≡ accepted → P x)
    → P y
    → P (on_answer a x y)
on_answer_elim P accepted n f = n refl
on_answer_elim P (rejected m) n f = f
on_answer_elim P transport_failure n f = f

module _ {W : Type 0} (calls : Calls W) where
  close_rounds-ok :
      (should : OpenedSequence → Bool) (w : W) (os retained : List OpenedSequence) (fine : Bool)
      → (close_rounds calls should w os retained fine).2 ≡ true
      → (fine ≡ true)
        × ((close_rounds calls should w os retained fine).1 ≡ retained ++ unless should os)
  unfolding close_rounds
  close_rounds-ok should w [] retained fine h = (h, sym (append-nil retained))
  close_rounds-ok should w (o ∷ os) retained fine h = ground (
    arith,
    append_assoc retained (o ∷ []) (unless should os),
    close_rounds-ok should w os (retained ++ (o ∷ [])) fine,
    close_rounds-ok should (close_sequence_on calls w o).0 os (retained ++ (o ∷ [])) false,
    close_rounds-ok should (close_sequence_on calls w o).0 os retained fine,
  )

  -- If a close reports no error, the set still tracks exactly the sequences that it was not asked to
  -- close, in the order in which they were opened.
  pub close_using-ok :
      (should : OpenedSequence → Bool) (w : W) (opened : List OpenedSequence)
      → (close_using calls should w opened).2 ≡ true
      → (close_using calls should w opened).1 ≡ unless should opened
  unfolding close_using
  close_using-ok should w opened h =
      ap reverse
        ((close_rounds-ok should w (reverse opened) [] true h).1 ∙ unless-reverse should opened)
      ∙ reverse-reverse (unless should opened)

  unless_all : (os : List OpenedSequence) → unless (λ o. true) os ≡ []
  unless_all [] = refl
  unless_all (o ∷ os) = unless_all os

  pub cleanup-ok :
      (w : W) (opened : List OpenedSequence)
      → (cleanup calls w opened).2 ≡ true
      → (cleanup calls w opened).1 ≡ []
  unfolding cleanup
  cleanup-ok w opened h = close_using-ok (λ o. true) w opened h ∙ unless_all opened
