-- ===== src/Base/Order.antt =====
-- Comparisons as Go's `cmp.Compare` has them (negative, zero or positive), and their laws.
use Prim.Native.Nat.{ℕ, compare, Ordering}
use Prim.Native.Nat.Ordering.{lt, eq, gt}
use Prim.Native.Char.{code}
use Prim.Native.String.{String}
use mathlib.Core.Path.{◌≡◌, refl, ap, sym, subst, fun_ext}
use mathlib.Core.Bool.{Bool, true, false}
use mathlib.Core.List.{List, [], ◌∷◌}
use mlx_swarm.Base.Int.{ℤ, pos_part, neg_part}
use Prim.Native.Nat.{◌+◌}
use native.Mathlib.Omega.{arith}

abbrev pub flip : Ordering → Ordering
flip lt = gt
flip eq = eq
flip gt = lt

-- `if order := first; order != 0 { return order }; return second`.
abbrev pub or_else : Ordering → Ordering → Ordering
or_else eq second = second
or_else first _ = first

-- A comparison that orders totally, up to what it calls equal.
pub record IsOrder {A : Type 0} (cmp : A → A → Ordering) : Type 0 where
  pub same : (a : A) → cmp a a ≡ eq
  pub flipped : (a b : A) → cmp b a ≡ flip (cmp a b)
  pub replaced : (a b c : A) → cmp a b ≡ eq → cmp a c ≡ cmp b c
  pub trans : (a b c : A) → cmp a b ≡ lt → cmp b c ≡ lt → cmp a c ≡ lt

pub compare-IsOrder : IsOrder compare
compare-IsOrder = ground arith

-- `cmp.Compare` on integers, and `compareBool`.
unfoldable pub compare_int : ℤ → ℤ → Ordering
compare_int a b = compare (pos_part a + neg_part b) (pos_part b + neg_part a)

pub compare_int-IsOrder : IsOrder compare_int
unfolding compare_int
compare_int-IsOrder = record {
  same = λ a. ground arith;
  flipped = λ a b. ground arith;
  replaced = λ a b c. ground arith;
  trans = λ a b c. ground arith;
}

unfoldable pub compare_bool : Bool → Bool → Ordering
compare_bool true true = eq
compare_bool false false = eq
compare_bool false true = lt
compare_bool true false = gt

pub compare_bool-IsOrder : IsOrder compare_bool
unfolding compare_bool
compare_bool-IsOrder = ground arith

-- `strings.Compare`: the order of the bytes is the order of the code points.
unfoldable pub compare_strings : String → String → Ordering
compare_strings String.[] String.[] = eq
compare_strings String.[] (String.◌∷◌ d t) = lt
compare_strings (String.◌∷◌ c s) String.[] = gt
compare_strings (String.◌∷◌ c s) (String.◌∷◌ d t) =
    let rest = compare_strings s t in or_else (compare (code c) (code d)) rest

module _ {A B : Type 0} where
  -- The comparison of a field.
  abbrev pub on : (B → B → Ordering) → (A → B) → A → A → Ordering
  on cmp f a b = cmp (f a) (f b)

  pub on-IsOrder : (cmp : B → B → Ordering) (f : A → B) → IsOrder cmp → IsOrder (on cmp f)
  on-IsOrder cmp f o = record {
    same = λ a. o.same (f a);
    flipped = λ a b. o.flipped (f a) (f b);
    replaced = λ a b c. o.replaced (f a) (f b) (f c);
    trans = λ a b c. o.trans (f a) (f b) (f c);
  }

module _ {A : Type 0} where
  -- One comparison, and another where the first calls equal.
  abbrev pub by_then : (A → A → Ordering) → (A → A → Ordering) → A → A → Ordering
  by_then f g a b = or_else (f a b) (g a b)

  pub by_then-IsOrder : (f g : A → A → Ordering) → IsOrder f → IsOrder g → IsOrder (by_then f g)
  by_then-IsOrder f g p q = record {
    same = λ a. ground (arith, p.same a, q.same a);
    flipped = λ a b. ground (arith, p.flipped a b, q.flipped a b);
    replaced = λ a b c. ground (arith, p.replaced a b c, q.replaced a b c);
    trans = λ a b c. ground (
      arith,
      p.replaced a b c,
      p.replaced b c a,
      p.flipped a b,
      p.flipped c a,
      p.flipped a c,
      p.flipped b c,
      p.flipped b a,
      p.trans a b c,
      q.trans a b c,
    );
  }

  -- Lists element by element, a prefix before what it begins.
  unfoldable pub compare_lists : (A → A → Ordering) → List A → List A → Ordering
  compare_lists f [] [] = eq
  compare_lists f [] (y ∷ ys) = lt
  compare_lists f (x ∷ xs) [] = gt
  compare_lists f (x ∷ xs) (y ∷ ys) = let rest = compare_lists f xs ys in or_else (f x y) rest

  module _ (f : A → A → Ordering) (p : IsOrder f) where
    lists_same : (xs : List A) → compare_lists f xs xs ≡ eq
    unfolding compare_lists
    lists_same [] = refl
    lists_same (x ∷ xs) = ground (arith, p.same x, lists_same xs)

    lists_flipped : (xs ys : List A) → compare_lists f ys xs ≡ flip (compare_lists f xs ys)
    unfolding compare_lists
    lists_flipped [] [] = refl
    lists_flipped [] (y ∷ ys) = refl
    lists_flipped (x ∷ xs) [] = refl
    lists_flipped (x ∷ xs) (y ∷ ys) = ground (arith, p.flipped x y, lists_flipped xs ys)

    lists_replaced :
        (xs ys zs : List A)
        → compare_lists f xs ys ≡ eq
        → compare_lists f xs zs ≡ compare_lists f ys zs
    unfolding compare_lists
    lists_replaced [] [] zs h = refl
    lists_replaced [] (y ∷ ys) zs h = ground arith
    lists_replaced (x ∷ xs) [] zs h = ground arith
    lists_replaced (x ∷ xs) (y ∷ ys) [] h = refl
    lists_replaced (x ∷ xs) (y ∷ ys) (z ∷ zs) h =
        ground (arith, p.replaced x y z, lists_replaced xs ys zs)

    lists_trans :
        (xs ys zs : List A)
        → compare_lists f xs ys ≡ lt
        → compare_lists f ys zs ≡ lt
        → compare_lists f xs zs ≡ lt
    unfolding compare_lists
    lists_trans [] [] zs h g = ground arith
    lists_trans [] (y ∷ ys) [] h g = ground arith
    lists_trans [] (y ∷ ys) (z ∷ zs) h g = refl
    lists_trans (x ∷ xs) [] zs h g = ground arith
    lists_trans (x ∷ xs) (y ∷ ys) [] h g = ground arith
    lists_trans (x ∷ xs) (y ∷ ys) (z ∷ zs) h g = ground (
      arith,
      p.replaced x y z,
      p.replaced y z x,
      p.flipped x y,
      p.flipped z x,
      p.flipped x z,
      p.flipped y z,
      p.flipped y x,
      p.trans x y z,
      lists_trans xs ys zs,
    )

    pub compare_lists-IsOrder : IsOrder (compare_lists f)
    compare_lists-IsOrder = record {
      same = lists_same;
      flipped = lists_flipped;
      replaced = lists_replaced;
      trans = lists_trans;
    }

-- The code points of a string, whose lists are ordered as the strings.
code_points : String → List ℕ
code_points String.[] = []
code_points (String.◌∷◌ c s) = code c ∷ code_points s

compare_strings-code_points :
    (s t : String) → compare_strings s t ≡ on (compare_lists compare) code_points s t
unfolding compare_strings compare_lists code_points
compare_strings-code_points String.[] String.[] = refl
compare_strings-code_points String.[] (String.◌∷◌ d t) = refl
compare_strings-code_points (String.◌∷◌ c s) String.[] = refl
compare_strings-code_points (String.◌∷◌ c s) (String.◌∷◌ d t) =
    ap (or_else (compare (code c) (code d))) (compare_strings-code_points s t)

pub compare_strings-IsOrder : IsOrder compare_strings
compare_strings-IsOrder =
    subst (λ cmp. IsOrder cmp) (sym (fun_ext λ s. fun_ext λ t. compare_strings-code_points s t))
      (on-IsOrder (compare_lists compare) code_points
        (compare_lists-IsOrder compare compare-IsOrder))

-- The order of a field, and another order where that calls equal.
pub then_on :
    {A B : Type 0} (cmp : B → B → Ordering) (f : A → B) (rest : A → A → Ordering)
    → IsOrder cmp
    → IsOrder rest
    → IsOrder (by_then (on cmp f) rest)
then_on cmp f rest p q = by_then-IsOrder (on cmp f) rest (on-IsOrder cmp f p) q
