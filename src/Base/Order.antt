-- ===== src/Base/Order.antt =====
-- Total orders as three-way comparisons: Go's `<` and `==` on strings and on structs of a number and
-- a string are read off one comparison.
use Prim.Native.Nat.{compare, Ordering}
use Prim.Native.Nat.Ordering.{lt, eq, gt}
use mathlib.Core.Path.{◌≡◌, refl}
use mathlib.Core.Bool.{Bool, true, false}
use mathlib.Core.List.{List, [], ◌∷◌}
use native.Mathlib.Omega.{arith}

-- What makes `cmp` the comparison of a total order.
pub record IsOrder {ℓ} {A : Type ℓ} (cmp : A → A → Ordering) : Type ℓ where
  pub self : (a : A) → cmp a a ≡ eq
  pub same : (a b : A) → cmp a b ≡ eq → a ≡ b
  pub flip_gt : (a b : A) → cmp a b ≡ gt → cmp b a ≡ lt
  pub flip_lt : (a b : A) → cmp a b ≡ lt → cmp b a ≡ gt
  pub trans : (a b c : A) → cmp a b ≡ lt → cmp b c ≡ lt → cmp a c ≡ lt

abbrev pub is_lt : Ordering → Bool
is_lt lt = true
is_lt _ = false

pub is_lt→lt : (o : Ordering) → is_lt o ≡ true → o ≡ lt
is_lt→lt o h = ground arith

abbrev pub is_eq : Ordering → Bool
is_eq eq = true
is_eq _ = false

-- The first comparison decides, the second breaks a tie.
abbrev pub or_else : Ordering → Ordering → Ordering
or_else eq o = o
or_else first _ = first

pub compare-IsOrder : IsOrder compare
compare-IsOrder = ground arith

-- Lexicographic comparison of lists, a proper prefix first: Go's order on strings, byte by byte.
abbrev pub compare_list {ℓ} : {A : Type ℓ} → (A → A → Ordering) → List A → List A → Ordering
compare_list c [] [] = eq
compare_list c [] (y ∷ ys) = lt
compare_list c (x ∷ xs) [] = gt
compare_list c (x ∷ xs) (y ∷ ys) = or_else (c x y) (compare_list c xs ys)

module _ {ℓ} {A : Type ℓ} {c : A → A → Ordering} (o : IsOrder c) where
  list_self : (xs : List A) → compare_list c xs xs ≡ eq
  list_self [] = refl
  list_self (x ∷ xs) = ground (arith, o.self x, list_self xs)

  list_same : (xs ys : List A) → compare_list c xs ys ≡ eq → xs ≡ ys
  list_same [] [] h = refl
  list_same [] (y ∷ ys) h = cc
  list_same (x ∷ xs) [] h = cc
  list_same (x ∷ xs) (y ∷ ys) h = ground (arith, o.same x y, list_same xs ys)

  list_flip_gt : (xs ys : List A) → compare_list c xs ys ≡ gt → compare_list c ys xs ≡ lt
  list_flip_gt [] [] h = cc
  list_flip_gt [] (y ∷ ys) h = cc
  list_flip_gt (x ∷ xs) [] h = refl
  list_flip_gt (x ∷ xs) (y ∷ ys) h =
      ground (arith, o.same x y, o.self x, o.flip_gt x y, list_flip_gt xs ys)

  list_flip_lt : (xs ys : List A) → compare_list c xs ys ≡ lt → compare_list c ys xs ≡ gt
  list_flip_lt [] [] h = cc
  list_flip_lt [] (y ∷ ys) h = refl
  list_flip_lt (x ∷ xs) [] h = cc
  list_flip_lt (x ∷ xs) (y ∷ ys) h =
      ground (arith, o.same x y, o.self x, o.flip_lt x y, list_flip_lt xs ys)

  list_trans :
      (xs ys zs : List A)
      → compare_list c xs ys ≡ lt
      → compare_list c ys zs ≡ lt
      → compare_list c xs zs ≡ lt
  list_trans [] ys [] h k = absurd (no_less ys k)
    where
      no_less : (ys : List A) → compare_list c ys [] ≡ lt → ⊥
      no_less [] e = cc
      no_less (y ∷ ys) e = cc
  list_trans [] ys (z ∷ zs) h k = refl
  list_trans (x ∷ xs) [] zs h k = cc
  list_trans (x ∷ xs) (y ∷ ys) [] h k = cc
  list_trans (x ∷ xs) (y ∷ ys) (z ∷ zs) h k =
      ground (arith, o.same x y, o.same y z, o.self y, o.self x, o.trans x y z, list_trans xs ys zs)

  pub compare_list-IsOrder : IsOrder (compare_list c)
  compare_list-IsOrder = record {
    self = list_self;
    same = list_same;
    flip_gt = list_flip_gt;
    flip_lt = list_flip_lt;
    trans = list_trans;
  }

module _ {ℓ κ} {A : Type ℓ} {B : Type κ} {f : A → A → Ordering} {g : B → B → Ordering}
    (a : IsOrder f) (b : IsOrder g) where
  -- A pair is ordered by its first part, then by its second.
  pub lex-IsOrder : IsOrder {A = A × B} (λ x y. or_else (f x.0 y.0) (g x.1 y.1))
  lex-IsOrder = record {
    self = λ x. ground (arith, a.self x.0, b.self x.1);
    same = λ x y. ground (arith, a.same x.0 y.0, b.same x.1 y.1);
    flip_gt =
        λ x y. ground (arith, a.same x.0 y.0, a.self x.0, a.flip_gt x.0 y.0, b.flip_gt x.1 y.1);
    flip_lt =
        λ x y. ground (arith, a.same x.0 y.0, a.self x.0, a.flip_lt x.0 y.0, b.flip_lt x.1 y.1);
    trans = λ x y z. ground (
      arith,
      a.same x.0 y.0,
      a.same y.0 z.0,
      a.self x.0,
      a.trans x.0 y.0 z.0,
      b.trans x.1 y.1 z.1,
    );
  }
