-- ===== src/Base/Sort.antt =====
-- Sorting by a key: what `sort.Slice`, `sort.Strings` and `slices.Sort` of the standard library do,
-- as insertion sort.
use Prim.Native.Nat.{Ordering}
use Prim.Native.Nat.Ordering.{lt, eq, gt}
use mathlib.Core.Path.{◌≡◌, refl}
use mathlib.Core.Logic.{◌≢◌}
use mathlib.Core.List.{List, [], ◌∷◌}
use native.Mathlib.Omega.{arith}
use golang_toys.Base.Lists.{All, All-imp}
use golang_toys.Base.Order.{IsOrder}

module _ {ℓ κ} {A : Type ℓ} {K : Type κ} (cmp : K → K → Ordering) (key : A → K) where
  -- Puts `x` before the first element with a greater key.
  unfoldable pub insert_by : A → List A → List A
  insert_by x [] = x ∷ []
  insert_by x (y ∷ ys) =
      let later = y ∷ insert_by x ys in elim (cmp (key x) (key y)) [ lt ↦ x ∷ y ∷ ys | _ ↦ later ]

  unfoldable pub sort_by : List A → List A
  sort_by [] = []
  sort_by (x ∷ xs) = insert_by x (sort_by xs)

  -- Every key is below the later ones.
  abbrev pub Ascending : List A → Type 0
  Ascending [] = Unit
  Ascending (x ∷ xs) = All (λ y. cmp (key x) (key y) ≡ lt) xs × Ascending xs

  -- No key is above a later one.
  abbrev pub Ordered : List A → Type 0
  Ordered [] = Unit
  Ordered (x ∷ xs) = All (λ y. cmp (key x) (key y) ≢ gt) xs × Ordered xs

  pub All-insert_by {μ} :
      (P : A → Type μ) (x : A) (xs : List A) → P x → All P xs → All P (insert_by x xs)
  unfolding insert_by
  All-insert_by P x [] p h = (p, tt)
  All-insert_by P x (y ∷ ys) p h = ground (arith, All-insert_by P x ys)

  pub All-sort_by {μ} : (P : A → Type μ) (xs : List A) → All P xs → All P (sort_by xs)
  unfolding sort_by
  All-sort_by P [] h = tt
  All-sort_by P (x ∷ xs) h = All-insert_by P x (sort_by xs) h.0 (All-sort_by P xs h.1)

module _ {ℓ κ} {A : Type ℓ} {K : Type κ} {cmp : K → K → Ordering} (o : IsOrder cmp)
    (key : A → K) where
  -- What is above `y` is above what `y` is above.
  All-below :
      (x y : A) (ys : List A)
      → cmp (key x) (key y) ≡ lt
      → All (λ z. cmp (key y) (key z) ≡ lt) ys
      → All (λ z. cmp (key x) (key z) ≡ lt) ys
  All-below x y ys h a = All-imp (λ z b. o.trans (key x) (key y) (key z) h b) ys a

  pub insert_by-Ascending :
      (x : A) (xs : List A)
      → Ascending cmp key xs
      → All (λ y. cmp (key x) (key y) ≢ eq) xs
      → Ascending cmp key (insert_by cmp key x xs)
  unfolding insert_by
  insert_by-Ascending x [] s d = (tt, tt)
  insert_by-Ascending x (y ∷ ys) s d = ground (
    arith,
    All-below x y ys,
    o.flip_gt (key x) (key y),
    All-insert_by cmp key (λ z. cmp (key y) (key z) ≡ lt) x ys,
    insert_by-Ascending x ys,
  )

  -- `≤` is transitive.
  le_le :
      (x y z : A) → cmp (key x) (key y) ≢ gt → cmp (key y) (key z) ≢ gt → cmp (key x) (key z) ≢ gt
  le_le x y z h k e = ground (
    arith,
    o.flip_gt (key x) (key z),
    o.flip_gt (key y) (key z),
    o.flip_gt (key x) (key y),
    o.flip_lt (key x) (key y),
    o.flip_lt (key y) (key z),
    o.same (key x) (key y),
    o.same (key y) (key z),
    o.trans (key x) (key y) (key z),
  )

  -- What `x` is below stays above `x` further on.
  All-above :
      (x y : A) (ys : List A)
      → cmp (key x) (key y) ≡ lt
      → All (λ z. cmp (key y) (key z) ≢ gt) ys
      → All (λ z. cmp (key x) (key z) ≢ gt) ys
  All-above x y ys h a = All-imp (λ z b. le_le x y z (λ e. cc) b) ys a

  le_of_ne_lt : (x y : A) → cmp (key x) (key y) ≢ lt → cmp (key y) (key x) ≢ gt
  le_of_ne_lt x y n e = n (o.flip_gt (key y) (key x) e)

  pub insert_by-Ordered :
      (x : A) (xs : List A) → Ordered cmp key xs → Ordered cmp key (insert_by cmp key x xs)
  insert_by-Ordered x [] s = unfold insert_by in (tt, tt)
  insert_by-Ordered x (y ∷ ys) s = split (cmp (key x) (key y)) refl (insert_by-Ordered x ys s.1)
    where
      split :
          (c : Ordering)
          → cmp (key x) (key y) ≡ c
          → Ordered cmp key (insert_by cmp key x ys)
          → Ordered cmp key (insert_by cmp key x (y ∷ ys))
      split lt e ih = unfold insert_by in rw (e, insert_by) (((λ c. cc), All-above x y ys e s.0), s)
      split eq e ih =
          unfold insert_by in
          rw (e, insert_by) (All-insert_by cmp key _ x ys (le_of_ne_lt x y (λ c. cc)) s.0, ih)
      split gt e ih =
          unfold insert_by in
          rw (e, insert_by) (All-insert_by cmp key _ x ys (le_of_ne_lt x y (λ c. cc)) s.0, ih)

  -- The result of sorting is in order.
  pub sort_by-Ordered : (xs : List A) → Ordered cmp key (sort_by cmp key xs)
  unfolding sort_by
  sort_by-Ordered [] = tt
  sort_by-Ordered (x ∷ xs) = insert_by-Ordered x (sort_by cmp key xs) (sort_by-Ordered xs)
