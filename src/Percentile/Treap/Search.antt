-- ===== src/Percentile/Treap/Search.antt =====
-- The nodes of the treap from left to right: insertion is insertion into the ordered sequence, eviction
-- is a filter.
use Prim.Native.Nat.{compare}
use golang_toys.Base.{
  ℕ, ◌<◌, ◌≤◌, ◌≡◌, refl, ap, sym, ◌∙◌, inl, inr, Bool, true, false, not, List, [], ◌∷◌, ◌++◌,
  if◌then◌else◌, ltb, leb, arith, keep, keep-append, All, All-imp, append_assoc, append-nil,
  Bool-cases,
}
use mathlib.Core.Path.{subst}
use native.Mathlib.Nat.{le_trans}
use golang_toys.Base.Sort.{insert_by, Ordered}
use golang_toys.Percentile.Observation.{Observation, latency_of}
use golang_toys.Percentile.Treap.{
  Tree, nil, node, recalc, rotate_right, rotate_left, insert, priority, merge, delete_by_timestamp,
}

unfoldable pub in_order : Tree → List Observation
in_order nil = []
in_order (node o p n l r) = in_order l ++ (o ∷ in_order r)

-- The search-tree order, as a fact about the sequence.
abbrev pub IsSearch : Tree → Type 0
IsSearch t = Ordered compare latency_of (in_order t)

abbrev pub insert_observation : Observation → List Observation → List Observation
insert_observation = insert_by compare latency_of

pub in_order-recalc : (t : Tree) → in_order (recalc t) ≡ in_order t
unfolding in_order recalc
in_order-recalc nil = refl
in_order-recalc (node o p n l r) = refl

in_order-rotate_right : (t : Tree) → in_order (rotate_right t) ≡ in_order t
unfolding in_order rotate_right
in_order-rotate_right nil = refl
in_order-rotate_right (node o p n nil r) = refl
in_order-rotate_right (node o p n (node lo lp ln ll lr) r) =
    sym (append_assoc (in_order ll) (lo ∷ in_order lr) (o ∷ in_order r))

in_order-rotate_left : (t : Tree) → in_order (rotate_left t) ≡ in_order t
unfolding in_order rotate_left
in_order-rotate_left nil = refl
in_order-rotate_left (node o p n l nil) = refl
in_order-rotate_left (node o p n l (node ro rp rn rl rr)) =
    append_assoc (in_order l) (o ∷ in_order rl) (ro ∷ in_order rr)

-- Before a greater element the sequence is not looked at further.
insert_left :
    (obs o : Observation) (xs ys : List Observation)
    → obs.latency < o.latency
    → insert_observation obs (xs ++ (o ∷ ys)) ≡ insert_observation obs xs ++ (o ∷ ys)
unfolding insert_by
insert_left obs o [] ys h = ground arith
insert_left obs o (x ∷ xs) ys h = ground (arith, insert_left obs o xs ys)

-- Elements that are not greater are passed over.
insert_right :
    (obs o : Observation) (xs ys : List Observation)
    → All (λ x. x.latency ≤ obs.latency) xs
    → o.latency ≤ obs.latency
    → insert_observation obs (xs ++ (o ∷ ys)) ≡ xs ++ (o ∷ insert_observation obs ys)
unfolding insert_by
insert_right obs o [] ys a h = ground arith
insert_right obs o (x ∷ xs) ys a h = ground (arith, insert_right obs o xs ys)

All-split :
    (P : Observation → Type 0) (xs ys : List Observation) → All P (xs ++ ys) → All P xs × All P ys
All-split P [] ys h = (tt, h)
All-split P (x ∷ xs) ys h = let (a, b) = All-split P xs ys h.1 in ((h.0, a), b)

-- The parts of an ordered sequence.
Ordered-split :
    (xs : List Observation) (o : Observation) (ys : List Observation)
    → Ordered compare latency_of (xs ++ (o ∷ ys))
    → Ordered compare latency_of xs
      × All (λ x. x.latency ≤ o.latency) xs
      × Ordered compare latency_of ys
Ordered-split [] o ys h = (tt, tt, h.1)
Ordered-split (x ∷ xs) o ys h =
    let (before, after) = All-split _ xs (o ∷ ys) h.0 in
    let (s, le, t) = Ordered-split xs o ys h.1 in ((before, s), (ground arith, le), t)

-- Whether or not the node is rotated, the sequence is the same.
in_order_right :
    (b : Bool) (t : Tree) → in_order (recalc (if b then rotate_right t else t)) ≡ in_order t
in_order_right true t = in_order-recalc (rotate_right t) ∙ in_order-rotate_right t
in_order_right false t = in_order-recalc t

in_order_left :
    (b : Bool) (t : Tree) → in_order (recalc (if b then rotate_left t else t)) ≡ in_order t
in_order_left true t = in_order-recalc (rotate_left t) ∙ in_order-rotate_left t
in_order_left false t = in_order-recalc t

pub in_order-node :
    (o : Observation) (p n : ℕ) (l r : Tree)
    → in_order (node o p n l r) ≡ in_order l ++ (o ∷ in_order r)
unfolding in_order
in_order-node o p n l r = refl

insert_goes_left :
    (draw : ℕ) (obs o : Observation) (p n : ℕ) (l r : Tree)
    → ltb obs.latency o.latency ≡ true
    → in_order (insert draw obs (node o p n l r)) ≡ in_order (insert draw obs l) ++ (o ∷ in_order r)
unfolding insert
insert_goes_left draw obs o p n l r h =
    rw (h, insert)
      (in_order_right (ltb p (priority (insert draw obs l))) (node o p n (insert draw obs l) r)
        ∙ in_order-node o p n (insert draw obs l) r)

insert_goes_right :
    (draw : ℕ) (obs o : Observation) (p n : ℕ) (l r : Tree)
    → ltb obs.latency o.latency ≡ false
    → in_order (insert draw obs (node o p n l r)) ≡ in_order l ++ (o ∷ in_order (insert draw obs r))
unfolding insert
insert_goes_right draw obs o p n l r h =
    rw (h, insert)
      (in_order_left (ltb p (priority (insert draw obs r))) (node o p n l (insert draw obs r))
        ∙ in_order-node o p n l (insert draw obs r))

-- On a search tree, `insert` puts the observation into the tree's sequence as an insertion sort does,
-- whatever priority is drawn.
pub in_order-insert :
    (draw : ℕ) (obs : Observation) (t : Tree)
    → IsSearch t
    → in_order (insert draw obs t) ≡ insert_observation obs (in_order t)
in_order-insert draw obs nil s = unfold insert in_order insert_by in refl
in_order-insert draw obs (node o p n l r) s =
    let (left, le, right) =
      Ordered-split (in_order l) o (in_order r)
        (subst (Ordered compare latency_of) (in_order-node o p n l r) s) in
    elim (Bool-cases (ltb obs.latency o.latency)) [
      | inl less ↦
          insert_goes_left draw obs o p n l r less
          ∙ ap (λ xs. xs ++ (o ∷ in_order r)) (in_order-insert draw obs l left)
          ∙ sym (insert_left obs o (in_order l) (in_order r) (ground arith))
          ∙ ap (insert_observation obs) (sym (in_order-node o p n l r))
      | inr not_less ↦
          insert_goes_right draw obs o p n l r not_less
          ∙ ap (λ ys. in_order l ++ (o ∷ ys)) (in_order-insert draw obs r right)
          ∙ sym (
              insert_right obs o (in_order l) (in_order r)
                (All-imp (λ x b. le_trans b (not_less_le obs o not_less)) (in_order l) le)
                (not_less_le obs o not_less))
          ∙ ap (insert_observation obs) (sym (in_order-node o p n l r))
    ]
  where
    not_less_le :
        (obs o : Observation) → ltb obs.latency o.latency ≡ false → o.latency ≤ obs.latency
    not_less_le obs o e = ground arith

-- `merge` puts the sequences one after the other.
in_order-merge : (a b : Tree) → in_order (merge a b) ≡ in_order a ++ in_order b
unfolding in_order merge recalc
in_order-merge nil b = refl
in_order-merge (node o p n l r) nil = sym (append-nil (in_order l ++ (o ∷ in_order r)))
in_order-merge (node o p n l r) (node o' p' n' l' r') =
    let below = in_order-merge r (node o' p' n' l' r') in
    let above = in_order-merge (node o p n l r) l' in
    elim (Bool-cases (ltb p' p)) [
      | inl left_first ↦
          rw
            (
              left_first,
              below,
              append_assoc (in_order l) (o ∷ in_order r) (in_order l' ++ (o' ∷ in_order r')),
            )
            refl
      | inr right_first ↦
          rw
            (
              right_first,
              above,
              append_assoc (in_order l ++ (o ∷ in_order r)) (in_order l') (o' ∷ in_order r'),
            )
            refl
    ]

-- The observations that are newer than the cutoff.
abbrev pub is_live : ℕ → Observation → Bool
is_live cutoff o = not (leb o.timestamp cutoff)

-- Eviction keeps what is newer than the cutoff, in the same order.
pub in_order-delete_by_timestamp :
    (cutoff : ℕ) (t : Tree)
    → in_order (delete_by_timestamp cutoff t) ≡ keep (is_live cutoff) (in_order t)
unfolding in_order delete_by_timestamp recalc
in_order-delete_by_timestamp cutoff nil = refl
in_order-delete_by_timestamp cutoff (node o p n l r) = elim (Bool-cases (leb o.timestamp cutoff)) [
  | inl old ↦
      rw
        (
          old,
          keep-append (is_live cutoff) (in_order l) (o ∷ in_order r),
          old,
          in_order-merge (delete_by_timestamp cutoff l) (delete_by_timestamp cutoff r),
          in_order-delete_by_timestamp cutoff l,
          in_order-delete_by_timestamp cutoff r,
        )
        refl
  | inr live ↦
      rw
        (
          live,
          keep-append (is_live cutoff) (in_order l) (o ∷ in_order r),
          live,
          in_order-delete_by_timestamp cutoff l,
          in_order-delete_by_timestamp cutoff r,
        )
        refl
]
