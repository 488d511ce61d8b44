-- ===== src/Percentile/Treap/Sizes.antt =====
-- The stored sizes, and selection by rank.
use golang_toys.Base.{
  ℕ, zero, suc, ◌+◌, ◌-◌, ◌≤◌, ◌≡◌, refl, inl, inr, Bool, true, false, List, [], ◌∷◌, ◌++◌,
  if◌then◌else◌, ltb, leb, ◌==◌, arith, length, length-append, Bool-cases,
}
use golang_toys.Percentile.Observation.{Observation}
use golang_toys.Percentile.Treap.{
  Tree, nil, node, size, recalc, rotate_right, rotate_left, insert, priority, merge,
  delete_by_timestamp, select_by_rank,
}
use golang_toys.Percentile.Treap.Search.{in_order, in_order-node}

-- Every node stores the number of nodes below it and itself.
abbrev pub IsSized : Tree → Type 0
IsSized nil = Unit
IsSized (node o p n l r) = (n ≡ 1 + size l + size r) × IsSized l × IsSized r

pub size-length : (t : Tree) → IsSized t → size t ≡ length (in_order t)
unfolding size in_order
size-length nil s = refl
size-length (node o p n l r) s =
    omega (
      arith,
      s.0,
      size-length l s.1,
      size-length r s.2,
      length-append (in_order l) (o ∷ in_order r),
    )

recalc-IsSized :
    (o : Observation) (p n : ℕ) (l r : Tree)
    → IsSized l
    → IsSized r
    → IsSized (recalc (node o p n l r))
unfolding recalc
recalc-IsSized o p n l r a b = (refl, a, b)

-- A rotation and the `recalc` after it leave the sizes right, whatever the node stored.
rotate_right-IsSized :
    (b : Bool) (o : Observation) (p n : ℕ) (l r : Tree)
    → IsSized l
    → IsSized r
    → IsSized (recalc (if b then rotate_right (node o p n l r) else node o p n l r))
unfolding rotate_right recalc
rotate_right-IsSized false o p n l r a c = (refl, a, c)
rotate_right-IsSized true o p n nil r a c = (refl, a, c)
rotate_right-IsSized true o p n (node lo lp ln ll lr) r a c = (refl, a.1, (refl, a.2, c))

rotate_left-IsSized :
    (b : Bool) (o : Observation) (p n : ℕ) (l r : Tree)
    → IsSized l
    → IsSized r
    → IsSized (recalc (if b then rotate_left (node o p n l r) else node o p n l r))
unfolding rotate_left recalc
rotate_left-IsSized false o p n l r a c = (refl, a, c)
rotate_left-IsSized true o p n l nil a c = (refl, a, c)
rotate_left-IsSized true o p n l (node ro rp rn rl rr) a c = (refl, (refl, a, c.1), c.2)

pub insert-IsSized :
    (draw : ℕ) (obs : Observation) (t : Tree) → IsSized t → IsSized (insert draw obs t)
unfolding insert
insert-IsSized draw obs nil s = unfold size in (refl, tt, tt)
insert-IsSized draw obs (node o p n l r) s =
    let l' = insert-IsSized draw obs l s.1 in
    let r' = insert-IsSized draw obs r s.2 in
    elim (Bool-cases (ltb obs.latency o.latency)) [
      | inl less ↦
          rw (less, insert)
            (rotate_right-IsSized (ltb p (priority (insert draw obs l))) o p n _ r l' s.2)
      | inr not_less ↦
          rw (not_less, insert)
            (rotate_left-IsSized (ltb p (priority (insert draw obs r))) o p n l _ s.1 r')
    ]

merge-IsSized : (a b : Tree) → IsSized a → IsSized b → IsSized (merge a b)
unfolding merge recalc
merge-IsSized nil b s t = t
merge-IsSized (node o p n l r) nil s t = s
merge-IsSized (node o p n l r) (node o' p' n' l' r') s t =
    let below = merge-IsSized r (node o' p' n' l' r') s.2 t in
    let above = merge-IsSized (node o p n l r) l' s t.1 in
    elim (Bool-cases (ltb p' p)) [
      | inl left_first ↦ rw left_first (refl, s.1, below)
      | inr right_first ↦ rw right_first (refl, above, t.2)
    ]

pub delete_by_timestamp-IsSized :
    (cutoff : ℕ) (t : Tree) → IsSized t → IsSized (delete_by_timestamp cutoff t)
unfolding delete_by_timestamp recalc
delete_by_timestamp-IsSized cutoff nil s = tt
delete_by_timestamp-IsSized cutoff (node o p n l r) s =
    let l' = delete_by_timestamp-IsSized cutoff l s.1 in
    let r' = delete_by_timestamp-IsSized cutoff r s.2 in
    elim (Bool-cases (leb o.timestamp cutoff)) [
      | inl old ↦
          rw old (merge-IsSized (delete_by_timestamp cutoff l) (delete_by_timestamp cutoff r) l' r')
      | inr live ↦ rw live (refl, l', r')
    ]

-- The latency at a position of the sequence, 0 behind its end.
abbrev pub latency_at : List Observation → ℕ → ℕ
latency_at [] i = 0
latency_at (o ∷ os) zero = o.latency
latency_at (o ∷ os) (suc i) = latency_at os i

-- A position before, at or behind the middle element.
latency_at-append :
    (xs ys : List Observation) (o : Observation) (i : ℕ)
    → latency_at (xs ++ (o ∷ ys)) i ≡ (
        if ltb i (length xs)
        then latency_at xs i
        else if i == length xs
        then o.latency
        else latency_at ys (i - length xs - 1))
latency_at-append [] ys o zero = refl
latency_at-append [] ys o (suc i) = ground arith
latency_at-append (x ∷ xs) ys o zero = ground arith
latency_at-append (x ∷ xs) ys o (suc i) = ground (arith, latency_at-append xs ys o i)

latency_beyond : (xs : List Observation) (i : ℕ) → length xs ≤ i → latency_at xs i ≡ 0
latency_beyond [] i h = refl
latency_beyond (x ∷ xs) zero h = absurd (omega arith)
latency_beyond (x ∷ xs) (suc i) h = latency_beyond xs i (omega arith)

select_node :
    (o : Observation) (p n : ℕ) (l r : Tree) (rank : ℕ)
    → IsSized (node o p n l r)
    → select_by_rank l rank ≡ latency_at (in_order l) rank
    → select_by_rank r (rank - size l - 1) ≡ latency_at (in_order r) (rank - size l - 1)
    → select_by_rank (node o p n l r) rank ≡ latency_at (in_order l ++ (o ∷ in_order r)) rank
unfolding select_by_rank
select_node o p n l r rank s below above = ground (
  arith,
  latency_at-append (in_order l) (in_order r) o rank,
  size-length l s.1,
  size-length r s.2,
  latency_beyond (in_order r) (rank - length (in_order l) - 1),
)

-- With right sizes, `selectByRank` finds the latency at the rank in the sequence, and 0 for a rank
-- that is out of range.
pub select_by_rank_lem :
    (t : Tree) (rank : ℕ) → IsSized t → select_by_rank t rank ≡ latency_at (in_order t) rank
select_by_rank_lem nil rank s = unfold select_by_rank in_order in refl
select_by_rank_lem (node o p n l r) rank s =
    rw (in_order-node o p n l r)
      (unfold_select (select_by_rank_lem l rank s.1) (select_by_rank_lem r (rank - size l - 1) s.2))
  where
    unfold_select :
        select_by_rank l rank ≡ latency_at (in_order l) rank
        → select_by_rank r (rank - size l - 1) ≡ latency_at (in_order r) (rank - size l - 1)
        → select_by_rank (node o p n l r) rank ≡ latency_at (in_order l ++ (o ∷ in_order r)) rank
    unfold_select below above = select_node o p n l r rank s below above
