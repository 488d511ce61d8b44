-- ===== src/Percentile/Treap/Heap.antt =====
-- The heap order: no child has a higher priority than its parent.
use golang_toys.Base.{
  ℕ, ◌≤◌, ◌≡◌, refl, ◌⊎◌, inl, inr, true, false, if◌then◌else◌, ltb, leb, arith, Bool-cases, ltb→lt,
}
use golang_toys.Percentile.Observation.{Observation}
use golang_toys.Percentile.Treap.{
  Tree, nil, node, recalc, rotate_right, rotate_left, insert, priority, merge, delete_by_timestamp,
}

abbrev pub Below : ℕ → Tree → Type 0
Below b nil = Unit
Below b (node o p n l r) = p ≤ b

abbrev pub IsHeap : Tree → Type 0
IsHeap nil = Unit
IsHeap (node o p n l r) = Below p l × Below p r × IsHeap l × IsHeap r

-- After an insertion the root is below the old bound, or it is the new node over nodes that are.
abbrev Grown : ℕ → ℕ → Tree → Type 0
Grown draw b nil = ⊥
Grown draw b (node o p n l r) = (p ≤ b) ⊎ ((p ≡ draw) × Below b l × Below b r)

abbrev left_side : ℕ → Observation → ℕ → ℕ → Tree → Tree → Tree
left_side draw o p n l' r =
    recalc (if ltb p (priority l') then rotate_right (node o p n l' r) else node o p n l' r)

abbrev right_side : ℕ → Observation → ℕ → ℕ → Tree → Tree → Tree
right_side draw o p n l r' =
    recalc (if ltb p (priority r') then rotate_left (node o p n l r') else node o p n l r')

raise_left :
    (draw b : ℕ) (o : Observation) (p n : ℕ) (l' r : Tree)
    → p ≤ b
    → Below p r
    → IsHeap r
    → IsHeap l' × Grown draw p l'
    → IsHeap (left_side draw o p n l' r) × Grown draw b (left_side draw o p n l' r)
unfolding recalc rotate_right priority
raise_left draw b o p n nil r w br hr g = absurd g.1
raise_left draw b o p n (node o' p' n' ll lr) r w br hr g = ground arith

raise_right :
    (draw b : ℕ) (o : Observation) (p n : ℕ) (l r' : Tree)
    → p ≤ b
    → Below p l
    → IsHeap l
    → IsHeap r' × Grown draw p r'
    → IsHeap (right_side draw o p n l r') × Grown draw b (right_side draw o p n l r')
unfolding recalc rotate_left priority
raise_right draw b o p n l nil w bl hl g = absurd g.1
raise_right draw b o p n l (node o' p' n' rl rr) w bl hl g = ground arith

insert_left :
    (draw : ℕ) (obs o : Observation) (p n : ℕ) (l r : Tree)
    → ltb obs.latency o.latency ≡ true
    → insert draw obs (node o p n l r) ≡ left_side draw o p n (insert draw obs l) r
unfolding insert
insert_left draw obs o p n l r h = rw (h, insert)

insert_right :
    (draw : ℕ) (obs o : Observation) (p n : ℕ) (l r : Tree)
    → ltb obs.latency o.latency ≡ false
    → insert draw obs (node o p n l r) ≡ right_side draw o p n l (insert draw obs r)
unfolding insert
insert_right draw obs o p n l r h = rw (h, insert)

insert-Grown :
    (draw : ℕ) (obs : Observation) (t : Tree) (b : ℕ)
    → IsHeap t
    → Below b t
    → IsHeap (insert draw obs t) × Grown draw b (insert draw obs t)
insert-Grown draw obs nil b h w = unfold insert in ((tt, tt, tt, tt), inr (refl, tt, tt))
insert-Grown draw obs (node o p n l r) b h w =
    let left = insert-Grown draw obs l p h.2 h.0 in
    let right = insert-Grown draw obs r p h.3 h.1 in
    elim (Bool-cases (ltb obs.latency o.latency)) [
      | inl less ↦
          rw (insert_left draw obs o p n l r less)
            (raise_left draw b o p n (insert draw obs l) r w h.1 h.3 left)
      | inr not_less ↦
          rw (insert_right draw obs o p n l r not_less)
            (raise_right draw b o p n l (insert draw obs r) w h.0 h.2 right)
    ]

-- `insert` keeps the heap order of the priorities, whatever priority is drawn.
pub insert-IsHeap :
    (draw : ℕ) (obs : Observation) (t : Tree) → IsHeap t → IsHeap (insert draw obs t)
insert-IsHeap draw obs nil h = (insert-Grown draw obs nil 0 h tt).0
insert-IsHeap draw obs (node o p n l r) h =
    (insert-Grown draw obs (node o p n l r) p h (omega arith)).0

Below-le : (p b : ℕ) (t : Tree) → p ≤ b → Below p t → Below b t
Below-le p b nil h w = tt
Below-le p b (node o q n l r) h w = omega arith

merge-IsHeap :
    (a c : Tree) (b : ℕ)
    → IsHeap a
    → IsHeap c
    → Below b a
    → Below b c
    → IsHeap (merge a c) × Below b (merge a c)
unfolding merge recalc
merge-IsHeap nil c b h k u v = (k, v)
merge-IsHeap (node o p n l r) nil b h k u v = (h, u)
merge-IsHeap (node o p n l r) (node o' p' n' l' r') b h k u v = elim (Bool-cases (ltb p' p)) [
  | inl left_first ↦
      let (heap, below) =
        merge-IsHeap r (node o' p' n' l' r') p h.3 k h.1 (omega (arith, ltb→lt p' p left_first)) in
      rw left_first ((h.0, below, h.2, heap), u)
  | inr right_first ↦
      let (heap, below) = merge-IsHeap (node o p n l r) l' p' h k.2 (ground arith) k.0 in
      rw right_first ((below, k.1, heap, k.3), v)
]

-- Eviction raises no priority above a bound, and keeps the heap order.
delete_by_timestamp-Below :
    (cutoff : ℕ) (t : Tree) (b : ℕ)
    → IsHeap t
    → Below b t
    → IsHeap (delete_by_timestamp cutoff t) × Below b (delete_by_timestamp cutoff t)
unfolding delete_by_timestamp recalc
delete_by_timestamp-Below cutoff nil b h w = (tt, tt)
delete_by_timestamp-Below cutoff (node o p n l r) b h w =
    let (hl, bl) = delete_by_timestamp-Below cutoff l p h.2 h.0 in
    let (hr, br) = delete_by_timestamp-Below cutoff r p h.3 h.1 in
    elim (Bool-cases (leb o.timestamp cutoff)) [
      | inl old ↦
          let (heap, below) =
            merge-IsHeap (delete_by_timestamp cutoff l) (delete_by_timestamp cutoff r) p hl hr bl
              br in
          rw old (heap, Below-le p b _ w below)
      | inr live ↦ rw live ((bl, br, hl, hr), w)
    ]

-- `deleteByTimestamp` keeps the heap order of the priorities.
pub delete_by_timestamp-IsHeap :
    (cutoff : ℕ) (t : Tree) → IsHeap t → IsHeap (delete_by_timestamp cutoff t)
delete_by_timestamp-IsHeap cutoff nil h = (delete_by_timestamp-Below cutoff nil 0 h tt).0
delete_by_timestamp-IsHeap cutoff (node o p n l r) h =
    (delete_by_timestamp-Below cutoff (node o p n l r) p h (omega arith)).0
