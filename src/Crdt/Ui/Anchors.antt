-- ===== src/Crdt/Ui/Anchors.antt =====
-- What the ids that the cursor can move to have in common with those of the elements, whatever it is.
use golang_toys.Base.{
  ℕ, inl, inr, false, Option, none, some, List, [], ◌∷◌, arith, ◌&&◌, leb, All, Bool-cases, ◌==◌,
}
use golang_toys.Crdt.Node.{NodeId, Node, zero_id, same_id}
use golang_toys.Crdt.Rga.{Cell, skip, after, splice, bury, visible}
use golang_toys.Crdt.Ui.{
  before, behind, next_of, LogicalPos, Search, look, is_better, search_line, move_to,
}

module _ (P : NodeId → Type 0) where
  pub visible-All : (cs : List Cell) → All (λ c. P c.node.id) cs → All (λ n. P n.id) (visible cs)
  unfolding visible
  visible-All [] h = tt
  visible-All (c ∷ cs) h = ground (arith, visible-All cs)

  pub before_in :
      (cursor previous : NodeId) (ns : List Node)
      → P zero_id
      → P previous
      → All (λ n. P n.id) ns
      → P (before cursor previous ns)
  unfolding before
  before_in cursor previous [] z p h = z
  before_in cursor previous (n ∷ ns) z p h = elim (Bool-cases (same_id n.id cursor)) [
    | inl e ↦ rw e p
    | inr e ↦ rw e (before_in cursor n.id ns z h.0 h.1)
  ]

  behind_in :
      (cursor : NodeId) (ns : List Node) → P cursor → All (λ n. P n.id) ns → P (behind cursor ns)
  unfolding behind
  behind_in cursor [] p h = p
  behind_in cursor (n ∷ []) p h = p
  behind_in cursor (n ∷ m ∷ ns) p h = elim (Bool-cases (same_id n.id cursor)) [
    | inl e ↦ rw e h.1.0
    | inr e ↦ rw e (behind_in cursor (m ∷ ns) p h.1)
  ]

  pub next_of_in :
      (cursor : NodeId) (ns : List Node) → P cursor → All (λ n. P n.id) ns → P (next_of cursor ns)
  unfolding next_of
  next_of_in cursor [] p h = p
  next_of_in cursor (n ∷ ns) p h = elim (Bool-cases (same_id cursor zero_id)) [
    | inl e ↦ rw e h.0
    | inr e ↦ rw e (behind_in cursor (n ∷ ns) p h)
  ]

  -- What a search has found.
  abbrev Found : Option (ℕ × NodeId) → Type 0
  Found none = Unit
  Found (some b) = P b.1

  look_in :
      (target col : ℕ) (n : Node) (p : LogicalPos) (s : Search)
      → P n.id
      → Found s.best
      → Found (look target col n p s).best
  unfolding look
  look_in target col n p s h f = elim (Bool-cases (p.line == target)) [
    | inr e ↦ rw e f
    | inl e ↦ elim (Bool-cases (leb p.col col && is_better p.col s.best)) [
      | inl b ↦ rw (e, b) h
      | inr b ↦ rw (e, b) f
    ]
  ]

  search_in :
      (target col : ℕ) (ns : List Node) (ps : List LogicalPos) (s : Search)
      → All (λ n. P n.id) ns
      → Found s.best
      → Found (search_line target col ns ps s).best
  unfolding search_line
  search_in target col [] ps s h f = f
  search_in target col (n ∷ ns) [] s h f = f
  search_in target col (n ∷ ns) (p ∷ ps) s h f =
      search_in target col ns ps (look target col n p s) h.1 (look_in target col n p s h.0 f)

  best_in :
      (b : Option (ℕ × NodeId)) → P zero_id → Found b → P (elim b [ none ↦ zero_id | some x ↦ x.1 ])
  best_in none z f = z
  best_in (some b) z f = f

  pub move_to_in :
      (cursor : NodeId) (cur : LogicalPos) (ns : List Node) (ps : List LogicalPos) (t : Option ℕ)
      → P zero_id
      → P cursor
      → All (λ n. P n.id) ns
      → P (move_to cursor cur ns ps t)
  unfolding move_to
  move_to_in cursor cur ns ps none z p h = p
  move_to_in cursor cur ns ps (some target) z p h =
      let start : Search = record { exists = false; best = none } in
      elim (Bool-cases (search_line target cur.col ns ps start).exists) [
        | inl e ↦ rw e (best_in _ z (search_in target cur.col ns ps start h tt))
        | inr e ↦ rw e p
      ]

  All-skip :
      (x : Cell) (cs : List Cell)
      → P x.node.id
      → All (λ c. P c.node.id) cs
      → All (λ c. P c.node.id) (skip x cs)
  unfolding skip
  All-skip x [] p h = (p, tt)
  All-skip x (c ∷ cs) p h = ground (arith, All-skip x cs)

  All-after :
      (x : Cell) (address : ℕ) (cs : List Cell)
      → P x.node.id
      → All (λ c. P c.node.id) cs
      → All (λ c. P c.node.id) (after x address cs)
  unfolding after
  All-after x address [] p h = tt
  All-after x address (c ∷ cs) p h = ground (arith, All-after x address cs, All-skip x cs)

  pub All-splice :
      (x : Cell) (address : ℕ) (cs : List Cell)
      → P x.node.id
      → All (λ c. P c.node.id) cs
      → All (λ c. P c.node.id) (splice x address cs)
  unfolding splice
  All-splice x address cs p h = ground (arith, All-after x address cs, All-skip x cs)

  pub All-bury :
      (address : ℕ) (cs : List Cell)
      → All (λ c. P c.node.id) cs
      → All (λ c. P c.node.id) (bury address cs)
  unfolding bury
  All-bury address [] h = tt
  All-bury address (c ∷ cs) h = ground (arith, All-bury address cs)
