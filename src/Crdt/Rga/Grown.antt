-- ===== src/Crdt/Rga/Grown.antt =====
-- The sequence after an insertion of a new id behind a known one.
use golang_toys.Base.{ℕ, ◌≡◌, refl, ap, ◌∙◌, none, some}
use golang_toys.Crdt.Node.{NodeId, Node}
use golang_toys.Crdt.Rga.{Rga, update, splice, insert_after, remote_insert}

-- The document after an insertion.
abbrev pub grown : ℕ → ℕ → Node → Rga → Rga
grown address prev n r = record r {
  cells = splice (record { address = address; node = n }) prev r.cells;
  index = update n.id address r.index;
}

pub insert_after_lem :
    (address : ℕ) (prev : NodeId) (n : Node) (r : Rga) (at : ℕ)
    → r.index prev ≡ some at
    → insert_after address prev n r ≡ some (grown address at n r)
unfolding insert_after
insert_after_lem address prev n r at h = rw (insert_after, h) refl

pub remote_insert_lem :
    (address : ℕ) (prev : NodeId) (n : Node) (r : Rga) (at : ℕ)
    → r.index prev ≡ some at
    → r.index n.id ≡ none
    → remote_insert address prev n r ≡ some (grown address at n r)
unfolding remote_insert
remote_insert_lem address prev n r at h new =
    ap (λ o. elim o [ some x ↦ some r | none ↦ insert_after address prev n r ]) new
    ∙ insert_after_lem address prev n r at h
