-- ===== src/Crdt/Rga/Effects.antt =====
-- What the ops of crdt/rga.go change in the index of a replica.
use golang_toys.Base.{ℕ, ◌≡◌, ◌≢◌, refl, inl, inr, ◌⊎◌, some, arith, Option-cases}
use golang_toys.Crdt.Node.{NodeId, Node, same_id→eq}
use golang_toys.Crdt.Op.{Op, Action, op_insert, op_delete, unknown}
use golang_toys.Crdt.Rga.{Rga, remote_insert, delete, apply_remote}
use golang_toys.Crdt.Rga.Grown.{grown, remote_insert_lem}
use golang_toys.Crdt.Rga.Converge.{IsFree, NeedsKnown}

-- What an applied op does to the index.
pub record Effect (address : ℕ) (r r' : Rga) : Type 0 where
  pub kept : (j : NodeId) (a : ℕ) → r.index j ≡ some a → r'.index j ≡ some a
  pub fresh : (j : NodeId) (a : ℕ) → r'.index j ≡ some a → (r.index j ≡ some a) ⊎ (a ≡ address)

-- An op that is enabled is applied.
abbrev pub Applies : ℕ → Op → Rga → Type 0
Applies address o r = (r' : Rga) × (apply_remote address o r ≡ some r') × Effect address r r'

same-Effect : (address : ℕ) (r : Rga) → Effect address r r
same-Effect address r = record { kept = λ j a e. e; fresh = λ j a e. inl e }

insert-Applies :
    (address left : ℕ) (prev : NodeId) (n : Node) (r : Rga)
    → r.index prev ≡ some left
    → (r' : Rga) × (remote_insert address prev n r ≡ some r') × Effect address r r'
unfolding remote_insert
insert-Applies address left prev n r k = elim (Option-cases (r.index n.id)) [
  | inr (a, old) ↦ (r, rw (remote_insert, old) refl, same-Effect address r)
  | inl new ↦ (
    grown address left n r,
    remote_insert_lem address prev n r left k new,
    record {
      kept = λ j a e. ground (arith, same_id→eq n.id j);
      fresh = λ j a e. ground (arith, same_id→eq n.id j);
    },
  )
]

delete-Effect : (address : ℕ) (id : NodeId) (r : Rga) → Effect address r (delete id r)
unfolding delete
delete-Effect address id r = record { kept = λ j a e. ground arith; fresh = λ j a e. ground arith }

pub op-Applies :
    (address : ℕ) (c : Action) (prev : NodeId) (n : Node) (r : Rga)
    → NeedsKnown c prev n r
    → Applies address (record { action = c; prev_id = prev; node = n }) r
unfolding apply_remote
op-Applies address op_insert prev n r k = insert-Applies address k.0 prev n r k.1
op-Applies address op_delete prev n r k = (delete n.id r, refl, delete-Effect address n.id r)
op-Applies address unknown prev n r k = (r, refl, same-Effect address r)

pub needs_kept :
    (c : Action) (prev : NodeId) (n : Node) {address : ℕ} {r r' : Rga}
    → Effect address r r'
    → NeedsKnown c prev n r
    → NeedsKnown c prev n r'
needs_kept op_insert prev n e k = (k.0, e.kept prev k.0 k.1)
needs_kept op_delete prev n e k = (k.0, e.kept n.id k.0 k.1)
needs_kept unknown prev n e k = tt

pub IsFree-kept :
    (b : ℕ) {address : ℕ} {r r' : Rga}
    → Effect address r r'
    → b ≢ address
    → IsFree b r
    → IsFree b r'
IsFree-kept b e d f = record {
  positive = f.positive;
  unused = λ j h. elim (e.fresh j b h) [ inl old ↦ f.unused j old | inr same ↦ d same ];
}
