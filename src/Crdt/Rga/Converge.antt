-- ===== src/Crdt/Rga/Converge.antt =====
-- Ops that are concurrent commute: replicas that receive them in different orders hold the same
-- sequence.
use golang_toys.Base.{
  ℕ, ◌<◌, ◌≡◌, ◌≢◌, refl, sym, ◌∙◌, inl, inr, false, Option, none, some, arith, Option-cases,
}
use mathlib.Core.Path.{fun_ext}
use golang_toys.Crdt.Node.{NodeId, Node, same_id, same_id_refl, same_id→eq, same_id_sym}
use golang_toys.Crdt.Op.{Op, Action, op_insert, op_delete, unknown}
use golang_toys.Crdt.Rga.{
  Rga, update, splice, insert_after, remote_insert, delete, apply_remote, ◌>>=◌,
}
use golang_toys.Crdt.Rga.Linking.{splice_comm, bury-splice, bury_comm}

-- An address that no element has.
pub record IsFree (address : ℕ) (r : Rga) : Type 0 where
  pub positive : 0 < address
  pub unused : (id : NodeId) → r.index id ≢ some address

update_comm :
    (i j : NodeId) (a b : ℕ) (index : NodeId → Option ℕ)
    → same_id i j ≡ false
    → update i a (update j b index) ≡ update j b (update i a index)
update_comm i j a b index n = fun_ext λ k.
    ground (arith, same_id→eq i k, same_id→eq j k, same_id_refl i, same_id_refl j, same_id→eq i j)

-- Two insertions behind known predecessors, in either order.
module _ (pa pb : ℕ) (prev_a prev_b : NodeId) (a b : Node) (r : Rga)
    (differ : same_id a.id b.id ≡ false) (free_a : IsFree pa r) (free_b : IsFree pb r)
    (new_a : r.index a.id ≡ none) (new_b : r.index b.id ≡ none) {left : ℕ} {right : ℕ}
    (known_a : r.index prev_a ≡ some left) (known_b : r.index prev_b ≡ some right) where
  abbrev both : Rga
  both = record r {
    cells =
        splice (record { address = pa; node = a }) left
          (splice (record { address = pb; node = b }) right r.cells);
    index = update a.id pa (update b.id pb r.index);
  }

  prev_unchanged : update b.id pb r.index prev_a ≡ some left
  prev_unchanged = ground (arith, same_id→eq b.id prev_a)

  b_then_a : (remote_insert pb prev_b b r >>= remote_insert pa prev_a a) ≡ some both
  unfolding remote_insert insert_after
  b_then_a = ground (arith, same_id→eq b.id a.id, same_id→eq b.id prev_a, same_id_refl a.id)

  swapped :
      some (record r {
        cells =
            splice
              (record { address = pb; node = b })
              right
              (splice (record { address = pa; node = a }) left r.cells);
        index = update b.id pb (update a.id pa r.index);
      })
      ≡ some both
  swapped =
      rw
        (
          update_comm b.id a.id pb pa r.index (same_id_sym a.id b.id differ),
          splice_comm (record { address = pb; node = b }) (record { address = pa; node = a }) right
              left r.cells (same_id_sym a.id b.id differ) (λ e. free_a.unused prev_b (rw e known_b))
              (λ e. free_b.unused prev_a (rw e known_a)),
        )
        refl

-- An insertion of an id that is known changes nothing, before or after another insertion.
known_insert :
    (pa pb : ℕ) (prev_a prev_b : NodeId) (a b : Node) (r : Rga) {c : ℕ}
    → r.index a.id ≡ some c
    → (remote_insert pa prev_a a r >>= remote_insert pb prev_b b)
      ≡ (remote_insert pb prev_b b r >>= remote_insert pa prev_a a)
unfolding remote_insert insert_after
known_insert pa pb prev_a prev_b a b r k = ground (arith, same_id→eq b.id a.id)

insert_insert :
    (pa pb : ℕ) (prev_a prev_b : NodeId) (a b : Node) (r : Rga)
    → IsFree pa r
    → IsFree pb r
    → same_id a.id b.id ≡ false
    → (left : ℕ) × (r.index prev_a ≡ some left)
    → (right : ℕ) × (r.index prev_b ≡ some right)
    → (remote_insert pa prev_a a r >>= remote_insert pb prev_b b)
      ≡ (remote_insert pb prev_b b r >>= remote_insert pa prev_a a)
insert_insert pa pb prev_a prev_b a b r free_a free_b n (left, ka) (right, kb) =
    elim (Option-cases (r.index a.id)) [
      | inr (c, old) ↦ known_insert pa pb prev_a prev_b a b r old
      | inl new_a ↦ elim (Option-cases (r.index b.id)) [
        | inr (c, old) ↦ sym (known_insert pb pa prev_b prev_a b a r old)
        | inl new_b ↦
            b_then_a pb pa prev_b prev_a b a r (same_id_sym a.id b.id n) free_b free_a new_b new_a
              kb ka
            ∙ swapped pa pb prev_a prev_b a b r n free_a free_b new_a new_b ka kb
            ∙ sym (b_then_a pa pb prev_a prev_b a b r n free_a free_b new_a new_b ka kb)
      ]
    ]

-- A deletion of an id that is known, before or after an insertion.
insert_delete :
    (pa : ℕ) (prev_a : NodeId) (a : Node) (x : NodeId) (r : Rga)
    → IsFree pa r
    → (left : ℕ) × (r.index prev_a ≡ some left)
    → (d : ℕ) × (r.index x ≡ some d)
    → (remote_insert pa prev_a a r >>= λ s. some (delete x s))
      ≡ (some (delete x r) >>= remote_insert pa prev_a a)
unfolding remote_insert insert_after delete
insert_delete pa prev_a a x r free (left, ka) (d, kx) = ground (
  arith,
  bury-splice (record { address = pa; node = a }) left d r.cells (λ e. free.unused x (rw e kx)),
  same_id→eq a.id x,
)

delete_delete :
    (x y : NodeId) (r : Rga)
    → ◌≡◌ {A = Option Rga} (some (delete y (delete x r))) (some (delete x (delete y r)))
unfolding delete
delete_delete x y r = elim (Option-cases (r.index x)) [
  | inl unknown_x ↦ ground arith
  | inr (d, kx) ↦ elim (Option-cases (r.index y)) [
    | inl unknown_y ↦ ground arith
    | inr (e, ky) ↦ ground (arith, bury_comm d e r.cells)
  ]
]

-- What an op needs to be there before it: an insertion its predecessor, a deletion its element.
abbrev pub NeedsKnown : Action → NodeId → Node → Rga → Type 0
NeedsKnown op_insert prev n r = (left : ℕ) × (r.index prev ≡ some left)
NeedsKnown op_delete prev n r = (d : ℕ) × (r.index n.id ≡ some d)
NeedsKnown unknown prev n r = Unit

abbrev pub IsEnabled : Op → Rga → Type 0
IsEnabled o r = NeedsKnown o.action o.prev_id o.node r

-- Two insertions have different ids.
abbrev IdsDiffer : Action → Action → NodeId → NodeId → Type 0
IdsDiffer op_insert op_insert a b = same_id a b ≡ false
IdsDiffer op_insert op_delete a b = Unit
IdsDiffer op_insert unknown a b = Unit
IdsDiffer op_delete _ a b = Unit
IdsDiffer unknown _ a b = Unit

abbrev pub Unrelated : Op → Op → Type 0
Unrelated o o' = IdsDiffer o.action o'.action o.node.id o'.node.id

bind_some : (o : Option Rga) → (o >>= λ s. some s) ≡ o
bind_some none = refl
bind_some (some s) = refl

apply_comm :
    (pa pb : ℕ) (c c' : Action) (prev prev' : NodeId) (n n' : Node) (r : Rga)
    → IsFree pa r
    → IsFree pb r
    → IdsDiffer c c' n.id n'.id
    → NeedsKnown c prev n r
    → NeedsKnown c' prev' n' r
    → let o : Op = record { action = c; prev_id = prev; node = n } in
      let o' : Op = record { action = c'; prev_id = prev'; node = n' } in
      (apply_remote pa o r >>= apply_remote pb o') ≡ (apply_remote pb o' r >>= apply_remote pa o)
unfolding apply_remote
apply_comm pa pb op_insert op_insert prev prev' n n' r f f' d k k' =
    insert_insert pa pb prev prev' n n' r f f' d k k'
apply_comm pa pb op_insert op_delete prev prev' n n' r f f' d k k' =
    insert_delete pa prev n n'.id r f k k'
apply_comm pa pb op_insert unknown prev prev' n n' r f f' d k k' =
    bind_some (remote_insert pa prev n r)
apply_comm pa pb op_delete op_insert prev prev' n n' r f f' d k k' =
    sym (insert_delete pb prev' n' n.id r f' k' k)
apply_comm pa pb op_delete op_delete prev prev' n n' r f f' d k k' = delete_delete n.id n'.id r
apply_comm pa pb op_delete unknown prev prev' n n' r f f' d k k' = refl
apply_comm pa pb unknown op_insert prev prev' n n' r f f' d k k' =
    sym (bind_some (remote_insert pb prev' n' r))
apply_comm pa pb unknown op_delete prev prev' n n' r f f' d k k' = refl
apply_comm pa pb unknown unknown prev prev' n n' r f f' d k k' = refl

-- Two ops that are both applicable (the predecessor of an insertion and the target of a deletion are
-- known) and do not insert the same id give the same replica in either order, whatever free addresses
-- their elements get and however their ids compare.
pub apply_remote_comm :
    (pa pb : ℕ) (o o' : Op) (r : Rga)
    → IsFree pa r
    → IsFree pb r
    → Unrelated o o'
    → IsEnabled o r
    → IsEnabled o' r
    → (apply_remote pa o r >>= apply_remote pb o') ≡ (apply_remote pb o' r >>= apply_remote pa o)
apply_remote_comm pa pb o o' r f f' d k k' =
    apply_comm pa pb o.action o'.action o.prev_id o'.prev_id o.node o'.node r f f' d k k'
