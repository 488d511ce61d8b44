-- ===== src/Crdt/Rga/Laws.antt =====
-- Redelivered ops, the ids that are minted, and where an element is linked.
use Prim.Native.Nat.Ordering.{lt, gt}
use golang_toys.Base.{
  ℕ, zero, suc, ◌^◌, ◌≡◌, ◌≢◌, refl, ap, inl, inr, true, false, some, List, [], ◌∷◌, ◌++◌, arith,
  Bool-cases, Option-cases, All,
}
use golang_toys.Base.Order.{is_lt, is_lt→lt}
use golang_toys.Base.Bytes.{Bytes}
use golang_toys.Base.Int.{
  ℤ, pos, negsuc, compare_ℤ, InRange, succ_ℤ, succ_int64-succ_ℤ, compare_ℤ-IsOrder,
}
use golang_toys.Crdt.Node.{NodeId, Node, less, same_id_refl}
use golang_toys.Crdt.Op.{Op, Action, op_insert, op_delete, unknown}
use golang_toys.Crdt.Rga.{
  Cell, Rga, update, skip, splice, insert_after, remote_insert, mint, insert, bury, delete,
  apply_remote, ◌>>=◌,
}

bury_twice : (a : ℕ) (cs : List Cell) → bury a (bury a cs) ≡ bury a cs
unfolding bury
bury_twice a [] = refl
bury_twice a (c ∷ cs) = ground (arith, bury_twice a cs)

delete_twice : (id : NodeId) (r : Rga) → delete id (delete id r) ≡ delete id r
unfolding delete
delete_twice id r = elim (Option-cases (r.index id)) [
  | inl missing ↦ ground arith
  | inr (a, known) ↦ ground (arith, bury_twice a r.cells)
]

insert_twice :
    (pa pb : ℕ) (prev : NodeId) (n : Node) (r : Rga)
    → (remote_insert pa prev n r >>= remote_insert pb prev n) ≡ remote_insert pa prev n r
unfolding remote_insert insert_after
insert_twice pa pb prev n r = ground (arith, same_id_refl n.id)

apply_twice :
    (pa pb : ℕ) (c : Action) (prev : NodeId) (n : Node) (r : Rga)
    → let o : Op = record { action = c; prev_id = prev; node = n } in
      (apply_remote pa o r >>= apply_remote pb o) ≡ apply_remote pa o r
unfolding apply_remote
apply_twice pa pb op_insert prev n r = insert_twice pa pb prev n r
apply_twice pa pb op_delete prev n r = ap some (delete_twice n.id r)
apply_twice pa pb unknown prev n r = refl

-- An op that is delivered twice in a row has the effect of one delivery, a panic included.
pub apply_remote_twice :
    (pa pb : ℕ) (o : Op) (r : Rga)
    → (apply_remote pa o r >>= apply_remote pb o) ≡ apply_remote pa o r
apply_remote_twice pa pb o r = apply_twice pa pb o.action o.prev_id o.node r

compare_succ : (a : ℤ) → compare_ℤ a (succ_ℤ a) ≡ lt
unfolding compare_ℤ succ_ℤ
compare_succ (pos n) = ground arith
compare_succ (negsuc zero) = refl
compare_succ (negsuc (suc n)) = ground arith

-- What is not ahead of `last` is not ahead of `last + 1`.
before_succ : (now last : ℤ) → is_lt (compare_ℤ last now) ≡ false → compare_ℤ now (succ_ℤ last) ≢ gt
before_succ now last h e = ground (
  arith,
  compare_succ last,
  compare_ℤ-IsOrder.flip_gt now (succ_ℤ last),
  compare_ℤ-IsOrder.trans last (succ_ℤ last) now,
)

-- A minted timestamp is greater than the last one, and never behind the clock.
mint_later :
    (now last : ℤ)
    → InRange (2 ^ 63) (succ_ℤ last)
    → (compare_ℤ last (mint now last) ≡ lt) × (compare_ℤ now (mint now last) ≢ gt)
unfolding mint
mint_later now last fits = elim (Bool-cases (is_lt (compare_ℤ last now))) [
  | inl ahead ↦ rw (ahead, mint) (is_lt→lt (compare_ℤ last now) ahead, not_gt_self now)
  | inr behind ↦
      rw (behind, mint, succ_int64-succ_ℤ last fits)
        (compare_succ last, before_succ now last behind)
]
  where
    not_gt_self : (a : ℤ) → compare_ℤ a a ≢ gt
    not_gt_self a e = cc (compare_ℤ-IsOrder.self a)

-- The state after a local insertion behind the element at `left`.
abbrev typed : ℤ → ℕ → ℕ → ℤ → Bytes → Rga → Rga
typed now address left char client r =
    let id : NodeId = record { timestamp = mint now r.last_issued; client_id = client } in
    record {
      cells =
          splice
            (record {
              address = address;
              node = record { id = id; char = char; tombstone = false };
            })
            left r.cells;
      index = update id address r.index;
      last_issued = mint now r.last_issued;
    }

insert_lem :
    (now : ℤ) (address : ℕ) (prev : NodeId) (char : ℤ) (client : Bytes) (r : Rga) {left : ℕ}
    → r.index prev ≡ some left
    → insert now address prev char client r
      ≡ some (
        typed now address left char client r,
        record { timestamp = mint now r.last_issued; client_id = client },
      )
unfolding insert insert_after
insert_lem now address prev char client r k = ground arith

-- `Insert` behind a known element, while the last timestamp issued is an int64 below the greatest one,
-- succeeds; it mints an id of the client whose timestamp is greater than the last that was issued and
-- not behind the clock, records it as the last, and makes the new element known under that id.
pub insert_mints :
    (now : ℤ) (address : ℕ) (prev : NodeId) (char : ℤ) (client : Bytes) (r : Rga) {left : ℕ}
    → r.index prev ≡ some left
    → InRange (2 ^ 63) (succ_ℤ r.last_issued)
    → (r' : Rga) × (id : NodeId) × (insert now address prev char client r ≡ some (r', id))
      × (compare_ℤ r.last_issued id.timestamp ≡ lt)
      × (compare_ℤ now id.timestamp ≢ gt)
      × (r'.last_issued ≡ id.timestamp)
      × (id.client_id ≡ client)
      × (r'.index id ≡ some address)
insert_mints now address prev char client r {left} k fits = (
  typed now address left char client r,
  record { timestamp = mint now r.last_issued; client_id = client },
  insert_lem now address prev char client r k,
  (mint_later now r.last_issued fits).0,
  (mint_later now r.last_issued fits).1,
  refl,
  refl,
  rw (same_id_refl (record { timestamp = mint now r.last_issued; client_id = client })),
)

-- Among the elements behind its predecessor the new one is linked behind elements that all have greater
-- ids; the others keep their order.
pub skip_places :
    (e : Cell) (cs : List Cell)
    → (front : List Cell) × (back : List Cell) × (cs ≡ front ++ back)
      × (skip e cs ≡ front ++ (e ∷ back))
      × All (λ c. less e.node.id c.node.id ≡ true) front
unfolding skip
skip_places e [] = ([], [], refl, refl, tt)
skip_places e (c ∷ cs) = elim (Bool-cases (less e.node.id c.node.id)) [
  | inl above ↦
      let (front, back, whole, linked, all) = skip_places e cs in
      (c ∷ front, back, ap (λ l. c ∷ l) whole, rw (above, linked), (above, all))
  | inr stop ↦ ([], c ∷ cs, refl, rw stop, tt)
]
