-- ===== src/Crdt/Rga/Renaming.antt =====
-- Each replica allocates its elements elsewhere: the addresses do not matter to the text.
use mathlib.Core.Path.{fun_ext}
use mathlib.Core.List.{Perm as Permuted}
use golang_toys.Base.{
  ℕ, ◌<◌, ◌≡◌, refl, ap, sym, ◌∙◌, inl, inr, Option, none, some, List, [], ◌∷◌, ◌==◌, arith,
  Option-cases, Bool-cases, All, map, if◌then◌else◌,
}
use golang_toys.Base.Int.{pos}
use golang_toys.Crdt.Node.{NodeId, Node, zero_id}
use golang_toys.Crdt.Op.{Op, Action, op_insert, op_delete, unknown}
use golang_toys.Crdt.Rga.{
  Cell, Rga, new_rga, update, skip, after, splice, insert_after, remote_insert, bury, delete,
  visible, visible_nodes, apply_remote, ◌>>=◌,
}
use golang_toys.Crdt.Rga.Converge.{IsFree}
use golang_toys.Crdt.Rga.Delivery.{
  Delivery, apply_each, InOrder, AllApart, AllFree, apply_each-perm, each_Applies,
}

-- Another allocation of the elements, which keeps the root at 0.
pub record IsRenaming (f : ℕ → ℕ) : Type 0 where
  pub root : f 0 ≡ 0
  pub injective : (a b : ℕ) → f a ≡ f b → a ≡ b

module _ (f : ℕ → ℕ) (m : IsRenaming f) where
  abbrev cell_at : Cell → Cell
  cell_at c = record c { address = f c.address }

  abbrev index_at : Option ℕ → Option ℕ
  index_at none = none
  index_at (some a) = some (f a)

  abbrev pub renamed : Rga → Rga
  renamed r = record r { cells = map cell_at r.cells; index = λ j. index_at (r.index j) }

  abbrev renamed_or : Option Rga → Option Rga
  renamed_or none = none
  renamed_or (some r) = some (renamed r)

  same_test : (a b : ℕ) → (f a == f b) ≡ (a == b)
  same_test a b = ground (arith, m.injective a b, ap f {x = a} {y = b})

  root_test : (a : ℕ) → (f a == 0) ≡ (a == 0)
  root_test a = ground (arith, m.injective a 0, m.root, ap f {x = a} {y = 0})

  skip_renamed :
      (x : Cell) (cs : List Cell) → skip (cell_at x) (map cell_at cs) ≡ map cell_at (skip x cs)
  unfolding skip
  skip_renamed x [] = refl
  skip_renamed x (c ∷ cs) = ground (arith, skip_renamed x cs)

  after_renamed :
      (x : Cell) (left : ℕ) (cs : List Cell)
      → after (cell_at x) (f left) (map cell_at cs) ≡ map cell_at (after x left cs)
  unfolding after
  after_renamed x left [] = refl
  after_renamed x left (c ∷ cs) =
      ground (arith, same_test c.address left, skip_renamed x cs, after_renamed x left cs)

  splice_renamed :
      (x : Cell) (left : ℕ) (cs : List Cell)
      → splice (cell_at x) (f left) (map cell_at cs) ≡ map cell_at (splice x left cs)
  unfolding splice
  splice_renamed x left cs =
      ground (arith, root_test left, skip_renamed x cs, after_renamed x left cs)

  bury_renamed : (a : ℕ) (cs : List Cell) → bury (f a) (map cell_at cs) ≡ map cell_at (bury a cs)
  unfolding bury
  bury_renamed a [] = refl
  bury_renamed a (c ∷ cs) = ground (arith, same_test c.address a, bury_renamed a cs)

  update_renamed :
      (id : NodeId) (a : ℕ) (index : NodeId → Option ℕ)
      → update id (f a) (λ j. index_at (index j)) ≡ (λ j. index_at (update id a index j))
  update_renamed id a index = fun_ext λ j. ground arith

  insert_renamed :
      (a : ℕ) (prev : NodeId) (n : Node) (r : Rga)
      → insert_after (f a) prev n (renamed r) ≡ renamed_or (insert_after a prev n r)
  unfolding insert_after
  insert_renamed a prev n r = elim (Option-cases (r.index prev)) [
    | inl e ↦ rw (insert_after, e) refl
    | inr e ↦
        rw (insert_after, e.1)
          (rw
            (
              splice_renamed (record { address = a; node = n }) e.0 r.cells,
              update_renamed n.id a r.index,
            )
            refl)
  ]

  remote_insert-renamed :
      (a : ℕ) (prev : NodeId) (n : Node) (r : Rga)
      → remote_insert (f a) prev n (renamed r) ≡ renamed_or (remote_insert a prev n r)
  unfolding remote_insert
  remote_insert-renamed a prev n r = elim (Option-cases (r.index n.id)) [
    | inl e ↦ rw (remote_insert, e) (insert_renamed a prev n r)
    | inr e ↦ rw (remote_insert, e.1) refl
  ]

  buried_renamed :
      (a : ℕ) (r : Rga)
      → (if f a == 0
          then renamed r
          else record (renamed r) { cells = bury (f a) (map cell_at r.cells) })
        ≡ renamed (if a == 0 then r else record r { cells = bury a r.cells })
  buried_renamed a r = elim (Bool-cases (a == 0)) [
    | inl z ↦ rw (root_test a, z) refl
    | inr z ↦ rw (root_test a, z, bury_renamed a r.cells) refl
  ]

  delete-renamed : (id : NodeId) (r : Rga) → delete id (renamed r) ≡ renamed (delete id r)
  unfolding delete
  delete-renamed id r = elim (Option-cases (r.index id)) [
    | inl e ↦ rw (delete, e) refl
    | inr e ↦ rw (delete, e.1) (buried_renamed (e.0) r)
  ]

  op_renamed :
      (a : ℕ) (c : Action) (prev : NodeId) (n : Node) (r : Rga)
      → let o : Op = record { action = c; prev_id = prev; node = n } in
        apply_remote (f a) o (renamed r) ≡ renamed_or (apply_remote a o r)
  unfolding apply_remote
  op_renamed a op_insert prev n r = remote_insert-renamed a prev n r
  op_renamed a op_delete prev n r = ap some (delete-renamed n.id r)
  op_renamed a unknown prev n r = refl

  -- The same ops, with the elements allocated elsewhere.
  abbrev pub moved : List Delivery → List Delivery
  moved [] = []
  moved (d ∷ ds) = record { address = f d.address; op = d.op } ∷ moved ds

  bind_renamed :
      (ds : List Delivery) (o : Option Rga)
      → ((r : Rga) → apply_each (moved ds) (renamed r) ≡ renamed_or (apply_each ds r))
      → (renamed_or o >>= apply_each (moved ds)) ≡ renamed_or (o >>= apply_each ds)
  bind_renamed ds none h = refl
  bind_renamed ds (some r) h = h r

  each_renamed :
      (ds : List Delivery) (r : Rga)
      → apply_each (moved ds) (renamed r) ≡ renamed_or (apply_each ds r)
  each_renamed [] r = refl
  each_renamed (d ∷ ds) r =
      ap (λ o. o >>= apply_each (moved ds))
        (op_renamed d.address d.op.action d.op.prev_id d.op.node r)
      ∙ bind_renamed ds (apply_remote d.address d.op r) (each_renamed ds)

  visible_renamed : (cs : List Cell) → visible (map cell_at cs) ≡ visible cs
  unfolding visible
  visible_renamed [] = refl
  visible_renamed (c ∷ cs) = ground (arith, visible_renamed cs)

  new_renamed : renamed new_rga ≡ new_rga
  unfolding new_rga
  new_renamed =
      ap (λ i. record { cells = []; index = i; last_issued = pos 0 })
        (sym (update_renamed zero_id 0 (λ _. none)) ∙ ap (λ a. update zero_id a (λ _. none)) m.root)

IsFree-new_rga : (a : ℕ) → 0 < a → IsFree a new_rga
unfolding new_rga
IsFree-new_rga a h = record { positive = h; unused = λ id. ground arith }

AllFree-new_rga : (ds : List Delivery) → All (λ d. 0 < d.address) ds → AllFree ds new_rga
AllFree-new_rga [] h = tt
AllFree-new_rga (d ∷ ds) h = (IsFree-new_rga d.address h.0, AllFree-new_rga ds h.1)

-- Two replicas receive the same ops, each in an order in which every insertion comes after its predecessor and
-- every deletion after its element, no two of them insertions of one id. Wherever each allocates its elements,
-- neither panics, and in the end both show the same text.
pub replicas_converge :
    (f : ℕ → ℕ) (m : IsRenaming f) (xs ys : List Delivery)
    → Permuted xs ys
    → AllApart ys
    → All (λ d. 0 < d.address) ys
    → InOrder xs new_rga
    → InOrder ys new_rga
    → (r : Rga) × (r' : Rga) × (apply_each xs new_rga ≡ some r)
      × (apply_each (moved f m ys) new_rga ≡ some r')
      × (visible_nodes r ≡ visible_nodes r')
unfolding visible_nodes
replicas_converge f m xs ys p apart free h k =
    let last = each_Applies xs new_rga h in
    (
      last.0,
      renamed f m last.0,
      last.1,
      ap (apply_each (moved f m ys)) (sym (new_renamed f m))
          ∙ each_renamed f m ys new_rga
          ∙ ap (renamed_or f m)
              (sym (apply_each-perm xs ys new_rga p apart (AllFree-new_rga ys free) h k) ∙ last.1),
      sym (visible_renamed f m last.0.cells),
    )
