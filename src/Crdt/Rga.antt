-- ===== src/Crdt/Rga.antt =====
-- conflict-free-replicated-datatypes/crdt/rga.go: the replicated sequence. The elements behind the root
-- stand in a list, in the order of their `next` links; `prev` links are never read. An element is known
-- by its address, which the caller of a model function supplies where Go allocates; the root has 0.
-- Also ui/ui.go, `applyRemote`.
pub mod Linking
pub mod Converge
pub mod Laws
pub mod Grown
pub mod Effects
pub mod Delivery
pub mod Renaming
use Prim.Native.Nat.{Ordering}
use golang_toys.Base.{
  ℕ, zero, suc, Bool, true, false, Option, none, some, List, [], ◌∷◌, if◌then◌else◌, ◌==◌,
}
use golang_toys.Base.Order.{is_lt}
use golang_toys.Base.Bytes.{Bytes}
use golang_toys.Base.Int.{ℤ, pos, succ_int64, compare_ℤ}
use golang_toys.Crdt.Node.{NodeId, Node, zero_id, less, same_id}
use golang_toys.Crdt.Op.{Op, Action, op_insert, op_delete, unknown}

-- `element`
pub record Cell : Type 0 where
  pub address : ℕ
  pub node : Node

pub record Rga : Type 0 where
  pub cells : List Cell
  pub index : NodeId → Option ℕ
  pub last_issued : ℤ

infixl 5 ◌>>=◌
abbrev pub ◌>>=◌ {ℓ κ} : {A : Type ℓ} {B : Type κ} → Option A → (A → Option B) → Option B
none >>= f = none
some a >>= f = f a

-- `index[id] = address`
abbrev pub update : NodeId → ℕ → (NodeId → Option ℕ) → NodeId → Option ℕ
update id address index j = if same_id id j then some address else index j

unfoldable pub new_rga : Rga
unfolding same_id
new_rga = record { cells = []; index = update zero_id 0 (λ _. none); last_issued = pos 0 }

-- The walk past the elements with greater ids, and the link.
unfoldable pub skip : Cell → List Cell → List Cell
unfolding less
skip e [] = e ∷ []
skip e (c ∷ cs) = if less e.node.id c.node.id then c ∷ skip e cs else e ∷ c ∷ cs

-- The walk starts behind the element at `left`.
unfoldable pub after : Cell → ℕ → List Cell → List Cell
unfolding skip
after e left [] = []
after e left (c ∷ cs) = if c.address == left then c ∷ skip e cs else c ∷ after e left cs

unfoldable pub splice : Cell → ℕ → List Cell → List Cell
unfolding after
splice e left cells = if left == 0 then skip e cells else after e left cells

-- `none` is the panic on an unknown previous id.
unfoldable pub insert_after : ℕ → NodeId → Node → Rga → Option Rga
unfolding splice
insert_after address prev node r = elim (r.index prev) [
  | none ↦ none
  | some left ↦ some (record r {
    cells = splice (record { address = address; node = node }) left r.cells;
    index = update node.id address r.index;
  })
]

unfoldable pub remote_insert : ℕ → NodeId → Node → Rga → Option Rga
unfolding insert_after
remote_insert address prev node r = elim (r.index node.id) [
  | some _ ↦ some r
  | none ↦ insert_after address prev node r
]

-- The timestamp of a local insertion: the clock, or one more than the last that was issued.
unfoldable pub mint : ℤ → ℤ → ℤ
unfolding compare_ℤ succ_int64
mint now last = if is_lt (compare_ℤ last now) then now else succ_int64 last

-- `Insert` at the clock time `now`. A panic keeps nothing.
unfoldable pub insert : ℤ → ℕ → NodeId → ℤ → Bytes → Rga → Option (Rga × NodeId)
unfolding mint insert_after
insert now address prev char client r =
    let ts = mint now r.last_issued in
    let id : NodeId = record { timestamp = ts; client_id = client } in
    elim (insert_after address prev (record { id = id; char = char; tombstone = false })
      (record r { last_issued = ts })) [ none ↦ none | some r' ↦ some (r', id) ]

-- The element at the address is marked.
unfoldable pub bury : ℕ → List Cell → List Cell
bury address [] = []
bury address (c ∷ cs) =
    (if c.address == address then record c { node = record (c.node) { tombstone = true } } else c)
    ∷ bury address cs

unfoldable pub delete : NodeId → Rga → Rga
unfolding bury
delete id r = elim (r.index id) [
  | none ↦ r
  | some address ↦ if address == 0 then r else record r { cells = bury address r.cells }
]

unfoldable pub visible : List Cell → List Node
visible [] = []
visible (c ∷ cs) = if c.node.tombstone then visible cs else c.node ∷ visible cs

unfoldable pub visible_nodes : Rga → List Node
unfolding visible
visible_nodes r = visible r.cells

unfoldable pub chars : List Cell → List ℤ
chars [] = []
chars (c ∷ cs) = if c.node.tombstone then chars cs else c.node.char ∷ chars cs

unfoldable pub values : Rga → List ℤ
unfolding chars
values r = chars r.cells

-- `applyRemote`: an op that a peer sent.
unfoldable pub apply_remote : ℕ → Op → Rga → Option Rga
unfolding remote_insert delete
apply_remote address op r = elim op.action [
  | op_insert ↦ remote_insert address op.prev_id op.node r
  | op_delete ↦ some (delete op.node.id r)
  | unknown ↦ some r
]
