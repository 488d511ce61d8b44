-- ===== src/Crdt/Node.antt =====
-- conflict-free-replicated-datatypes/crdt/rga.go: `NodeID`, its order, and `Node`.
use golang_toys.Base.{◌≡◌, Bool, true, false, arith, [], if◌then◌else◌, not}
use golang_toys.Base.Order.{or_else, is_lt, is_eq}
use golang_toys.Base.Bytes.{Bytes, compare_bytes, compare_bytes-IsOrder}
use golang_toys.Base.Int.{ℤ, pos, compare_ℤ, compare_ℤ-IsOrder}

pub record NodeId : Type 0 where
  pub timestamp : ℤ
  pub client_id : Bytes

pub record Node : Type 0 where
  pub id : NodeId
  pub char : ℤ
  pub tombstone : Bool

-- `NodeID{}`
abbrev pub zero_id : NodeId
zero_id = record { timestamp = pos 0; client_id = [] }

-- `less`: the smaller timestamp first, ties by the client's name.
unfoldable pub less : NodeId → NodeId → Bool
less a b =
    if not (is_eq (compare_ℤ a.timestamp b.timestamp))
    then is_lt (compare_ℤ a.timestamp b.timestamp)
    else is_lt (compare_bytes a.client_id b.client_id)

-- Go's `a == b` on NodeID.
unfoldable pub same_id : NodeId → NodeId → Bool
same_id a b =
    is_eq (or_else (compare_ℤ a.timestamp b.timestamp) (compare_bytes a.client_id b.client_id))

pub same_id_refl : (a : NodeId) → same_id a a ≡ true
unfolding same_id
same_id_refl a =
    ground (arith, compare_ℤ-IsOrder.self a.timestamp, compare_bytes-IsOrder.self a.client_id)

pub same_id→eq : (a b : NodeId) → same_id a b ≡ true → a ≡ b
unfolding same_id
same_id→eq a b h = ground (
  arith,
  compare_ℤ-IsOrder.same a.timestamp b.timestamp,
  compare_bytes-IsOrder.same a.client_id b.client_id,
)

-- Of two different ids exactly one is less.
pub less_total : (a b : NodeId) → same_id a b ≡ false → less a b ≡ not (less b a)
unfolding less same_id
less_total a b h = ground (
  arith,
  compare_ℤ-IsOrder.flip_lt a.timestamp b.timestamp,
  compare_ℤ-IsOrder.flip_gt a.timestamp b.timestamp,
  compare_ℤ-IsOrder.same a.timestamp b.timestamp,
  compare_ℤ-IsOrder.self a.timestamp,
  compare_bytes-IsOrder.flip_lt a.client_id b.client_id,
  compare_bytes-IsOrder.flip_gt a.client_id b.client_id,
)

pub less_irrefl : (a : NodeId) → less a a ≡ false
unfolding less
less_irrefl a =
    ground (arith, compare_ℤ-IsOrder.self a.timestamp, compare_bytes-IsOrder.self a.client_id)

pub less_trans : (a b c : NodeId) → less a b ≡ true → less b c ≡ true → less a c ≡ true
unfolding less
less_trans a b c h k = ground (
  arith,
  compare_ℤ-IsOrder.trans a.timestamp b.timestamp c.timestamp,
  compare_ℤ-IsOrder.same a.timestamp b.timestamp,
  compare_ℤ-IsOrder.same b.timestamp c.timestamp,
  compare_ℤ-IsOrder.self a.timestamp,
  compare_ℤ-IsOrder.self b.timestamp,
  compare_bytes-IsOrder.trans a.client_id b.client_id c.client_id,
)

pub same_id_sym : (a b : NodeId) → same_id a b ≡ false → same_id b a ≡ false
same_id_sym a b h = ground (arith, same_id→eq b a, same_id_refl a)
