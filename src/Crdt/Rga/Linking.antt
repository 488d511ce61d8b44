-- ===== src/Crdt/Rga/Linking.antt =====
-- Linking and marking the elements of the list, in either order.
use golang_toys.Base.{ℕ, ◌≡◌, ◌≢◌, refl, false, List, [], ◌∷◌, arith}
use golang_toys.Crdt.Node.{same_id, less_total, less_trans, same_id_sym}
use golang_toys.Crdt.Rga.{Cell, skip, after, splice, bury}

skip_comm :
    (a b : Cell) (cs : List Cell)
    → same_id a.node.id b.node.id ≡ false
    → skip a (skip b cs) ≡ skip b (skip a cs)
unfolding skip
skip_comm a b [] n = ground (arith, less_total a.node.id b.node.id)
skip_comm a b (c ∷ cs) n = ground (
  arith,
  less_total a.node.id b.node.id,
  less_trans a.node.id b.node.id c.node.id,
  less_trans b.node.id a.node.id c.node.id,
  skip_comm a b cs n,
)

after-skip :
    (a b : Cell) (left : ℕ) (cs : List Cell)
    → same_id a.node.id b.node.id ≡ false
    → b.address ≢ left
    → after a left (skip b cs) ≡ skip b (after a left cs)
unfolding skip after
after-skip a b left [] n d = ground arith
after-skip a b left (c ∷ cs) n d = ground (arith, skip_comm a b cs n, after-skip a b left cs n d)

after-after :
    (a b : Cell) (left right : ℕ) (cs : List Cell)
    → same_id a.node.id b.node.id ≡ false
    → b.address ≢ left
    → a.address ≢ right
    → after a left (after b right cs) ≡ after b right (after a left cs)
unfolding after
after-after a b left right [] n d e = refl
after-after a b left right (c ∷ cs) n d e = ground (
  arith,
  skip_comm a b cs n,
  after-skip a b left cs n d,
  after-skip b a right cs (same_id_sym a.node.id b.node.id n) e,
  after-after a b left right cs n d e,
)

-- Two elements with different ids are linked in either order, each behind its own predecessor.
pub splice_comm :
    (a b : Cell) (left right : ℕ) (cs : List Cell)
    → same_id a.node.id b.node.id ≡ false
    → b.address ≢ left
    → a.address ≢ right
    → splice a left (splice b right cs) ≡ splice b right (splice a left cs)
unfolding splice
splice_comm a b left right cs n d e = ground (
  arith,
  skip_comm a b cs n,
  after-skip a b left cs n d,
  after-skip b a right cs (same_id_sym a.node.id b.node.id n) e,
  after-after a b left right cs n d e,
)

-- Marking leaves ids and addresses alone.
bury-skip :
    (e : Cell) (address : ℕ) (cs : List Cell)
    → e.address ≢ address
    → bury address (skip e cs) ≡ skip e (bury address cs)
unfolding bury skip
bury-skip e address [] d = ground arith
bury-skip e address (c ∷ cs) d = ground (arith, bury-skip e address cs d)

bury-after :
    (e : Cell) (left address : ℕ) (cs : List Cell)
    → e.address ≢ address
    → bury address (after e left cs) ≡ after e left (bury address cs)
unfolding bury after
bury-after e left address [] d = refl
bury-after e left address (c ∷ cs) d =
    ground (arith, bury-skip e address cs d, bury-after e left address cs d)

pub bury-splice :
    (e : Cell) (left address : ℕ) (cs : List Cell)
    → e.address ≢ address
    → bury address (splice e left cs) ≡ splice e left (bury address cs)
unfolding splice
bury-splice e left address cs d =
    ground (arith, bury-skip e address cs d, bury-after e left address cs d)

pub bury_comm : (a b : ℕ) (cs : List Cell) → bury a (bury b cs) ≡ bury b (bury a cs)
unfolding bury
bury_comm a b [] = refl
bury_comm a b (c ∷ cs) = ground (arith, bury_comm a b cs)
