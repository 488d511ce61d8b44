-- ===== src/Crdt/Op.antt =====
-- conflict-free-replicated-datatypes/crdt/op.go: the ops that peers exchange, and their wire format.
use Prim.Native.Nat.{compare}
pub mod RoundTrip
pub mod Parsed
pub mod Canonical
use golang_toys.Base.{
  ℕ, zero, suc, ◌+◌, ◌*◌, ◌-◌, ◌%◌, ◌/◌, ◌^◌, ◌≡◌, Bool, true, false, List, [], ◌∷◌, ◌++◌,
  if◌then◌else◌, ltb, leb, ◌==◌, length, drop, take,
}
use golang_toys.Base.Bytes.{Bytes, put_u32, put_u64, u32_of}
use golang_toys.Base.Int.{ℤ, pos, to_u64, of_u64, to_u32, of_u32}
use golang_toys.Crdt.Node.{NodeId, Node, zero_id}

-- The action is a string in Go: any other than the two is unknown.
pub data Action : Type 0 where
  op_insert op_delete unknown : Action

pub record Op : Type 0 where
  pub action : Action
  pub prev_id : NodeId
  pub node : Node

pub data Error : Type 0 where
  malformed_op client_id_too_long unknown_action : Error

pub data Result {ℓ} (A : Type ℓ) : Type ℓ where
  err : Error → Result A
  ok : A → Result A

infixl 5 ◌>>=◌
abbrev pub ◌>>=◌ {ℓ κ} : {A : Type ℓ} {B : Type κ} → Result A → (A → Result B) → Result B
err failure >>= next = err failure
ok value >>= next = next value

-- After a check that passes.
infixl 5 ◌>>◌
abbrev pub ◌>>◌ {ℓ} : {B : Type ℓ} → Result (Unit {0}) → Result B → Result B
err failure >> result = err failure
ok _ >> result = result

abbrev pub tag_insert : ℕ
tag_insert = 0x01

abbrev pub tag_delete : ℕ
tag_delete = 0x02

unfoldable pub check_client_id : Bytes → Result (Unit {0})
check_client_id s = if ltb 255 (length s) then err client_id_too_long else ok tt

-- `appendNodeID` onto the buffer: the timestamp, the name's length as a byte, the name.
unfoldable pub append_node_id : Bytes → NodeId → Bytes
unfolding put_u64
append_node_id buf id =
    buf ++ (put_u64 (to_u64 id.timestamp) ++ (length id.client_id % 256 ∷ id.client_id))

unfoldable pub marshal : Op → Result Bytes
unfolding check_client_id append_node_id put_u32
marshal o = elim o.action [
  | op_insert ↦ do
    check_client_id o.prev_id.client_id
    check_client_id o.node.id.client_id
    ok (
        append_node_id (append_node_id (tag_insert ∷ []) o.prev_id) o.node.id
        ++ put_u32 (to_u32 o.node.char))
  | op_delete ↦ do
    check_client_id o.node.id.client_id
    ok (append_node_id (tag_delete ∷ []) o.node.id)
  | unknown ↦ err unknown_action
]

-- The id and the number of bytes that it takes. Nine bytes are the least.
unfoldable pub read_node_id : Bytes → Result (NodeId × ℕ)
read_node_id (a ∷ b ∷ c ∷ d ∷ e ∷ f ∷ g ∷ h ∷ clen ∷ rest) =
    if ltb (length rest) clen
    then err malformed_op
    else ok (
      record {
        timestamp = of_u64 (u32_of a b c d * 2 ^ 32 + u32_of e f g h);
        client_id = take clen rest;
      },
      9 + clen,
    )
read_node_id _ = err malformed_op

-- The last four bytes of an insertion.
unfoldable pub read_char : Bytes → Result ℤ
read_char (a ∷ b ∷ c ∷ d ∷ []) = ok (of_u32 (u32_of a b c d))
read_char _ = err malformed_op

unfoldable pub unmarshal_insert : Bytes → Result Op
unfolding read_node_id read_char
unmarshal_insert rest = do
  (prev, n) ← read_node_id rest
  (id, m) ← read_node_id (drop n rest)
  char ← read_char (drop m (drop n rest))
  ok (record {
    action = op_insert;
    prev_id = prev;
    node = record { id = id; char = char; tombstone = false };
  })

unfoldable pub unmarshal_delete : Bytes → Result Op
unfolding read_node_id
unmarshal_delete rest = do
  (id, n) ← read_node_id rest
  (if n == length rest
      then ok (record {
        action = op_delete;
        prev_id = zero_id;
        node = record { id = id; char = pos 0; tombstone = false };
      })
      else err malformed_op)

unfoldable pub unmarshal : Bytes → Result Op
unfolding unmarshal_insert unmarshal_delete
unmarshal [] = err malformed_op
unmarshal (tag ∷ rest) =
    if tag == tag_insert
    then unmarshal_insert rest
    else if tag == tag_delete
    then unmarshal_delete rest
    else err malformed_op
