-- ===== src/Crdt/Op/RoundTrip.antt =====
-- Encoding and decoding an op.
use golang_toys.Base.{
  ℕ, ◌+◌, ◌*◌, ◌%◌, ◌/◌, ◌^◌, ◌<◌, ◌≤◌, ◌≡◌, refl, sym, ◌∙◌, false, [], ◌∷◌, ◌++◌, if◌then◌else◌,
  ltb, ◌==◌, length, drop, arith, append_assoc, append-nil, length-append, take-append_self,
  drop-append_self,
}
use golang_toys.Base.Bytes.{Bytes, put_u32, put_u64, u32_of, u32_of_parts}
use golang_toys.Base.Int.{
  ℤ, pos, to_u64, to_u32, InRange, of_u64-to_u64, to_u64-lt, of_u32-to_u32, to_u32-lt,
}
use golang_toys.Crdt.Node.{NodeId, Node, zero_id}
use golang_toys.Crdt.Op.{
  Action, op_insert, op_delete, unknown, Op, malformed_op, ok, err, check_client_id, append_node_id,
  marshal, read_node_id, read_char, unmarshal_insert, unmarshal_delete, unmarshal, tag_insert,
  tag_delete, ◌>>=◌,
}

-- An id whose timestamp is an int64 and whose name's length fits a byte.
pub record IdFits (id : NodeId) : Type 0 where
  pub timestamp : InRange (2 ^ 63) id.timestamp
  pub client_id : length id.client_id ≤ 255

-- The bytes of an id.
abbrev pub encoding : NodeId → Bytes
encoding id = put_u64 (to_u64 id.timestamp) ++ (length id.client_id % 256 ∷ id.client_id)

u64_halves : (w : ℕ) → w < 2 ^ 64 → (w / 2 ^ 32) * 2 ^ 32 + w % 2 ^ 32 ≡ w
u64_halves w h = omega arith

u64_parts :
    (w : ℕ)
    → w < 2 ^ 64
    → u32_of
            (w / 2 ^ 32 / 2 ^ 24 % 256)
            (w / 2 ^ 32 / 2 ^ 16 % 256)
            (w / 2 ^ 32 / 2 ^ 8 % 256)
            (w / 2 ^ 32 % 256)
          * 2 ^ 32
        + u32_of (w / 2 ^ 24 % 256) (w / 2 ^ 16 % 256) (w / 2 ^ 8 % 256) (w % 256)
      ≡ w
u64_parts w h = omega (arith, u32_of_parts (w / 2 ^ 32) (omega arith))

pub byte_length : (n : ℕ) → n ≤ 255 → n % 256 ≡ n
byte_length n h = omega arith

short_enough : (n : ℕ) → n ≤ 255 → ltb 255 n ≡ false
short_enough n h = ground arith

pub read_encoding :
    (id : NodeId) (rest : Bytes)
    → IdFits id
    → read_node_id (encoding id ++ rest) ≡ ok (id, 9 + length id.client_id)
unfolding read_node_id put_u64
read_encoding id rest f =
    rw
      (
        byte_length (length id.client_id) f.client_id,
        u64_parts (to_u64 id.timestamp) (to_u64-lt id.timestamp),
        of_u64-to_u64 id.timestamp f.timestamp,
        take-append_self id.client_id rest,
      )
      (ground (arith, length-append id.client_id rest))

pub length-encoding : (id : NodeId) → length (encoding id) ≡ 9 + length id.client_id
unfolding put_u64
length-encoding id = omega arith

pub drop-encoding :
    (id : NodeId) (rest : Bytes) → drop (9 + length id.client_id) (encoding id ++ rest) ≡ rest
drop-encoding id rest = rw (← length-encoding id) (drop-append_self (encoding id) rest)

-- The op with the fields that the format carries: a deletion has no previous id and no character, and
-- no op has a tombstone.
unfoldable pub carried : Op → Op
carried o = elim o.action [
  | op_insert ↦ record o { node = record { id = o.node.id; char = o.node.char; tombstone = false } }
  | op_delete ↦ record {
    action = op_delete;
    prev_id = zero_id;
    node = record { id = o.node.id; char = pos 0; tombstone = false };
  }
  | unknown ↦ o
]

abbrev pub inserted : NodeId → NodeId → ℤ → Op
inserted prev id char = record {
  action = op_insert;
  prev_id = prev;
  node = record { id = id; char = char; tombstone = false };
}

abbrev pub deleted : NodeId → Op
deleted id = record {
  action = op_delete;
  prev_id = zero_id;
  node = record { id = id; char = pos 0; tombstone = false };
}

-- Two ids, and then whatever follows.
pub unmarshal_insert-encoding :
    (prev id : NodeId) (rest : Bytes)
    → IdFits prev
    → IdFits id
    → unmarshal_insert (encoding prev ++ (encoding id ++ rest))
      ≡ (read_char rest >>= λ char. ok (inserted prev id char))
unfolding unmarshal_insert
unmarshal_insert-encoding prev id rest f g =
    rw
      (
        read_encoding prev (encoding id ++ rest) f,
        drop-encoding prev (encoding id ++ rest),
        read_encoding id rest g,
        drop-encoding id rest,
      )
      refl

pub marshal_insert :
    (prev : NodeId) (n : Node)
    → IdFits prev
    → IdFits n.id
    → marshal (record { action = op_insert; prev_id = prev; node = n })
      ≡ ok (tag_insert ∷ (encoding prev ++ (encoding n.id ++ put_u32 (to_u32 n.char))))
unfolding marshal check_client_id append_node_id
marshal_insert prev n f g =
    rw
      (
        short_enough (length prev.client_id) f.client_id,
        short_enough (length n.id.client_id) g.client_id,
        append_assoc (encoding prev) (encoding n.id) (put_u32 (to_u32 n.char)),
      )
      refl

pub marshal_delete :
    (prev : NodeId) (n : Node)
    → IdFits n.id
    → marshal (record { action = op_delete; prev_id = prev; node = n })
      ≡ ok (tag_delete ∷ encoding n.id)
unfolding marshal check_client_id append_node_id
marshal_delete prev n g = rw (short_enough (length n.id.client_id) g.client_id) refl

-- What the format can carry, for each action.
abbrev FieldsFit : Action → NodeId → Node → Type 0
FieldsFit op_insert prev n = IdFits prev × IdFits n.id × InRange (2 ^ 31) n.char
FieldsFit op_delete prev n = IdFits n.id
FieldsFit unknown prev n = ⊥

abbrev pub OpFits : Op → Type 0
OpFits o = FieldsFit o.action o.prev_id o.node

read_char-put_u32 : (c : ℤ) → InRange (2 ^ 31) c → read_char (put_u32 (to_u32 c)) ≡ ok c
unfolding read_char put_u32
read_char-put_u32 c h = rw (u32_of_parts (to_u32 c) (to_u32-lt c), of_u32-to_u32 c h) refl

read_char_trailing : (v x : ℕ) (xs : Bytes) → read_char (put_u32 v ++ (x ∷ xs)) ≡ err malformed_op
unfolding read_char put_u32
read_char_trailing v x xs = refl

pub unmarshal_delete-encoding :
    (id : NodeId) (rest : Bytes)
    → IdFits id
    → unmarshal_delete (encoding id ++ rest) ≡ (
        if 9 + length id.client_id == length (encoding id ++ rest)
        then ok (deleted id)
        else err malformed_op)
unfolding unmarshal_delete
unmarshal_delete-encoding id rest f = rw (read_encoding id rest f) refl

-- The encoding of an op, its decoding, and the refusal of anything behind it.
abbrev pub RoundTrips : Op → Type 0
RoundTrips o =
    (bytes : Bytes) × (marshal o ≡ ok bytes)
    × (unmarshal bytes ≡ ok (carried o))
    × ((x : ℕ) (xs : Bytes) → unmarshal (bytes ++ (x ∷ xs)) ≡ err malformed_op)

insert_trips :
    (prev : NodeId) (n : Node)
    → IdFits prev
    → IdFits n.id
    → InRange (2 ^ 31) n.char
    → RoundTrips (record { action = op_insert; prev_id = prev; node = n })
unfolding unmarshal carried
insert_trips prev n f g h = (
  tag_insert ∷ (encoding prev ++ (encoding n.id ++ put_u32 (to_u32 n.char))),
  marshal_insert prev n f g,
  unmarshal_insert-encoding prev n.id (put_u32 (to_u32 n.char)) f g
      ∙ rw (read_char-put_u32 n.char h) refl,
  λ x xs.
      rw
        (
          append_assoc (encoding prev) (encoding n.id ++ put_u32 (to_u32 n.char)) (x ∷ xs),
          append_assoc (encoding n.id) (put_u32 (to_u32 n.char)) (x ∷ xs),
        )
        (unmarshal_insert-encoding prev n.id (put_u32 (to_u32 n.char) ++ (x ∷ xs)) f g
          ∙ rw (read_char_trailing (to_u32 n.char) x xs) refl),
)

pub exact_length :
    (id : NodeId)
    → (if 9 + length id.client_id == length (encoding id)
        then ok (deleted id)
        else err malformed_op)
      ≡ ok (deleted id)
exact_length id = ground (arith, length-encoding id)

delete_trips :
    (prev : NodeId) (n : Node)
    → IdFits n.id
    → RoundTrips (record { action = op_delete; prev_id = prev; node = n })
unfolding unmarshal carried
delete_trips prev n g = (
  tag_delete ∷ encoding n.id,
  marshal_delete prev n g,
  rw (sym (append-nil (encoding n.id)))
      (unmarshal_delete-encoding n.id [] g ∙ rw (append-nil (encoding n.id)) (exact_length n.id)),
  λ x xs.
      unmarshal_delete-encoding n.id (x ∷ xs) g
      ∙ ground (arith, length-append (encoding n.id) (x ∷ xs), length-encoding n.id),
)

op_trips :
    (a : Action) (prev : NodeId) (n : Node)
    → FieldsFit a prev n
    → RoundTrips (record { action = a; prev_id = prev; node = n })
op_trips op_insert prev n f = insert_trips prev n f.0 f.1 f.2
op_trips op_delete prev n f = delete_trips prev n f
op_trips unknown prev n f = absurd f

-- An insert or a delete whose timestamps are int64, whose character is an int32 and whose names have 255
-- bytes at most is encoded, is decoded to the fields that the format carries, and is refused with anything behind it.
pub unmarshal-marshal : (o : Op) → OpFits o → RoundTrips o
unmarshal-marshal o f = op_trips o.action o.prev_id o.node f
