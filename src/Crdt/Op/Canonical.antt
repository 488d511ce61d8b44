-- ===== src/Crdt/Op/Canonical.antt =====
-- The bytes that `UnmarshalBinary` accepts, against what `MarshalBinary` writes.
use golang_toys.Base.{
  ℕ, ◌≡◌, refl, sym, ◌∙◌, ◌⊎◌, inl, inr, true, false, [], ◌∷◌, ◌++◌, ◌==◌, arith, All, Bool-cases,
  append-nil, length-append,
}
use golang_toys.Base.Bytes.{Bytes, IsByte}
use golang_toys.Base.Int.{pos}
use golang_toys.Crdt.Node.{NodeId, zero_id}
use golang_toys.Crdt.Op.{
  Op, malformed_op, ok, err, marshal, read_node_id, unmarshal_insert, unmarshal_delete, unmarshal,
  tag_insert, tag_delete, Result,
}
use golang_toys.Crdt.Op.RoundTrip.{
  IdFits, OpFits, encoding, inserted, deleted, drop-encoding, read_encoding, marshal_insert,
  marshal_delete, unmarshal_insert-encoding, unmarshal_delete-encoding, exact_length,
  length-encoding,
}
use golang_toys.Crdt.Op.Parsed.{id-Parsed, read_char_either}

-- The two outcomes of decoding bytes behind their tag.
abbrev Decodes : ℕ → Result Op → Bytes → Type 0
Decodes tag result input =
    (result ≡ err malformed_op)
    ⊎ ((op : Op) × OpFits op × (result ≡ ok op) × (marshal op ≡ ok (tag ∷ input)))

char-Decodes :
    (prev id : NodeId) (rest : Bytes)
    → IdFits prev
    → IdFits id
    → All IsByte rest
    → Decodes tag_insert
        (unmarshal_insert (encoding prev ++ (encoding id ++ rest)))
        (encoding prev ++ (encoding id ++ rest))
char-Decodes prev id rest f g bytes = elim (read_char_either rest bytes) [
  | inl e ↦ inl (unmarshal_insert-encoding prev id rest f g ∙ rw e refl)
  | inr (char, reads, puts, fits) ↦ inr (
    inserted prev id char,
    (f, g, fits),
    unmarshal_insert-encoding prev id rest f g ∙ rw reads refl,
    rw (← puts) (marshal_insert prev (record { id = id; char = char; tombstone = false }) f g),
  )
]

unmarshal_insert-short :
    (prev : NodeId) (rest : Bytes)
    → IdFits prev
    → read_node_id rest ≡ err malformed_op
    → unmarshal_insert (encoding prev ++ rest) ≡ err malformed_op
unfolding unmarshal_insert
unmarshal_insert-short prev rest f e =
    rw (read_encoding prev rest f, drop-encoding prev rest, e) refl

second-Decodes :
    (prev : NodeId) (rest : Bytes)
    → IdFits prev
    → All IsByte rest
    → Decodes tag_insert (unmarshal_insert (encoding prev ++ rest)) (encoding prev ++ rest)
second-Decodes prev rest f bytes = elim (id-Parsed rest bytes) [
  | inl e ↦ inl (unmarshal_insert-short prev rest f e)
  | inr (id, tail, g, tail_bytes, p) ↦ rw (← p) (char-Decodes prev id tail f g tail_bytes)
]

insert-Decodes :
    (input : Bytes) → All IsByte input → Decodes tag_insert (unmarshal_insert input) input
unfolding unmarshal_insert
insert-Decodes input bytes = elim (id-Parsed input bytes) [
  | inl e ↦ inl (rw e refl)
  | inr (prev, rest, f, rest_bytes, p) ↦ rw (← p) (second-Decodes prev rest f rest_bytes)
]

end-Decodes :
    (id : NodeId) (rest : Bytes)
    → IdFits id
    → Decodes tag_delete (unmarshal_delete (encoding id ++ rest)) (encoding id ++ rest)
end-Decodes id [] f = inr (
  deleted id,
  f,
  rw (append-nil (encoding id))
      (rw (sym (append-nil (encoding id))) (unmarshal_delete-encoding id [] f) ∙ exact_length id),
  rw (append-nil (encoding id))
      (marshal_delete zero_id (record { id = id; char = pos 0; tombstone = false }) f),
)
end-Decodes id (x ∷ xs) f = inl (
    unmarshal_delete-encoding id (x ∷ xs) f
    ∙ ground (arith, length-append (encoding id) (x ∷ xs), length-encoding id))

delete-Decodes :
    (input : Bytes) → All IsByte input → Decodes tag_delete (unmarshal_delete input) input
unfolding unmarshal_delete
delete-Decodes input bytes = elim (id-Parsed input bytes) [
  | inl e ↦ inl (rw e refl)
  | inr (id, rest, f, rest_bytes, p) ↦ rw (← p) (end-Decodes id rest f)
]

tag_is : (m n : ℕ) → (m == n) ≡ true → m ≡ n
tag_is m n e = ground arith

other_tag :
    (tag : ℕ) (rest : Bytes)
    → (tag == tag_insert) ≡ false
    → All IsByte rest
    → Decodes tag (unmarshal (tag ∷ rest)) rest
unfolding unmarshal
other_tag tag rest apart bytes = elim (Bool-cases (tag == tag_delete)) [
  | inl same ↦ rw (tag_is tag tag_delete same) (delete-Decodes rest bytes)
  | inr neither ↦ inl (rw (apart, neither) refl)
]

-- Any bytes at all are refused with ErrMalformedOp, or they are exactly what an op is encoded to, which
-- they are decoded to, and whose timestamps, character and names fit the format.
pub unmarshal-canonical :
    (input : Bytes)
    → All IsByte input
    → (unmarshal input ≡ err malformed_op)
      ⊎ ((op : Op) × OpFits op × (unmarshal input ≡ ok op) × (marshal op ≡ ok input))
unfolding unmarshal
unmarshal-canonical [] bytes = inl refl
unmarshal-canonical (tag ∷ rest) bytes = elim (Bool-cases (tag == tag_insert)) [
  | inl same ↦ rw (tag_is tag tag_insert same) (insert-Decodes rest bytes.1)
  | inr apart ↦ other_tag tag rest apart bytes.1
]
