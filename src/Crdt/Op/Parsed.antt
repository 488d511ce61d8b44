-- ===== src/Crdt/Op/Parsed.antt =====
-- What `readNodeID` and the last step of `UnmarshalBinary` find in any bytes.
use golang_toys.Base.{
  ℕ, zero, suc, ◌+◌, ◌*◌, ◌/◌, ◌^◌, ◌<◌, ◌≤◌, ◌≡◌, refl, ap, ◌∙◌, ◌⊎◌, inl, inr, [], ◌∷◌, ◌++◌, ltb,
  length, drop, take, arith, All, Bool-cases,
}
use golang_toys.Base.Bytes.{Bytes, IsByte, put_u32, put_u64, u32_of}
use golang_toys.Base.Int.{ℤ, to_u64, of_u64, to_u32, of_u32, InRange}
use golang_toys.Crdt.Node.{NodeId}
use golang_toys.Crdt.Op.{malformed_op, ok, err, read_node_id, read_char}
use golang_toys.Crdt.Op.RoundTrip.{IdFits, encoding, byte_length}

to_u64-of_u64 : (w : ℕ) → w < 2 ^ 64 → (to_u64 (of_u64 w) ≡ w) × InRange (2 ^ 63) (of_u64 w)
unfolding to_u64 of_u64
to_u64-of_u64 w h = ground arith

to_u32-of_u32 : (w : ℕ) → w < 2 ^ 32 → (to_u32 (of_u32 w) ≡ w) × InRange (2 ^ 31) (of_u32 w)
unfolding to_u32 of_u32
to_u32-of_u32 w h = ground arith

four :
    {a b c d a' b' c' d' : ℕ}
    → a ≡ a'
    → b ≡ b'
    → c ≡ c'
    → d ≡ d'
    → ◌≡◌ {A = Bytes} (a ∷ b ∷ c ∷ d ∷ []) (a' ∷ b' ∷ c' ∷ d' ∷ [])
four p q r s = cc

put_u32-u32_of :
    (a b c d : ℕ)
    → IsByte a
    → IsByte b
    → IsByte c
    → IsByte d
    → put_u32 (u32_of a b c d) ≡ a ∷ b ∷ c ∷ d ∷ []
unfolding put_u32
put_u32-u32_of a b c d ha hb hc hd = four (omega arith) (omega arith) (omega arith) (omega arith)

u32_of-lt : (a b c d : ℕ) → IsByte a → IsByte b → IsByte c → IsByte d → u32_of a b c d < 2 ^ 32
u32_of-lt a b c d ha hb hc hd = omega arith

high_half : (x y : ℕ) → y < 2 ^ 32 → (x * 2 ^ 32 + y) / 2 ^ 32 ≡ x
high_half x y h = omega arith

put_u32-low_half : (x y : ℕ) → y < 2 ^ 32 → put_u32 (x * 2 ^ 32 + y) ≡ put_u32 y
unfolding put_u32
put_u32-low_half x y h = four (omega arith) (omega arith) (omega arith) (omega arith)

put_u64_halves : (x y : ℕ) → y < 2 ^ 32 → put_u64 (x * 2 ^ 32 + y) ≡ put_u32 x ++ put_u32 y
unfolding put_u64
put_u64_halves x y h = rw (high_half x y h, put_u32-low_half x y h) refl

take-drop : (n : ℕ) (xs : Bytes) → take n xs ++ drop n xs ≡ xs
take-drop zero xs = refl
take-drop (suc n) [] = refl
take-drop (suc n) (x ∷ xs) = ap (λ l. x ∷ l) (take-drop n xs)

length-take : (n : ℕ) (xs : Bytes) → n ≤ length xs → length (take n xs) ≡ n
length-take zero xs h = refl
length-take (suc n) [] h = ground arith
length-take (suc n) (x ∷ xs) h = ap suc (length-take n xs (omega arith))

All-drop : (n : ℕ) (xs : Bytes) → All IsByte xs → All IsByte (drop n xs)
All-drop zero xs h = h
All-drop (suc n) [] h = tt
All-drop (suc n) (x ∷ xs) h = All-drop n xs h.1

pub read_char_either :
    (rest : Bytes)
    → All IsByte rest
    → (read_char rest ≡ err malformed_op)
      ⊎ ((char : ℤ) × (read_char rest ≡ ok char)
          × (put_u32 (to_u32 char) ≡ rest)
          × InRange (2 ^ 31) char)
unfolding read_char
read_char_either [] h = inl refl
read_char_either (a ∷ []) h = inl refl
read_char_either (a ∷ b ∷ []) h = inl refl
read_char_either (a ∷ b ∷ c ∷ []) h = inl refl
read_char_either (a ∷ b ∷ c ∷ d ∷ x ∷ xs) h = inl refl
read_char_either (a ∷ b ∷ c ∷ d ∷ []) (ha, (hb, (hc, (hd, t)))) =
    let w = to_u32-of_u32 (u32_of a b c d) (u32_of-lt a b c d ha hb hc hd) in
    inr (of_u32 (u32_of a b c d), refl, ap put_u32 w.0 ∙ put_u32-u32_of a b c d ha hb hc hd, w.1)

parts_encoding :
    (a b c d e f g h clen : ℕ) (rest : Bytes)
    → All IsByte (a ∷ b ∷ c ∷ d ∷ e ∷ f ∷ g ∷ h ∷ clen ∷ rest)
    → clen ≤ length rest
    → encoding (record {
      timestamp = of_u64 (u32_of a b c d * 2 ^ 32 + u32_of e f g h);
      client_id = take clen rest;
    })
        ++ drop clen rest
      ≡ a ∷ b ∷ c ∷ d ∷ e ∷ f ∷ g ∷ h ∷ clen ∷ rest
parts_encoding a b c d e f g h clen rest (ha, (hb, (hc, (hd, (he, (hf, (hg, (hh, (hl, t)))))))))
      fits =
    rw
      (
        (to_u64-of_u64 (u32_of a b c d * 2 ^ 32 + u32_of e f g h) (omega arith)).0,
        put_u64_halves (u32_of a b c d) (u32_of e f g h) (u32_of-lt e f g h he hf hg hh),
        put_u32-u32_of a b c d ha hb hc hd,
        put_u32-u32_of e f g h he hf hg hh,
        length-take clen rest fits,
        byte_length clen (omega arith),
        take-drop clen rest,
      )
      refl

parts_lt :
    (a b c d e f g h : ℕ)
    → All IsByte (a ∷ b ∷ c ∷ d ∷ e ∷ f ∷ g ∷ h ∷ [])
    → u32_of a b c d * 2 ^ 32 + u32_of e f g h < 2 ^ 64
parts_lt a b c d e f g h (ha, (hb, (hc, (hd, (he, (hf, (hg, (hh, t)))))))) = omega arith

-- What reading an id finds: an error, or an id's encoding in front of the rest.
abbrev pub Parsed : Bytes → Type 0
Parsed input =
    (read_node_id input ≡ err malformed_op)
    ⊎ ((id : NodeId) × (rest : Bytes) × IdFits id × All IsByte rest × (encoding id ++ rest ≡ input))

byte_fits : (n : ℕ) (xs : Bytes) → IsByte n → n ≤ length xs → length (take n xs) ≤ 255
byte_fits n xs h fits = rw (length-take n xs fits) (omega arith)

long_enough :
    (a b c d e f g h clen : ℕ) (rest : Bytes)
    → All IsByte (a ∷ b ∷ c ∷ d ∷ e ∷ f ∷ g ∷ h ∷ clen ∷ rest)
    → clen ≤ length rest
    → Parsed (a ∷ b ∷ c ∷ d ∷ e ∷ f ∷ g ∷ h ∷ clen ∷ rest)
long_enough a b c d e f g h clen rest bytes fits = inr (
  record {
    timestamp = of_u64 (u32_of a b c d * 2 ^ 32 + u32_of e f g h);
    client_id = take clen rest;
  },
  drop clen rest,
  record {
    timestamp =
        (to_u64-of_u64 (u32_of a b c d * 2 ^ 32 + u32_of e f g h) (
          parts_lt a b c d e f g h (
            bytes.0,
            (
              bytes.1.0,
              (
                bytes.1.1.0,
                (
                  bytes.1.1.1.0,
                  (
                    bytes.1.1.1.1.0,
                    (bytes.1.1.1.1.1.0, (bytes.1.1.1.1.1.1.0, (bytes.1.1.1.1.1.1.1.0, tt))),
                  ),
                ),
              ),
            ),
          ))).1;
    client_id = byte_fits clen rest bytes.1.1.1.1.1.1.1.1.0 fits;
  },
  All-drop clen rest bytes.1.1.1.1.1.1.1.1.1,
  parts_encoding a b c d e f g h clen rest bytes fits,
)

pub id-Parsed : (input : Bytes) → All IsByte input → Parsed input
unfolding read_node_id
id-Parsed [] bytes = inl refl
id-Parsed (a ∷ []) bytes = inl refl
id-Parsed (a ∷ b ∷ []) bytes = inl refl
id-Parsed (a ∷ b ∷ c ∷ []) bytes = inl refl
id-Parsed (a ∷ b ∷ c ∷ d ∷ []) bytes = inl refl
id-Parsed (a ∷ b ∷ c ∷ d ∷ e ∷ []) bytes = inl refl
id-Parsed (a ∷ b ∷ c ∷ d ∷ e ∷ f ∷ []) bytes = inl refl
id-Parsed (a ∷ b ∷ c ∷ d ∷ e ∷ f ∷ g ∷ []) bytes = inl refl
id-Parsed (a ∷ b ∷ c ∷ d ∷ e ∷ f ∷ g ∷ h ∷ []) bytes = inl refl
id-Parsed (a ∷ b ∷ c ∷ d ∷ e ∷ f ∷ g ∷ h ∷ clen ∷ rest) bytes =
    elim (Bool-cases (ltb (length rest) clen)) [
      | inl short ↦ inl (rw short refl)
      | inr long ↦ long_enough a b c d e f g h clen rest bytes (ground arith)
    ]
