-- ===== src/Cassandra/Format/Total.antt =====
-- The readers on any bytes, well formed or not: they end, and where they stop.
use golang_toys.Base.{
  ℕ, zero, suc, ◌+◌, ◌^◌, ◌≤◌, ◌<◌, ◌≡◌, ◌≢◌, refl, ◌⊎◌, inl, inr, none, List, [], ◌∷◌, ◌++◌, arith,
  length, drop,
}
use golang_toys.Base.Bytes.{Bytes, put_u32, u32_of, u32_of_parts}
use golang_toys.Cassandra.Entry.{Entry}
use golang_toys.Cassandra.Format.{
  Result, ok, err, stuck, Error, exists, not_exist, io_failed, at_end, eof, unexpected_eof,
  read_full, read_field, scan, scan_entries, table_get, table_entries,
}

length-drop_le : (n : ℕ) (xs : Bytes) → length (drop n xs) ≤ length xs
length-drop_le zero xs = omega arith
length-drop_le (suc n) [] = omega arith
length-drop_le (suc n) (x ∷ xs) = omega (arith, length-drop_le n xs)

read_full_shorter :
    (n : ℕ) (bytes s rest : Bytes) → read_full n bytes ≡ ok (s, rest) → length rest ≤ length bytes
unfolding read_full
read_full_shorter zero bytes s rest e = ground arith
read_full_shorter (suc n) [] s rest e = cc
read_full_shorter (suc n) (b ∷ bytes) s rest e = ground (arith, length-drop_le n bytes)

read_full-ne-stuck : (n : ℕ) (bytes : Bytes) → read_full n bytes ≢ stuck
unfolding read_full
read_full-ne-stuck zero bytes e = cc
read_full-ne-stuck (suc n) [] e = cc
read_full-ne-stuck (suc n) (b ∷ bytes) e = ground arith

-- A field that was read takes its four-byte header at least.
pub read_field_shorter :
    (bytes s rest : Bytes) → read_field bytes ≡ ok (s, rest) → length rest + 4 ≤ length bytes
unfolding read_field
read_field_shorter [] s rest e = cc
read_field_shorter (a ∷ []) s rest e = cc
read_field_shorter (a ∷ b ∷ []) s rest e = cc
read_field_shorter (a ∷ b ∷ c ∷ []) s rest e = cc
read_field_shorter (a ∷ b ∷ c ∷ d ∷ bytes) s rest e =
    omega (arith, read_full_shorter (u32_of a b c d) bytes s rest e)

read_field-ne-stuck : (bytes : Bytes) → read_field bytes ≢ stuck
unfolding read_field
read_field-ne-stuck [] e = cc
read_field-ne-stuck (a ∷ []) e = cc
read_field-ne-stuck (a ∷ b ∷ []) e = cc
read_field-ne-stuck (a ∷ b ∷ c ∷ []) e = cc
read_field-ne-stuck (a ∷ b ∷ c ∷ d ∷ bytes) e = read_full-ne-stuck (u32_of a b c d) bytes e

-- On a header that promises a body of some bytes, with no byte behind it, `readField` answers `io.EOF`, as
-- at the end of the file.
pub read_field_headless : (n : ℕ) → 0 < n → n < 2 ^ 32 → read_field (put_u32 n) ≡ err eof
unfolding read_field put_u32
read_field_headless n p h = rw (u32_of_parts n h) (no_body n p)
  where
    no_body : (n : ℕ) → 0 < n → read_full n [] ≡ err eof
    no_body zero q = elim q [ ]
    no_body (suc n) q = unfold read_full in refl

read_field-cases :
    (bytes : Bytes)
    → ((p : Bytes × Bytes) × (read_field bytes ≡ ok p)) ⊎ ((e : Error) × (read_field bytes ≡ err e))
read_field-cases bytes = pick (read_field bytes) refl
  where
    pick :
        (r : Result (Bytes × Bytes))
        → read_field bytes ≡ r
        → ((p : Bytes × Bytes) × (read_field bytes ≡ ok p))
          ⊎ ((e : Error) × (read_field bytes ≡ err e))
    pick (ok p) e = inl (p, e)
    pick (err x) e = inr (x, e)
    pick stuck e = absurd (read_field-ne-stuck bytes e)

at_end-ne-stuck : {A : Type 0} (a : A) (e : Error) → at_end a e ≢ stuck
at_end-ne-stuck a eof h = cc
at_end-ne-stuck a exists h = cc
at_end-ne-stuck a not_exist h = cc
at_end-ne-stuck a io_failed h = cc
at_end-ne-stuck a unexpected_eof h = cc

-- The loop of `get` ends on any bytes, with an answer or an error.
scan-ne-stuck : (fuel : ℕ) (key bytes : Bytes) → length bytes < fuel → scan fuel key bytes ≢ stuck
unfolding scan
scan-ne-stuck zero key bytes h = elim h [ ]
scan-ne-stuck (suc fuel) key bytes h = elim (read_field-cases bytes) [
  | inr (x, e) ↦ rw (e, scan) (at_end-ne-stuck none x)
  | inl ((k, r), e) ↦ elim (read_field-cases r) [
    | inr (x, e') ↦ rw (e, scan, e', scan) (λ p. cc)
    | inl ((v, rest), e') ↦
        rw (e, scan, e', scan)
          (λ p. ground (
            arith,
            scan-ne-stuck fuel key rest,
            read_field_shorter bytes k r e,
            read_field_shorter r v rest e',
          ))
  ]
]

scan_entries-ne-stuck :
    (fuel : ℕ) (bytes : Bytes) (result : List Entry)
    → length bytes < fuel
    → scan_entries fuel bytes result ≢ stuck
unfolding scan_entries
scan_entries-ne-stuck zero bytes result h = elim h [ ]
scan_entries-ne-stuck (suc fuel) bytes result h = elim (read_field-cases bytes) [
  | inr (x, e) ↦ rw (e, scan_entries) (at_end-ne-stuck result x)
  | inl ((k, r), e) ↦ elim (read_field-cases r) [
    | inr (x, e') ↦ rw (e, scan_entries, e', scan_entries) (λ p. cc)
    | inl ((v, rest), e') ↦
        rw (e, scan_entries, e', scan_entries)
          (scan_entries-ne-stuck fuel rest (result ++ (record { key = k; value = v } ∷ []))
            (omega (arith, read_field_shorter bytes k r e, read_field_shorter r v rest e')))
  ]
]

-- On any bytes, well formed or not, the loops of `get` and of `entries` end with an answer or an
-- error: the fuel that they are given is enough.
pub readers_end :
    (key bytes : Bytes) → (table_get key bytes ≢ stuck) × (table_entries bytes ≢ stuck)
unfolding table_get table_entries
readers_end key bytes = (
  scan-ne-stuck (length bytes + 1) key bytes (omega arith),
  scan_entries-ne-stuck (length bytes + 1) bytes [] (omega arith),
)
