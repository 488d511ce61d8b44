-- ===== src/Cassandra/Format.antt =====
-- micro-cassandra/sstable.go: the bytes of a sorted file, written and read. A reader is the list of
-- the bytes that it has not read.
pub mod RoundTrip
pub mod Total
use golang_toys.Base.{
  ℕ, zero, suc, ◌+◌, Option, none, some, List, [], ◌∷◌, ◌++◌, if◌then◌else◌, length, leb, take,
  drop,
}
use golang_toys.Base.Bytes.{Bytes, put_u32, u32_of}
use golang_toys.Cassandra.Entry.{Entry, same, less}

-- The errors of package os and package io that the code meets. Wrapping by `fmt.Errorf` keeps them.
pub data Error : Type 0 where
  exists not_exist io_failed eof unexpected_eof : Error

-- `stuck` is no Go value: a loop ran out of fuel.
pub data Result {ℓ} (A : Type ℓ) : Type ℓ where
  stuck : Result A
  err : Error → Result A
  ok : A → Result A

infixl 5 ◌>>=◌
abbrev pub ◌>>=◌ {ℓ κ} : {A : Type ℓ} {B : Type κ} → Result A → (A → Result B) → Result B
stuck >>= next = stuck
err failure >>= next = err failure
ok value >>= next = next value

-- The length is converted to uint32, so it wraps.
unfoldable pub write_field : Bytes → Bytes
unfolding put_u32
write_field s = put_u32 (length s) ++ s

-- The body of `flush`: what it writes for the entries.
unfoldable pub encode : List Entry → Bytes
unfolding write_field
encode [] = []
encode (e ∷ es) = write_field e.key ++ (write_field e.value ++ encode es)

-- `io.ReadFull` into `n` bytes.
unfoldable pub read_full : ℕ → Bytes → Result (Bytes × Bytes)
read_full zero rest = ok ([], rest)
read_full (suc n) [] = err eof
read_full (suc n) (b ∷ rest) =
    if leb n (length rest) then ok (b ∷ take n rest, drop n rest) else err unexpected_eof

-- The field, and what is left to read.
unfoldable pub read_field : Bytes → Result (Bytes × Bytes)
unfolding read_full
read_field [] = err eof
read_field (a ∷ b ∷ c ∷ d ∷ rest) = read_full (u32_of a b c d) rest
read_field _ = err unexpected_eof

-- `io.EOF` at a key ends the file, any other error is returned.
abbrev at_end : {A : Type 0} → A → Error → Result A
at_end a eof = ok a
at_end a e = err e

-- The loop of `(*SSTable).get`.
unfoldable pub scan : ℕ → Bytes → Bytes → Result (Option Bytes)
unfolding read_field same less
scan zero key bytes = stuck
scan (suc fuel) key bytes = elim (read_field bytes) [
  | stuck ↦ stuck
  | err e ↦ at_end none e
  | ok (k, after_key) ↦ elim (read_field after_key) [
    | stuck ↦ stuck
    | err e ↦ err e
    | ok (v, rest) ↦
        let more = scan fuel key rest in
        if same k key then ok (some v) else if less key k then ok none else more
  ]
]

-- The loop of `(*SSTable).entries`.
unfoldable pub scan_entries : ℕ → Bytes → List Entry → Result (List Entry)
unfolding read_field
scan_entries zero bytes result = stuck
scan_entries (suc fuel) bytes result = elim (read_field bytes) [
  | stuck ↦ stuck
  | err e ↦ at_end result e
  | ok (k, after_key) ↦ elim (read_field after_key) [
    | stuck ↦ stuck
    | err e ↦ err e
    | ok (v, rest) ↦ scan_entries fuel rest (result ++ (record { key = k; value = v } ∷ []))
  ]
]

-- Each round reads eight bytes at least, so the number of bytes is fuel enough.
unfoldable pub table_get : Bytes → Bytes → Result (Option Bytes)
unfolding scan
table_get key bytes = scan (length bytes + 1) key bytes

unfoldable pub table_entries : Bytes → Result (List Entry)
unfolding scan_entries
table_entries bytes = scan_entries (length bytes + 1) bytes []
