-- ===== src/Cassandra/Format/RoundTrip.antt =====
-- A sorted file read back: `readField` after `writeField`, and the loops of `get` and `entries` on
-- what `flush` writes.
use golang_toys.Base.{
  ℕ, zero, suc, ◌+◌, ◌^◌, ◌≤◌, ◌<◌, ◌≡◌, refl, ap, sym, ◌∙◌, none, some, List, [], ◌∷◌, ◌++◌, arith,
  if◌then◌else◌, length, All, take-append_self, drop-append_self, length-append, append_assoc,
  append-nil,
}
use golang_toys.Base.Bytes.{Bytes, u32_of_parts}
use golang_toys.Cassandra.Entry.{Entry, same, less, find, IsAscending, find_passed, find-cons}
use golang_toys.Cassandra.Format.{
  ok, write_field, encode, read_full, read_field, scan, scan_entries, table_get, table_entries,
}

-- A length that the four-byte prefix can hold.
abbrev pub Fits : Entry → Type 0
Fits e = (length e.key < 2 ^ 32) × (length e.value < 2 ^ 32)

read_full_self : (s rest : Bytes) → read_full (length s) (s ++ rest) ≡ ok (s, rest)
unfolding read_full
read_full_self [] rest = refl
read_full_self (b ∷ s) rest =
    ground (arith, length-append s rest, take-append_self s rest, drop-append_self s rest)

pub read_field-write_field :
    (s rest : Bytes) → length s < 2 ^ 32 → read_field (write_field s ++ rest) ≡ ok (s, rest)
unfolding read_field write_field
read_field-write_field s rest h = rw (u32_of_parts (length s) h) (read_full_self s rest)

encode-cons :
    (e : Entry) (es : List Entry)
    → encode (e ∷ es) ≡ write_field e.key ++ (write_field e.value ++ encode es)
unfolding encode
encode-cons e es = refl

-- One round of `get` over a well-formed entry.
scan_step :
    (fuel : ℕ) (key : Bytes) (e : Entry) (es : List Entry)
    → Fits e
    → scan (suc fuel) key (encode (e ∷ es)) ≡ (
        if same e.key key
        then ok (some e.value)
        else if less key e.key
        then ok none
        else scan fuel key (encode es))
unfolding scan
scan_step fuel key e es h = rw (
  encode-cons e es,
  read_field-write_field e.key (write_field e.value ++ encode es) h.0,
  scan,
  read_field-write_field e.value (encode es) h.1,
  scan,
)

pub scan-encode :
    (fuel : ℕ) (key : Bytes) (es : List Entry)
    → All Fits es
    → IsAscending es
    → length es < fuel
    → scan fuel key (encode es) ≡ ok (find key es)
scan-encode zero key es f s h = elim h [ ]
scan-encode (suc fuel) key [] f s h = unfold scan read_field encode find in refl
scan-encode (suc fuel) key (e ∷ es) f s h = ground (
  arith,
  scan_step fuel key e es f.0,
  scan-encode fuel key es,
  find-cons e es key,
  find_passed key e es s,
)

scan_entries_step :
    (fuel : ℕ) (e : Entry) (es result : List Entry)
    → Fits e
    → scan_entries (suc fuel) (encode (e ∷ es)) result
      ≡ scan_entries fuel (encode es) (result ++ (e ∷ []))
unfolding scan_entries
scan_entries_step fuel e es result h = rw (
  encode-cons e es,
  read_field-write_field e.key (write_field e.value ++ encode es) h.0,
  scan_entries,
  read_field-write_field e.value (encode es) h.1,
  scan_entries,
)

pub scan_entries-encode :
    (fuel : ℕ) (es result : List Entry)
    → All Fits es
    → length es < fuel
    → scan_entries fuel (encode es) result ≡ ok (result ++ es)
scan_entries-encode zero es result f h = elim h [ ]
scan_entries-encode (suc fuel) [] result f h =
    unfold scan_entries read_field encode in ap ok (sym (append-nil result))
scan_entries-encode (suc fuel) (e ∷ es) result f h =
    scan_entries_step fuel e es result f.0
    ∙ scan_entries-encode fuel es (result ++ (e ∷ [])) f.1 (omega arith)
    ∙ ap ok (append_assoc result (e ∷ []) es)

length-write_field : (s : Bytes) → length (write_field s) ≡ 4 + length s
unfolding write_field
length-write_field s = omega arith

-- An entry takes eight bytes at least.
pub length-encode : (es : List Entry) → length es ≤ length (encode es)
unfolding encode
length-encode [] = omega arith
length-encode (e ∷ es) = omega (
  arith,
  length-append (write_field e.key) (write_field e.value ++ encode es),
  length-append (write_field e.value) (encode es),
  length-write_field e.key,
  length-encode es,
)

-- On a file flushed from entries in ascending order of their keys, each short enough for the length
-- prefix, `get` finds a key exactly when the entries have it, with their value.
pub table_get-encode :
    (key : Bytes) (es : List Entry)
    → All Fits es
    → IsAscending es
    → table_get key (encode es) ≡ ok (find key es)
unfolding table_get
table_get-encode key es f s = scan-encode _ key es f s (omega (arith, length-encode es))

-- On a file flushed from entries that are short enough, `entries` returns the entries that were flushed.
pub table_entries-encode : (es : List Entry) → All Fits es → table_entries (encode es) ≡ ok es
unfolding table_entries
table_entries-encode es f = scan_entries-encode _ es [] f (omega (arith, length-encode es))
