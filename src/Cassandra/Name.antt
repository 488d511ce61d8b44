-- ===== src/Cassandra/Name.antt =====
-- micro-cassandra/db.go: the names of the sorted files, `sstablePath` and the pattern `sstableGlob`.
-- A name is relative to the database's directory.
pub mod Order
use golang_toys.Base.{
  ℕ, zero, suc, ◌+◌, ◌-◌, ◌/◌, ◌%◌, ◌^◌, ◌≡◌, refl, Bool, true, false, ◌&&◌, ◌||◌, ◌==◌, List, [],
  ◌∷◌, ◌++◌, length, ltb, leb, if◌then◌else◌, drop,
}
use golang_toys.Base.Bytes.{Bytes}
use golang_toys.Cassandra.Entry.{same}

-- The last `k` decimal digits of `n`, zero-padded.
unfoldable pub digits : ℕ → ℕ → Bytes
digits zero n = []
digits (suc k) n = digits k (n / 10) ++ ((b'0' + n % 10) ∷ [])

-- How many decimal digits `n` has; `n` itself is fuel enough.
digit_count : ℕ → ℕ → ℕ
digit_count zero n = 1
digit_count (suc fuel) n =
    let more = suc (digit_count fuel (n / 10)) in if ltb n 10 then 1 else more

-- `fmt.Sprintf("%08d", n)`: eight digits, or as many as `n` has.
unfoldable pub print_08d : ℕ → Bytes
unfolding digits digit_count
print_08d n = digits (if ltb n (10 ^ 8) then 8 else digit_count n n) n

-- "sstable-"
abbrev pub prefix : Bytes
prefix = b's' ∷ b's' ∷ b't' ∷ b'a' ∷ b'b' ∷ b'l' ∷ b'e' ∷ b'-' ∷ []

-- ".sst"
abbrev pub suffix : Bytes
suffix = b'.' ∷ b's' ∷ b's' ∷ b't' ∷ []

unfoldable pub sstable_path : ℕ → Bytes
unfolding print_08d
sstable_path seq = prefix ++ (print_08d seq ++ suffix)

unfoldable pub starts_with : Bytes → Bytes → Bool
starts_with [] name = true
starts_with (p ∷ ps) [] = false
starts_with (p ∷ ps) (c ∷ cs) = same (p ∷ []) (c ∷ []) && starts_with ps cs

unfoldable pub ends_with : Bytes → Bytes → Bool
unfolding same
ends_with s name = leb (length s) (length name) && same (drop (length name - length s) name) s

-- `filepath.Glob` reads these as a pattern, also in the path of the directory: '*', '?', '[', '\\'.
abbrev is_meta : ℕ → Bool
is_meta c = c == b'*' || c == b'?' || c == b'[' || c == b'\\'

unfoldable pub has_meta : Bytes → Bool
has_meta [] = false
has_meta (c ∷ cs) = is_meta c || has_meta cs

-- Whether the path, a list of its names, stands for itself in a pattern.
unfoldable pub is_literal : List Bytes → Bool
unfolding has_meta
is_literal [] = true
is_literal (name ∷ names) = let rest = is_literal names in if has_meta name then false else rest

-- `filepath.Match("sstable-*.sst", name)`
unfoldable pub is_sstable : Bytes → Bool
unfolding starts_with ends_with
is_sstable name = starts_with prefix name && ends_with suffix (drop (length prefix) name)
