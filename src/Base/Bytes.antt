-- ===== src/Base/Bytes.antt =====
-- Go strings as lists of bytes, and the fixed-width big-endian integers of encoding/binary.
use Prim.Native.Nat.{ℕ, ◌+◌, ◌*◌, ◌/◌, ◌%◌, ◌^◌, ◌<◌, compare, Ordering}
use mathlib.Core.Path.{◌≡◌}
use mathlib.Core.List.{List, [], ◌∷◌, ◌++◌}
use native.Mathlib.Omega.{arith}
use Prim.Native.Char.{code}
use Prim.Native.String.{String}
use golang_toys.Base.Order.{IsOrder, compare_list, compare_list-IsOrder, compare-IsOrder}

abbrev pub Bytes : Type 0
Bytes = List ℕ

-- The bytes of a text in ASCII.
abbrev pub codes : String → Bytes
codes String.[] = []
codes (String.◌∷◌ c s) = code c ∷ codes s

abbrev pub IsByte : ℕ → Type 0
IsByte b = b < 256

-- Go compares strings byte by byte. Shut: the proofs use its laws.
unfoldable pub compare_bytes : Bytes → Bytes → Ordering
compare_bytes = compare_list compare

pub compare_bytes-IsOrder : IsOrder compare_bytes
unfolding compare_bytes
compare_bytes-IsOrder = compare_list-IsOrder compare-IsOrder

-- `binary.BigEndian.AppendUint32`, as the four bytes of `v % 2 ^ 32`.
unfoldable pub put_u32 : ℕ → Bytes
put_u32 v = v / 2 ^ 24 % 256 ∷ v / 2 ^ 16 % 256 ∷ v / 2 ^ 8 % 256 ∷ v % 256 ∷ []

-- `binary.BigEndian.Uint32` on four bytes.
abbrev pub u32_of : ℕ → ℕ → ℕ → ℕ → ℕ
u32_of a b c d = a * 2 ^ 24 + b * 2 ^ 16 + c * 2 ^ 8 + d

pub u32_of_parts :
    (v : ℕ)
    → v < 2 ^ 32
    → u32_of (v / 2 ^ 24 % 256) (v / 2 ^ 16 % 256) (v / 2 ^ 8 % 256) (v % 256) ≡ v
u32_of_parts v h = omega arith

-- `binary.BigEndian.AppendUint64` writes the high half, then the low half.
unfoldable pub put_u64 : ℕ → Bytes
unfolding put_u32
put_u64 v = put_u32 (v / 2 ^ 32) ++ put_u32 v
