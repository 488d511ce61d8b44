-- ===== src/Base/Int.antt =====
-- Signed machine integers: Go's int64 and int32 as integers, with their two's-complement patterns.
use Prim.Native.Nat.{ℕ, zero, suc, ◌+◌, ◌-◌, ◌%◌, ◌^◌, ◌<◌, compare, Ordering}
use Prim.Native.Nat.Ordering.{lt, gt}
use mathlib.Core.Path.{◌≡◌, refl}
use native.Mathlib.Omega.{arith}
use golang_toys.Base.Tests.{ltb, if◌then◌else◌}
use golang_toys.Base.Order.{IsOrder}

-- `negsuc n` is -(n + 1).
pub data ℤ : Type 0 where
  pos : ℕ → ℤ
  negsuc : ℕ → ℤ

unfoldable pub compare_ℤ : ℤ → ℤ → Ordering
compare_ℤ (pos a) (pos b) = compare a b
compare_ℤ (pos a) (negsuc b) = gt
compare_ℤ (negsuc a) (pos b) = lt
compare_ℤ (negsuc a) (negsuc b) = compare b a

pub compare_ℤ-IsOrder : IsOrder compare_ℤ
unfolding compare_ℤ
compare_ℤ-IsOrder = ground arith

-- `v + 1` on integers.
unfoldable pub succ_ℤ : ℤ → ℤ
succ_ℤ (pos n) = pos (n + 1)
succ_ℤ (negsuc zero) = pos 0
succ_ℤ (negsuc (suc n)) = negsuc n

-- The integers of a signed type whose unsigned type has `2 * half` values.
abbrev pub InRange : ℕ → ℤ → Type 0
InRange half (pos n) = n < half
InRange half (negsuc n) = n < half

-- The bit pattern of an int64, `uint64(v)`.
unfoldable pub to_u64 : ℤ → ℕ
to_u64 (pos n) = n % 2 ^ 64
to_u64 (negsuc n) = 2 ^ 64 - 1 - n % 2 ^ 64

-- The conversion `int64(w)`.
unfoldable pub of_u64 : ℕ → ℤ
of_u64 w = if ltb w (2 ^ 63) then pos w else negsuc (2 ^ 64 - 1 - w)

pub of_u64-to_u64 : (v : ℤ) → InRange (2 ^ 63) v → of_u64 (to_u64 v) ≡ v
unfolding of_u64 to_u64
of_u64-to_u64 (pos n) h = ground arith
of_u64-to_u64 (negsuc n) h = ground arith

-- `v + 1` on an int64, which wraps around.
unfoldable pub succ_int64 : ℤ → ℤ
unfolding to_u64 of_u64
succ_int64 v = of_u64 ((to_u64 v + 1) % 2 ^ 64)

pub succ_int64-succ_ℤ : (v : ℤ) → InRange (2 ^ 63) (succ_ℤ v) → succ_int64 v ≡ succ_ℤ v
unfolding succ_int64 succ_ℤ
succ_int64-succ_ℤ (pos n) h = ground arith
succ_int64-succ_ℤ (negsuc zero) h = refl
succ_int64-succ_ℤ (negsuc (suc n)) h = ground arith

pub to_u64-lt : (v : ℤ) → to_u64 v < 2 ^ 64
unfolding to_u64
to_u64-lt (pos n) = omega arith
to_u64-lt (negsuc n) = omega arith

-- The bit pattern of an int32 (a rune), `uint32(v)`.
unfoldable pub to_u32 : ℤ → ℕ
to_u32 (pos n) = n % 2 ^ 32
to_u32 (negsuc n) = 2 ^ 32 - 1 - n % 2 ^ 32

-- The conversion `int32(w)`.
unfoldable pub of_u32 : ℕ → ℤ
of_u32 w = if ltb w (2 ^ 31) then pos w else negsuc (2 ^ 32 - 1 - w)

pub of_u32-to_u32 : (v : ℤ) → InRange (2 ^ 31) v → of_u32 (to_u32 v) ≡ v
unfolding of_u32 to_u32
of_u32-to_u32 (pos n) h = ground arith
of_u32-to_u32 (negsuc n) h = ground arith

pub to_u32-lt : (v : ℤ) → to_u32 v < 2 ^ 32
unfolding to_u32
to_u32-lt (pos n) = omega arith
to_u32-lt (negsuc n) = omega arith
