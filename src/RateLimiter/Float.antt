-- ===== src/RateLimiter/Float.antt =====
-- What the limiters do with a `float64`, and the laws of IEEE 754 that their theorems rest on.
use golang_toys.Base.{ℕ, ◌-◌, ◌<◌, ◌≤◌, ◌≡◌, Bool, true, false, leb, if◌then◌else◌}
use golang_toys.Base.Int.{ℤ, pos, negsuc}

-- `of_int` is the conversion, `seconds` is `Duration.Seconds`.
pub record Float {ℓ} (F : Type ℓ) : Type ℓ where
  pub of_int : ℤ → F
  pub seconds : ℤ → F
  pub add : F → F → F
  pub sub : F → F → F
  pub mul : F → F → F
  pub div : F → F → F
  pub lt : F → F → Bool
  pub ge : F → F → Bool

abbrev pub int {ℓ} : {F : Type ℓ} → Float F → ℕ → F
int f n = f.of_int (pos n)

-- `now.Sub(last)`, in nanoseconds.
abbrev pub since : ℕ → ℕ → ℤ
since now last = if leb last now then pos (now - last) else negsuc (last - now - 1)

-- Comparison is transitive, conversion keeps the order, and rounding is monotone: a product of a count and of
-- what is left of one after a quotient of at most one is not negative, and adding it to a count does not
-- make that less.
pub record IsMonotone {ℓ} {F : Type ℓ} (f : Float F) : Type ℓ where
  pub ge_trans : (x y z : F) → f.ge x y ≡ true → f.ge y z ≡ true → f.ge x z ≡ true
  pub ge_int : (a b : ℕ) → b ≤ a → f.ge (int f a) (int f b) ≡ true
  pub weighted :
      (n a b : ℕ)
      → a ≤ b
      → 0 < b
      → f.ge (f.mul (int f n) (f.sub (int f 1) (f.div (int f a) (int f b)))) (int f 0) ≡ true
  pub add_above :
      (x : F) (n : ℕ) → f.ge x (int f 0) ≡ true → f.ge (f.add x (int f n)) (int f n) ≡ true

-- What caps rest on: nothing is less than itself, and neither taking away what is not negative nor rounding
-- brings a number above a bound that it was not above.
pub record HasCaps {ℓ} {F : Type ℓ} (f : Float F) : Type ℓ where
  pub lt_irrefl : (x : F) → f.lt x x ≡ false
  pub sub_below :
      (c x y : F) → f.lt y (int f 0) ≡ false → f.lt c x ≡ false → f.lt c (f.sub x y) ≡ false
  pub mul_below :
      (x y : F)
      → f.lt (int f 0) x ≡ true
      → f.lt y (int f 0) ≡ false
      → f.lt (f.mul x y) (int f 0) ≡ false
  pub one_above : f.lt (int f 1) (int f 0) ≡ false
