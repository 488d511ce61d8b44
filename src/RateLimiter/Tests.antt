-- ===== src/RateLimiter/Tests.antt =====
-- The theorems on the limiters at a run of calls.
use golang_toys.Base.{◌≡◌, ◌≤◌, ◌+◌, ◌-◌, ◌*◌, ◌/◌, ℕ, true, List, [], ◌∷◌, arith, ltb, leb, refl}
use golang_toys.Base.Int.{ℤ, pos, negsuc}
use golang_toys.RateLimiter.Float.{Float, IsMonotone, HasCaps}
use golang_toys.RateLimiter.SlidingWindow
use golang_toys.RateLimiter.SlidingWindow.Bound
use golang_toys.RateLimiter.TokenBucket
use golang_toys.RateLimiter.TokenBucket.Capped.{IsCapped, allow_each, new_limiter-IsCapped}
use golang_toys.RateLimiter.LeakyBucket
use golang_toys.RateLimiter.FixedWindow
use golang_toys.RateLimiter.Interface.{answers, only, run}
use golang_toys.RateLimiter.Interface.Isolated.{
  fixed_window, sliding_log, sliding_window, token_bucket, leaky_bucket, allow_isolated,
}
use golang_toys.RateLimiter.Interface.Again.{allow_again}
use golang_toys.RateLimiter.FixedWindow.{new_limiter}
use golang_toys.RateLimiter.SlidingLog
use golang_toys.RateLimiter.SlidingLog.Exact.{verdicts, reference, verdicts-new_limiter}
use golang_toys.RateLimiter.Interface.{Event}
use golang_toys.RateLimiter.FixedWindow.Bound.{admitted, asked, at_most, admitted-new_limiter}

abbrev calls : List Event
calls =
    record { key = 97 ∷ []; now = 21 }
    ∷ record { key = 97 ∷ []; now = 23 }
    ∷ record { key = 98 ∷ []; now = 24 }
    ∷ record { key = 97 ∷ []; now = 29 }
    ∷ record { key = 97 ∷ []; now = 30 }
    ∷ []

admitted-new_limiter_example :
    admitted (97 ∷ []) 20 calls (new_limiter 2 10) ≡ at_most 2 (asked (97 ∷ []) 20 10 calls)
admitted-new_limiter_example =
    admitted-new_limiter (97 ∷ []) 20 2 10 calls (omega arith)
      (omega arith, (omega arith, (omega arith, (omega arith, (omega arith, tt)))))

verdicts-new_limiter_example :
    verdicts calls (SlidingLog.new_limiter 2 10) ≡ reference 2 10 calls (λ _. [])
verdicts-new_limiter_example =
    verdicts-new_limiter 2 10 calls
      (omega arith, (omega arith, (omega arith, (omega arith, (omega arith, tt)))))

abbrev whole : ℤ → ℕ
whole (pos n) = n
whole (negsuc n) = 0

-- Whole numbers, which meet the laws.
abbrev numbers : Float ℕ
numbers = record {
  of_int = whole;
  seconds = λ d. whole d / 1000000000;
  add = λ a b. a + b;
  sub = λ a b. a - b;
  mul = λ a b. a * b;
  div = λ a b. a / b;
  lt = ltb;
  ge = λ a b. leb b a;
}

numbers-IsMonotone : IsMonotone numbers
numbers-IsMonotone = record {
  ge_trans = λ x y z h k. ground arith;
  ge_int = λ a b h. ground arith;
  weighted = λ n a b h p. ground arith;
  add_above = λ x n h. ground arith;
}

numbers-HasCaps : HasCaps numbers
numbers-HasCaps = record {
  lt_irrefl = λ x. ground arith;
  sub_below = λ c x y h k. ground arith;
  mul_below = λ x y h k. ground arith;
  one_above = refl;
}

admitted_at_most_example :
    SlidingWindow.Bound.admitted numbers numbers-IsMonotone
      (97 ∷ [])
      20
      calls
      (SlidingWindow.new_limiter 2 10)
    ≤ 2
admitted_at_most_example =
    SlidingWindow.Bound.admitted_at_most numbers numbers-IsMonotone (97 ∷ []) 20 2 10 calls
      (omega arith) (omega arith, (omega arith, (omega arith, (omega arith, (omega arith, tt)))))

new_limiter-IsCapped_example :
    IsCapped numbers numbers-HasCaps
      (allow_each numbers numbers-HasCaps calls (TokenBucket.new_limiter 3 1))
new_limiter-IsCapped_example = new_limiter-IsCapped numbers numbers-HasCaps 3 1 calls

abbrev key_a : List ℕ
key_a = 97 ∷ []

allow_isolated_example :
    (answers fixed_window key_a calls (new_limiter 2 10)
      ≡ answers fixed_window key_a (only key_a calls) (new_limiter 2 10))
    × (answers sliding_log key_a calls (SlidingLog.new_limiter 2 10)
        ≡ answers sliding_log key_a (only key_a calls) (SlidingLog.new_limiter 2 10))
    × (answers (sliding_window numbers) key_a calls (SlidingWindow.new_limiter 2 10)
        ≡ answers
            (sliding_window numbers)
            key_a
            (only key_a calls)
            (SlidingWindow.new_limiter 2 10))
    × (answers (token_bucket numbers) key_a calls (TokenBucket.new_limiter 3 1)
        ≡ answers (token_bucket numbers) key_a (only key_a calls) (TokenBucket.new_limiter 3 1))
    × (answers (leaky_bucket numbers) key_a calls (LeakyBucket.new_limiter 3 1)
        ≡ answers (leaky_bucket numbers) key_a (only key_a calls) (LeakyBucket.new_limiter 3 1))
allow_isolated_example =
    allow_isolated numbers key_a calls (new_limiter 2 10) (SlidingLog.new_limiter 2 10)
      (SlidingWindow.new_limiter 2 10) (TokenBucket.new_limiter 3 1) (LeakyBucket.new_limiter 3 1)

allow_again_example :
    ((FixedWindow.allow key_a 41 (run fixed_window calls (FixedWindow.new_limiter 2 10))).1 ≡ true)
    × ((SlidingLog.allow key_a 41 (run sliding_log calls (SlidingLog.new_limiter 2 10))).1 ≡ true)
allow_again_example =
    allow_again 2 10 41 key_a calls (omega arith) (omega arith)
      (omega arith, (omega arith, (omega arith, (omega arith, (omega arith, tt))))) (omega arith)
