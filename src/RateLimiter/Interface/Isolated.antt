-- ===== src/RateLimiter/Interface/Isolated.antt =====
-- The five implementations of the interface: keys do not disturb each other.
use golang_toys.Base.{ℕ, ◌≡◌, refl, Bool, List, Option, arith}
use golang_toys.Base.Bytes.{Bytes}
use golang_toys.Cassandra.Entry.{same_refl}
use golang_toys.RateLimiter.Interface.{RateLimiter, IsKeyed, Event, only, answers, answers-only}
use golang_toys.RateLimiter.Float.{Float}
use golang_toys.RateLimiter.FixedWindow
use golang_toys.RateLimiter.SlidingLog
use golang_toys.RateLimiter.SlidingWindow
use golang_toys.RateLimiter.TokenBucket
use golang_toys.RateLimiter.LeakyBucket

-- What decides the calls of a key: the parameters, and its bucket if it has one. The limiter that has this bucket
-- for all keys makes the step.
abbrev fixed_part : Bytes → FixedWindow.Limiter → ℕ × ℕ × Option FixedWindow.Bucket
fixed_part key l = (l.limit, l.window, l.buckets key)

abbrev fixed_step :
    Bytes → ℕ → ℕ × ℕ × Option FixedWindow.Bucket → (ℕ × ℕ × Option FixedWindow.Bucket) × Bool
fixed_step key now b =
    let o = FixedWindow.allow key now (record { limit = b.0; window = b.1; buckets = λ _. b.2 }) in
    (fixed_part key o.0, o.1)

abbrev pub fixed_window : RateLimiter FixedWindow.Limiter
fixed_window = record { allow = FixedWindow.allow }

fixed_window-IsKeyed : IsKeyed fixed_window fixed_part fixed_step
unfolding FixedWindow.allow FixedWindow.current FixedWindow.bucket_of
fixed_window-IsKeyed = record {
  own_part = λ key now l. ground (arith, same_refl key);
  own_verdict = λ key now l. ground (arith, same_refl key);
  other_part = λ key k now l h. ground arith;
}

abbrev log_part : Bytes → SlidingLog.Limiter → ℕ × ℕ × Option SlidingLog.Bucket
log_part key l = (l.limit, l.window, l.buckets key)

abbrev log_step :
    Bytes → ℕ → ℕ × ℕ × Option SlidingLog.Bucket → (ℕ × ℕ × Option SlidingLog.Bucket) × Bool
log_step key now b =
    let o = SlidingLog.allow key now (record { limit = b.0; window = b.1; buckets = λ _. b.2 }) in
    (log_part key o.0, o.1)

abbrev pub sliding_log : RateLimiter SlidingLog.Limiter
sliding_log = record { allow = SlidingLog.allow }

sliding_log-IsKeyed : IsKeyed sliding_log log_part log_step
unfolding SlidingLog.allow SlidingLog.store SlidingLog.bucket_of
sliding_log-IsKeyed = record {
  own_part = λ key now l. ground (arith, same_refl key);
  own_verdict = λ key now l. ground (arith, same_refl key);
  other_part = λ key k now l h. ground arith;
}

module _ {ℓ} {F : Type ℓ} (f : Float F) where
  abbrev sliding_part : Bytes → SlidingWindow.Limiter → ℕ × ℕ × Option SlidingWindow.Bucket
  sliding_part key l = (l.limit, l.window, l.buckets key)

  abbrev sliding_step :
      Bytes → ℕ → ℕ × ℕ × Option SlidingWindow.Bucket → (ℕ × ℕ × Option SlidingWindow.Bucket) × Bool
  sliding_step key now b =
      let o =
        SlidingWindow.allow f key now (record { limit = b.0; window = b.1; buckets = λ _. b.2 }) in
      (sliding_part key o.0, o.1)

  abbrev pub sliding_window : RateLimiter SlidingWindow.Limiter
  sliding_window = record { allow = SlidingWindow.allow f }

  sliding_window-IsKeyed : IsKeyed sliding_window sliding_part sliding_step
  unfolding SlidingWindow.allow SlidingWindow.bucket_of
  sliding_window-IsKeyed = record {
    own_part = λ key now l. rw (same_refl key) refl;
    own_verdict = λ key now l. refl;
    other_part = λ key k now l h. rw h refl;
  }

  abbrev token_part : Bytes → TokenBucket.Limiter F → F × F × Option (TokenBucket.Bucket F)
  token_part key l = (l.capacity, l.rate, l.buckets key)

  abbrev token_step :
      Bytes
      → ℕ
      → F × F × Option (TokenBucket.Bucket F)
      → (F × F × Option (TokenBucket.Bucket F)) × Bool
  token_step key now b =
      let o =
        TokenBucket.allow f key now (record { capacity = b.0; rate = b.1; buckets = λ _. b.2 }) in
      (token_part key o.0, o.1)

  abbrev pub token_bucket : RateLimiter (TokenBucket.Limiter F)
  token_bucket = record { allow = TokenBucket.allow f }

  token_bucket-IsKeyed : IsKeyed token_bucket token_part token_step
  unfolding TokenBucket.allow TokenBucket.bucket_at
  token_bucket-IsKeyed = record {
    own_part = λ key now l. rw (same_refl key) refl;
    own_verdict = λ key now l. refl;
    other_part = λ key k now l h. rw h refl;
  }

  abbrev leaky_part : Bytes → LeakyBucket.Limiter F → F × F × Option (LeakyBucket.Bucket F)
  leaky_part key l = (l.capacity, l.leak_rate, l.buckets key)

  abbrev leaky_step :
      Bytes
      → ℕ
      → F × F × Option (LeakyBucket.Bucket F)
      → (F × F × Option (LeakyBucket.Bucket F)) × Bool
  leaky_step key now b =
      let o =
        LeakyBucket.allow f key now
          (record { capacity = b.0; leak_rate = b.1; buckets = λ _. b.2 }) in
      (leaky_part key o.0, o.1)

  abbrev pub leaky_bucket : RateLimiter (LeakyBucket.Limiter F)
  leaky_bucket = record { allow = LeakyBucket.allow f }

  leaky_bucket-IsKeyed : IsKeyed leaky_bucket leaky_part leaky_step
  unfolding LeakyBucket.allow LeakyBucket.bucket_at
  leaky_bucket-IsKeyed = record {
    own_part = λ key now l. rw (same_refl key) refl;
    own_verdict = λ key now l. refl;
    other_part = λ key k now l h. rw h refl;
  }

  -- Each of the five limiters, in any state, answers the calls of a key as if the calls of all other keys among
  -- them had not been made.
  pub allow_isolated :
      (key : Bytes) (es : List Event) (fixed : FixedWindow.Limiter) (log : SlidingLog.Limiter)
      (sliding : SlidingWindow.Limiter) (token : TokenBucket.Limiter F)
      (leaky : LeakyBucket.Limiter F)
      → (answers fixed_window key es fixed ≡ answers fixed_window key (only key es) fixed)
        × (answers sliding_log key es log ≡ answers sliding_log key (only key es) log)
        × (answers sliding_window key es sliding ≡ answers sliding_window key (only key es) sliding)
        × (answers token_bucket key es token ≡ answers token_bucket key (only key es) token)
        × (answers leaky_bucket key es leaky ≡ answers leaky_bucket key (only key es) leaky)
  allow_isolated key es fixed log sliding token leaky = (
    answers-only fixed_window fixed_part fixed_step fixed_window-IsKeyed key es fixed,
    answers-only sliding_log log_part log_step sliding_log-IsKeyed key es log,
    answers-only sliding_window sliding_part sliding_step sliding_window-IsKeyed key es sliding,
    answers-only token_bucket token_part token_step token_bucket-IsKeyed key es token,
    answers-only leaky_bucket leaky_part leaky_step leaky_bucket-IsKeyed key es leaky,
  )
