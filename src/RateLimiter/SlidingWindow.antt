-- ===== src/RateLimiter/SlidingWindow.antt =====
-- rate-limiter/slidingwindow/slidingwindow.go
pub mod Room
pub mod Bound
use golang_toys.Base.{
  ℕ, zero, suc, ◌+◌, ◌-◌, ◌*◌, Bool, true, false, Option, none, some, List, [], ◌∷◌, if◌then◌else◌,
  ltb, leb, ◌==◌,
}
use golang_toys.Base.Bytes.{Bytes}
use golang_toys.Base.Int.{ℤ, pos}
use golang_toys.Cassandra.Entry.{same}
use golang_toys.RateLimiter.Float.{Float, int, since}
use golang_toys.RateLimiter.FixedWindow.{truncate}

pub record Bucket : Type 0 where
  pub curr_start : ℕ
  pub curr_count : ℕ
  pub prev_count : ℕ

pub record Limiter : Type 0 where
  pub limit : ℕ
  pub window : ℕ
  pub buckets : Bytes → Option Bucket

unfoldable pub new_limiter : ℕ → ℕ → Limiter
new_limiter limit window = record { limit = limit; window = window; buckets = λ _. none }

-- The bucket of the key, a new one if there is none.
unfoldable pub bucket_of : Bytes → ℕ → Limiter → Bucket
bucket_of key start l = elim (l.buckets key) [
  | some b ↦ b
  | none ↦ record { curr_start = start; curr_count = 0; prev_count = 0 }
]

unfoldable pub advance : ℕ → ℕ → Bucket → Bucket
advance window start b = if b.curr_start == start then b else record {
  curr_start = start;
  curr_count = 0;
  prev_count = if b.curr_start + window == start then b.curr_count else 0;
}

module _ {ℓ} {F : Type ℓ} (f : Float F) where
  -- The estimate for the bucket at the time.
  unfoldable pub estimate : ℕ → ℕ → Bucket → F
  estimate window now b =
      let prev_weight =
        f.sub (int f 1) (f.div (f.of_int (since now b.curr_start)) (int f window)) in
      f.add (f.mul (int f b.prev_count) prev_weight) (int f b.curr_count)

  -- The rest of `Allow`, on the bucket: whether the event is permitted, and the bucket after it.
  unfoldable pub count : ℕ → ℕ → ℕ → Bucket → Bucket × Bool
  unfolding estimate
  count limit window now b =
      if f.ge (estimate window now b) (int f limit)
      then (b, false)
      else (record b { curr_count = b.curr_count + 1 }, true)

  unfoldable pub allow : Bytes → ℕ → Limiter → Limiter × Bool
  unfolding truncate bucket_of advance count same
  allow key now l =
      let start = truncate now l.window in
      let counted = count l.limit l.window now (advance l.window start (bucket_of key start l)) in
      (record l { buckets = λ k. if same key k then some counted.0 else l.buckets k }, counted.1)
