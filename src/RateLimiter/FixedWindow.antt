-- ===== src/RateLimiter/FixedWindow.antt =====
-- rate-limiter/fixedwindow/fixedwindow.go
pub mod Bound
use golang_toys.Base.{
  ℕ, zero, suc, ◌+◌, ◌-◌, ◌%◌, Bool, true, false, Option, none, some, List, [], ◌∷◌, if◌then◌else◌,
  ltb, leb, ◌==◌, not,
}
use golang_toys.Base.Bytes.{Bytes}
use golang_toys.Cassandra.Entry.{same}

pub record Bucket : Type 0 where
  pub window_start : ℕ
  pub count : ℕ

pub record Limiter : Type 0 where
  pub limit : ℕ
  pub window : ℕ
  pub buckets : Bytes → Option Bucket

unfoldable pub new_limiter : ℕ → ℕ → Limiter
new_limiter limit window = record { limit = limit; window = window; buckets = λ _. none }

-- `now.Truncate(window)`, from the zero time.
unfoldable pub truncate : ℕ → ℕ → ℕ
truncate t d = if d == 0 then t else t - t % d

-- `l.buckets[key]`: the zero bucket where there is none.
unfoldable pub bucket_of : Bytes → Limiter → Bucket
bucket_of key l = elim (l.buckets key) [
  | some b ↦ b
  | none ↦ record { window_start = 0; count = 0 }
]

-- The bucket that the call counts in: a new one in a new window.
unfoldable pub current : Bytes → ℕ → Limiter → Bucket
unfolding bucket_of
current key start l =
    let b = bucket_of key l in
    if not (b.window_start == start) then record { window_start = start; count = 0 } else b

unfoldable pub allow : Bytes → ℕ → Limiter → Limiter × Bool
unfolding truncate current same
allow key now l =
    let b = current key (truncate now l.window) l in
    if leb l.limit b.count then (l, false) else (
      record l {
        buckets = λ k. if same key k then some (record b { count = b.count + 1 }) else l.buckets k;
      },
      true,
    )
