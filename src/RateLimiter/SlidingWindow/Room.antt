-- ===== src/RateLimiter/SlidingWindow/Room.antt =====
-- What a window can still admit for a key, before and after a call moves the key's bucket.
use native.Mathlib.Nat.{mod-lt, le_trans}
use golang_toys.Base.{
  ℕ, ◌+◌, ◌-◌, ◌<◌, ◌≤◌, ◌≡◌, refl, ap, ◌∙◌, inl, inr, Option, none, some, if◌then◌else◌,
  Option-cases, ltb, ◌==◌, arith,
}
use golang_toys.Base.Bytes.{Bytes}
use golang_toys.RateLimiter.FixedWindow.{truncate}
use golang_toys.RateLimiter.Interface.{Event}
use golang_toys.RateLimiter.FixedWindow.Bound.{truncate_mono}
use golang_toys.RateLimiter.SlidingWindow.{Bucket, Limiter, bucket_of, advance}

pub within_window : (t d : ℕ) → 0 < d → (truncate t d ≤ t) × (t ≤ truncate t d + d)
unfolding truncate
within_window t d p = (ground arith, ground (arith, mod-lt t p))

-- The events that a window can still admit for a key, if they come in order.
abbrev pub room : ℕ → ℕ → Option Bucket → ℕ
room limit start none = limit
room limit start (some b) =
    if b.curr_start == start
    then limit - b.curr_count
    else if ltb start b.curr_start
    then 0
    else limit

-- A bucket's count is within the limit, and its window is not after the time.
abbrev pub IsWithin : ℕ → ℕ → ℕ → Option Bucket → Type 0
IsWithin limit window t none = Unit
IsWithin limit window t (some b) = (b.curr_count ≤ limit) × (b.curr_start ≤ truncate t window)

pub advance_start : (window start : ℕ) (b : Bucket) → (advance window start b).curr_start ≡ start
unfolding advance
advance_start window start b = ground arith

advance_count :
    (window start limit : ℕ) (b : Bucket)
    → b.curr_count ≤ limit
    → (advance window start b).curr_count ≤ limit
unfolding advance
advance_count window start limit b h = ground arith

advance_room :
    (limit window start s : ℕ) (b : Bucket)
    → b.curr_start ≤ s
    → room limit start (some (advance window s b)) ≤ room limit start (some b)
unfolding advance
advance_room limit window start s b h = ground arith

fresh_room :
    (limit start s : ℕ)
    → room limit start (some (record { curr_start = s; curr_count = 0; prev_count = 0 })) ≤ limit
fresh_room limit start s = ground arith

-- The bucket that a call works on, from the one that is there.
abbrev pub or_new : ℕ → Option Bucket → Bucket
or_new s none = record { curr_start = s; curr_count = 0; prev_count = 0 }
or_new s (some b) = b

pub or_new-advance :
    (limit window start t now : ℕ) (o : Option Bucket)
    → 0 < window
    → t ≤ now
    → IsWithin limit window t o
    → (room limit start
          (some (advance window (truncate now window) (or_new (truncate now window) o)))
        ≤ room limit start o)
      × ((advance window (truncate now window) (or_new (truncate now window) o)).curr_count ≤ limit)
or_new-advance limit window start t now none p h w = (
  le_trans
      (advance_room limit window start (truncate now window) (or_new (truncate now window) none)
        (omega arith))
      (fresh_room limit start (truncate now window)),
  advance_count window (truncate now window) limit (or_new (truncate now window) none)
      (omega arith),
)
or_new-advance limit window start t now (some b) p h w = (
  advance_room limit window start (truncate now window) b
      (le_trans w.1 (truncate_mono t now window p h)),
  advance_count window (truncate now window) limit b w.0,
)

bucket_of_lem : (key : Bytes) (s : ℕ) (l : Limiter) → bucket_of key s l ≡ or_new s (l.buckets key)
unfolding bucket_of
bucket_of_lem key s l = elim (Option-cases (l.buckets key)) [
  | inl n ↦ rw (bucket_of, n) refl
  | inr b ↦ rw (bucket_of, b.1) refl
]

pub found_bucket :
    (e : Event) (key : Bytes) (l : Limiter)
    → e.key ≡ key
    → bucket_of e.key (truncate e.now l.window) l ≡ or_new (truncate e.now l.window) (l.buckets key)
found_bucket e key l h =
    bucket_of_lem e.key (truncate e.now l.window) l
    ∙ ap (λ k. or_new (truncate e.now l.window) (l.buckets k)) h

pub later :
    (limit window t now : ℕ) (o : Option Bucket)
    → 0 < window
    → t ≤ now
    → IsWithin limit window t o
    → IsWithin limit window now o
later limit window t now none p h w = tt
later limit window t now (some b) p h w = (w.0, le_trans w.1 (truncate_mono t now window p h))
