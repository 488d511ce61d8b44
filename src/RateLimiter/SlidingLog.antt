-- ===== src/RateLimiter/SlidingLog.antt =====
-- rate-limiter/slidinglog/slidinglog.go: a log of timestamps for each key, whose front may be dead.
pub mod Live
pub mod Exact
use golang_toys.Base.{
  ℕ, zero, suc, ◌+◌, ◌/◌, Bool, true, false, Option, none, some, List, [], ◌∷◌, ◌++◌, if◌then◌else◌,
  ltb, leb, length, drop, ◌&&◌,
}
use golang_toys.Base.Bytes.{Bytes}
use golang_toys.Cassandra.Entry.{same}

-- The live entries are those from `head` on.
pub record Bucket : Type 0 where
  pub ts : List ℕ
  pub head : ℕ

pub record Limiter : Type 0 where
  pub limit : ℕ
  pub window : ℕ
  pub buckets : Bytes → Option Bucket

unfoldable pub new_limiter : ℕ → ℕ → Limiter
new_limiter limit window = record { limit = limit; window = window; buckets = λ _. none }

-- `!t.After(now.Add(-window))`
abbrev pub is_expired : ℕ → ℕ → ℕ → Bool
is_expired window now t = leb (t + window) now

-- The loop that moves the head over the entries that it passes.
unfoldable pub evict : ℕ → ℕ → List ℕ → ℕ → ℕ
evict window now [] head = head
evict window now (t ∷ rest) head =
    let moved = evict window now rest (head + 1) in if is_expired window now t then moved else head

-- The copy to the front of the array.
unfoldable pub compact : Bucket → Bucket
compact b =
    if ltb 0 b.head && leb (length b.ts / 2) b.head
    then record { ts = drop b.head b.ts; head = 0 }
    else b

-- `l.buckets[key]`, or the bucket that the call makes.
unfoldable pub bucket_of : Bytes → Limiter → Bucket
bucket_of key l = elim (l.buckets key) [ some b ↦ b | none ↦ record { ts = []; head = 0 } ]

-- The bucket after eviction and compaction.
unfoldable pub cleaned : ℕ → ℕ → Bucket → Bucket
unfolding evict compact
cleaned window now b =
    compact (record { ts = b.ts; head = evict window now (drop b.head b.ts) b.head })

unfoldable pub store : Bytes → Bucket → Limiter → Limiter
unfolding same
store key b l = record l { buckets = λ k. if same key k then some b else l.buckets k }

-- A bucket is shared with the map, so a call that is refused has changed it, too. The test
-- `len(b.ts)-b.head >= l.limit` is written as a sum.
unfoldable pub allow : Bytes → ℕ → Limiter → Limiter × Bool
unfolding bucket_of cleaned store
allow key now l =
    let b = cleaned l.window now (bucket_of key l) in
    if leb (l.limit + b.head) (length b.ts)
    then (store key b l, false)
    else (store key (record b { ts = b.ts ++ (now ∷ []) }) l, true)
