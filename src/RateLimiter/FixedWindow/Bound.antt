-- ===== src/RateLimiter/FixedWindow/Bound.antt =====
-- No more than `limit` events of a key are admitted in a window.
use native.Mathlib.Nat.{div-add-mod, le-div_iff_mul-le, div-mul-le_self, le_trans}
use golang_toys.Base.{
  ℕ, ◌+◌, ◌*◌, ◌/◌, ◌<◌, ◌≤◌, ◌≡◌, refl, ap, inl, inr, ◌⊎◌, Bool, true, false, List, [], ◌∷◌,
  if◌then◌else◌, ltb, leb, ◌==◌, not, arith, ◌&&◌,
}
use golang_toys.Base.Bytes.{Bytes}
use golang_toys.Cassandra.Entry.{same, same→eq}
use golang_toys.RateLimiter.Interface.{Event, NeverBack}
use golang_toys.RateLimiter.FixedWindow.{Limiter, truncate, bucket_of, current, allow, new_limiter}

div_mono : (t u d : ℕ) → 0 < d → t ≤ u → t / d ≤ u / d
div_mono t u d p h = (le-div_iff_mul-le p).1 (le_trans (div-mul-le_self t d) h)

pub truncate_lem : (t d : ℕ) → 0 < d → truncate t d ≡ t / d * d
unfolding truncate
truncate_lem t d p = ground (arith, div-add-mod t d)

pub truncate_mono : (t u d : ℕ) → 0 < d → t ≤ u → truncate t d ≤ truncate u d
truncate_mono t u d p h =
    rw (truncate_lem t d p, truncate_lem u d p) (scale (t / d) (u / d) d (div_mono t u d p h))
  where
    scale : (a b d : ℕ) → a ≤ b → a * d ≤ b * d
    scale a b d h = grind arith

abbrev pub one_if : Bool → ℕ
one_if true = 1
one_if false = 0

-- How many events of a key are admitted in the window that starts at `start`.
unfoldable pub admitted : Bytes → ℕ → List Event → Limiter → ℕ
unfolding allow
admitted key start [] l = 0
admitted key start (e ∷ es) l =
    let o = allow e.key e.now l in
    one_if (o.1 && (same e.key key && (truncate e.now l.window == start)))
    + admitted key start es o.0

-- How many of the events are of the key and in the window.
abbrev pub asked : Bytes → ℕ → ℕ → List Event → ℕ
asked key start window [] = 0
asked key start window (e ∷ es) =
    one_if (same e.key key && (truncate e.now window == start)) + asked key start window es

abbrev pub at_most : ℕ → ℕ → ℕ
at_most a b = if leb a b then a else b

-- What the bucket of a key has counted in the window.
abbrev spent : Bytes → ℕ → Limiter → ℕ
spent key start l = let b = bucket_of key l in if b.window_start == start then b.count else 0

-- What one call does to the buckets.
pub allow_bucket :
    (key k : Bytes) (now : ℕ) (l : Limiter)
    → let o = allow key now l in
      let b = current key (truncate now l.window) l in
      bucket_of k o.0 ≡ (
        if o.1 && same key k
        then record { window_start = b.window_start; count = b.count + 1 }
        else bucket_of k l)
unfolding allow bucket_of
allow_bucket key k now l = ground arith

pub allow_params :
    (key : Bytes) (now : ℕ) (l : Limiter)
    → let o = allow key now l in (o.0.window ≡ l.window) × (o.0.limit ≡ l.limit)
unfolding allow
allow_params key now l = ground arith

pub allow_verdict :
    (key : Bytes) (now : ℕ) (l : Limiter)
    → (allow key now l).1 ≡ not (leb l.limit ((current key (truncate now l.window) l).count))
unfolding allow
allow_verdict key now l = ground arith

lt_le_trans : {a b c : ℕ} → a < b → b ≤ c → a < c
lt_le_trans h k = omega arith

-- No event of a window that is over is asked for again.
asked_past :
    (key : Bytes) (start window t : ℕ) (es : List Event)
    → 0 < window
    → start < truncate t window
    → NeverBack t es
    → asked key start window es ≡ 0
asked_past key start window t [] p h n = refl
asked_past key start window t (e ∷ es) p h n = ground (
  arith,
  truncate_mono t e.now window p n.0,
  asked_past key start window e.now es p (lt_le_trans h (truncate_mono t e.now window p n.0)) n.1,
)

-- One call keeps what the count rests on.
allow-Kept :
    (key : Bytes) (t : ℕ) (e : Event) (l : Limiter)
    → 0 < l.window
    → t ≤ e.now
    → (bucket_of key l).count ≤ l.limit
    → (bucket_of key l).window_start ≤ truncate t l.window
    → let o = (allow e.key e.now l).0 in
      ((bucket_of key o).count ≤ o.limit)
      × ((bucket_of key o).window_start ≤ truncate e.now o.window)
unfolding current
allow-Kept key t e l p h c w = ground (
  arith,
  allow_bucket e.key key e.now l,
  allow_params e.key e.now l,
  allow_verdict e.key e.now l,
  truncate_mono t e.now l.window p h,
  same→eq e.key key,
)

-- One call moves what is left to admit by what it admits.
allow-spent :
    (key : Bytes) (start t : ℕ) (e : Event) (l : Limiter)
    → (bucket_of key l).count ≤ l.limit
    → (bucket_of key l).window_start ≤ truncate e.now l.window
    → let o = allow e.key e.now l in
      let hit = same e.key key && (truncate e.now l.window == start) in
      (hit ≡ true
        → (o.1 ≡ ltb (spent key start l) l.limit)
          × (spent key start o.0 ≡ one_if o.1 + spent key start l))
      × (hit ≡ false
          → (spent key start o.0 ≡ spent key start l)
            ⊎ ((spent key start o.0 ≡ 0) × (start < truncate e.now l.window)))
unfolding current
allow-spent key start t e l c w = ground (
  arith,
  allow_bucket e.key key e.now l,
  allow_params e.key e.now l,
  allow_verdict e.key e.now l,
  same→eq e.key key,
)

spent-Bounded :
    (key : Bytes) (start : ℕ) (l : Limiter)
    → (bucket_of key l).count ≤ l.limit
    → spent key start l ≤ l.limit
spent-Bounded key start l c = ground arith

-- The arithmetic of one call: `s` and `s'` are counted before and after, `a` admitted of `q` later.
count_step :
    (limit s s' a q : ℕ) (o hit : Bool)
    → s ≤ limit
    → (hit ≡ true → (o ≡ ltb s limit) × (s' ≡ one_if o + s))
    → (hit ≡ false → (s' ≡ s) ⊎ ((s' ≡ 0) × (q ≡ 0)))
    → a + s' ≡ at_most limit (q + s')
    → one_if (o && hit) + a + s ≡ at_most limit (one_if hit + q + s)
count_step limit s s' a q o true c y n h = ground (arith, y refl)
count_step limit s s' a q true false c y n h = ground (arith, n refl)
count_step limit s s' a q false false c y n h = ground (arith, n refl)

same_params :
    {limit limit' q : ℕ} (a s q' : ℕ)
    → limit' ≡ limit
    → q' ≡ q
    → a + s ≡ at_most limit' (q' + s)
    → a + s ≡ at_most limit (q + s)
same_params a s q' l h e = cc

admitted-asked :
    (key : Bytes) (start t : ℕ) (es : List Event) (l : Limiter)
    → 0 < l.window
    → NeverBack t es
    → (bucket_of key l).count ≤ l.limit
    → (bucket_of key l).window_start ≤ truncate t l.window
    → admitted key start es l + spent key start l
      ≡ at_most l.limit (asked key start l.window es + spent key start l)
unfolding admitted
admitted-asked key start t [] l p n c w = ground (arith, spent-Bounded key start l c)
admitted-asked key start t (e ∷ es) l p n c w =
    let moved = allow-spent key start t e l c (le_trans w (truncate_mono t e.now l.window p n.0)) in
    count_step l.limit (spent key start l) (spent key start o.0) (admitted key start es o.0)
      (asked key start l.window es) o.1 hit (spent-Bounded key start l c) moved.0
      (λ h. over (moved.1 h))
      (same_params _ _ (asked key start o.0.window es) ((allow_params e.key e.now l).1)
        (ap (λ w. asked key start w es) ((allow_params e.key e.now l).0))
        (admitted-asked key start e.now es o.0 (rw ((allow_params e.key e.now l).0) p) n.1
          (allow-Kept key t e l p n.0 c w).0 (allow-Kept key t e l p n.0 c w).1))
  where
    o : Limiter × Bool
    o = allow e.key e.now l

    hit : Bool
    hit = same e.key key && (truncate e.now l.window == start)

    over :
        (spent key start o.0 ≡ spent key start l)
          ⊎ ((spent key start o.0 ≡ 0) × (start < truncate e.now l.window))
        → (spent key start o.0 ≡ spent key start l)
          ⊎ ((spent key start o.0 ≡ 0) × (asked key start l.window es ≡ 0))
    over (inl x) = inl x
    over (inr x) = inr (x.0, asked_past key start l.window e.now es p x.1 n.1)

-- From a new limiter with a positive window, whatever the limit and however calls of other keys are
-- mixed in, when the clock never goes back: of the calls of a key in the window that starts at
-- `start`, the limiter admits exactly as many as were made, up to `limit`.
pub admitted-new_limiter :
    (key : Bytes) (start limit window : ℕ) (es : List Event)
    → 0 < window
    → NeverBack 0 es
    → admitted key start es (new_limiter limit window) ≡ at_most limit (asked key start window es)
unfolding new_limiter bucket_of
admitted-new_limiter key start limit window es p n =
    let h =
      admitted-asked key start 0 es (new_limiter limit window) p n (omega arith) (omega arith) in
    ground (arith, h)
