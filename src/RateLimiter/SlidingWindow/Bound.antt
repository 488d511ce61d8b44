-- ===== src/RateLimiter/SlidingWindow/Bound.antt =====
-- At most `limit` events of a key in a window.
use native.Mathlib.Nat.{le_trans}
use mathlib.Core.Path.{subst}
use native.Mathlib.Decide.{dec_lt}
use golang_toys.Base.{
  ℕ, ◌+◌, ◌-◌, ◌<◌, ◌≤◌, ◌≡◌, refl, ap, ◌∙◌, inl, inr, Bool, true, false, ◌&&◌, Option, some, List,
  [], ◌∷◌, Bool-cases, ◌==◌, arith,
}
use golang_toys.Base.Bytes.{Bytes}
use golang_toys.Base.Int.{pos}
use golang_toys.Cassandra.Entry.{same, same→eq}
use golang_toys.RateLimiter.Float.{Float, int, since, IsMonotone}
use golang_toys.RateLimiter.FixedWindow.{truncate}
use golang_toys.RateLimiter.Interface.{Event, NeverBack}
use golang_toys.RateLimiter.FixedWindow.Bound.{one_if}
use golang_toys.RateLimiter.SlidingWindow.{
  Bucket, Limiter, new_limiter, bucket_of, advance, estimate, count, allow,
}
use golang_toys.RateLimiter.SlidingWindow.Room.{
  within_window, room, IsWithin, advance_start, or_new, or_new-advance, found_bucket, later,
}

since_lem : (now start : ℕ) → start ≤ now → since now start ≡ pos (now - start)
since_lem now start h = ground arith

module _ {ℓ} {F : Type ℓ} (f : Float F) (laws : IsMonotone f) where
  -- The estimate is at least the count of the current window.
  estimate_above :
      (window now : ℕ) (b : Bucket)
      → 0 < window
      → b.curr_start ≤ now
      → now ≤ b.curr_start + window
      → f.ge (estimate f window now b) (int f b.curr_count) ≡ true
  unfolding estimate
  estimate_above window now b p le lt = laws.add_above _ b.curr_count (
      ap
        (λ z.
          f.ge (f.mul (int f b.prev_count) (f.sub (int f 1) (f.div (f.of_int z) (int f window))))
            (int f 0))
        (since_lem now b.curr_start le)
      ∙ laws.weighted b.prev_count (now - b.curr_start) window (omega arith) p)

  -- Where a bucket is full, nothing is permitted.
  count_full :
      (limit window now : ℕ) (b : Bucket)
      → 0 < window
      → b.curr_start ≤ now
      → now ≤ b.curr_start + window
      → f.ge (estimate f window now b) (int f limit) ≡ false
      → b.curr_count < limit
  count_full limit window now b p le lt free = elim (dec_lt b.curr_count limit) [
    | yes h ↦ h
    | no h ↦ ground (
      arith,
      free,
      laws.ge_trans (estimate f window now b) (int f b.curr_count) (int f limit)
          (estimate_above window now b p le lt) (laws.ge_int b.curr_count limit (omega arith)),
    )
  ]

  -- What an event of the key takes from the room, and what it leaves.
  count_room :
      (limit window start now : ℕ) (b : Bucket)
      → 0 < window
      → b.curr_start ≤ now
      → now ≤ b.curr_start + window
      → b.curr_count ≤ limit
      → (one_if ((count f limit window now b).1 && (b.curr_start == start))
            + room limit start (some ((count f limit window now b).0))
          ≤ room limit start (some b))
        × ((count f limit window now b).0.curr_count ≤ limit)
        × ((count f limit window now b).0.curr_start ≡ b.curr_start)
  unfolding count
  count_room limit window start now b p le lt h =
      elim (Bool-cases (f.ge (estimate f window now b) (int f limit))) [
        | inl full ↦ rw full (ground arith, h, refl)
        | inr free ↦
            let below = count_full limit window now b p le lt free in
            rw free (ground arith, omega arith, refl)
      ]

  -- What a call takes from the room of the key's bucket.
  call_room :
      (limit window start t now : ℕ) (o : Option Bucket)
      → 0 < window
      → t ≤ now
      → IsWithin limit window t o
      → let s = truncate now window in
        let c = count f limit window now (advance window s (or_new s o)) in
        (one_if (c.1 && (s == start)) + room limit start (some (c.0)) ≤ room limit start o)
        × IsWithin limit window now (some (c.0))
  call_room limit window start t now o p h w =
      let s = truncate now window in
      let b = advance window s (or_new s o) in
      let at = advance_start window s (or_new s o) in
      let bounds = within_window now window p in
      let before = or_new-advance limit window start t now o p h w in
      let c =
        count_room limit window start now b p (omega (arith, at, bounds))
          (omega (arith, at, bounds)) before.1 in
      (
        le_trans
            (subst
              (λ z.
                one_if ((count f limit window now b).1 && (z == start))
                  + room limit start (some ((count f limit window now b).0))
                ≤ room limit start (some b))
              at c.0)
            before.0,
        (c.1, omega (arith, c.2, at)),
      )

  -- The verdict on an event, if it is of the key and the window.
  abbrev pub hit : Bytes → ℕ → Event → Limiter → Bool → Bool
  hit key start e l verdict = verdict && (same e.key key && (truncate e.now l.window == start))

  -- The events of a sequence that are of the key and the window and are permitted.
  abbrev pub admitted : Bytes → ℕ → List Event → Limiter → ℕ
  admitted key start [] l = 0
  admitted key start (e ∷ es) l =
      let o = allow f e.key e.now l in one_if (hit key start e l o.1) + admitted key start es o.0

  allow_room :
      (key : Bytes) (start t : ℕ) (e : Event) (l : Limiter)
      → 0 < l.window
      → t ≤ e.now
      → IsWithin l.limit l.window t (l.buckets key)
      → (one_if (hit key start e l (allow f e.key e.now l).1)
            + room l.limit start ((allow f e.key e.now l).0.buckets key)
          ≤ room l.limit start (l.buckets key))
        × IsWithin l.limit l.window e.now ((allow f e.key e.now l).0.buckets key)
  unfolding allow bucket_of
  allow_room key start t e l p h w = elim (Bool-cases (same e.key key)) [
    | inl mine ↦
        rw (mine, found_bucket e key l (same→eq e.key key mine))
          (call_room l.limit l.window start t e.now (l.buckets key) p h w)
    | inr other ↦ rw other (ground arith, later l.limit l.window t e.now (l.buckets key) p h w)
  ]

  admitted_room :
      (key : Bytes) (start t : ℕ) (es : List Event) (l : Limiter)
      → 0 < l.window
      → NeverBack t es
      → IsWithin l.limit l.window t (l.buckets key)
      → admitted key start es l ≤ room l.limit start (l.buckets key)
  unfolding allow
  admitted_room key start t [] l p n w = omega arith
  admitted_room key start t (e ∷ es) l p n w =
      let one = allow_room key start t e l p n.0 w in
      omega (arith, one.0, admitted_room key start e.now es ((allow f e.key e.now l).0) p n.1 one.1)

  -- Of events that come in order, the limiter admits at most `limit` of a key in each window that is aligned
  -- to its length, whatever the counts of the windows before.
  pub admitted_at_most :
      (key : Bytes) (start limit window : ℕ) (es : List Event)
      → 0 < window
      → NeverBack 0 es
      → admitted key start es (new_limiter limit window) ≤ limit
  unfolding new_limiter
  admitted_at_most key start limit window es p n =
      admitted_room key start 0 es (new_limiter limit window) p n tt
