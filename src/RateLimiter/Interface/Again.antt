-- ===== src/RateLimiter/Interface/Again.antt =====
-- A key that has been quiet for a window is served again.
use native.Mathlib.Nat.{mod-lt, div-add-mod}
use golang_toys.Base.{
  ℕ, ◌+◌, ◌≤◌, ◌<◌, ◌≡◌, refl, ap, ◌∙◌, inl, inr, true, List, [], ◌∷◌, arith, All, keep, length,
  leb, Bool-cases,
}
use golang_toys.Base.Bytes.{Bytes}
use golang_toys.RateLimiter.Interface.{Event, NeverBack, last_time, run}
use golang_toys.RateLimiter.Interface.Isolated.{fixed_window, sliding_log}
use golang_toys.RateLimiter.FixedWindow
use golang_toys.RateLimiter.FixedWindow.{truncate, current}
use golang_toys.RateLimiter.FixedWindow.Bound.{
  truncate_lem, truncate_mono, allow_bucket, allow_params, allow_verdict,
}
use golang_toys.RateLimiter.SlidingLog
use golang_toys.RateLimiter.SlidingLog.Live.{is_live, log, full-Tracks}
use golang_toys.RateLimiter.SlidingLog.Exact.{
  Follows, Follows-full, Follows-room, new_limiter-Follows, swept, granted, allow_full, allow_room,
}

-- No bucket is of a window later than that of `t`.
record IsBy (limit window t : ℕ) (l : FixedWindow.Limiter) : Type 0 where
  size : l.window ≡ window
  bound : l.limit ≡ limit
  by : (k : Bytes) → (FixedWindow.bucket_of k l).window_start ≤ truncate t window

allow-IsBy :
    (limit window t : ℕ) (e : Event) (l : FixedWindow.Limiter)
    → 0 < window
    → t ≤ e.now
    → IsBy limit window t l
    → IsBy limit window e.now (FixedWindow.allow e.key e.now l).0
unfolding current
allow-IsBy limit window t e l p le h = record {
  size = (allow_params e.key e.now l).0 ∙ h.size;
  bound = (allow_params e.key e.now l).1 ∙ h.bound;
  by = λ k. ground (
    arith,
    allow_bucket e.key k e.now l,
    truncate_mono t e.now window p le,
    h.by k,
    h.by e.key,
    h.size,
  );
}

run-IsBy :
    (limit window t : ℕ) (es : List Event) (l : FixedWindow.Limiter)
    → 0 < window
    → NeverBack t es
    → IsBy limit window t l
    → IsBy limit window (last_time t es) (run fixed_window es l)
run-IsBy limit window t [] l p n h = h
run-IsBy limit window t (e ∷ es) l p n h =
    run-IsBy limit window e.now es (FixedWindow.allow e.key e.now l).0 p n.1
      (allow-IsBy limit window t e l p n.0 h)

truncate_later :
    (t now window : ℕ) → 0 < window → t + window ≤ now → truncate t window < truncate now window
truncate_later t now window p h =
    rw (truncate_lem t window p, truncate_lem now window p)
      (ground (arith, mod-lt now p, div-add-mod now window, div-add-mod t window))

fixed_again :
    (limit window t now : ℕ) (key : Bytes) (l : FixedWindow.Limiter)
    → 0 < limit
    → 0 < window
    → t + window ≤ now
    → IsBy limit window t l
    → (FixedWindow.allow key now l).1 ≡ true
unfolding current
fixed_again limit window t now key l pl p h b =
    ground
      (arith, allow_verdict key now l, truncate_later t now window p h, b.by key, b.size, b.bound)

allow-Follows :
    (t : ℕ) (e : Event) (l : SlidingLog.Limiter) (h : Bytes → List ℕ)
    → t ≤ e.now
    → Follows t l h
    → let o = SlidingLog.allow e.key e.now l in
      (h' : Bytes → List ℕ) × Follows e.now o.0 h' × (o.0.window ≡ l.window) × (o.0.limit ≡ l.limit)
unfolding SlidingLog.store
allow-Follows t e l h le f =
    let b = swept e.key e.now l in
    elim (Bool-cases (leb (l.limit + b.head) (length b.ts))) [
      | inl full ↦ rw (allow_full e.key e.now l full) (h, Follows-full t e l h le f, refl, refl)
      | inr room ↦
          rw (allow_room e.key e.now l room)
            (granted e.key e.now h, Follows-room t e l h le f, refl, refl)
    ]

run-Follows :
    (t : ℕ) (es : List Event) (l : SlidingLog.Limiter) (h : Bytes → List ℕ)
    → NeverBack t es
    → Follows t l h
    → let l' = run sliding_log es l in
      (h' : Bytes → List ℕ) × Follows (last_time t es) l' h'
      × (l'.window ≡ l.window)
      × (l'.limit ≡ l.limit)
run-Follows t [] l h n f = (h, f, refl, refl)
run-Follows t (e ∷ es) l h n f =
    let one = allow-Follows t e l h n.0 f in
    let rest = run-Follows e.now es (SlidingLog.allow e.key e.now l).0 one.0 n.1 one.1 in
    (rest.0, rest.1, rest.2 ∙ one.2, rest.3 ∙ one.3)

-- No time of a window ago is live.
none_live :
    (window t now : ℕ) (ts : List ℕ)
    → t + window ≤ now
    → All (λ u. u ≤ t) ts
    → keep (is_live window now) ts ≡ []
none_live window t now [] h a = refl
none_live window t now (u ∷ ts) h a = ground (arith, none_live window t now ts h)

log_again :
    (t now : ℕ) (key : Bytes) (l : SlidingLog.Limiter) (h : Bytes → List ℕ)
    → 0 < l.limit
    → t + l.window ≤ now
    → Follows t l h
    → (SlidingLog.allow key now l).1 ≡ true
log_again t now key l h pl le f =
    let b = SlidingLog.bucket_of key l in
    let by : t ≤ now = omega arith in
    let quiet = (f key).agree now by ∙ none_live l.window t now (log b) le (f key).upto in
    ap (λ o. o.1)
      (allow_room key now l (
        full-Tracks l.limit l.window t now b (h key) by (f key)
        ∙ ap (λ ts. leb l.limit (length ts)) quiet
        ∙ ground arith))

-- After any calls to a new limiter at times that never go back, with a positive limit and a positive window: a
-- call of any key that comes a window or more after the last of them is permitted, by the fixed window and
-- by the sliding log.
pub allow_again :
    (limit window now : ℕ) (key : Bytes) (es : List Event)
    → 0 < limit
    → 0 < window
    → NeverBack 0 es
    → last_time 0 es + window ≤ now
    → ((FixedWindow.allow key now (run fixed_window es (FixedWindow.new_limiter limit window))).1
        ≡ true)
      × ((SlidingLog.allow key now (run sliding_log es (SlidingLog.new_limiter limit window))).1
          ≡ true)
unfolding FixedWindow.new_limiter SlidingLog.new_limiter FixedWindow.bucket_of
allow_again limit window now key es pl p n le =
    let fixed =
      run-IsBy limit window 0 es (FixedWindow.new_limiter limit window) p n
        (record { size = refl; bound = refl; by = λ k. omega arith }) in
    let log =
      run-Follows 0 es (SlidingLog.new_limiter limit window) (λ _. []) n
        (new_limiter-Follows limit window) in
    (
      fixed_again limit window (last_time 0 es) now key _ pl p le fixed,
      log_again (last_time 0 es) now key _ log.0 (rw log.3 pl) (rw log.2 le) log.1,
    )
