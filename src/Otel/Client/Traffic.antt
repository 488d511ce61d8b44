-- ===== src/Otel/Client/Traffic.antt =====
-- The values that the client's rounds record, and the times at which they arrive.
use golang_toys.Base.{
  ◌≡◌, refl, ℕ, ◌+◌, ◌/◌, ◌≤◌, ◌<◌, List, [], ◌∷◌, ◌++◌, Option, none, some, map, arith,
  if◌then◌else◌, All, All-append, All-imp,
}
use golang_toys.Base.Bytes.{codes}
use golang_toys.Otel.Fingerprint.{fingerprint_attrs}
use golang_toys.Otel.Store.{epoch_of}
use golang_toys.Otel.Store.Ring.{latest}
use golang_toys.Otel.Store.History.{Write, IsInTime, IsBy, epoch_mono}
use golang_toys.Otel.Client.Print.{Point, RoundData, point_attributes}
use golang_toys.Otel.Client.Run.{is_before_last}

-- Calls none of which is earlier than the one before it.
abbrev pub IsChain {ℓ} : {V : Type ℓ} → ℕ → List (Write V) → Type 0
IsChain from [] = Unit
IsChain from (x ∷ xs) = (from ≤ x.now) × IsChain x.now xs

module _ {ℓ} {V : Type ℓ} where
  -- Such calls are all in time.
  pub chain-IsInTime :
      (w n from : ℕ) (last : Option ℕ) (xs : List (Write V))
      → 0 < w
      → 0 < n
      → IsBy last (epoch_of w from)
      → IsChain from xs
      → IsInTime w n xs last
  chain-IsInTime w n from last [] pw pn by h = tt
  chain-IsInTime w n from none (x ∷ xs) pw pn by h =
      (refl, chain-IsInTime w n x.now (some (x.now / w)) xs pw pn (omega arith) h.1)
  chain-IsInTime w n from (some last) (x ∷ xs) pw pn by h =
      let later = epoch_mono w from x.now pw h.0 in
      (
        ground arith,
        chain-IsInTime w n x.now (some (latest (some last) (x.now / w))) xs pw pn (ground arith)
            h.1,
      )

  pub IsChain-weaken : (a b : ℕ) (xs : List (Write V)) → a ≤ b → IsChain b xs → IsChain a xs
  IsChain-weaken a b [] le h = tt
  IsChain-weaken a b (x ∷ xs) le h = (omega arith, h.1)

  -- Calls of one time before later ones.
  IsChain-append :
      (t : ℕ) (xs ys : List (Write V))
      → All (λ x. x.now ≡ t) xs
      → IsChain t ys
      → IsChain t (xs ++ ys)
  IsChain-append t [] ys a h = h
  IsChain-append t (x ∷ xs) ys a h = (omega (arith, a.0), rw a.0 (IsChain-append t xs ys a.1 h))

-- The clock: a call arrives some time after it is made, and a sleep takes `pause`.
module _ (lag : ℕ → ℕ) (pause : ℕ) where
  abbrev pub arrival : ℕ → ℕ
  arrival clock = clock + lag clock

  abbrev pub next_clock : ℕ → ℕ → ℕ → ℕ
  next_clock i n clock = if is_before_last i n then arrival clock + pause else arrival clock

module _ {ℓ} {V : Type ℓ} where
  -- The value that a point of a round stands for, at a time.
  abbrev pub write_at : ℕ → Point V → Write V
  write_at now p = record {
    key = record {
      name = codes "http.server.request.count";
      attributes = fingerprint_attrs (point_attributes p);
    };
    value = p.value;
    now = now;
  }

  module _ (lag : ℕ → ℕ) (pause : ℕ) where
    -- All values that the rounds from index `i` of `n` on record.
    abbrev pub round_writes : ℕ → ℕ → ℕ → List (RoundData V) → List (Write V)
    round_writes i n clock [] = []
    round_writes i n clock (r ∷ rs) =
        map (write_at (arrival lag pause clock)) r.points
        ++ round_writes (i + 1) n (next_clock lag pause i n clock) rs

    abbrev pub end_clock : ℕ → ℕ → ℕ → List (RoundData V) → ℕ
    end_clock i n clock [] = clock
    end_clock i n clock (r ∷ rs) = end_clock (i + 1) n (next_clock lag pause i n clock) rs

    map-write_at_now : (t : ℕ) (ps : List (Point V)) → All (λ x. x.now ≡ t) (map (write_at t) ps)
    map-write_at_now t [] = tt
    map-write_at_now t (p ∷ ps) = (refl, map-write_at_now t ps)

    -- The rounds come one after the other.
    pub round_writes-IsChain :
        (i n clock : ℕ) (rs : List (RoundData V)) → IsChain clock (round_writes i n clock rs)
    round_writes-IsChain i n clock [] = tt
    round_writes-IsChain i n clock (r ∷ rs) =
        IsChain-weaken clock (arrival lag pause clock) _ (omega arith) (
          IsChain-append (arrival lag pause clock)
            (map (write_at (arrival lag pause clock)) r.points) _
            (map-write_at_now (arrival lag pause clock) r.points)
            (IsChain-weaken (arrival lag pause clock) (next_clock lag pause i n clock) _
              (ground arith) (round_writes-IsChain (i + 1) n (next_clock lag pause i n clock) rs)))

    pub end_clock_le : (i n clock : ℕ) (rs : List (RoundData V)) → clock ≤ end_clock i n clock rs
    end_clock_le i n clock [] = omega arith
    end_clock_le i n clock (r ∷ rs) =
        ground (arith, end_clock_le (i + 1) n (next_clock lag pause i n clock) rs)

    -- No value arrives after the end.
    pub round_writes_by :
        (i n clock : ℕ) (rs : List (RoundData V))
        → All (λ x. x.now ≤ end_clock i n clock rs) (round_writes i n clock rs)
    round_writes_by i n clock [] = tt
    round_writes_by i n clock (r ∷ rs) =
        let later = end_clock_le (i + 1) n (next_clock lag pause i n clock) rs in
        All-append (λ x. x.now ≤ end_clock i n clock (r ∷ rs))
          (map (write_at (arrival lag pause clock)) r.points) _
          (All-imp {P = λ x. x.now ≡ arrival lag pause clock}
            {Q = λ x. x.now ≤ end_clock i n clock (r ∷ rs)} (λ x e. ground (arith, later))
            (map (write_at (arrival lag pause clock)) r.points)
            (map-write_at_now (arrival lag pause clock) r.points))
          (round_writes_by (i + 1) n (next_clock lag pause i n clock) rs)
