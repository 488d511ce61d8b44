-- ===== src/RateLimiter/TokenBucket.antt =====
-- rate-limiter/tokenbucket/tokenbucket.go
pub mod Capped
use golang_toys.Base.{
  ℕ, zero, suc, ◌+◌, ◌-◌, ◌≡◌, refl, Bool, true, false, Option, none, some, if◌then◌else◌,
  Bool-cases, inl, inr,
}
use golang_toys.Base.Bytes.{Bytes}
use golang_toys.Cassandra.Entry.{same}
use golang_toys.RateLimiter.Float.{Float, int, since}

pub record Bucket {ℓ} (F : Type ℓ) : Type ℓ where
  pub tokens : F
  pub last_refill : ℕ

pub record Limiter {ℓ} (F : Type ℓ) : Type ℓ where
  pub capacity : F
  pub rate : F
  pub buckets : Bytes → Option (Bucket F)

module _ {ℓ} {F : Type ℓ} where
  unfoldable pub new_limiter : F → F → Limiter F
  new_limiter capacity rate = record { capacity = capacity; rate = rate; buckets = λ _. none }

  module _ (f : Float F) where
    -- The tokens after the time since the last refill.
    unfoldable pub refilled : F → F → F → F → F
    refilled capacity rate elapsed tokens =
        let more = f.add tokens (f.mul elapsed rate) in
        if f.lt capacity more then capacity else more

    unfoldable pub refill : F → F → ℕ → Bucket F → Bucket F
    unfolding refilled
    refill capacity rate now b =
        let elapsed = f.seconds (since now b.last_refill) in
        if f.lt (int f 0) elapsed
        then record { tokens = refilled capacity rate elapsed b.tokens; last_refill = now }
        else b

    -- A new bucket is full.
    unfoldable pub bucket_at : Bytes → ℕ → Limiter F → Bucket F
    unfolding refill
    bucket_at key now l = elim (l.buckets key) [
      | none ↦ record { tokens = l.capacity; last_refill = now }
      | some b ↦ refill l.capacity l.rate now b
    ]

    -- One token is taken if there is one.
    unfoldable pub consume : Bucket F → Bucket F × Bool
    consume b =
        if f.lt b.tokens (int f 1)
        then (b, false)
        else (record b { tokens = f.sub b.tokens (int f 1) }, true)

    unfoldable pub allow : Bytes → ℕ → Limiter F → Limiter F × Bool
    unfolding bucket_at consume same
    allow key now l =
        let taken = consume (bucket_at key now l) in
        (record l { buckets = λ k. if same key k then some taken.0 else l.buckets k }, taken.1)
