-- ===== src/RateLimiter/LeakyBucket.antt =====
-- rate-limiter/leakybucket/leakybucket.go
pub mod Capped
use golang_toys.Base.{
  ℕ, zero, suc, ◌+◌, ◌-◌, ◌≡◌, refl, Bool, true, false, Option, none, some, if◌then◌else◌,
  Bool-cases, inl, inr,
}
use golang_toys.Base.Bytes.{Bytes}
use golang_toys.Cassandra.Entry.{same}
use golang_toys.RateLimiter.Float.{Float, int, since}

pub record Bucket {ℓ} (F : Type ℓ) : Type ℓ where
  pub level : F
  pub last_leak : ℕ

pub record Limiter {ℓ} (F : Type ℓ) : Type ℓ where
  pub capacity : F
  pub leak_rate : F
  pub buckets : Bytes → Option (Bucket F)

module _ {ℓ} {F : Type ℓ} where
  unfoldable pub new_limiter : F → F → Limiter F
  new_limiter capacity leak_rate = record {
    capacity = capacity;
    leak_rate = leak_rate;
    buckets = λ _. none;
  }

  module _ (f : Float F) where
    -- The level after the time since the last leak.
    unfoldable pub drained : F → F → F → F
    drained leak_rate elapsed level =
        let less = f.sub level (f.mul elapsed leak_rate) in
        if f.lt less (int f 0) then int f 0 else less

    unfoldable pub leak : F → ℕ → Bucket F → Bucket F
    unfolding drained
    leak leak_rate now b =
        let elapsed = f.seconds (since now b.last_leak) in
        if f.lt (int f 0) elapsed
        then record { level = drained leak_rate elapsed b.level; last_leak = now }
        else b

    -- A new bucket is empty.
    unfoldable pub bucket_at : Bytes → ℕ → Limiter F → Bucket F
    unfolding leak
    bucket_at key now l = elim (l.buckets key) [
      | none ↦ record { level = int f 0; last_leak = now }
      | some b ↦ leak l.leak_rate now b
    ]

    -- The event goes in if there is room for it.
    unfoldable pub pour : F → Bucket F → Bucket F × Bool
    pour capacity b =
        if f.lt capacity (f.add b.level (int f 1))
        then (b, false)
        else (record b { level = f.add b.level (int f 1) }, true)

    unfoldable pub allow : Bytes → ℕ → Limiter F → Limiter F × Bool
    unfolding bucket_at pour same
    allow key now l =
        let poured = pour l.capacity (bucket_at key now l) in
        (record l { buckets = λ k. if same key k then some poured.0 else l.buckets k }, poured.1)
