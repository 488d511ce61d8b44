-- ===== src/RateLimiter/LeakyBucket/Capped.antt =====
-- No bucket is filled above its capacity.
use golang_toys.Base.{ℕ, ◌≡◌, inl, inr, false, Option, none, some, Bool-cases}
use golang_toys.Base.Bytes.{Bytes}
use golang_toys.Cassandra.Entry.{same}
use golang_toys.RateLimiter.Float.{Float, int, since, HasCaps}
use golang_toys.RateLimiter.LeakyBucket.{Bucket, Limiter, drained, leak, bucket_at, pour, allow}

module _ {ℓ} {F : Type ℓ} (f : Float F) (laws : HasCaps f) where
  abbrev IsBelow : F → Option (Bucket F) → Type 0
  IsBelow c none = Unit
  IsBelow c (some b) = f.lt c b.level ≡ false

  -- The rate and the capacity are not negative.
  pub record IsCapped (l : Limiter F) : Type 0 where
    pub rate : f.lt l.leak_rate (int f 0) ≡ false
    pub room : f.lt l.capacity (int f 0) ≡ false
    pub below : (key : Bytes) → IsBelow l.capacity (l.buckets key)

  leak-IsBelow :
      (c rate : F) (now : ℕ) (b : Bucket F)
      → f.lt rate (int f 0) ≡ false
      → f.lt c (int f 0) ≡ false
      → IsBelow c (some b)
      → IsBelow c (some (leak f rate now b))
  unfolding leak drained
  leak-IsBelow c rate now b r n h =
      let elapsed = f.seconds (since now b.last_leak) in
      elim (Bool-cases (f.lt (int f 0) (f.seconds (since now b.last_leak)))) [
        | inr still ↦ rw still h
        | inl passed ↦ elim (Bool-cases (f.lt (f.sub b.level (f.mul elapsed rate)) (int f 0))) [
          | inl under ↦ rw (passed, under) n
          | inr left ↦
              rw (passed, left)
                (laws.sub_below c b.level (f.mul elapsed rate)
                  (laws.mul_below elapsed rate passed r) h)
        ]
      ]

  pour-IsBelow : (c : F) (b : Bucket F) → IsBelow c (some b) → IsBelow c (some ((pour f c b).0))
  unfolding pour
  pour-IsBelow c b h = elim (Bool-cases (f.lt c (f.add b.level (int f 1)))) [
    | inl full ↦ rw full h
    | inr fits ↦ rw fits fits
  ]

  found :
      (c rate : F) (now : ℕ) (o : Option (Bucket F))
      → f.lt rate (int f 0) ≡ false
      → f.lt c (int f 0) ≡ false
      → IsBelow c o
      → IsBelow c (
          some (elim o [
            | none ↦ record { level = int f 0; last_leak = now }
            | some b ↦ leak f rate now b
          ]))
  found c rate now none r n h = n
  found c rate now (some b) r n h = leak-IsBelow c rate now b r n h

  -- A call of a leaky bucket limiter leaves no bucket above its capacity, if none was and neither the capacity
  -- nor the rate is negative.
  pub allow-IsCapped :
      (key : Bytes) (now : ℕ) (l : Limiter F) → IsCapped l → IsCapped ((allow f key now l).0)
  unfolding allow bucket_at
  allow-IsCapped key now l h = record {
    rate = h.rate;
    room = h.room;
    below = λ k. elim (Bool-cases (same key k)) [
      | inl mine ↦ rw mine (
          pour-IsBelow l.capacity _
            (found l.capacity l.leak_rate now (l.buckets key) h.rate h.room (h.below key)))
      | inr other ↦ rw other (h.below k)
    ];
  }
