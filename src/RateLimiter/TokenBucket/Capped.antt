-- ===== src/RateLimiter/TokenBucket/Capped.antt =====
-- No bucket has more tokens than its capacity.
use golang_toys.Base.{ℕ, ◌≡◌, inl, inr, false, Option, none, some, List, [], ◌∷◌, Bool-cases}
use golang_toys.Base.Bytes.{Bytes}
use golang_toys.Cassandra.Entry.{same}
use golang_toys.RateLimiter.Float.{Float, int, since, HasCaps}
use golang_toys.RateLimiter.Interface.{Event}
use golang_toys.RateLimiter.TokenBucket.{
  Bucket, Limiter, new_limiter, refilled, refill, bucket_at, consume, allow,
}

module _ {ℓ} {F : Type ℓ} (f : Float F) (laws : HasCaps f) where
  abbrev IsBelow : F → Option (Bucket F) → Type 0
  IsBelow c none = Unit
  IsBelow c (some b) = f.lt c b.tokens ≡ false

  abbrev pub IsCapped : Limiter F → Type 0
  IsCapped l = (key : Bytes) → IsBelow l.capacity (l.buckets key)

  refill-IsBelow :
      (c rate : F) (now : ℕ) (b : Bucket F)
      → IsBelow c (some b)
      → IsBelow c (some (refill f c rate now b))
  unfolding refill refilled
  refill-IsBelow c rate now b h =
      elim (Bool-cases (f.lt (int f 0) (f.seconds (since now b.last_refill)))) [
        | inr still ↦ rw still h
        | inl passed ↦
            let more = f.add b.tokens (f.mul (f.seconds (since now b.last_refill)) rate) in
            elim (Bool-cases (f.lt c more)) [
              | inl over ↦ rw (passed, over) (laws.lt_irrefl c)
              | inr under ↦ rw (passed, under) under
            ]
      ]

  consume-IsBelow : (c : F) (b : Bucket F) → IsBelow c (some b) → IsBelow c (some ((consume f b).0))
  unfolding consume
  consume-IsBelow c b h = elim (Bool-cases (f.lt b.tokens (int f 1))) [
    | inl few ↦ rw few h
    | inr enough ↦ rw enough (laws.sub_below c b.tokens (int f 1) laws.one_above h)
  ]

  found :
      (c rate : F) (now : ℕ) (o : Option (Bucket F))
      → IsBelow c o
      → IsBelow c (
          some (elim o [
            | none ↦ record { tokens = c; last_refill = now }
            | some b ↦ refill f c rate now b
          ]))
  found c rate now none h = laws.lt_irrefl c
  found c rate now (some b) h = refill-IsBelow c rate now b h

  allow-IsCapped :
      (key : Bytes) (now : ℕ) (l : Limiter F) → IsCapped l → IsCapped ((allow f key now l).0)
  unfolding allow bucket_at
  allow-IsCapped key now l h k = elim (Bool-cases (same key k)) [
    | inl mine ↦
        rw mine (consume-IsBelow l.capacity _ (found l.capacity l.rate now (l.buckets key) (h key)))
    | inr other ↦ rw other (h k)
  ]

  abbrev pub allow_each : List Event → Limiter F → Limiter F
  allow_each [] l = l
  allow_each (e ∷ es) l = allow_each es ((allow f e.key e.now l).0)

  allow_each-IsCapped : (es : List Event) (l : Limiter F) → IsCapped l → IsCapped (allow_each es l)
  allow_each-IsCapped [] l h = h
  allow_each-IsCapped (e ∷ es) l h =
      allow_each-IsCapped es ((allow f e.key e.now l).0) (allow-IsCapped e.key e.now l h)

  -- After any events, in whatever order of time, no bucket of a token bucket limiter is above its capacity.
  pub new_limiter-IsCapped :
      (capacity rate : F) (es : List Event) → IsCapped (allow_each es (new_limiter capacity rate))
  unfolding new_limiter
  new_limiter-IsCapped capacity rate es =
      allow_each-IsCapped es (new_limiter capacity rate) (λ key. tt)
