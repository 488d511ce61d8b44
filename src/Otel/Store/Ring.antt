-- ===== src/Otel/Store/Ring.antt =====
-- The ring against a log that keeps every epoch: it holds the last `num_buckets` of them.
use golang_toys.Base.{
  ℕ, ◌+◌, ◌-◌, ◌%◌, ◌<◌, ◌≤◌, ◌≡◌, ap, sym, ◌∙◌, inl, inr, Bool, true, Option, none, some, List, [],
  arith, if◌then◌else◌, ltb, ltb→lt, length, get_or, Bool-cases,
}
use golang_toys.Otel.Store.{Series, Bucket, Store, empty_bucket, is_epoch, least, evict, read}
use golang_toys.Otel.Store.Slots.{
  slots-ne, slot_next, length-evict, evict_miss, evict_either, evict_hit,
}

-- Whether the ring still has room for an epoch.
abbrev pub is_kept : Option ℕ → ℕ → ℕ → Bool
is_kept none n e = true
is_kept (some last) n e = ltb last (e + n)

-- Nothing is recorded after the last epoch.
abbrev IsPast {ℓ} : {V : Type ℓ} → Option ℕ → (ℕ → Series V) → Type ℓ
IsPast none log = (e : ℕ) → log e ≡ []
IsPast (some last) log = (e : ℕ) → last < e → log e ≡ []

-- The last epoch after a call.
abbrev pub latest : Option ℕ → ℕ → ℕ
latest none current = current
latest (some last) current = if ltb last current then current else last

module _ {ℓ} {V : Type ℓ} where
  pub record Reads (s : Store V) (log : ℕ → Series V) : Type ℓ where
    pub size : length s.buckets ≡ s.num_buckets
    pub positive : 0 < s.num_buckets
    pub past : IsPast s.last_epoch log
    pub shows : (e : ℕ) → read s e ≡ (if is_kept s.last_epoch s.num_buckets e then log e else [])

  -- What the slot of an epoch shows.
  abbrev pub shown : ℕ → Bucket V → Series V
  shown e b = if is_epoch b.epoch e then b.series else []

  module _ (n last current : ℕ) (bs : List (Bucket V)) (log : ℕ → Series V) (size : length bs ≡ n)
      (positive : 0 < n) (past : (e : ℕ) → last < e → log e ≡ [])
      (shows : (e : ℕ)
        → shown e (get_or bs (e % n) empty_bucket) ≡ (if ltb last (e + n) then log e else []))
      (h : last < current) where
    abbrev after : List (Bucket V)
    after = evict n (least (current - last) n) (last + 1) bs

    -- What shows nothing before shows nothing after.
    stays_empty :
        (e : ℕ)
        → shown e (get_or bs (e % n) empty_bucket) ≡ []
        → shown e (get_or after (e % n) empty_bucket) ≡ []
    stays_empty e x = elim (evict_either n (least (current - last) n) (last + 1) (e % n) bs) [
      | inl y ↦ ap (shown e) y
      | inr y ↦ ap (shown e) y ∙ x
    ]

    shows_later :
        (e : ℕ)
        → last < e
        → shown e (get_or after (e % n) empty_bucket) ≡ (if ltb current (e + n) then log e else [])
    shows_later e lt =
        stays_empty e (shows e ∙ ground (arith, past e lt)) ∙ ground (arith, past e lt)

    shows_kept :
        (e : ℕ) → e ≤ last → current < e + n → shown e (get_or after (e % n) empty_bucket) ≡ log e
    shows_kept e le lt =
        ap (shown e) (
          evict_miss n (least (current - last) n) (last + 1) (e % n) bs
            (λ j k x. slots-ne n e (last + 1 + j) (omega arith) (ground arith) (sym x)))
        ∙ shows e
        ∙ ground arith

    shows_gone :
        (e : ℕ) → e ≤ last → e + n ≤ current → shown e (get_or after (e % n) empty_bucket) ≡ []
    shows_gone e le gone = elim (Bool-cases (ltb last (e + n))) [
      | inr old ↦ stays_empty e (shows e ∙ rw old)
      | inl young ↦ ap (shown e) (
          ap (λ i. get_or after i empty_bucket)
            (sym (slot_next n e)
              ∙ ap (λ m. m % n) {x = e + n} {y = last + 1 + (e + n - last - 1)} (ground arith))
          ∙ evict_hit n (least (current - last) n) (last + 1) (e + n - last - 1) bs positive size
              (ground arith))
    ]

    shows_after :
        (e : ℕ)
        → shown e (get_or after (e % n) empty_bucket) ≡ (if ltb current (e + n) then log e else [])
    shows_after e = elim (Bool-cases (ltb last e)) [
      | inl later ↦ shows_later e (ltb→lt last e later)
      | inr past ↦ elim (Bool-cases (ltb current (e + n))) [
        | inl kept ↦ rw kept (shows_kept e (ground arith) (ground arith))
        | inr gone ↦ rw gone (shows_gone e (ground arith) (ground arith))
      ]
    ]

  abbrev pub store_of : List (Bucket V) → ℕ → ℕ → Option ℕ → Store V
  store_of bs w n last = record {
    buckets = bs;
    window_duration = w;
    num_buckets = n;
    last_epoch = last;
  }

  pub advance_later :
      (current last w n : ℕ) (bs : List (Bucket V)) (log : ℕ → Series V)
      → Reads (store_of bs w n (some last)) log
      → last < current
      → Reads (store_of (evict n (least (current - last) n) (last + 1) bs) w n (some current)) log
  unfolding read
  advance_later current last w n bs log r h = record {
    size = length-evict n (least (current - last) n) (last + 1) bs ∙ r.size;
    positive = r.positive;
    past = λ e lt. r.past e (omega arith);
    shows = shows_after n last current bs log r.size r.positive r.past r.shows h;
  }

  -- The first call of all.
  pub advance_first :
      (current w n : ℕ) (bs : List (Bucket V)) (log : ℕ → Series V)
      → Reads (store_of bs w n none) log
      → Reads (store_of bs w n (some current)) log
  unfolding read
  advance_first current w n bs log r = record {
    size = r.size;
    positive = r.positive;
    past = λ e lt. r.past e;
    shows = λ e. r.shows e ∙ ground (arith, r.past e);
  }
