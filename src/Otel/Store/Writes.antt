-- ===== src/Otel/Store/Writes.antt =====
-- What a call of `Set` changes, where the ring still has room for its epoch.
use native.Mathlib.Nat.{mod-lt}
use mathlib.Core.Path.{subst}
use golang_toys.Base.{
  ℕ, ◌+◌, ◌/◌, ◌%◌, ◌<◌, ◌≤◌, ◌≡◌, ◌≢◌, refl, ap, sym, ◌∙◌, inl, inr, true, Option, none, some,
  List, [], arith, if◌then◌else◌, ltb, ltb→lt, ◌==◌, ==_iff, length, get_or, set, length-set,
  get_or-set_self, get_or-set_ne, Bool-cases,
}
use golang_toys.Otel.Store.{
  SeriesKey, Series, Bucket, empty_bucket, assign, advance, record_at, set_value, read, epoch_of,
}
use golang_toys.Otel.Store.Slots.{slots-ne}
use golang_toys.Otel.Store.Ring.{
  is_kept, Reads, latest, store_of, shown, advance_later, advance_first,
}

module _ {ℓ} {V : Type ℓ} where
  -- A log after a call that writes at an epoch.
  abbrev pub logged : SeriesKey → V → ℕ → (ℕ → Series V) → ℕ → Series V
  logged key value current log e = if current == e then assign key value (log e) else log e

  -- The buckets after a write.
  abbrev written : SeriesKey → V → ℕ → ℕ → List (Bucket V) → List (Bucket V)
  written key value n current bs =
      set bs (current % n) (record_at current key value (get_or bs (current % n) empty_bucket))

  module _ (key : SeriesKey) (value : V) (n last current : ℕ) (bs : List (Bucket V))
      (log : ℕ → Series V) (size : length bs ≡ n) (positive : 0 < n)
      (past : (e : ℕ) → last < e → log e ≡ [])
      (shows : (e : ℕ)
        → shown e (get_or bs (e % n) empty_bucket) ≡ (if ltb last (e + n) then log e else []))
      (le : current ≤ last) where
    shows_written :
        last < current + n
        → shown current (get_or (written key value n current bs) (current % n) empty_bucket)
          ≡ assign key value (log current)
    unfolding record_at
    shows_written kept =
        ap (shown current) (
          get_or-set_self bs (current % n) _ empty_bucket
            (omega (arith, mod-lt current positive, size)))
        ∙ ground (arith, shows current)

    same_slot_gone :
        (e : ℕ)
        → last < current + n
        → current ≢ e
        → current % n ≡ e % n
        → (if ltb last (e + n) then log e else []) ≡ []
    same_slot_gone e kept ne same = elim (Bool-cases (ltb e current)) [
      | inl before ↦ elim (Bool-cases (ltb current (e + n))) [
        | inl near ↦ absurd (
            slots-ne n e current (ltb→lt e current before) (ltb→lt current (e + n) near) (sym same))
        | inr far ↦ ground arith
      ]
      | inr after ↦ elim (Bool-cases (ltb e (current + n))) [
        | inl near ↦ absurd (slots-ne n current e (ground arith) (ltb→lt e (current + n) near) same)
        | inr far ↦ ground (arith, past e (ground arith))
      ]
    ]

    -- Another epoch of the same slot shows nothing, and its log has nothing to show.
    shows_same_slot :
        (e : ℕ)
        → last < current + n
        → current ≢ e
        → current % n ≡ e % n
        → shown e (get_or (written key value n current bs) (e % n) empty_bucket)
          ≡ (if ltb last (e + n) then log e else [])
    unfolding record_at
    shows_same_slot e kept ne same =
        ap (λ i. shown e (get_or (written key value n current bs) i empty_bucket)) (sym same)
        ∙ ap (shown e) (
            get_or-set_self bs (current % n) _ empty_bucket
              (omega (arith, mod-lt current positive, size)))
        ∙ ground arith
        ∙ sym (same_slot_gone e kept ne same)

    shows_other_slot :
        (e : ℕ)
        → current % n ≢ e % n
        → shown e (get_or (written key value n current bs) (e % n) empty_bucket)
          ≡ (if ltb last (e + n) then log e else [])
    shows_other_slot e ne =
        ap (shown e) (get_or-set_ne bs (current % n) (e % n) _ empty_bucket ne) ∙ shows e

    write_shows :
        (e : ℕ)
        → last < current + n
        → shown e (get_or (written key value n current bs) (e % n) empty_bucket)
          ≡ (if ltb last (e + n) then logged key value current log e else [])
    write_shows e kept = elim (Bool-cases (current == e)) [
      | inl now ↦
          subst
            (λ e'.
              shown e' (get_or (written key value n current bs) (e' % n) empty_bucket)
              ≡ (if ltb last (e' + n) then logged key value current log e' else []))
            ((==_iff current e).0 now) (shows_written kept ∙ ground arith)
      | inr other ↦ elim (Bool-cases (current % n == e % n)) [
        | inl same ↦
            shows_same_slot e kept (ground arith) ((==_iff (current % n) (e % n)).0 same)
            ∙ ground arith
        | inr apart ↦ shows_other_slot e (ground arith) ∙ ground arith
      ]
    ]

  logged_past :
      (key : SeriesKey) (value : V) (current last : ℕ) (log : ℕ → Series V)
      → current ≤ last
      → ((e : ℕ) → last < e → log e ≡ [])
      → (e : ℕ) → last < e
      → logged key value current log e ≡ []
  logged_past key value current last log le past e lt = ground (arith, past e lt)

  write-Reads :
      (key : SeriesKey) (value : V) (current last w n : ℕ) (bs : List (Bucket V))
      (log : ℕ → Series V)
      → Reads (store_of bs w n (some last)) log
      → current ≤ last
      → last < current + n
      → Reads
          (store_of (written key value n current bs) w n (some last))
          (logged key value current log)
  unfolding read
  write-Reads key value current last w n bs log r le kept = record {
    size = length-set bs (current % n) _ ∙ r.size;
    positive = r.positive;
    past = logged_past key value current last log le r.past;
    shows =
        λ e. write_shows key value n last current bs log r.size r.positive r.past r.shows le e kept;
  }

  -- A call within the ring changes the log at its own epoch.
  pub set_value-Reads :
      (key : SeriesKey) (value : V) (now w n : ℕ) (bs : List (Bucket V)) (last : Option ℕ)
      (log : ℕ → Series V)
      → Reads (store_of bs w n last) log
      → is_kept last n (epoch_of w now) ≡ true
      → (bs' : List (Bucket V)) × (set_value key value now (store_of bs w n last)
          ≡ store_of bs' w n (some (latest last (epoch_of w now))))
        × Reads
            (store_of bs' w n (some (latest last (epoch_of w now))))
            (logged key value (epoch_of w now) log)
  unfolding set_value advance
  set_value-Reads key value now w n bs none log r kept = (
    _,
    refl,
    write-Reads key value (now / w) (now / w) w n bs log (advance_first (now / w) w n bs log r)
        (omega arith) (omega (arith, r.positive)),
  )
  set_value-Reads key value now w n bs (some last) log r kept =
      elim (Bool-cases (ltb last (now / w))) [
        | inl later ↦ rw later (
          _,
          refl,
          write-Reads key value (now / w) (now / w) w n _ log
              (advance_later (now / w) last w n bs log r (ltb→lt last (now / w) later))
              (omega arith) (omega (arith, r.positive)),
        )
        | inr early ↦ rw early (
          _,
          refl,
          write-Reads key value (now / w) last w n bs log r (ground arith)
              (ltb→lt last (now / w + n) kept),
        )
      ]
