-- ===== src/Otel/Store/Late.antt =====
-- A call of `Set` for a time that the ring has left behind.
use native.Mathlib.Nat.{mod-lt, div-add-mod, add-mul-mod_self_left}
use golang_toys.Base.{
  ℕ, ◌+◌, ◌-◌, ◌*◌, ◌/◌, ◌%◌, ◌<◌, ◌≤◌, ◌≡◌, refl, ap, ◌∙◌, false, some, List, [], arith, ltb, ◌==◌,
  length, get_or, set, get_or-set_self,
}
use golang_toys.Otel.Store.{
  SeriesKey, Bucket, empty_bucket, read, epoch_of, set_value, advance, record_at,
}
use golang_toys.Otel.Store.Ring.{store_of, shown}

-- The epoch of the ring that has the slot of an older one.
abbrev pub heir : ℕ → ℕ → ℕ → ℕ
heir n last current = current + n * ((last - current) / n)

heir_lem :
    (n last current : ℕ)
    → 0 < n
    → current + n ≤ last
    → (heir n last current ≤ last)
      × (last < heir n last current + n)
      × (current < heir n last current)
      × (heir n last current % n ≡ current % n)
heir_lem n last current p h =
    let a = div-add-mod (last - current) n in
    let b = mod-lt (last - current) p in
    (
      omega (arith, a),
      omega (arith, a, b),
      omega (arith, a, b),
      add-mul-mod_self_left current n ((last - current) / n),
    )

apart : (a b : ℕ) → a < b → (a == b) ≡ false
apart a b h = ground arith

module _ {ℓ} {V : Type ℓ} where
  -- `Set` for a time whose epoch is a ring or more behind the last one leaves some epoch empty that the ring
  -- still holds, whatever was recorded for it.
  pub set_value-late :
      (key : SeriesKey) (value : V) (now last w n : ℕ) (bs : List (Bucket V))
      → 0 < n
      → length bs ≡ n
      → epoch_of w now + n ≤ last
      → (e : ℕ) × (e ≤ last)
        × (last < e + n)
        × (read (set_value key value now (store_of bs w n (some last))) e ≡ [])
  unfolding set_value advance record_at read
  set_value-late key value now last w n bs p size late =
      let current = now / w in
      let e = heir_lem n last current p late in
      let old : ltb last current ≡ false = ground arith in
      (
        heir n last current,
        e.0,
        e.1,
        rw old (
            ap
              (λ i. shown (heir n last current) (
                get_or
                  (set bs (current % n)
                    (record_at current key value (get_or bs (current % n) empty_bucket)))
                  i empty_bucket))
              e.3
            ∙ ap (shown (heir n last current)) (
                get_or-set_self bs (current % n) _ empty_bucket
                  (omega (arith, mod-lt current p, size)))
            ∙ rw (apart current (heir n last current) e.2) refl),
      )
