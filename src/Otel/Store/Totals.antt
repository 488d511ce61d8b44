-- ===== src/Otel/Store/Totals.antt =====
-- The maps from keys to values, and what the loop of `GetWindows` makes of those of the epochs.
use golang_toys.Base.{
  ℕ, zero, suc, ◌+◌, ◌-◌, ◌≤◌, ◌≡◌, refl, ap, sym, ◌∙◌, inl, inr, true, false, Option, none, some,
  List, [], ◌∷◌, ◌++◌, append-nil, append_assoc, arith, if◌then◌else◌, ltb, ◌==◌, length,
  Bool-cases,
}
use golang_toys.Cassandra.Entry.{same_refl, same→eq}
use golang_toys.Otel.Store.{
  SeriesKey, same_key, Point, Series, Window, assign, find, accumulate, collect, epoch_start,
}

pub same_key_refl : (k : SeriesKey) → same_key k k ≡ true
unfolding same_key
same_key_refl k = ground (arith, same_refl k.name, same_refl k.attributes)

pub same_key→eq : (a b : SeriesKey) → same_key a b ≡ true → a ≡ b
unfolding same_key
same_key→eq a b h = ground (arith, same→eq a.name b.name, same→eq a.attributes b.attributes)

within : (i c : ℕ) → suc i ≤ c + 1 → ltb c i ≡ false
within i c h = ground arith

module _ {ℓ} {V : Type ℓ} where
  pub find-assign :
      (k : SeriesKey) (v : V) (m : Series V) (j : SeriesKey)
      → find j (assign k v m) ≡ (if same_key k j then some v else find j m)
  unfolding find assign
  find-assign k v [] j = refl
  find-assign k v (p ∷ ps) j = ground (
    arith,
    find-assign k v ps j,
    same_key→eq p.key k,
    same_key→eq k j,
    same_key→eq p.key j,
    same_key_refl k,
  )

  find_empty : (k : SeriesKey) (m : Series V) → (length m == 0) ≡ true → find k m ≡ none
  unfolding find
  find_empty k [] h = refl
  find_empty k (p ∷ ps) h = ground arith

  -- A map has one row for each key.
  abbrev pub IsMap : Series V → Type ℓ
  IsMap [] = Unit
  IsMap (p ∷ ps) = (find p.key ps ≡ none) × IsMap ps

  pub assign-IsMap : (k : SeriesKey) (v : V) (m : Series V) → IsMap m → IsMap (assign k v m)
  unfolding find assign
  assign-IsMap k v [] h = (refl, tt)
  assign-IsMap k v (p ∷ ps) h = elim (Bool-cases (same_key p.key k)) [
    | inl e ↦ rw e (ap (λ j. find j ps) (sym (same_key→eq p.key k e)) ∙ h.0, h.1)
    | inr e ↦ rw e (
      ground (arith, find-assign k v ps p.key, h.0, same_key→eq k p.key, same_key_refl k),
      assign-IsMap k v ps h.1,
    )
  ]

  -- The windows of the epochs that hold something, oldest first.
  abbrev pub windows_of : ℕ → ℕ → (ℕ → Series V) → ℕ → List (Window V)
  windows_of w c series zero = []
  windows_of w c series (suc i) =
      let rest = windows_of w c series i in
      if length (series (c - i)) == 0
      then rest
      else record { start = epoch_start w (c - i); series = series (c - i) } ∷ rest

  module _ (add : V → V → V) (nought : V) where
    -- One more value for a key, if there is one.
    abbrev pub plus : Option V → Option V → Option V
    plus sum none = sum
    plus none (some v) = some (add nought v)
    plus (some t) (some v) = some (add t v)

    abbrev sum : Point V → Series V → V
    sum p total = add (elim (find p.key total) [ none ↦ nought | some v ↦ v ]) p.value

    same_row :
        (p : Point V) (ps total : Series V) (k : SeriesKey)
        → p.key ≡ k
        → find p.key ps ≡ none
        → plus (some (sum p total)) (find k ps) ≡ plus (find k total) (some p.value)
    same_row p ps total k e h = ground (arith, ap (λ j. find j ps) e, ap (λ j. find j total) e)

    pub find-accumulate :
        (ps total : Series V) (k : SeriesKey)
        → IsMap ps
        → find k (accumulate add nought ps total) ≡ plus (find k total) (find k ps)
    unfolding find accumulate
    find-accumulate [] total k h = refl
    find-accumulate (p ∷ ps) total k h =
        find-accumulate ps (assign p.key (sum p total) total) k h.1
        ∙ ap (λ found. plus found (find k ps)) (find-assign p.key (sum p total) total k)
        ∙ elim (Bool-cases (same_key p.key k)) [
          | inl e ↦ rw e (same_row p ps total k (same_key→eq p.key k e) h.0)
          | inr e ↦ rw e refl
        ]

    pub accumulate-IsMap :
        (ps total : Series V) → IsMap total → IsMap (accumulate add nought ps total)
    unfolding accumulate
    accumulate-IsMap [] total h = h
    accumulate-IsMap (p ∷ ps) total h =
        accumulate-IsMap ps _ (assign-IsMap p.key (sum p total) total h)

    -- The sum of a key's values over windows, in their order.
    abbrev pub summed : SeriesKey → List (Window V) → Option V → Option V
    summed k [] sum = sum
    summed k (x ∷ xs) sum = summed k xs (plus sum (find k x.series))

    pub collect_lem :
        (w c rounds : ℕ) (series : ℕ → Series V)
        → rounds ≤ c + 1
        → ((e : ℕ) → IsMap (series e))
        → (windows : List (Window V)) (total : Series V)
        → (t : Series V) × (collect add nought w c series rounds windows total
            ≡ some (windows ++ windows_of w c series rounds, t))
          × ((k : SeriesKey) → find k t ≡ summed k (windows_of w c series rounds) (find k total))
    unfolding collect
    collect_lem w c zero series le maps windows total =
        (total, ap (λ ws. some (ws, total)) (sym (append-nil windows)), λ k. refl)
    collect_lem w c (suc i) series le maps windows total =
        elim (Bool-cases (length (series (c - i)) == 0)) [
          | inl e ↦
              let rest =
                collect_lem w c i series (omega arith) maps windows
                  (accumulate add nought (series (c - i)) total) in
              rw (within i c le, e)
                (
                  rest.0,
                  rest.1,
                  λ k.
                      rest.2 k
                      ∙ ap (summed k (windows_of w c series i)) (
                          find-accumulate (series (c - i)) total k (maps (c - i))
                          ∙ ap (plus (find k total)) (find_empty k (series (c - i)) e)),
                )
          | inr e ↦
              let x : Window V = record {
                start = epoch_start w (c - i);
                series = series (c - i);
              } in
              let rest =
                collect_lem w c i series (omega arith) maps (windows ++ (x ∷ []))
                  (accumulate add nought (series (c - i)) total) in
              rw (within i c le, e)
                (
                  rest.0,
                  rest.1
                      ∙ ap (λ ws. some (ws, rest.0))
                          (append_assoc windows (x ∷ []) (windows_of w c series i)),
                  λ k.
                      rest.2 k
                      ∙ ap (summed k (windows_of w c series i))
                          (find-accumulate (series (c - i)) total k (maps (c - i))),
                )
        ]
