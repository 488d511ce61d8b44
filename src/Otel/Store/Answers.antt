-- ===== src/Otel/Store/Answers.antt =====
-- What `GetWindows` answers after a sequence of calls of `Set`.
use golang_toys.Base.{
  ℕ, ◌+◌, ◌≤◌, ◌≡◌, refl, ap, ◌∙◌, inl, inr, ◌&&◌, Option, none, some, List, [], ◌∷◌, arith,
  if◌then◌else◌, ◌==◌, All, Bool-cases,
}
use golang_toys.Otel.Store.{
  SeriesKey, same_key, Series, Store, least, find, epoch_of, new_store, get_windows,
}
use golang_toys.Otel.Store.Writes.{logged}
use golang_toys.Otel.Store.Totals.{
  IsMap, assign-IsMap, find-assign, windows_of, summed, collect_lem,
}
use golang_toys.Otel.Store.History.{Write, set_each, log_of, IsInTime, get_windows-log_of}

module _ {ℓ} {V : Type ℓ} where
  logged-IsMap :
      (k : SeriesKey) (v : V) (current : ℕ) (log : ℕ → Series V)
      → ((e : ℕ) → IsMap (log e))
      → (e : ℕ) → IsMap (logged k v current log e)
  logged-IsMap k v current log h e = elim (Bool-cases (current == e)) [
    | inl now ↦ rw now (assign-IsMap k v (log e) (h e))
    | inr other ↦ rw other (h e)
  ]

  log_of-IsMap :
      (w : ℕ) (xs : List (Write V)) (log : ℕ → Series V)
      → ((e : ℕ) → IsMap (log e))
      → (e : ℕ) → IsMap (log_of w xs log e)
  log_of-IsMap w [] log h e = h e
  log_of-IsMap w (x ∷ xs) log h e =
      log_of-IsMap w xs (logged x.key x.value (epoch_of w x.now) log)
        (logged-IsMap x.key x.value (epoch_of w x.now) log h) e

  -- The value of the last call for a key in an epoch, the given one if there is none.
  abbrev pub last_value : ℕ → SeriesKey → ℕ → List (Write V) → Option V → Option V
  last_value w k e [] before = before
  last_value w k e (x ∷ xs) before =
      last_value w k e xs
        (if epoch_of w x.now == e && same_key x.key k then some x.value else before)

  find-logged :
      (j k : SeriesKey) (v : V) (current e : ℕ) (log : ℕ → Series V)
      → find k (logged j v current log e)
        ≡ (if current == e && same_key j k then some v else find k (log e))
  find-logged j k v current e log = ground (arith, find-assign j v (log e) k)

  pub find-log_of :
      (w : ℕ) (k : SeriesKey) (e : ℕ) (xs : List (Write V)) (log : ℕ → Series V)
      → find k (log_of w xs log e) ≡ last_value w k e xs (find k (log e))
  find-log_of w k e [] log = refl
  find-log_of w k e (x ∷ xs) log =
      find-log_of w k e xs (logged x.key x.value (epoch_of w x.now) log)
      ∙ ap (last_value w k e xs) (find-logged x.key k x.value (epoch_of w x.now) e log)

  -- The log of the calls, from the start.
  abbrev pub log : ℕ → List (Write V) → ℕ → Series V
  log w xs = log_of w xs (λ _. [])

  -- After calls of `Set` that came in time, none later than the query, and with as many epochs behind the
  -- query as it asks for, `GetWindows` returns the windows that hold something, oldest first; the window of an
  -- epoch has for each key the value of the last call in it; and the total of a key is the sum over the windows.
  pub get_windows-set_each :
      (add : V → V → V) (nought : V) (n w rounds now : ℕ) (s : Store V) (xs : List (Write V))
      → new_store n w ≡ some s
      → IsInTime w n xs none
      → All (λ x. x.now ≤ now) xs
      → least rounds n ≤ epoch_of w now + 1
      → (total : Series V) × (get_windows add nought rounds now (set_each xs s)
          ≡ some (windows_of w (epoch_of w now) (log w xs) (least rounds n), total))
        × ((k : SeriesKey) (e : ℕ) → find k (log w xs e) ≡ last_value w k e xs none)
        × ((k : SeriesKey)
            → find k total
              ≡ summed add nought k
                  (windows_of w (epoch_of w now) (log w xs) (least rounds n))
                  none)
  unfolding find
  get_windows-set_each add nought n w rounds now s xs made h by le =
      let r =
        collect_lem add nought w (epoch_of w now) (least rounds n) (log w xs) le
          (log_of-IsMap w xs (λ _. []) (λ _. tt)) [] [] in
      (
        r.0,
        get_windows-log_of add nought n w rounds now s xs made h by ∙ r.1,
        λ k e. find-log_of w k e xs (λ _. []),
        r.2,
      )
