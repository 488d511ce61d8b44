-- ===== src/Otel/Store/History.antt =====
-- A store after a sequence of calls of `Set`, against the log of the calls.
use native.Mathlib.Nat.{mod-lt, div-add-mod}
use native.Mathlib.Decide.{dec_lt}
use golang_toys.Base.{
  ℕ, zero, suc, ◌+◌, ◌-◌, ◌/◌, ◌%◌, ◌<◌, ◌≤◌, ◌≡◌, refl, ap, ◌∙◌, inl, inr, true, Option, none,
  some, List, [], ◌∷◌, ◌++◌, arith, if◌then◌else◌, ltb, ◌==◌, length, get_or, Bool-cases, All,
}
use golang_toys.Otel.Store.{
  SeriesKey, Series, Bucket, Store, Window, empty_bucket, least, set_value, read, epoch_of,
  new_store, replicate, collect, get_windows, accumulate, is_epoch, epoch_start,
}
use golang_toys.Otel.Store.Slots.{mul_next}
use golang_toys.Otel.Store.Ring.{is_kept, Reads, latest, store_of}
use golang_toys.Otel.Store.Writes.{logged, set_value-Reads}

pub epoch_mono : (w a b : ℕ) → 0 < w → a ≤ b → a / w ≤ b / w
epoch_mono w a b p h = elim (dec_lt (b / w) (a / w)) [
  | yes lt ↦
      omega (arith, mul_next w (b / w) (a / w) lt, div-add-mod a w, div-add-mod b w, mod-lt b p)
  | no ge ↦ omega arith
]

abbrev pub IsBy : Option ℕ → ℕ → Type 0
IsBy none c = Unit
IsBy (some last) c = last ≤ c

-- The epochs that the answer reads are in the ring.
reads_log : (n c e : ℕ) (last : Option ℕ) → IsBy last c → c < e + n → is_kept last n e ≡ true
reads_log n c e none by lt = refl
reads_log n c e (some last) by lt = ground arith

-- The arguments of a call of `Set`.
pub record Write {ℓ} (V : Type ℓ) : Type ℓ where
  pub key : SeriesKey
  pub value : V
  pub now : ℕ

module _ {ℓ} {V : Type ℓ} where
  abbrev pub set_each : List (Write V) → Store V → Store V
  set_each [] s = s
  set_each (x ∷ xs) s = set_each xs (set_value x.key x.value x.now s)

  -- What an unbounded store holds for each epoch.
  abbrev pub log_of : ℕ → List (Write V) → (ℕ → Series V) → ℕ → Series V
  log_of w [] log = log
  log_of w (x ∷ xs) log = log_of w xs (logged x.key x.value (epoch_of w x.now) log)

  abbrev pub latest_of : ℕ → List (Write V) → Option ℕ → Option ℕ
  latest_of w [] last = last
  latest_of w (x ∷ xs) last = latest_of w xs (some (latest last (epoch_of w x.now)))

  -- No call comes when the ring has left its epoch behind.
  abbrev pub IsInTime : ℕ → ℕ → List (Write V) → Option ℕ → Type 0
  IsInTime w n [] last = Unit
  IsInTime w n (x ∷ xs) last =
      (is_kept last n (epoch_of w x.now) ≡ true)
      × IsInTime w n xs (some (latest last (epoch_of w x.now)))

  set_each-Reads :
      (xs : List (Write V)) (w n : ℕ) (bs : List (Bucket V)) (last : Option ℕ) (log : ℕ → Series V)
      → Reads (store_of bs w n last) log
      → IsInTime w n xs last
      → (bs' : List (Bucket V)) × (set_each xs (store_of bs w n last)
          ≡ store_of bs' w n (latest_of w xs last))
        × Reads (store_of bs' w n (latest_of w xs last)) (log_of w xs log)
  set_each-Reads [] w n bs last log r h = (bs, refl, r)
  set_each-Reads (x ∷ xs) w n bs last log r h =
      let one = set_value-Reads x.key x.value x.now w n bs last log r h.0 in
      let rest =
        set_each-Reads xs w n one.0 (some (latest last (epoch_of w x.now)))
          (logged x.key x.value (epoch_of w x.now) log) one.2 h.1 in
      (rest.0, ap (set_each xs) one.1 ∙ rest.1, rest.2)

  length-replicate : (n : ℕ) (b : Bucket V) → length (replicate n b) ≡ n
  unfolding replicate
  length-replicate zero b = refl
  length-replicate (suc n) b = ap suc (length-replicate n b)

  get_or-replicate : (n i : ℕ) (b : Bucket V) → get_or (replicate n b) i b ≡ b
  unfolding replicate
  get_or-replicate zero i b = refl
  get_or-replicate (suc n) zero b = refl
  get_or-replicate (suc n) (suc i) b = get_or-replicate n i b

  replicate-Reads :
      (w n : ℕ) → 0 < n → Reads (store_of (replicate n (empty_bucket {V = V})) w n none) (λ _. [])
  unfolding read
  replicate-Reads w n h = record {
    size = length-replicate n empty_bucket;
    positive = h;
    past = λ e. refl;
    shows = λ e.
        ap (λ b. if is_epoch b.epoch e then b.series else [])
          (get_or-replicate n (e % n) empty_bucket);
  }

  -- Where two stores show the same epochs, `GetWindows` answers the same.
  collect-cong :
      (add : V → V → V) (nought : V) (w c rounds : ℕ) (f g : ℕ → Series V) (n : ℕ)
      → ((e : ℕ) → c < e + n → f e ≡ g e)
      → rounds ≤ n
      → (windows : List (Window V)) (total : Series V)
      → collect add nought w c f rounds windows total
        ≡ collect add nought w c g rounds windows total
  unfolding collect
  collect-cong add nought w c zero f g n same le windows total = refl
  collect-cong add nought w c (suc i) f g n same le windows total = elim (Bool-cases (ltb c i)) [
    | inl before ↦ ground arith
    | inr within ↦
        ap
          (λ s.
            if ltb c i
            then none
            else collect add nought w c f i
                (if length s == 0
                  then windows
                  else windows ++ (record { start = epoch_start w (c - i); series = s } ∷ []))
                (accumulate add nought s total))
          (same (c - i) (ground arith))
        ∙ ap (λ r. if ltb c i then none else r)
            (collect-cong add nought w c i f g n same (omega arith) _ _)
  ]

  latest_of-IsBy :
      (w now : ℕ) (xs : List (Write V)) (last : Option ℕ)
      → 0 < w
      → IsBy last (epoch_of w now)
      → All (λ x. x.now ≤ now) xs
      → IsBy (latest_of w xs last) (epoch_of w now)
  latest_of-IsBy w now [] last p h hs = h
  latest_of-IsBy w now (x ∷ xs) none p h hs =
      latest_of-IsBy w now xs (some (x.now / w)) p (epoch_mono w x.now now p hs.0) hs.1
  latest_of-IsBy w now (x ∷ xs) (some last) p h hs =
      latest_of-IsBy w now xs (some (latest (some last) (x.now / w))) p
        (ground (arith, epoch_mono w x.now now p hs.0)) hs.1

  pub new_store_lem :
      (n w : ℕ) (s : Store V)
      → new_store n w ≡ some s
      → (0 < n) × (0 < w) × (s ≡ store_of (replicate n empty_bucket) w n none)
  unfolding new_store
  new_store_lem n w s e = (ground arith, ground arith, ground arith)

  -- A store of `n` buckets, after calls of `Set` none of which came when the ring had left its epoch behind
  -- and none later than the query, answers `GetWindows` as a store that keeps every epoch does: the same
  -- windows with the same values, and the same totals.
  pub get_windows-log_of :
      (add : V → V → V) (nought : V) (n w rounds now : ℕ) (s : Store V) (xs : List (Write V))
      → new_store n w ≡ some s
      → IsInTime w n xs none
      → All (λ x. x.now ≤ now) xs
      → get_windows add nought rounds now (set_each xs s)
        ≡ collect add nought w (epoch_of w now) (log_of w xs (λ _. [])) (least rounds n) [] []
  unfolding get_windows
  get_windows-log_of add nought n w rounds now s xs made h by =
      let m = new_store_lem n w s made in
      let r =
        set_each-Reads xs w n (replicate n empty_bucket) none (λ _. []) (replicate-Reads w n m.0)
          h in
      ap (λ s'. get_windows add nought rounds now (set_each xs s')) m.2
      ∙ ap (get_windows add nought rounds now) r.1
      ∙ collect-cong add nought w (now / w) (least rounds n) _ (log_of w xs (λ _. [])) n
          (λ e lt.
            r.2.shows e
            ∙ rw
                (reads_log n (now / w) e (latest_of w xs none)
                  (latest_of-IsBy w now xs none m.1 tt by) lt)
                refl)
          (ground arith) [] []
