-- ===== src/Otel/Store.antt =====
-- otel/store.go: the windowed store, a ring of buckets. A value is a float64: its type, its zero and its
-- addition are parameters. Times are nanoseconds since the Unix epoch; `math.MinInt64`, which stands for
-- no epoch, is `none`. A panic is `none`, too.
pub mod Slots
pub mod Ring
pub mod Writes
pub mod Totals
pub mod History
pub mod Answers
pub mod Late
use golang_toys.Base.{
  ℕ, zero, suc, ◌+◌, ◌-◌, ◌*◌, ◌/◌, ◌%◌, Bool, true, false, ◌&&◌, ◌||◌, not, Option, none, some,
  List, [], ◌∷◌, ◌++◌, if◌then◌else◌, ltb, leb, ◌==◌, length, get_or, set,
}
use golang_toys.Base.Bytes.{Bytes}
use golang_toys.Cassandra.Entry.{same}

pub record SeriesKey : Type 0 where
  pub name : Bytes
  pub attributes : Bytes

-- Go's `==` on keys.
unfoldable pub same_key : SeriesKey → SeriesKey → Bool
unfolding same
same_key a b = same a.name b.name && same a.attributes b.attributes

abbrev pub least : ℕ → ℕ → ℕ
least a b = if ltb b a then b else a

-- `epoch`, for a time that is not before 1970.
abbrev pub epoch_of : ℕ → ℕ → ℕ
epoch_of window_duration t = t / window_duration

pub record Point {ℓ} (V : Type ℓ) : Type ℓ where
  pub key : SeriesKey
  pub value : V

-- A map from keys to values: a row for each key.
abbrev pub Series {ℓ} : Type ℓ → Type ℓ
Series V = List (Point V)

-- `bucket`. The `nil` map of an evicted bucket is the empty one.
pub record Bucket {ℓ} (V : Type ℓ) : Type ℓ where
  pub epoch : Option ℕ
  pub series : Series V

pub record Window {ℓ} (V : Type ℓ) : Type ℓ where
  pub start : ℕ
  pub series : Series V

pub record Store {ℓ} (V : Type ℓ) : Type ℓ where
  pub buckets : List (Bucket V)
  pub window_duration : ℕ
  pub num_buckets : ℕ
  pub last_epoch : Option ℕ

-- `epochStart`
abbrev pub epoch_start : ℕ → ℕ → ℕ
epoch_start window_duration epoch = epoch * window_duration

-- `slotFor`, on an epoch that is not negative.
abbrev pub slot_for : ℕ → ℕ → ℕ
slot_for num_buckets epoch = epoch % num_buckets

-- `b.epoch == e`
abbrev pub is_epoch : Option ℕ → ℕ → Bool
is_epoch none e = false
is_epoch (some b) e = b == e

module _ {ℓ} {V : Type ℓ} where
  -- `series[key] = value`
  unfoldable pub assign : SeriesKey → V → Series V → Series V
  unfolding same_key
  assign key value [] = record { key = key; value = value } ∷ []
  assign key value (p ∷ ps) =
      if same_key p.key key
      then record { key = key; value = value } ∷ ps
      else p ∷ assign key value ps

  unfoldable pub find : SeriesKey → Series V → Option V
  unfolding same_key
  find key [] = none
  find key (p ∷ ps) = if same_key p.key key then some p.value else find key ps

  abbrev pub empty_bucket : Bucket V
  empty_bucket = record { epoch = none; series = [] }

  unfoldable pub replicate : ℕ → Bucket V → List (Bucket V)
  replicate zero b = []
  replicate (suc n) b = b ∷ replicate n b

  unfoldable pub new_store : ℕ → ℕ → Option (Store V)
  unfolding replicate
  new_store num_buckets window_duration =
      if ltb num_buckets 1 || leb window_duration 0
      then none
      else some (record {
        buckets = replicate num_buckets empty_bucket;
        window_duration = window_duration;
        num_buckets = num_buckets;
        last_epoch = none;
      })

  -- The loop of `Set` that empties the slots of the next epochs: `rounds` are left, from `epoch` on.
  unfoldable pub evict : ℕ → ℕ → ℕ → List (Bucket V) → List (Bucket V)
  evict num_buckets zero epoch buckets = buckets
  evict num_buckets (suc rounds) epoch buckets =
      evict num_buckets rounds (epoch + 1) (set buckets (slot_for num_buckets epoch) empty_bucket)

  -- The buckets after the eviction, and the last epoch.
  unfoldable pub advance : ℕ → Store V → Store V
  unfolding evict
  advance current s = elim s.last_epoch [
    | none ↦ record s { last_epoch = some current }
    | some last ↦
        if ltb last current
        then record s {
          buckets = evict s.num_buckets (least (current - last) s.num_buckets) (last + 1) s.buckets;
          last_epoch = some current;
        }
        else s
  ]

  -- The write into the bucket of the epoch, which starts anew if it is of another one.
  unfoldable pub record_at : ℕ → SeriesKey → V → Bucket V → Bucket V
  unfolding assign
  record_at current key value b = record {
    epoch = some current;
    series = assign key value (if is_epoch b.epoch current then b.series else []);
  }

  unfoldable pub set_value : SeriesKey → V → ℕ → Store V → Store V
  unfolding advance record_at
  set_value key value now s =
      let current = epoch_of s.window_duration now in
      let s' = advance current s in
      let slot = slot_for s.num_buckets current in
      record s' {
        buckets =
            set s'.buckets slot (record_at current key value (get_or s'.buckets slot empty_bucket));
      }

  -- The series that the slot of an epoch holds for it, none if the bucket is stale.
  unfoldable pub read : Store V → ℕ → Series V
  read s e =
      let b = get_or s.buckets (slot_for s.num_buckets e) empty_bucket in
      if is_epoch b.epoch e then b.series else []

  module _ (add : V → V → V) (nought : V) where
    -- `total[k] += v`
    unfoldable pub accumulate : Series V → Series V → Series V
    unfolding assign find
    accumulate [] total = total
    accumulate (p ∷ ps) total =
        accumulate ps (
          assign p.key (add (elim (find p.key total) [ none ↦ nought | some v ↦ v ]) p.value) total)

    -- The loop of `GetWindows`: `rounds` epochs are left, the next is `rounds - 1` before the current one.
    -- `slotFor` panics on a negative epoch.
    unfoldable pub collect :
        ℕ
        → ℕ
        → (ℕ → Series V)
        → ℕ
        → List (Window V)
        → Series V
        → Option (List (Window V) × Series V)
    unfolding accumulate
    collect window_duration current series zero windows total = some (windows, total)
    collect window_duration current series (suc i) windows total =
        let found = series (current - i) in
        let window : Window V = record {
          start = epoch_start window_duration (current - i);
          series = found;
        } in
        if ltb current i
        then none
        else collect window_duration current series i
            (if length found == 0 then windows else windows ++ (window ∷ []))
            (accumulate found total)

    unfoldable pub get_windows : ℕ → ℕ → Store V → Option (List (Window V) × Series V)
    unfolding collect read
    get_windows n now s =
        collect s.window_duration (epoch_of s.window_duration now) (read s) (least n s.num_buckets)
          [] []
