-- ===== src/Percentile/Histogram.antt =====
-- p-percentile-window/histogram.go: bins of latencies, each with a queue of timestamps. `none` is a
-- panic: a division by zero or an index out of range.
pub mod Rank
use golang_toys.Base.{
  ℕ, zero, suc, ◌+◌, ◌-◌, ◌*◌, ◌/◌, ◌%◌, Bool, true, false, not, Option, none, some, List, [], ◌∷◌,
  ◌++◌, if◌then◌else◌, ltb, leb, ◌==◌, length, get_elem?, map,
}
use golang_toys.Percentile.Observation.{Observation}

pub record Bin : Type 0 where
  pub lower : ℕ
  pub upper : ℕ
  pub timestamps : List ℕ

-- The loop of `count` over the queue: `!t.After(now.Add(-window))`.
unfoldable pub live_part : ℕ → ℕ → List ℕ → List ℕ
live_part window now [] = []
live_part window now (t ∷ ts) =
    let rest = live_part window now ts in if leb (t + window) now then rest else t ∷ ts

-- `count` leaves the bin without the expired timestamps; its result is what is left.
unfoldable pub evict : ℕ → ℕ → Bin → Bin
unfolding live_part
evict window now b = record b { timestamps = live_part window now b.timestamps }

unfoldable pub add : ℕ → Bin → Bin
add t b = record b { timestamps = b.timestamps ++ (t ∷ []) }

pub record Window : Type 0 where
  pub window : ℕ
  pub bins : List Bin
  pub bin_width : ℕ
  pub max_latency : ℕ

-- The bins `i`, `i + 1`, …: `n` of them.
unfoldable pub make_bins : ℕ → ℕ → ℕ → List Bin
make_bins width i zero = []
make_bins width i (suc n) =
    record { lower = i * width; upper = (i + 1) * width; timestamps = [] }
    ∷ make_bins width (i + 1) n

unfoldable pub new_window : ℕ → ℕ → ℕ → Option Window
unfolding make_bins
new_window window width max =
    let n = if not (max % width == 0) then max / width + 1 else max / width in
    if width == 0
    then none
    else some (record {
      window = window;
      bins = make_bins width 0 n;
      bin_width = width;
      max_latency = max;
    })

-- `bins[idx].add(t)`
unfoldable pub add_at : ℕ → ℕ → List Bin → Option (List Bin)
unfolding add
add_at t idx [] = none
add_at t zero (b ∷ bs) = some (add t b ∷ bs)
add_at t (suc idx) (b ∷ bs) = elim (add_at t idx bs) [ none ↦ none | some rest ↦ some (b ∷ rest) ]

unfoldable pub record_observation : Observation → Window → Option Window
unfolding add_at
record_observation obs w =
    let idx = obs.latency / w.bin_width in
    let idx' = if leb (length w.bins) idx then length w.bins - 1 else idx in
    if w.bin_width == 0 then none else elim (add_at obs.timestamp idx' w.bins) [
      | none ↦ none
      | some bins ↦ some (record w { bins = bins })
    ]

unfoldable pub total : List Bin → ℕ
total [] = 0
total (b ∷ bs) = length b.timestamps + total bs

-- The second loop; `none` where it runs to the end.
unfoldable pub find_bin : ℕ → ℕ → List Bin → Option ℕ
find_bin rank accumulated [] = none
find_bin rank accumulated (b ∷ bs) =
    let later = find_bin rank (accumulated + length b.timestamps) bs in
    if ltb rank (accumulated + length b.timestamps) then some b.lower else later

unfoldable pub last_lower : List Bin → Option ℕ
last_lower [] = none
last_lower (b ∷ []) = some b.lower
last_lower (b ∷ c ∷ bs) = last_lower (c ∷ bs)

-- `scale m` is `int(float64(m) * p)`.
unfoldable pub percentile : (ℕ → ℕ) → ℕ → Window → Window × Option ℕ
unfolding evict total find_bin last_lower
percentile scale now w =
    let bins = map (evict w.window now) w.bins in
    (
      record w { bins = bins },
      if total bins == 0 then some 0 else elim (find_bin (scale (total bins - 1)) 0 bins) [
        | some lower ↦ some lower
        | none ↦ last_lower bins
      ],
    )
