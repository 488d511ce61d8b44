-- ===== src/Percentile/Histogram/Rank.antt =====
-- Which bin the histogram answers with, and where it puts an observation.
use golang_toys.Base.{
  ℕ, zero, suc, ◌+◌, ◌-◌, ◌*◌, ◌/◌, ◌%◌, ◌≤◌, ◌<◌, ◌≡◌, refl, ap, ◌∙◌, inl, inr, true, not, none,
  some, List, [], ◌∷◌, ◌++◌, if◌then◌else◌, ltb, ◌==◌, length, arith, map, Bool-cases,
}
use native.Mathlib.Nat.{div-add-mod, mod-lt, div-lt_iff_lt-mul, lt-div-mul-add}
use golang_toys.Percentile.Observation.{Observation}
use golang_toys.Percentile.Histogram.{
  make_bins, new_window, add, add_at, record_observation, Bin, Window, evict, total, find_bin,
  last_lower, percentile,
}

find_bin_lem :
    (rank before : ℕ) (bins : List Bin)
    → before ≤ rank
    → rank < before + total bins
    → (front : List Bin) × (b : Bin) × (back : List Bin) × (bins ≡ front ++ (b ∷ back))
      × (find_bin rank before bins ≡ some b.lower)
      × (before + total front ≤ rank)
      × (rank < before + total front + length b.timestamps)
unfolding find_bin total
find_bin_lem rank before [] le lt = absurd (omega arith)
find_bin_lem rank before (b ∷ bs) le lt =
    elim (Bool-cases (ltb rank (before + length b.timestamps))) [
      | inl here ↦ ([], b, bs, refl, rw here refl, omega arith, ground arith)
      | inr further ↦
          let (front, c, back, whole, found, low, high) =
            find_bin_lem rank (before + length b.timestamps) bs (ground arith) (omega arith) in
          (b ∷ front, c, back, ap (λ l. b ∷ l) whole, rw (further, found), omega arith, omega arith)
    ]

answer :
    (bins : List Bin) (rank : ℕ) {lower : ℕ}
    → find_bin rank 0 bins ≡ some lower
    → 0 < total bins
    → (if total bins == 0
        then some 0
        else elim (find_bin rank 0 bins) [ some lower ↦ some lower | none ↦ last_lower bins ])
      ≡ some lower
answer bins rank found some_left = ground (arith, found, some_left)

-- Where something is left after eviction and the index computation stays in range, `Percentile` answers
-- the lower bound of the bin that the rank falls in: the bins before it hold at most `rank`
-- observations, and with it more than `rank`. No index is out of range.
pub percentile-rank :
    (scale : ℕ → ℕ) (now : ℕ) (w : Window)
    → ((m : ℕ) → scale m ≤ m)
    → 0 < total (percentile scale now w).0.bins
    → let bins = (percentile scale now w).0.bins in
      let rank = scale (total bins - 1) in
      (front : List Bin) × (b : Bin) × (back : List Bin) × (bins ≡ front ++ (b ∷ back))
      × ((percentile scale now w).1 ≡ some b.lower)
      × (total front ≤ rank)
      × (rank < total front + length b.timestamps)
unfolding percentile
percentile-rank scale now w in_range some_left =
    let bins = map (evict w.window now) w.bins in
    let (front, b, back, whole, found, low, high) =
      find_bin_lem (scale (total bins - 1)) 0 bins (omega arith)
        (omega (arith, in_range (total bins - 1), some_left)) in
    (front, b, back, whole, answer bins _ found some_left, omega (arith, low), omega (arith, high))

-- Bins of one width that stand side by side, from the `i`-th on.
abbrev pub Laid : ℕ → ℕ → List Bin → Type 0
Laid width i [] = Unit
Laid width i (b ∷ bs) = (b.lower ≡ i * width) × (b.upper ≡ (i + 1) * width) × Laid width (i + 1) bs

-- The bin that an observation goes to.
add_at_lem :
    (t width i idx : ℕ) (bins : List Bin)
    → Laid width i bins
    → idx < length bins
    → (front : List Bin) × (b : Bin) × (back : List Bin) × (bins ≡ front ++ (b ∷ back))
      × (add_at t idx bins ≡ some (front ++ (add t b ∷ back)))
      × (b.lower ≡ (i + idx) * width)
      × (b.upper ≡ (i + idx + 1) * width)
unfolding add_at
add_at_lem t width i idx [] l h = absurd (omega arith)
add_at_lem t width i zero (b ∷ bs) l h = (
  [],
  b,
  bs,
  refl,
  refl,
  l.0 ∙ ap (λ n. n * width) (omega arith),
  l.1 ∙ ap (λ n. n * width) (omega arith),
)
add_at_lem t width i (suc idx) (b ∷ bs) l h =
    let (front, c, back, whole, added, low, high) =
      add_at_lem t width (i + 1) idx bs l.2 (omega arith) in
    (
      b ∷ front,
      c,
      back,
      ap (λ m. b ∷ m) whole,
      rw added refl,
      low ∙ ap (λ n. n * width) (omega arith),
      high ∙ ap (λ n. n * width) (omega arith),
    )

-- A number lies between its quotient's multiple of the divisor and the next.
quotient_bounds :
    (n width : ℕ) → 0 < width → ((0 + n / width) * width ≤ n) × (n < (0 + n / width + 1) * width)
quotient_bounds n width p =
    (grind (arith, div-add-mod n width, mod-lt n p), grind (arith, div-add-mod n width, mod-lt n p))

-- In a window whose bins stand side by side with a width that is not 0, `Record` of a latency that the
-- bins reach adds its time to one bin, whose bounds the latency lies in, and changes no other.
pub record_observation-bin :
    (obs : Observation) (w : Window)
    → 0 < w.bin_width
    → Laid w.bin_width 0 w.bins
    → obs.latency / w.bin_width < length w.bins
    → (front : List Bin) × (b : Bin) × (back : List Bin) × (w.bins ≡ front ++ (b ∷ back))
      × (record_observation obs w
          ≡ some (record w { bins = front ++ (add obs.timestamp b ∷ back) }))
      × (b.lower ≤ obs.latency)
      × (obs.latency < b.upper)
unfolding record_observation
record_observation-bin obs w p l h =
    let (front, b, back, whole, added, low, high) =
      add_at_lem obs.timestamp w.bin_width 0 (obs.latency / w.bin_width) w.bins l h in
    (
      front,
      b,
      back,
      whole,
      ground (arith, added),
      omega (arith, low, (quotient_bounds obs.latency w.bin_width p).0),
      omega (arith, high, (quotient_bounds obs.latency w.bin_width p).1),
    )

Laid-make_bins : (width i n : ℕ) → Laid width i (make_bins width i n)
unfolding make_bins
Laid-make_bins width i zero = tt
Laid-make_bins width i (suc n) = (refl, refl, Laid-make_bins width (i + 1) n)

length-make_bins : (width i n : ℕ) → length (make_bins width i n) ≡ n
unfolding make_bins
length-make_bins width i zero = refl
length-make_bins width i (suc n) = ap suc (length-make_bins width (i + 1) n)

abbrev bin_count : ℕ → ℕ → ℕ
bin_count width max = if not (max % width == 0) then max / width + 1 else max / width

below_count : (width max lat : ℕ) → 0 < width → lat < max → lat / width < bin_count width max
below_count width max lat p h = (div-lt_iff_lt-mul p).1 (elim (Bool-cases (max % width == 0)) [
  | inl whole ↦ rw whole (grind (arith, div-add-mod max width, whole_rest whole))
  | inr part ↦ rw part (grind (arith, lt-div-mul-add {a = max} p))
])
  where
    whole_rest : (max % width == 0) ≡ true → max % width ≡ 0
    whole_rest e = ground arith

-- With a width that is not 0 `NewHistogramWindowPercentile` succeeds; the bins stand side by side, and
-- they reach every latency below the maximum.
pub new_window-reaches :
    (window width max lat : ℕ)
    → 0 < width
    → lat < max
    → (w : Window) × (new_window window width max ≡ some w)
      × (w.bin_width ≡ width)
      × Laid width 0 w.bins
      × (lat / width < length w.bins)
unfolding new_window
new_window-reaches window width max lat p h = (
  record {
    window = window;
    bins = make_bins width 0 (bin_count width max);
    bin_width = width;
    max_latency = max;
  },
  ground arith,
  refl,
  Laid-make_bins width 0 (bin_count width max),
  rw (length-make_bins width 0 (bin_count width max)) (below_count width max lat p h),
)
