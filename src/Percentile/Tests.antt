-- ===== src/Percentile/Tests.antt =====
-- The theorems on the percentile windows at a window with two observations.
use golang_toys.Base.{
  ◌<◌, ◌++◌, length, List, [], ◌∷◌, ◌-◌, ◌+◌, ℕ, zero, suc, ◌≤◌, ◌≡◌, some, arith,
}
use golang_toys.Percentile.Observation.{Observation}
use golang_toys.Percentile.Treap
use golang_toys.Percentile.Treap.{Tree, nil, node, insert, delete_by_timestamp, select_by_rank}
use golang_toys.Percentile.Treap.Heap.{IsHeap}
use golang_toys.Percentile.Naive
use golang_toys.Percentile.Histogram
use golang_toys.Percentile.Histogram.{Bin, total}
use golang_toys.Percentile.Histogram.Rank.{percentile-rank}
use golang_toys.Percentile.Agreement.{
  Agree, new_window-Agree, record_observation-Agree, percentile-Agree,
}

abbrev slow : Observation
slow = record { timestamp = 100; latency = 30 }

abbrev fast : Observation
fast = record { timestamp = 101; latency = 10 }

-- The lower median's index.
abbrev half : ℕ → ℕ
half zero = 0
half (suc zero) = 0
half (suc (suc n)) = suc (half n)

half_in_range : (m : ℕ) → half m ≤ m
half_in_range zero = omega arith
half_in_range (suc zero) = omega arith
half_in_range (suc (suc n)) = ground (arith, half_in_range n)

abbrev treap_window : Treap.Window
treap_window =
    Treap.record_observation 8 fast (Treap.record_observation 4 slow (Treap.new_window 50))

abbrev naive_window : Naive.Window
naive_window = Naive.record_observation fast (Naive.record_observation slow (Naive.new_window 50))

record_observation-Agree_example :
    Agree
      (Treap.record_observation 4 slow (Treap.new_window 50))
      (Naive.record_observation slow (Naive.new_window 50))
record_observation-Agree_example =
    record_observation-Agree 4 slow (Treap.new_window 50) (Naive.new_window 50)
      (new_window-Agree 50)

percentile-Agree_example :
    Agree (Treap.percentile half 120 treap_window).0 (Naive.percentile half 120 naive_window).0
    × ((Naive.percentile half 120 naive_window).1 ≡ some (Treap.percentile half 120 treap_window).1)
percentile-Agree_example = percentile-Agree half 120 treap_window naive_window half_in_range (
    record_observation-Agree 8 fast (Treap.record_observation 4 slow (Treap.new_window 50))
      (Naive.record_observation slow (Naive.new_window 50))
      (record_observation-Agree 4 slow (Treap.new_window 50) (Naive.new_window 50)
        (new_window-Agree 50)))

abbrev tree : Tree
tree = node slow 9 2 (node fast 4 1 nil nil) nil

heap : IsHeap tree
heap = (omega arith, tt, (tt, tt, tt, tt), tt)

abbrev bins : Histogram.Window
bins = record {
  window = 50;
  bins =
      record { lower = 0; upper = 20; timestamps = 101 ∷ [] }
      ∷ record { lower = 20; upper = 40; timestamps = 60 ∷ 100 ∷ [] }
      ∷ [];
  bin_width = 20;
  max_latency = 40;
}

percentile-rank_example :
    let left = (Histogram.percentile half 120 bins).0.bins in
    (front : List Bin) × (b : Bin) × (back : List Bin) × (left ≡ front ++ (b ∷ back))
    × ((Histogram.percentile half 120 bins).1 ≡ some b.lower)
    × (total front ≤ half (total left - 1))
    × (half (total left - 1) < total front + length b.timestamps)
unfolding Histogram.percentile Histogram.evict Histogram.live_part total
percentile-rank_example = percentile-rank half 120 bins half_in_range (omega arith)
