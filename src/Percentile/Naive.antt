-- ===== src/Percentile/Naive.antt =====
-- p-percentile-window/naive.go: every observation is kept, and sorted for every question.
use Prim.Native.Nat.{compare}
use golang_toys.Base.{
  ℕ, ◌-◌, not, Option, some, List, [], ◌∷◌, ◌++◌, if◌then◌else◌, leb, ◌==◌, length, get_elem?, keep,
  map,
}
use golang_toys.Base.Sort.{sort_by, insert_by}
use golang_toys.Percentile.Observation.{Observation, latency_of}

pub record Window : Type 0 where
  pub window : ℕ
  pub observations : List Observation

unfoldable pub new_window : ℕ → Window
new_window window = record { window = window; observations = [] }

unfoldable pub record_observation : Observation → Window → Window
record_observation obs w = record w { observations = w.observations ++ (obs ∷ []) }

-- `slices.Sort` on the latencies.
unfoldable pub sort_latencies : List ℕ → List ℕ
unfolding sort_by insert_by
sort_latencies = sort_by compare (λ n. n)

-- `slices.DeleteFunc` removes what is not after the cutoff. The result is `none` where the index is out
-- of range, which is a panic in Go. `scale m` is `int(float64(m) * p)`.
unfoldable pub percentile : (ℕ → ℕ) → ℕ → Window → Window × Option ℕ
unfolding sort_latencies
percentile scale now w =
    let w' = record w {
      observations = keep (λ o. not (leb o.timestamp (now - w.window))) w.observations;
    } in
    let latencies = sort_latencies (map latency_of w'.observations) in
    (
      w',
      if length w'.observations == 0
          then some 0
          else get_elem? latencies (scale (length latencies - 1)),
    )
