-- ===== src/Percentile/Observation.antt =====
-- p-percentile-window/latency.go.
use golang_toys.Base.{ℕ}

pub record Observation : Type 0 where
  pub timestamp : ℕ
  pub latency : ℕ

abbrev pub latency_of : Observation → ℕ
latency_of o = o.latency
