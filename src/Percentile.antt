-- ===== src/Percentile.antt =====
-- p-percentile-window: percentiles of the latencies in a sliding window, by three methods.
-- Times and latencies are nanoseconds; times count from an origin that lies more than a window before
-- the first observation, so that `now.Add(-window)` is `now - window`.
mod Tests
pub mod Observation
pub mod Treap
pub mod Naive
pub mod Arrange
pub mod Agreement
pub mod Histogram
