-- ===== src/Otel/Client/Rows.antt =====
-- The rows of an answer that stem from ranging over a map: they come in an order that Go does not fix.
use golang_toys.Base.{◌≡◌, refl, List, [], ◌∷◌}
use mathlib.Core.List.{Perm as Permuted}
use mathlib.Core.List.Perm
use golang_toys.Otel.Handler.{SeriesResponse, BucketResponse}
use golang_toys.Otel.Client.Print.{MetricsResponse}

-- The same windows in the same order, each with the same rows in any order.
pub data SameBuckets {ℓ} {V : Type ℓ}
    : List (BucketResponse V) → List (BucketResponse V) → Type ℓ where
  none_left : SameBuckets [] []
  same_next :
      (b c : BucketResponse V) (bs cs : List (BucketResponse V))
      → b.start ≡ c.start
      → Permuted b.series c.series
      → SameBuckets bs cs
      → SameBuckets (b ∷ bs) (c ∷ cs)

pub record SameRows {ℓ} {V : Type ℓ} (read : MetricsResponse V) (buckets : List (BucketResponse V))
    (total : List (SeriesResponse V)) : Type ℓ where
  pub windows : SameBuckets read.buckets buckets
  pub totals : Permuted read.total total

pub SameBuckets-refl {ℓ} : {V : Type ℓ} (bs : List (BucketResponse V)) → SameBuckets bs bs
SameBuckets-refl [] = none_left
SameBuckets-refl (b ∷ bs) = same_next b b bs bs refl (Perm.refl b.series) (SameBuckets-refl bs)
