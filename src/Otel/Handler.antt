-- ===== src/Otel/Handler.antt =====
-- otel/handler.go: `IngestHandler` and `QueryHandler`. A float64 is of the type `V`, and an int64 of a data
-- point of the type `I`. What `io.ReadAll` and `proto.Unmarshal` make of a body is a parameter.
pub mod Ingested
pub mod Answered
use Prim.Native.Nat.Ordering.{lt, eq, gt}
use Prim.Native.Nat.{Ordering}
use golang_toys.Base.{
  ℕ, zero, suc, ◌+◌, ◌-◌, ◌*◌, ◌^◌, Bool, true, false, ◌&&◌, ◌||◌, List, [], ◌∷◌, ◌++◌, Option,
  none, some, map, if◌then◌else◌, ◌==◌, ltb, leb,
}
use golang_toys.Base.Bytes.{Bytes, codes, compare_bytes}
use golang_toys.Base.Sort.{sort_by, insert_by}
use golang_toys.Otel.Fingerprint.{KeyValue, fingerprint_attrs, parse_fingerprint, find_attr}
use golang_toys.Otel.Store.{SeriesKey, Point, Series, Window, Store, set_value, get_windows}

-- The parts of `ExportMetricsServiceRequest` that the handler reads.
pub data NumberValue {ℓ κ} (V : Type ℓ) (I : Type κ) : Type (ℓ ⊔ κ) where
  as_double : V → NumberValue V I
  as_int : I → NumberValue V I
  not_set : NumberValue V I

pub record DataPoint {ℓ κ} (V : Type ℓ) (I : Type κ) : Type (ℓ ⊔ κ) where
  pub attributes : List KeyValue
  pub value : NumberValue V I

pub data MetricData {ℓ κ} (V : Type ℓ) (I : Type κ) : Type (ℓ ⊔ κ) where
  counter : List (DataPoint V I) → MetricData V I
  other : MetricData V I

pub record Metric {ℓ κ} (V : Type ℓ) (I : Type κ) : Type (ℓ ⊔ κ) where
  pub name : Bytes
  pub content : MetricData V I

pub record ScopeMetrics {ℓ κ} (V : Type ℓ) (I : Type κ) : Type (ℓ ⊔ κ) where
  pub metrics : List (Metric V I)

pub record ResourceMetrics {ℓ κ} (V : Type ℓ) (I : Type κ) : Type (ℓ ⊔ κ) where
  pub scope_metrics : List (ScopeMetrics V I)

pub data IngestAnswer : Type 0 where
  stored : IngestAnswer
  cannot_read : IngestAnswer
  cannot_decode : IngestAnswer

pub record SeriesResponse {ℓ} (V : Type ℓ) : Type ℓ where
  pub name : Bytes
  pub attributes : List KeyValue
  pub value : V

pub record BucketResponse {ℓ} (V : Type ℓ) : Type ℓ where
  pub start : ℕ
  pub series : List (SeriesResponse V)

-- `panicked` is the end of the call of `GetWindows` by a panic, which net/http catches.
pub data QueryAnswer {ℓ} (V : Type ℓ) : Type ℓ where
  bad_windows : QueryAnswer V
  panicked : QueryAnswer V
  found : List (BucketResponse V) → List (SeriesResponse V) → QueryAnswer V

module _ {ℓ κ} {V : Type ℓ} {I : Type κ} (nought : V) (of_int : I → V) where
  unfoldable pub data_point_value : DataPoint V I → V
  data_point_value dp = elim dp.value [ as_double v ↦ v | as_int i ↦ of_int i | not_set ↦ nought ]

  -- `SeriesKey{Name: m.Name, Attributes: fingerprintAttrs(dp.Attributes)}`
  abbrev pub key_for : Bytes → DataPoint V I → SeriesKey
  key_for name dp = record { name = name; attributes = fingerprint_attrs dp.attributes }

  -- The four loops of the handler, the innermost first.
  unfoldable pub store_points : Bytes → ℕ → List (DataPoint V I) → Store V → Store V
  unfolding data_point_value fingerprint_attrs set_value
  store_points name now [] s = s
  store_points name now (dp ∷ dps) s =
      store_points name now dps (set_value (key_for name dp) (data_point_value dp) now s)

  -- Only a counter is stored.
  unfoldable pub store_content : Bytes → ℕ → MetricData V I → Store V → Store V
  unfolding store_points
  store_content name now (counter dps) s = store_points name now dps s
  store_content name now other s = s

  unfoldable pub store_metrics : ℕ → List (Metric V I) → Store V → Store V
  unfolding store_content
  store_metrics now [] s = s
  store_metrics now (m ∷ ms) s = store_metrics now ms (store_content m.name now m.content s)

  unfoldable pub store_scopes : ℕ → List (ScopeMetrics V I) → Store V → Store V
  unfolding store_metrics
  store_scopes now [] s = s
  store_scopes now (sm ∷ sms) s = store_scopes now sms (store_metrics now sm.metrics s)

  unfoldable pub store_resources : ℕ → List (ResourceMetrics V I) → Store V → Store V
  unfolding store_scopes
  store_resources now [] s = s
  store_resources now (rm ∷ rms) s = store_resources now rms (store_scopes now rm.scope_metrics s)

  -- What follows on the decoding of the body.
  unfoldable pub ingest_decoded :
      ℕ → Store V → Option (List (ResourceMetrics V I)) → IngestAnswer × Store V
  unfolding store_resources
  ingest_decoded now s none = (cannot_decode, s)
  ingest_decoded now s (some rms) = (stored, store_resources now rms s)

  -- The body is `none` if it cannot be read.
  unfoldable pub ingest_handler :
      (Bytes → Option (List (ResourceMetrics V I)))
      → Option Bytes
      → ℕ
      → Store V
      → IngestAnswer × Store V
  unfolding ingest_decoded
  ingest_handler unmarshal none now s = (cannot_read, s)
  ingest_handler unmarshal (some body) now s = ingest_decoded now s (unmarshal body)

-- The status and the body with which the answer is sent.
abbrev pub ingest_response : IngestAnswer → ℕ × Bytes
ingest_response stored = (200, [])
ingest_response cannot_read = (400, codes "cannot read body\n")
ingest_response cannot_decode = (400, codes "cannot decode protobuf\n")

-- `maxWindows`, which is `math.MaxInt`.
abbrev pub max_windows : ℕ
max_windows = 2 ^ 63 - 1

-- The digits that are left of a number.
abbrev pub digits : Bytes → ℕ → Option ℕ
digits [] n = some n
digits (c ∷ s) n = if leb b'0' c && leb c b'9' then digits s (n * 10 + (c - b'0')) else none

-- `strconv.Atoi`, on a text without its sign.
abbrev unsigned : Bytes → Option ℕ
unsigned [] = none
unsigned (c ∷ s) = elim (digits (c ∷ s) 0) [
  | none ↦ none
  | some n ↦ if leb n max_windows then some n else none
]

-- The number that the parameter `windows` asks for: `none` where `Atoi` fails or its result is not positive.
unfoldable pub asked : Bytes → Option ℕ
asked [] = some max_windows
asked (c ∷ s) = if c == b'-' then none else elim (unsigned (if c == b'+' then s else c ∷ s)) [
  | none ↦ none
  | some n ↦ if leb n 0 then none else some n
]

module _ {ℓ} {V : Type ℓ} where
  unfoldable pub series_row : Point V → SeriesResponse V
  unfolding parse_fingerprint
  series_row p = record {
    name = p.key.name;
    attributes = parse_fingerprint p.key.attributes;
    value = p.value;
  }

  -- What the comparison of `sort.Slice` reads: the name, and the attribute of the empty key.
  abbrev pub sort_key : SeriesResponse V → Bytes × Bytes
  sort_key r = (r.name, elim (find_attr [] r.attributes) [ none ↦ [] | some v ↦ v ])

abbrev pub compare_keys : Bytes × Bytes → Bytes × Bytes → Ordering
compare_keys a b = elim (compare_bytes a.0 b.0) [ lt ↦ lt | eq ↦ compare_bytes a.1 b.1 | gt ↦ gt ]

module _ {ℓ} {V : Type ℓ} where
  -- `sort.Slice` leaves open the order of the rows with one name: here it is that of the map's rows.
  unfoldable pub series_to_response : Series V → List (SeriesResponse V)
  unfolding series_row sort_by insert_by find_attr compare_bytes
  series_to_response m = sort_by compare_keys sort_key (map series_row m)

  unfoldable pub bucket_row : Window V → BucketResponse V
  unfolding series_to_response
  bucket_row x = record { start = x.start; series = series_to_response x.series }

  unfoldable pub response : Option (List (Window V) × Series V) → QueryAnswer V
  unfolding bucket_row
  response none = panicked
  response (some r) = found (map bucket_row r.0) (series_to_response r.1)

  -- What follows on the reading of the parameter.
  unfoldable pub query_for : (V → V → V) → V → ℕ → Store V → Option ℕ → QueryAnswer V
  unfolding get_windows response
  query_for add nought now s none = bad_windows
  query_for add nought now s (some n) = response (get_windows add nought n now s)

  unfoldable pub query_handler : (V → V → V) → V → Bytes → ℕ → Store V → QueryAnswer V
  unfolding asked query_for
  query_handler add nought windows now s = query_for add nought now s (asked windows)
