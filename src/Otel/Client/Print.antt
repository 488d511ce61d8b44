-- ===== src/Otel/Client/Print.antt =====
-- otel/cmd/client/main.go: the messages of the demo client and what it prints of them and of answers. What goes
-- to standard output is a list of lines with the arguments of each print.
use golang_toys.Base.{ℕ, ◌+◌, List, [], ◌∷◌, ◌++◌, Option, none, some, map, length}
use golang_toys.Base.Bytes.{Bytes, codes, compare_bytes}
use golang_toys.Base.Sort.{sort_by, insert_by}
use golang_toys.Otel.Fingerprint.{KeyValue, itself, assign_attr, find_attr}
use golang_toys.Otel.Handler.{
  DataPoint, as_double, as_int, not_set, counter, other, Metric, ScopeMetrics, ResourceMetrics,
  SeriesResponse, BucketResponse,
}

pub record Point {ℓ} (V : Type ℓ) : Type ℓ where
  pub method : Bytes
  pub status : Bytes
  pub value : V

pub record RoundData {ℓ} (V : Type ℓ) : Type ℓ where
  pub label : Bytes
  pub points : List (Point V)

-- The decoded JSON.
pub record MetricsResponse {ℓ} (V : Type ℓ) : Type ℓ where
  pub buckets : List (BucketResponse V)
  pub total : List (SeriesResponse V)

-- One call of `fmt.Printf` or `fmt.Println` for each: a data point before it is sent and a row of the answer
-- have one format, `row`.
pub data Line {ℓ} (V : Type ℓ) : Type ℓ where
  round_head : ℕ → ℕ → Bytes → Line V
  row : Bytes → Bytes → V → Line V
  ingest_ok : Line V
  sleeping : Line V
  blank : Line V
  windows_found : ℕ → Line V
  window_head : ℕ → ℕ → Line V
  total_head : Line V

-- `attrs[k]` in Go, where a missing key has the empty text.
abbrev pub text_of : Option Bytes → Bytes
text_of none = []
text_of (some v) = v

-- A pair as `fmtAttrs` writes it.
abbrev pub attr_text : List KeyValue → Bytes → Bytes
attr_text attrs k = k ++ (b'=' ∷ text_of (find_attr k attrs))

-- The loop of `fmtAttrs` after its first round.
abbrev pub later_attrs : List KeyValue → List Bytes → Bytes
later_attrs attrs [] = b'}' ∷ []
later_attrs attrs (k ∷ ks) = b',' ∷ b' ' ∷ (attr_text attrs k ++ later_attrs attrs ks)

abbrev pub all_attrs : List KeyValue → List Bytes → Bytes
all_attrs attrs [] = b'}' ∷ []
all_attrs attrs (k ∷ ks) = attr_text attrs k ++ later_attrs attrs ks

abbrev pub attr_key : KeyValue → Bytes
attr_key a = a.key

-- `fmtAttrs`: the keys of the map in Go's order of strings.
unfoldable pub fmt_attrs : List KeyValue → Bytes
unfolding sort_by insert_by compare_bytes find_attr
fmt_attrs attrs = b'{' ∷ all_attrs attrs (sort_by compare_bytes itself (map attr_key attrs))

-- The loop of `attrsToMap`.
unfoldable pub assign_all : List KeyValue → List KeyValue → List KeyValue
unfolding assign_attr
assign_all [] m = m
assign_all (kv ∷ kvs) m = assign_all kvs (assign_attr kv.key kv.value m)

unfoldable pub attrs_to_map : List KeyValue → List KeyValue
unfolding assign_all
attrs_to_map kvs = assign_all kvs []

abbrev pub str_attr : Bytes → Bytes → KeyValue
str_attr key value = record { key = key; value = value }

abbrev pub point_attributes {ℓ} : {V : Type ℓ} → Point V → List KeyValue
point_attributes p =
    str_attr (codes "http.method") p.method ∷ str_attr (codes "http.status_code") p.status ∷ []

module _ {ℓ κ} {V : Type ℓ} {I : Type κ} where
  abbrev pub data_point : Point V → DataPoint V I
  data_point p = record { attributes = point_attributes p; value = as_double p.value }

  -- The message, without the fields that no code here reads.
  unfoldable pub build_request : RoundData V → List (ResourceMetrics V I)
  build_request r =
      record {
        scope_metrics =
            record {
              metrics =
                  record {
                    name = codes "http.server.request.count";
                    content = counter (map data_point r.points);
                  }
                  ∷ [];
            }
            ∷ [];
      }
      ∷ []

module _ {ℓ κ} {V : Type ℓ} {I : Type κ} (nought : V) (of_int : I → V) where
  -- `dpValue` has the cases of the server's `dataPointValue`.
  unfoldable pub dp_value : DataPoint V I → V
  dp_value dp = elim dp.value [ as_double v ↦ v | as_int i ↦ of_int i | not_set ↦ nought ]

  -- The four loops of `printRequest`, the innermost first.
  unfoldable pub print_points : Bytes → List (DataPoint V I) → List (Line V)
  unfolding dp_value fmt_attrs attrs_to_map
  print_points name [] = []
  print_points name (dp ∷ dps) =
      row name (fmt_attrs (attrs_to_map dp.attributes)) (dp_value dp) ∷ print_points name dps

  unfoldable pub print_metrics : List (Metric V I) → List (Line V)
  unfolding print_points
  print_metrics [] = []
  print_metrics (m ∷ ms) =
      elim m.content [ counter dps ↦ print_points m.name dps | other ↦ [] ] ++ print_metrics ms

  unfoldable pub print_scopes : List (ScopeMetrics V I) → List (Line V)
  unfolding print_metrics
  print_scopes [] = []
  print_scopes (sm ∷ sms) = print_metrics sm.metrics ++ print_scopes sms

  unfoldable pub print_request : List (ResourceMetrics V I) → List (Line V)
  unfolding print_scopes
  print_request [] = []
  print_request (rm ∷ rms) = print_scopes rm.scope_metrics ++ print_request rms

module _ {ℓ} {V : Type ℓ} where
  unfoldable pub print_series : List (SeriesResponse V) → List (Line V)
  unfolding fmt_attrs
  print_series [] = []
  print_series (s ∷ ss) = row s.name (fmt_attrs s.attributes) s.value ∷ print_series ss

  -- The windows from number `i + 1` on.
  unfoldable pub print_buckets : ℕ → List (BucketResponse V) → List (Line V)
  unfolding print_series
  print_buckets i [] = []
  print_buckets i (b ∷ bs) =
      window_head (i + 1) b.start ∷ (print_series b.series ++ print_buckets (i + 1) bs)

  unfoldable pub print_result : MetricsResponse V → List (Line V)
  unfolding print_buckets
  print_result r =
      windows_found (length r.buckets)
      ∷ (print_buckets 0 r.buckets ++ (total_head ∷ print_series r.total))
