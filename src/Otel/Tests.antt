-- ===== src/Otel/Tests.antt =====
-- The theorems on the store and its handlers at concrete calls, with natural numbers for floats.
use golang_toys.Base.{
  ◌≡◌, refl, ap, ℕ, ◌+◌, ◌≤◌, ◌<◌, Option, none, some, List, [], ◌∷◌, arith, map, ◌-◌, ◌++◌, All,
  length, get_elem?,
}
use golang_toys.Base.Bytes.{Bytes, compare_bytes}
use golang_toys.Cassandra.Entry.{same}
use golang_toys.Otel.Store.{
  SeriesKey, Bucket, Store, Series, new_store, replicate, empty_bucket, read, collect, get_windows,
  set_value, find, Window,
}
use golang_toys.Otel.Store.Ring.{store_of}
use golang_toys.Otel.Store.Totals.{windows_of, summed}
use golang_toys.Otel.Store.History.{Write, set_each, log_of, get_windows-log_of}
use golang_toys.Otel.Store.Answers.{log, last_value}
use golang_toys.Otel.Store.Late.{set_value-late}
use golang_toys.Otel.Fingerprint.{KeyValue, fingerprint_attrs, parse_fingerprint, find_attr}
use golang_toys.Otel.Fingerprint.RoundTrip.{IsPlain, parse_fingerprint-fingerprint_attrs}
use golang_toys.Otel.Handler.{
  DataPoint, as_double, as_int, counter, other, ResourceMetrics, QueryAnswer, bad_windows, panicked,
  found, series_row, bucket_row, series_to_response, query_handler, asked,
}
use golang_toys.Otel.Client.Print.{
  RoundData, build_request, MetricsResponse, print_points, print_series, print_result, blank,
}
use golang_toys.Otel.Client.Run.{rounds, main, Network}
use mathlib.Core.List.Perm
use golang_toys.Otel.Client.Rows.{SameRows, SameBuckets-refl}
use golang_toys.Otel.Client.Labels.{stored_point, print_points-print_series}
use golang_toys.Otel.Client.Traffic.{round_writes}
use golang_toys.Otel.Client.Session.{World, server, round_lines, main-server}
use golang_toys.Otel.Handler.Ingested.{Request, ingest_each}
use golang_toys.Otel.Handler.Answered.{recorded, query_handler-ingest_each}

abbrev sum : ℕ → ℕ → ℕ
sum a b = a + b

abbrev hits : SeriesKey
hits = record { name = b'h' ∷ []; attributes = [] }

-- Three windows of ten nanoseconds each.
abbrev fresh : Store ℕ
fresh = store_of (replicate 3 empty_bucket) 10 3 none

fresh-made : new_store 3 10 ≡ some fresh
unfolding new_store
fresh-made = refl

abbrev calls : List (Write ℕ)
calls =
    record { key = hits; value = 5; now = 12 }
    ∷ record { key = hits; value = 6; now = 31 }
    ∷ record { key = hits; value = 7; now = 25 }
    ∷ record { key = hits; value = 8; now = 47 }
    ∷ []

get_windows-log_of_example :
    get_windows sum 0 2 49 (set_each calls fresh)
    ≡ collect sum 0 10 4 (log_of 10 calls (λ e. [])) 2 [] []
get_windows-log_of_example =
    get_windows-log_of sum 0 3 10 2 49 fresh calls fresh-made (refl, (refl, (refl, (refl, tt))))
      (omega arith, (omega arith, (omega arith, (omega arith, tt))))

-- The buckets of the epochs 3, 4 and 5.
abbrev full : List (Bucket ℕ)
full =
    record { epoch = some 3; series = record { key = hits; value = 1 } ∷ [] }
    ∷ record { epoch = some 4; series = record { key = hits; value = 2 } ∷ [] }
    ∷ record { epoch = some 5; series = record { key = hits; value = 3 } ∷ [] }
    ∷ []

set_value-late_example :
    (e : ℕ) × (e ≤ 5)
    × (5 < e + 3)
    × (read (set_value hits 9 18 (store_of full 10 3 (some 5))) e ≡ [])
set_value-late_example = set_value-late hits 9 18 5 10 3 full (omega arith) refl (omega arith)

abbrev attributes : List KeyValue
attributes =
    record { key = b'z' ∷ []; value = b'1' ∷ b'=' ∷ [] }
    ∷ record { key = b'a' ∷ []; value = [] }
    ∷ []

attributes-IsPlain : All IsPlain attributes
attributes-IsPlain = (
  record {
    key_comma = (omega arith, tt);
    key_equals = (omega arith, tt);
    value_comma = (omega arith, (omega arith, tt));
  },
  (record { key_comma = (omega arith, tt); key_equals = (omega arith, tt); value_comma = tt }, tt),
)

parse_fingerprint-fingerprint_attrs_example :
    find_attr (b'z' ∷ []) (parse_fingerprint (fingerprint_attrs attributes))
    ≡ find_attr (b'z' ∷ []) attributes
unfolding find_attr same compare_bytes
parse_fingerprint-fingerprint_attrs_example =
    parse_fingerprint-fingerprint_attrs attributes (b'z' ∷ []) attributes-IsPlain (refl, (refl, tt))

-- A decoder that knows one body.
abbrev unmarshal : Bytes → Option (List (ResourceMetrics ℕ ℕ))
unmarshal [] = none
unmarshal (c ∷ s) = some (
    record {
      scope_metrics =
          record {
            metrics =
                record { name = b'g' ∷ []; content = other }
                ∷ record {
                  name = b'h' ∷ [];
                  content = counter (
                      record { attributes = attributes; value = as_double 4 }
                      ∷ record { attributes = []; value = as_int 5 }
                      ∷ []);
                }
                ∷ [];
          }
          ∷ [];
    }
    ∷ [])

abbrev requests : List Request
requests =
    record { body = some (1 ∷ []); now = 21 }
    ∷ record { body = some []; now = 22 }
    ∷ record { body = some (1 ∷ []); now = 38 }
    ∷ []

query_handler-ingest_each_example :
    (total : Series ℕ) × (query_handler sum 0
        (b'2' ∷ [])
        39
        (ingest_each 0 (λ i. i) unmarshal requests fresh)
      ≡ found
          (map bucket_row (windows_of 10 3 (log 10 (recorded sum 0 (λ i. i) unmarshal requests)) 2))
          (series_to_response total))
    × ((k : SeriesKey) (e : ℕ)
        → find k (log 10 (recorded sum 0 (λ i. i) unmarshal requests) e)
          ≡ last_value 10 k e (recorded sum 0 (λ i. i) unmarshal requests) none)
    × ((k : SeriesKey)
        → find k total
          ≡ summed sum 0 k
              (windows_of 10 3 (log 10 (recorded sum 0 (λ i. i) unmarshal requests)) 2)
              none)
unfolding asked
query_handler-ingest_each_example =
    query_handler-ingest_each sum 0 (λ i. i) unmarshal 3 10 2 39 (b'2' ∷ []) fresh requests
      fresh-made (refl, (refl, (refl, (refl, tt))))
      (omega arith, (omega arith, (omega arith, (omega arith, tt)))) refl (omega arith)

-- The table of rounds, with a byte for the message of each.
abbrev table : List (RoundData ℕ)
table = rounds (λ n. n)

abbrev number : ResourceMetrics ℕ ℕ → ℕ
number rm = elim rm.scope_metrics [
  | [] ↦ 0
  | sm ∷ sms ↦ elim sm.metrics [
    | [] ↦ 0
    | m ∷ ms ↦ elim m.content [ counter dps ↦ length dps | other ↦ 0 ]
  ]
]

abbrev to_body : List (ResourceMetrics ℕ ℕ) → Option Bytes
to_body [] = none
to_body (rm ∷ rms) = some (number rm ∷ [])

abbrev from_body : Bytes → Option (List (ResourceMetrics ℕ ℕ))
from_body [] = none
from_body (c ∷ s) = map_some (get_elem? table (c - 3))
  where
    map_some : Option (RoundData ℕ) → Option (List (ResourceMetrics ℕ ℕ))
    map_some none = none
    map_some (some r) = some (build_request r)

abbrev to_json : QueryAnswer ℕ → Option (QueryAnswer ℕ)
to_json a = some a

abbrev from_json : QueryAnswer ℕ → Option (MetricsResponse ℕ)
from_json (found buckets total) = some (record { buckets = buckets; total = total })
from_json bad_windows = none
from_json panicked = none

abbrev lag : ℕ → ℕ
lag clock = 1

abbrev local_server : Network (QueryAnswer ℕ) (World ℕ)
local_server = server sum 0 (λ i. i) to_body from_body to_json from_json lag 9

abbrev sent : List (Write ℕ)
sent = round_writes lag 9 0 3 100 table

abbrev windows : List (Window ℕ)
windows = windows_of 10 12 (log 10 sent) 3

main-server_example :
    (total : Series ℕ) × (read : MetricsResponse ℕ) × (main 0
        (λ i. i)
        local_server
        to_body
        from_json
        table
        (record { store = fresh; clock = 100 })
      ≡ (
        none,
        round_lines 0 (λ i. i) 0 3 table ++ (blank ∷ print_result read),
        record { store = set_each sent fresh; clock = 122 },
      ))
    × SameRows read (map bucket_row windows) (series_to_response total)
    × ((k : SeriesKey) (e : ℕ) → find k (log 10 sent e) ≡ last_value 10 k e sent none)
    × ((k : SeriesKey) → find k total ≡ summed sum 0 k windows none)
unfolding build_request
main-server_example =
    main-server sum 0 (λ i. i) to_body from_body to_json from_json lag 9 3 10 fresh 100 table
      fresh-made ((_, refl, refl), ((_, refl, refl), ((_, refl, refl), tt)))
      (λ buckets total e. (
        found buckets total,
        record { buckets = buckets; total = total },
        ap some e,
        refl,
        record { windows = SameBuckets-refl buckets; totals = Perm.refl total },
      ))
      (omega arith) (omega arith) (omega arith)

abbrev point : DataPoint ℕ ℕ
point = record { attributes = attributes; value = as_int 7 }

print_points-print_series_example :
    print_points 0 (λ i. i) (b'h' ∷ []) (point ∷ [])
    ≡ print_series (series_row (stored_point 0 (λ i. i) (b'h' ∷ []) point) ∷ [])
unfolding find_attr same compare_bytes
print_points-print_series_example =
    print_points-print_series 0 (λ i. i) (b'h' ∷ []) point attributes-IsPlain (refl, (refl, tt))
