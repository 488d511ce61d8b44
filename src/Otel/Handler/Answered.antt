-- ===== src/Otel/Handler/Answered.antt =====
-- What `QueryHandler` answers after requests to `IngestHandler`.
use golang_toys.Base.{◌≡◌, ap, ◌∙◌, ℕ, ◌+◌, ◌≤◌, List, Option, none, some, map, All}
use golang_toys.Base.Bytes.{Bytes}
use golang_toys.Otel.Store.{SeriesKey, Series, Store, find, new_store, least, epoch_of}
use golang_toys.Otel.Store.Totals.{windows_of, summed}
use golang_toys.Otel.Store.History.{Write, set_each, IsInTime}
use golang_toys.Otel.Store.Answers.{log, last_value, get_windows-set_each}
use golang_toys.Otel.Handler.{
  ResourceMetrics, bad_windows, found, asked, bucket_row, series_to_response, query_handler,
  query_for, response,
}
use golang_toys.Otel.Handler.Ingested.{
  Request, ingest_each, ingest_each_lem, request_writes, join_map,
}

module _ {ℓ κ} {V : Type ℓ} {I : Type κ} (add : V → V → V) (nought : V) (of_int : I → V)
    (unmarshal : Bytes → Option (List (ResourceMetrics V I))) where
  -- All the values that requests record, in order.
  abbrev pub recorded : List Request → List (Write V)
  recorded rs = join_map (request_writes nought of_int unmarshal) rs

  -- After requests to `IngestHandler` that came in time, none later than the query, a query that asks for
  -- a number of windows, with as many epochs behind it, is answered with the rows of each window that has
  -- data, oldest first, and with the rows of the totals. The window of an epoch has for each series the
  -- value of its last data point in it; the total of a series is the sum over the windows. Data points of
  -- no counter and bodies that cannot be decoded have no part in it.
  pub query_handler-ingest_each :
      (n w count now : ℕ) (windows : Bytes) (s : Store V) (rs : List Request)
      → new_store n w ≡ some s
      → IsInTime w n (recorded rs) none
      → All (λ x. x.now ≤ now) (recorded rs)
      → asked windows ≡ some count
      → least count n ≤ epoch_of w now + 1
      → (total : Series V) × (query_handler add nought windows now
            (ingest_each nought of_int unmarshal rs s)
          ≡ found
              (map bucket_row (windows_of w (epoch_of w now) (log w (recorded rs)) (least count n)))
              (series_to_response total))
        × ((k : SeriesKey) (e : ℕ)
            → find k (log w (recorded rs) e) ≡ last_value w k e (recorded rs) none)
        × ((k : SeriesKey)
            → find k total
              ≡ summed add nought k
                  (windows_of w (epoch_of w now) (log w (recorded rs)) (least count n))
                  none)
  unfolding query_handler query_for response
  query_handler-ingest_each n w count now windows s rs made h by e le =
      let r = get_windows-set_each add nought n w count now s (recorded rs) made h by le in
      (
        r.0,
        ap (query_handler add nought windows now) (ingest_each_lem nought of_int unmarshal rs s)
            ∙ ap (query_for add nought now (set_each (recorded rs) s)) e
            ∙ ap response r.1,
        r.2,
        r.3,
      )

module _ {ℓ} {V : Type ℓ} where
  -- A parameter that is no positive number is refused, whatever the store holds.
  pub query_handler_bad :
      (add : V → V → V) (nought : V) (windows : Bytes) (now : ℕ) (s : Store V)
      → asked windows ≡ none
      → query_handler add nought windows now s ≡ bad_windows
  unfolding query_handler query_for
  query_handler_bad add nought windows now s e = ap (query_for add nought now s) e
