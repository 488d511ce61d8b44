-- ===== src/Otel/Client/Session.antt =====
-- The client's `main` against the server's handlers.
use golang_toys.Base.{
  ◌≡◌, refl, ap, sym, ◌∙◌, ℕ, ◌+◌, ◌≤◌, ◌<◌, List, [], ◌∷◌, ◌++◌, append-nil, Option, none, some,
  map, arith, if◌then◌else◌, All, All-imp, length, Bool-cases, inl, inr,
}
use golang_toys.Base.Bytes.{Bytes, codes}
use golang_toys.Otel.Store.{SeriesKey, Series, Store, find, new_store, least, epoch_of}
use golang_toys.Otel.Store.Totals.{windows_of, summed}
use golang_toys.Otel.Store.History.{Write, set_each, epoch_mono, new_store_lem}
use golang_toys.Otel.Store.Answers.{log, last_value, get_windows-set_each}
use golang_toys.Otel.Handler.{
  ResourceMetrics, QueryAnswer, stored, SeriesResponse, BucketResponse, found, bucket_row,
  series_to_response, ingest_handler, ingest_decoded, ingest_response, query_handler, query_for,
  response, asked, max_windows, data_point_value,
}
use golang_toys.Otel.Handler.Ingested.{writes_of, store_resources_lem, set_each-append, point_write}
use golang_toys.Otel.Client.Print.{
  Point, RoundData, MetricsResponse, Line, ingest_ok, blank, data_point, build_request,
  print_result,
}
use golang_toys.Otel.Client.Run.{
  SendError, Failure, Network, Outcome, decimal, posted, send_request, decoded, got, query_windows,
  announced, is_before_last, gap, send_marshalled, after_send, after_query, send_rounds, finish,
  main,
}
use golang_toys.Otel.Client.Rows.{SameRows}
use golang_toys.Otel.Client.Decimal.{asked-decimal}
use golang_toys.Otel.Client.Traffic.{
  IsChain, chain-IsInTime, IsChain-weaken, end_clock_le, arrival, next_clock, write_at,
  round_writes, end_clock, round_writes-IsChain, round_writes_by,
}

-- The store of the server and the clock.
pub record World {ℓ} (V : Type ℓ) : Type ℓ where
  pub store : Store V
  pub clock : ℕ

module _ {ℓ κ} {V : Type ℓ} {I : Type κ} (nought : V) (of_int : I → V) where
  -- What the rounds print.
  abbrev pub round_lines : ℕ → ℕ → List (RoundData V) → List (Line V)
  round_lines i n [] = []
  round_lines i n (r ∷ rs) =
      announced nought of_int i n r ++ (ingest_ok ∷ (gap i n ++ round_lines (i + 1) n rs))

module _ {ℓ κ β} {V : Type ℓ} {I : Type κ} {B : Type β} (add : V → V → V) (nought : V)
    (of_int : I → V) (marshal : List (ResourceMetrics V I) → Option Bytes)
    (unmarshal : Bytes → Option (List (ResourceMetrics V I))) (encode : QueryAnswer V → Option B)
    (decode : B → Option (MetricsResponse V)) (lag : ℕ → ℕ) (pause : ℕ) where
  -- The server with a connection to it.
  abbrev pub server : Network B (World V)
  server = record {
    post = λ b w.
        let r =
          ingest_handler nought of_int unmarshal (some b) (arrival lag pause w.clock) w.store in
        (some (ingest_response r.0), record { store = r.1; clock = arrival lag pause w.clock });
    get = λ windows w. (
      encode (query_handler add nought windows (arrival lag pause w.clock) w.store),
      record { store = w.store; clock = arrival lag pause w.clock },
    );
    sleep = λ w. record { store = w.store; clock = w.clock + pause };
  }

  -- The message of a round reaches the server as it is.
  abbrev pub IsCarried : RoundData V → Type (ℓ ⊔ κ)
  IsCarried r =
      (b : Bytes) × (marshal (build_request r) ≡ some b) × (unmarshal b ≡ some (build_request r))

  point_write_lem :
      (t : ℕ) (ps : List (Point V))
      → map (point_write nought of_int (codes "http.server.request.count") t) (map data_point ps)
        ≡ map (write_at t) ps
  unfolding data_point_value
  point_write_lem t [] = refl
  point_write_lem t (p ∷ ps) = ap (λ l. write_at t p ∷ l) (point_write_lem t ps)

  writes_of-build_request :
      (t : ℕ) (r : RoundData V)
      → writes_of nought of_int t (build_request r) ≡ map (write_at t) r.points
  unfolding build_request
  writes_of-build_request t r =
      append-nil _ ∙ append-nil _ ∙ append-nil _ ∙ point_write_lem t r.points

  -- The answer to a body that is the encoding of a message.
  handled :
      (b : Option (List (ResourceMetrics V I))) (r : RoundData V) (now : ℕ) (s : Store V)
      → b ≡ some (build_request r)
      → ingest_decoded nought of_int now s b ≡ (stored, set_each (map (write_at now) r.points) s)
  unfolding ingest_decoded
  handled b r now s e =
      ap (ingest_decoded nought of_int now s) e
      ∙ ap (λ s'. (stored, s'))
          (store_resources_lem nought of_int now (build_request r) s
            ∙ ap (λ xs. set_each xs s) (writes_of-build_request now r))

  -- One call of `send`.
  send_request-server :
      (r : RoundData V) (w : World V)
      → IsCarried r
      → send_request server marshal (build_request r) w ≡ (
        none,
        ingest_ok ∷ [],
        record {
          store = set_each (map (write_at (arrival lag pause w.clock)) r.points) w.store;
          clock = arrival lag pause w.clock;
        },
      )
  unfolding send_request send_marshalled posted ingest_handler
  send_request-server r w c =
      ap (λ m. send_marshalled server m w) c.1
      ∙ ap
          (λ a.
            posted (some (ingest_response a.0))
              (record { store = a.1; clock = arrival lag pause w.clock }))
          (handled (unmarshal c.0) r (arrival lag pause w.clock) w.store c.2)

  slept :
      (i n clock : ℕ) (s : Store V)
      → (if is_before_last i n
          then server.sleep (record { store = s; clock = arrival lag pause clock })
          else record { store = s; clock = arrival lag pause clock })
        ≡ record { store = s; clock = next_clock lag pause i n clock }
  slept i n clock s = elim (Bool-cases (is_before_last i n)) [
    | inl before ↦ rw before refl
    | inr last ↦ rw last refl
  ]

  -- The end without an error.
  abbrev pub ended : List (Line V) → ℕ → Store V → Outcome Failure V (World V)
  ended lines clock s = (none, lines, record { store = s; clock = clock })

  -- The rest of the loop after a call of `send`.
  abbrev continued :
      ℕ
      → ℕ
      → RoundData V
      → Outcome SendError V (World V)
      → Outcome Failure V (World V)
      → Outcome Failure V (World V)
  continued i n r sent later = after_send (announced nought of_int i n r) (gap i n) sent later

  send_rounds-server :
      (i n : ℕ) (rs : List (RoundData V)) (w : World V)
      → All IsCarried rs
      → send_rounds nought of_int server marshal i n rs w ≡ (
        none,
        round_lines nought of_int i n rs,
        record {
          store = set_each (round_writes lag pause i n w.clock rs) w.store;
          clock = end_clock lag pause i n w.clock rs;
        },
      )
  unfolding send_rounds after_send
  send_rounds-server i n [] w c = refl
  send_rounds-server i n (r ∷ rs) w c =
      let now = map (write_at (arrival lag pause w.clock)) r.points in
      ap
        (λ sent. continued i n r sent (
          send_rounds nought of_int server marshal (i + 1) n rs
            (if is_before_last i n then server.sleep sent.2 else sent.2)))
        (send_request-server r w c.0)
      ∙ ap
          (λ w'.
            continued i n r (none, ingest_ok ∷ [], w')
              (send_rounds nought of_int server marshal (i + 1) n rs w'))
          (slept i n w.clock (set_each now w.store))
      ∙ ap (λ later. continued i n r (none, ingest_ok ∷ [], w) later)
          (send_rounds-server (i + 1) n rs _ c.1)
      ∙ ap
          (ended (round_lines nought of_int i n (r ∷ rs))
            (end_clock lag pause i n w.clock (r ∷ rs)))
          (sym (set_each-append now _ w.store))

  query_for-set_each :
      (n w count now : ℕ) (windows : Bytes) (s : Store V) (xs : List (Write V))
      → new_store n w ≡ some s
      → IsChain 0 xs
      → All (λ x. x.now ≤ now) xs
      → asked windows ≡ some count
      → least count n ≤ epoch_of w now + 1
      → (total : Series V) × (query_handler add nought windows now (set_each xs s)
          ≡ found
              (map bucket_row (windows_of w (epoch_of w now) (log w xs) (least count n)))
              (series_to_response total))
        × ((k : SeriesKey) (e : ℕ) → find k (log w xs e) ≡ last_value w k e xs none)
        × ((k : SeriesKey)
            → find k total
              ≡ summed add nought k (windows_of w (epoch_of w now) (log w xs) (least count n)) none)
  unfolding query_handler query_for response
  query_for-set_each n w count now windows s xs made h by e le =
      let sizes = new_store_lem n w s made in
      let r =
        get_windows-set_each add nought n w count now s xs made
          (chain-IsInTime w n 0 none xs sizes.1 sizes.0 tt h) by le in
      (r.0, ap (query_for add nought now (set_each xs s)) e ∙ ap response r.1, r.2, r.3)

  -- The server's answer to the query, if it is one, can be encoded, and the client's decoder reads from it the
  -- same windows and totals, with the rows of each in some order.
  abbrev pub IsRead : QueryAnswer V → Type (ℓ ⊔ β)
  IsRead answer =
      (buckets : List (BucketResponse V)) (total : List (SeriesResponse V))
      → answer ≡ found buckets total
      → (b : B) × (read : MetricsResponse V) × (encode answer ≡ some b)
        × (decode b ≡ some read)
        × SameRows read buckets total

  -- What `main` does on the answer to its query.
  finish-server :
      (n : ℕ) (lines : List (Line V)) (w : World V) (buckets : List (BucketResponse V))
      (total : List (SeriesResponse V))
      → IsRead (query_handler add nought (decimal n) (arrival lag pause w.clock) w.store)
      → query_handler add nought (decimal n) (arrival lag pause w.clock) w.store
        ≡ found buckets total
      → (read : MetricsResponse V) × (finish server decode n (none, lines, w)
          ≡ ended (lines ++ (blank ∷ print_result read)) (arrival lag pause w.clock) w.store)
        × SameRows read buckets total
  unfolding finish query_windows got decoded
  finish-server n lines w buckets total is_read e =
      let after : World V = record { store = w.store; clock = arrival lag pause w.clock } in
      let (b, read, encodes, decodes, same) = is_read buckets total e in
      (
        read,
        ap (λ r. after_query lines (got decode r after)) encodes
            ∙ ap (λ r. after_query lines (decoded {W = World V} r after)) decodes,
        same,
      )

  -- The client runs against a server with a new store, whose decoder reads the client's messages as they
  -- were; the client's decoder reads the server's one answer up to the order of the rows; and the clock is at
  -- the epoch of number `length rounds - 1` at least. Then `main` ends without an error. It prints each round
  -- with `ingest: ok` behind it, and after a blank line what it has read: the windows that have data among the
  -- last `length rounds`, or among all that the store has if these are fewer, with their rows, and the totals,
  -- the rows of each in some order. For each series the
  -- window of an epoch has the value of the last point that was sent in it, and the total is the sum over
  -- the windows.
  pub main-server :
      (n w : ℕ) (s : Store V) (clock : ℕ) (rounds : List (RoundData V))
      → new_store n w ≡ some s
      → All IsCarried rounds
      → let count = length rounds in
        let sent = round_writes lag pause 0 count clock rounds in
        let now = arrival lag pause (end_clock lag pause 0 count clock rounds) in
        IsRead (query_handler add nought (decimal count) now (set_each sent s))
        → 0 < length rounds
        → length rounds ≤ max_windows
        → length rounds ≤ epoch_of w clock + 1
        → let count = length rounds in
          let sent = round_writes lag pause 0 count clock rounds in
          let now = arrival lag pause (end_clock lag pause 0 count clock rounds) in
          let windows = windows_of w (epoch_of w now) (log w sent) (least count n) in
          (total : Series V) × (read : MetricsResponse V) × (main nought of_int server marshal
              decode rounds
              (record { store = s; clock = clock })
            ≡ ended
                (round_lines nought of_int 0 count rounds ++ (blank ∷ print_result read))
                now
                (set_each sent s))
          × SameRows read (map bucket_row windows) (series_to_response total)
          × ((k : SeriesKey) (e : ℕ) → find k (log w sent e) ≡ last_value w k e sent none)
          × ((k : SeriesKey) → find k total ≡ summed add nought k windows none)
  unfolding main
  main-server n w s clock rounds made carried is_read p fits old =
      let count = length rounds in
      let end = end_clock lag pause 0 count clock rounds in
      let now = arrival lag pause end in
      let sent = round_writes lag pause 0 count clock rounds in
      let late = end_clock_le lag pause 0 count clock rounds in
      let r =
        query_for-set_each n w count now (decimal count) s sent made
          (IsChain-weaken 0 clock sent (omega arith)
            (round_writes-IsChain lag pause 0 count clock rounds))
          (All-imp (λ x le. omega (arith, le)) sent
            (round_writes_by lag pause 0 count clock rounds))
          (asked-decimal count p fits)
          (ground (arith, epoch_mono w clock now (new_store_lem n w s made).1 (omega arith))) in
      let f =
        finish-server count (round_lines nought of_int 0 count rounds)
          (record { store = set_each sent s; clock = end }) _ _ is_read r.1 in
      (
        r.0,
        f.0,
        ap (finish server decode count)
              (send_rounds-server 0 count rounds (record { store = s; clock = clock }) carried)
            ∙ f.1,
        f.2,
        r.2,
        r.3,
      )
