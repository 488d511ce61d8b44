-- ===== src/Otel/Handler/Ingested.antt =====
-- The calls of `Set` that requests to `IngestHandler` make.
use golang_toys.Base.{◌≡◌, refl, ap, sym, ◌∙◌, ℕ, List, [], ◌∷◌, ◌++◌, Option, none, some, map}
use golang_toys.Base.Bytes.{Bytes}
use golang_toys.Otel.Store.{Store}
use golang_toys.Otel.Store.History.{Write, set_each}
use golang_toys.Otel.Handler.{
  ResourceMetrics, ScopeMetrics, Metric, counter, other, DataPoint, key_for, data_point_value,
  MetricData, ingest_decoded, store_content, store_points, store_metrics, store_scopes,
  store_resources, ingest_handler,
}

-- A request: its body, none if it cannot be read, and the time of the clock.
pub record Request : Type 0 where
  pub body : Option Bytes
  pub now : ℕ

module _ {ℓ} {V : Type ℓ} where
  pub set_each-append :
      (xs ys : List (Write V)) (s : Store V) → set_each (xs ++ ys) s ≡ set_each ys (set_each xs s)
  set_each-append [] ys s = refl
  set_each-append (x ∷ xs) ys s = set_each-append xs ys _

abbrev pub join_map {ℓ κ} : {A : Type ℓ} {B : Type κ} → (A → List B) → List A → List B
join_map f [] = []
join_map f (x ∷ xs) = f x ++ join_map f xs

module _ {ℓ κ} {V : Type ℓ} {I : Type κ} (nought : V) (of_int : I → V) where
  abbrev pub point_write : Bytes → ℕ → DataPoint V I → Write V
  point_write name now dp = record {
    key = key_for nought of_int name dp;
    value = data_point_value nought of_int dp;
    now = now;
  }

  abbrev pub content_writes : Bytes → ℕ → MetricData V I → List (Write V)
  content_writes name now (counter dps) = map (point_write name now) dps
  content_writes name now other = []

  abbrev pub metric_writes : ℕ → Metric V I → List (Write V)
  metric_writes now m = content_writes m.name now m.content

  -- The data points of the counters of a request, in its order.
  abbrev pub writes_of : ℕ → List (ResourceMetrics V I) → List (Write V)
  writes_of now =
      join_map (λ rm. join_map (λ sm. join_map (metric_writes now) sm.metrics) rm.scope_metrics)

  store_points_lem :
      (name : Bytes) (now : ℕ) (dps : List (DataPoint V I)) (s : Store V)
      → store_points nought of_int name now dps s ≡ set_each (map (point_write name now) dps) s
  unfolding store_points
  store_points_lem name now [] s = refl
  store_points_lem name now (dp ∷ dps) s = store_points_lem name now dps _

  store_content_lem :
      (name : Bytes) (now : ℕ) (content : MetricData V I) (s : Store V)
      → store_content nought of_int name now content s
        ≡ set_each (content_writes name now content) s
  unfolding store_content
  store_content_lem name now (counter dps) s = store_points_lem name now dps s
  store_content_lem name now other s = refl

  store_metrics_lem :
      (now : ℕ) (ms : List (Metric V I)) (s : Store V)
      → store_metrics nought of_int now ms s ≡ set_each (join_map (metric_writes now) ms) s
  unfolding store_metrics
  store_metrics_lem now [] s = refl
  store_metrics_lem now (m ∷ ms) s =
      store_metrics_lem now ms _
      ∙ ap (set_each (join_map (metric_writes now) ms)) (store_content_lem m.name now m.content s)
      ∙ sym (set_each-append (metric_writes now m) _ s)

  store_scopes_lem :
      (now : ℕ) (sms : List (ScopeMetrics V I)) (s : Store V)
      → store_scopes nought of_int now sms s
        ≡ set_each (join_map (λ sm. join_map (metric_writes now) sm.metrics) sms) s
  unfolding store_scopes
  store_scopes_lem now [] s = refl
  store_scopes_lem now (sm ∷ sms) s =
      store_scopes_lem now sms _
      ∙ ap (set_each (join_map (λ x. join_map (metric_writes now) x.metrics) sms))
          (store_metrics_lem now sm.metrics s)
      ∙ sym (set_each-append (join_map (metric_writes now) sm.metrics) _ s)

  pub store_resources_lem :
      (now : ℕ) (rms : List (ResourceMetrics V I)) (s : Store V)
      → store_resources nought of_int now rms s ≡ set_each (writes_of now rms) s
  unfolding store_resources
  store_resources_lem now [] s = refl
  store_resources_lem now (rm ∷ rms) s =
      store_resources_lem now rms _
      ∙ ap (set_each (writes_of now rms)) (store_scopes_lem now rm.scope_metrics s)
      ∙ sym (
          set_each-append (join_map (λ x. join_map (metric_writes now) x.metrics) rm.scope_metrics)
            _ s)

  module _ (unmarshal : Bytes → Option (List (ResourceMetrics V I))) where
    abbrev pub ingest_each : List Request → Store V → Store V
    ingest_each [] s = s
    ingest_each (r ∷ rs) s =
        ingest_each rs (ingest_handler nought of_int unmarshal r.body r.now s).1

    abbrev decoded_writes : ℕ → Option (List (ResourceMetrics V I)) → List (Write V)
    decoded_writes now none = []
    decoded_writes now (some rms) = writes_of now rms

    -- A body that cannot be read or decoded stores nothing.
    abbrev body_writes : ℕ → Option Bytes → List (Write V)
    body_writes now none = []
    body_writes now (some body) = decoded_writes now (unmarshal body)

    abbrev pub request_writes : Request → List (Write V)
    request_writes r = body_writes r.now r.body

    ingest_decoded_lem :
        (rms : Option (List (ResourceMetrics V I))) (now : ℕ) (s : Store V)
        → (ingest_decoded nought of_int now s rms).1 ≡ set_each (decoded_writes now rms) s
    unfolding ingest_decoded
    ingest_decoded_lem none now s = refl
    ingest_decoded_lem (some rms) now s = store_resources_lem now rms s

    ingest_handler_lem :
        (body : Option Bytes) (now : ℕ) (s : Store V)
        → (ingest_handler nought of_int unmarshal body now s).1 ≡ set_each (body_writes now body) s
    unfolding ingest_handler
    ingest_handler_lem none now s = refl
    ingest_handler_lem (some b) now s = ingest_decoded_lem (unmarshal b) now s

    pub ingest_each_lem :
        (rs : List Request) (s : Store V)
        → ingest_each rs s ≡ set_each (join_map request_writes rs) s
    ingest_each_lem [] s = refl
    ingest_each_lem (r ∷ rs) s =
        ingest_each_lem rs _
        ∙ ap (set_each (join_map request_writes rs)) (ingest_handler_lem r.body r.now s)
        ∙ sym (set_each-append (request_writes r) _ s)
