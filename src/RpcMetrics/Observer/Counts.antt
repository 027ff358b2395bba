-- ===== src/RpcMetrics/Observer/Counts.antt =====
-- What the observer counts over a run.
use jaeger_client_go.Base.{
  ℕ, ◌+◌, ◌≤◌, ◌≡◌, ◌||◌, not, Bool, Bool-cases, inl, inr, if◌then◌else◌, List, [], ◌∷◌, none, some,
  Option-cases, Bytes, bytes_eq, bytes_eq_refl, Map, lookup, insert, length, lookup-insert, arith,
}
use jaeger_client_go.Base.Integers.{ℤ}
use jaeger_client_go.RpcMetrics.Metrics.{
  Metrics, MetricsByEndpoint, new_metrics, new_metrics_by_endpoint, get_with_write_lock,
  safe_name_of, get, modify_metrics, record_http_status_code,
}
use jaeger_client_go.RpcMetrics.Metrics.Bounds.{
  IsBounded, new_metrics_by_endpoint-IsBounded, modify_metrics-IsBounded,
}
use jaeger_client_go.RpcMetrics.Observer.{SpanObserver, record_call, is_inbound, since, on_finish}

abbrev calls : Metrics → ℕ
calls x = x.request_count_success + x.request_count_failures

-- the calls of all endpoints
unfoldable pub total : Map Metrics → ℕ
total [] = 0
total ((k, x) ∷ m) = calls x + total m

total-insert :
    (k : Bytes) (v : Metrics) (m : Map Metrics)
    → total (insert k v m) + elim (lookup k m) [ none ↦ 0 | some w ↦ calls w ] ≡ total m + calls v
unfolding total lookup insert
total-insert k v [] = omega arith
total-insert k v ((i, w) ∷ m) = ground (arith, total-insert k v m)

calls-record_call :
    (so : SpanObserver) (latency : ℤ) (x : Metrics) → calls (record_call so latency x) ≡ calls x + 1
unfolding record_call record_http_status_code
calls-record_call so latency x = ground arith

-- a call that the observer counts
abbrev pub is_counted : SpanObserver → Bool
is_counted so = not (bytes_eq so.operation_name [] || not (is_inbound so.kind))

module _ (normalizer : Bytes → Bytes) where
  total-modify_metrics :
      (so : SpanObserver) (latency : ℤ) (m : MetricsByEndpoint) (endpoint : Bytes)
      → total (modify_metrics normalizer (record_call so latency) m endpoint).metrics_by_endpoint
        ≡ total m.metrics_by_endpoint + 1
  unfolding modify_metrics get get_with_write_lock
  total-modify_metrics so latency m endpoint =
      let k : Bytes = (safe_name_of normalizer m endpoint).1 in
      let f : Metrics → Metrics = record_call so latency in
      elim (Option-cases (lookup k m.metrics_by_endpoint)) [
        | inl e ↦ ground (
          arith,
          e,
          total-insert k (f new_metrics) (insert k new_metrics m.metrics_by_endpoint),
          total-insert k new_metrics m.metrics_by_endpoint,
          lookup-insert k k new_metrics m.metrics_by_endpoint,
          bytes_eq_refl k,
          calls-record_call so latency new_metrics,
        )
        | inr (met, e) ↦ ground (
          arith,
          e,
          total-insert k (f met) m.metrics_by_endpoint,
          calls-record_call so latency met,
        )
      ]

  on_finish_step :
      (max_size : ℕ) (so : SpanObserver) (time : ℕ) (m : MetricsByEndpoint)
      → IsBounded normalizer max_size m
      → IsBounded normalizer max_size (on_finish normalizer so time m)
        × (total (on_finish normalizer so time m).metrics_by_endpoint
            ≡ total m.metrics_by_endpoint + (if is_counted so then 1 else 0))
  unfolding on_finish
  on_finish_step max_size so time m b =
      elim (Bool-cases (bytes_eq so.operation_name [] || not (is_inbound so.kind))) [
        | inl e ↦ rw (e, on_finish) (b, omega arith)
        | inr e ↦
            rw (e, on_finish)
              (
                modify_metrics-IsBounded normalizer max_size
                    (record_call so (since so.start_time time)) m so.operation_name b,
                total-modify_metrics so (since so.start_time time) m so.operation_name,
              )
      ]

  -- spans that finish one after the other
  abbrev pub finish_all : List (SpanObserver × ℕ) → MetricsByEndpoint → MetricsByEndpoint
  finish_all [] m = m
  finish_all ((so, time) ∷ rest) m = finish_all rest (on_finish normalizer so time m)

  abbrev pub counted : List (SpanObserver × ℕ) → ℕ
  counted [] = 0
  counted ((so, time) ∷ rest) = (if is_counted so then 1 else 0) + counted rest

  finish_all_steps :
      (max_size : ℕ) (spans : List (SpanObserver × ℕ)) (m : MetricsByEndpoint)
      → IsBounded normalizer max_size m
      → IsBounded normalizer max_size (finish_all spans m)
        × (total (finish_all spans m).metrics_by_endpoint
            ≡ total m.metrics_by_endpoint + counted spans)
  finish_all_steps max_size [] m b = (b, omega arith)
  finish_all_steps max_size ((so, time) ∷ rest) m b =
      let (b', e) = on_finish_step max_size so time m b in
      let (b'', e') = finish_all_steps max_size rest (on_finish normalizer so time m) b' in
      (b'', omega arith)

  -- However many spans finish, with any names, there are metrics for at most one endpoint more
  -- than the names that may be cached; and the successes and failures of all endpoints together
  -- are as many as the spans that had a name and answered a call.
  pub finish_all_lem :
      (max_size : ℕ) (spans : List (SpanObserver × ℕ))
      → (length (finish_all spans (new_metrics_by_endpoint max_size)).metrics_by_endpoint
          ≤ max_size + 1)
        × (total (finish_all spans (new_metrics_by_endpoint max_size)).metrics_by_endpoint
            ≡ counted spans)
  unfolding new_metrics_by_endpoint total
  finish_all_lem max_size spans =
      let (b, e) =
        finish_all_steps max_size spans (new_metrics_by_endpoint max_size)
          (new_metrics_by_endpoint-IsBounded normalizer max_size) in
      (ground (arith, b.few, b.names), omega (arith, e))
