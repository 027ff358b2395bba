-- ===== src/RpcMetrics/Metrics.antt =====
-- rpcmetrics/metrics.go: the counters of each endpoint. The caches are used by one thread at a
-- time here; Endpoints.Threads has the names under many.
pub mod Bounds
use jaeger_client_go.Base.{
  ℕ, ◌+◌, leb, ltb, ◌&&◌, Bool, true, false, if◌then◌else◌, List, [], ◌∷◌, ◌++◌, Option, none, some,
  Bytes, bytes_eq, codes, Map, lookup, insert,
}
use jaeger_client_go.Base.Integers.{ℤ}
use jaeger_client_go.RpcMetrics.Endpoints.{NormalizedEndpoints, new_normalized_endpoints, normalize}

-- The counters count, and the timers keep what they record, the latest first.
pub record Metrics : Type 0 where
  pub request_count_success : ℕ
  pub request_count_failures : ℕ
  pub request_latency_success : List ℤ
  pub request_latency_failures : List ℤ
  pub http_status_code2xx : ℕ
  pub http_status_code3xx : ℕ
  pub http_status_code4xx : ℕ
  pub http_status_code5xx : ℕ

-- `metrics.Init` of a new struct
abbrev pub new_metrics : Metrics
new_metrics = record {
  request_count_success = 0;
  request_count_failures = 0;
  request_latency_success = [];
  request_latency_failures = [];
  http_status_code2xx = 0;
  http_status_code3xx = 0;
  http_status_code4xx = 0;
  http_status_code5xx = 0;
}

unfoldable pub record_http_status_code : Metrics → ℕ → Metrics
record_http_status_code m status_code =
    if leb 200 status_code && ltb status_code 300
    then record m { http_status_code2xx = m.http_status_code2xx + 1 }
    else if leb 300 status_code && ltb status_code 400
    then record m { http_status_code3xx = m.http_status_code3xx + 1 }
    else if leb 400 status_code && ltb status_code 500
    then record m { http_status_code4xx = m.http_status_code4xx + 1 }
    else if leb 500 status_code && ltb status_code 600
    then record m { http_status_code5xx = m.http_status_code5xx + 1 }
    else m

pub record MetricsByEndpoint : Type 0 where
  pub endpoints : NormalizedEndpoints
  pub metrics_by_endpoint : Map Metrics

unfoldable pub new_metrics_by_endpoint : ℕ → MetricsByEndpoint
new_metrics_by_endpoint max_number_of_endpoints = record {
  endpoints = new_normalized_endpoints max_number_of_endpoints;
  metrics_by_endpoint = [];
}

-- The metrics of a name, which are made when they are not there.
unfoldable pub get_with_write_lock : MetricsByEndpoint → Bytes → MetricsByEndpoint × Metrics
get_with_write_lock m safe_name = elim (lookup safe_name m.metrics_by_endpoint) [
  | some met ↦ (m, met)
  | none ↦ (
    record m { metrics_by_endpoint = insert safe_name new_metrics m.metrics_by_endpoint },
    new_metrics,
  )
]

abbrev pub or_other : Bytes → Bytes
or_other name = if bytes_eq name [] then codes "other" else name

module _ (normalizer : Bytes → Bytes) where
  -- The name under which `get` looks for metrics, with the cache after it.
  unfoldable pub safe_name_of : MetricsByEndpoint → Bytes → NormalizedEndpoints × Bytes
  safe_name_of m endpoint = let r = normalize normalizer m.endpoints endpoint in (r.0, or_other r.1)

  -- `get`; the name is returned beside the metrics, which are those stored under it.
  unfoldable pub get : MetricsByEndpoint → Bytes → MetricsByEndpoint × (Bytes × Metrics)
  get m endpoint =
      let r = safe_name_of m endpoint in
      let g = get_with_write_lock (record m { endpoints = r.0 }) r.1 in (g.0, (r.1, g.1))

  -- What is written through the pointer to the metrics that `get` returns.
  unfoldable pub modify_metrics :
      (Metrics → Metrics) → MetricsByEndpoint → Bytes → MetricsByEndpoint
  modify_metrics f m endpoint =
      let g = get m endpoint in
      record (g.0) { metrics_by_endpoint = insert (g.1.0) (f (g.1.1)) ((g.0).metrics_by_endpoint) }
