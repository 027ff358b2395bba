-- ===== src/Tests/Endpoints.antt =====
-- The metrics of endpoints.
use jaeger_client_go.Base.{ℕ, ◌+◌, ◌≤◌, ◌≡◌, ◌⊎◌, false, List, [], ◌∷◌, Bytes, codes, map, length}
use jaeger_client_go.RpcMetrics.Normalizer.{default_name_normalizer, normalize}
use jaeger_client_go.RpcMetrics.Normalizer.Safe.{safe, normalize-map}
use jaeger_client_go.RpcMetrics.Endpoints.{
  NormalizedEndpoints, new_normalized_endpoints, normalize_with_lock,
}
use jaeger_client_go.RpcMetrics.Endpoints.Threads.{write, Reachable, start, next, Reachable-answers}
use jaeger_client_go.RpcMetrics.Metrics.{new_metrics_by_endpoint}
use jaeger_client_go.RpcMetrics.Observer.{SpanObserver, inbound}
use jaeger_client_go.RpcMetrics.Observer.Counts.{finish_all, counted, total, finish_all_lem}

normalize-map_example :
    normalize default_name_normalizer (codes "get user!")
    ≡ map (safe default_name_normalizer) (codes "get user!")
normalize-map_example = normalize-map default_name_normalizer (codes "get user!")

abbrev normalizer : Bytes → Bytes
normalizer = normalize default_name_normalizer

-- room for one name, which a thread has stored
abbrev stored : NormalizedEndpoints
stored = (normalize_with_lock normalizer (new_normalized_endpoints 1) (codes "a b")).0

stored-Reachable : Reachable normalizer 1 stored
stored-Reachable = next start (write (new_normalized_endpoints 1) (codes "a b"))

-- Another thread that found the name missing comes to its turn.
Reachable-answers_example :
    (length ((normalize_with_lock normalizer stored (codes "a b")).0).names ≤ 1)
    × (((normalize_with_lock normalizer stored (codes "a b")).1 ≡ normalizer (codes "a b"))
        ⊎ (((normalize_with_lock normalizer stored (codes "a b")).1 ≡ [])
            × (1 ≤ length stored.names)))
Reachable-answers_example =
    Reachable-answers normalizer stored-Reachable (write stored (codes "a b"))

abbrev call : Bytes → SpanObserver
call name = record {
  operation_name = name;
  start_time = 10;
  kind = inbound;
  http_status_code = 200;
  err = false;
}

abbrev finished : List (SpanObserver × ℕ)
finished = (call (codes "get"), 15) ∷ (call (codes "put"), 30) ∷ []

finish_all_lem_example :
    (length (finish_all normalizer finished (new_metrics_by_endpoint 1)).metrics_by_endpoint
      ≤ 1 + 1)
    × (total (finish_all normalizer finished (new_metrics_by_endpoint 1)).metrics_by_endpoint
        ≡ counted normalizer finished)
finish_all_lem_example = finish_all_lem normalizer 1 finished
