-- ===== src/RpcMetrics/Observer.antt =====
-- rpcmetrics/observer.go: the observer that counts the calls a server answers. Times are in
-- nanoseconds.
pub mod Counts
use jaeger_client_go.Base.{
  ℕ, ◌+◌, ◌-◌, ◌%◌, ◌^◌, ◌||◌, not, Bool, true, false, if◌then◌else◌, List, [], ◌∷◌, Option, none,
  some, Bytes, bytes_eq, codes,
}
use jaeger_client_go.Base.Integers.{ℤ, pos, negsuc, time_sub}
use jaeger_client_go.RpcMetrics.Metrics.{
  Metrics, MetricsByEndpoint, new_metrics_by_endpoint, record_http_status_code, modify_metrics,
}

pub data SpanKind : Type 0 where
  local : SpanKind
  inbound : SpanKind
  outbound : SpanKind

-- The values of tags that the observer tests; `other` is any other Go value.
pub data Value : Type 0 where
  bool : Bool → Value
  string : Bytes → Value
  span_kind : Bytes → Value
  uint16 : ℕ → Value
  int : ℤ → Value
  other : Value

-- `metrics_by_endpoint` is shared by all spans, and is passed beside this.
pub record SpanObserver : Type 0 where
  pub operation_name : Bytes
  pub start_time : ℕ
  pub kind : SpanKind
  pub http_status_code : ℕ
  pub err : Bool

-- `uint16(v)` of an int
unfoldable pub to_uint16 : ℤ → ℕ
to_uint16 (pos n) = n % 2 ^ 16
to_uint16 (negsuc n) = (2 ^ 16 - 1) - n % 2 ^ 16

abbrev pub default_max_number_of_endpoints : ℕ
default_max_number_of_endpoints = 200

-- `NewObserver`
abbrev pub new_observer : MetricsByEndpoint
new_observer = new_metrics_by_endpoint default_max_number_of_endpoints

unfoldable pub set_kind : SpanObserver → Bytes → SpanObserver
set_kind so v =
    if bytes_eq v (codes "client")
    then record so { kind = outbound }
    else if bytes_eq v (codes "server")
    then record so { kind = inbound }
    else so

unfoldable pub handle_span_kind : SpanObserver → Value → SpanObserver
handle_span_kind so (span_kind v) = set_kind so v
handle_span_kind so (string v) = set_kind so v
handle_span_kind so _ = so

-- `strconv.Atoi` and `strconv.ParseBool` are the library's.
module _ (atoi : Bytes → Option ℤ) (parse_bool : Bytes → Option Bool) where
  unfoldable pub handle_status_code : SpanObserver → Value → SpanObserver
  handle_status_code so (uint16 v) = record so { http_status_code = v }
  handle_status_code so (int v) = record so { http_status_code = to_uint16 v }
  handle_status_code so (string v) = elim (atoi v) [
    | none ↦ so
    | some vv ↦ record so { http_status_code = to_uint16 vv }
  ]
  handle_status_code so _ = so

  unfoldable pub handle_error : SpanObserver → Value → SpanObserver
  handle_error so (bool v) = record so { err = v }
  handle_error so (string v) = elim (parse_bool v) [ none ↦ so | some vv ↦ record so { err = vv } ]
  handle_error so _ = so

  unfoldable pub handle_tag_in_lock : SpanObserver → Bytes → Value → SpanObserver
  handle_tag_in_lock so key value =
      if bytes_eq key (codes "span.kind")
      then handle_span_kind so value
      else if bytes_eq key (codes "http.status_code")
      then handle_status_code so value
      else if bytes_eq key (codes "error")
      then handle_error so value
      else so

  unfoldable pub handle_tags : SpanObserver → List (Bytes × Value) → SpanObserver
  handle_tags so [] = so
  handle_tags so ((k, v) ∷ tags) = handle_tags (handle_tag_in_lock so k v) tags

  -- `OnStartSpan` and `NewSpanObserver`, for the tags in the order in which the map gives them
  unfoldable pub new_span_observer : Bytes → ℕ → List (Bytes × Value) → SpanObserver
  new_span_observer operation_name start_time tags =
      handle_tags
        (record {
          operation_name = operation_name;
          start_time = start_time;
          kind = local;
          http_status_code = 0;
          err = false;
        })
        tags

unfoldable pub on_set_operation_name : SpanObserver → Bytes → SpanObserver
on_set_operation_name so operation_name = record so { operation_name = operation_name }

-- The time between a start and a finish.
abbrev pub since : ℕ → ℕ → ℤ
since start_time finish_time = time_sub finish_time start_time

unfoldable pub record_call : SpanObserver → ℤ → Metrics → Metrics
record_call so latency mets =
    record_http_status_code
      (if so.err
        then record mets {
          request_count_failures = mets.request_count_failures + 1;
          request_latency_failures = latency ∷ mets.request_latency_failures;
        }
        else record mets {
          request_count_success = mets.request_count_success + 1;
          request_latency_success = latency ∷ mets.request_latency_success;
        })
      so.http_status_code

abbrev pub is_inbound : SpanKind → Bool
is_inbound inbound = true
is_inbound local = false
is_inbound outbound = false

-- `OnFinish`
unfoldable pub on_finish :
    (Bytes → Bytes) → SpanObserver → ℕ → MetricsByEndpoint → MetricsByEndpoint
on_finish normalizer so finish_time m =
    if bytes_eq so.operation_name [] || not (is_inbound so.kind)
    then m
    else modify_metrics normalizer (record_call so (since so.start_time finish_time)) m
        so.operation_name
