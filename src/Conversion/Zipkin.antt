-- ===== src/Conversion/Zipkin.antt =====
-- zipkin_thrift_span.go: spans in the thrift format of Zipkin.
pub mod Peer
pub mod Special
use jaeger_client_go.Base.{
  ℕ, ◌+◌, ◌-◌, ◌%◌, ◌/◌, ◌^◌, bit_and, ◌==◌, ltb, ◌&&◌, ◌||◌, not, Bool, true, false, if◌then◌else◌,
  List, [], ◌∷◌, ◌++◌, Option, none, some, Bytes, codes, bytes_eq,
}
use jaeger_client_go.Base.Integers.{ℤ, pos, negsuc, ◌+ℤ◌, quotient, is_zero}
use jaeger_client_go.SpanContext.{SpanContext}
use jaeger_client_go.Conversion.{
  Value, string, bytes, nil_bytes, span_kind, int, int8, int16, int32, int64, uint, uint8, uint16,
  uint32, uint64, float32, float64, bool, other, Tag, LogRecord, SpanData, TracerData, to_int64,
  to_microseconds, truncate_string,
}
use jaeger_client_go.Conversion.Zipkin.Peer.{
  Endpoint, ZipkinSpan, to_int32, peer_defined, is_rpc, is_rpc_client, is_special,
  handle_special_tags, new_zipkin_span,
}

pub record Annotation : Type 0 where
  pub timestamp : ℤ
  pub value : Bytes
  pub host : Endpoint

pub data AnnotationType : Type 0 where
  annotation_bool annotation_bytes annotation_string : AnnotationType

pub record BinaryAnnotation : Type 0 where
  pub key : Bytes
  pub value : Bytes
  pub annotation_type : AnnotationType
  pub host : Option Endpoint

pub record ThriftSpan : Type 0 where
  pub trace_id : ℤ
  pub trace_id_high : Option ℤ
  pub id : ℤ
  pub parent_id : Option ℤ
  pub name : Bytes
  pub timestamp : ℤ
  pub duration : ℤ
  pub debug : Bool
  pub annotations : List Annotation
  pub binary_annotations : List BinaryAnnotation

-- `strconv.Atoi`, the text of a value and the JSON of log fields, or of the error that it met, are
-- the libraries'.
module _ {Num Field : Type 0} (atoi : Bytes → Option ℤ) (show : Value Num → Bytes)
    (materialize : List Field → Bool × Bytes) where
  unfoldable pub build_binary_annotation :
      Bytes → Value Num → ℕ → Option Endpoint → BinaryAnnotation
  build_binary_annotation key val max_tag_value_length endpoint =
      let text : Bytes → BinaryAnnotation = λ (v : Bytes). record {
        key = key;
        value = truncate_string v max_tag_value_length;
        annotation_type = annotation_string;
        host = endpoint;
      } in
      elim val [
        | string v ↦ text v
        | bytes v ↦ record {
          key = key;
          value = truncate_string v max_tag_value_length;
          annotation_type = annotation_bytes;
          host = endpoint;
        }
        | nil_bytes ↦ record {
          key = key;
          value = [];
          annotation_type = annotation_bytes;
          host = endpoint;
        }
        | bool v ↦ record {
          key = key;
          value = (if v then 1 else 0) ∷ [];
          annotation_type = annotation_bool;
          host = endpoint;
        }
        | v ↦ text (show v)
      ]

  unfoldable pub stringify : Value Num → Bytes
  stringify (string s) = s
  stringify v = show v

  -- the name of the component: the first tag that tells it, or else the service
  unfoldable pub component_name : Bytes → List (Tag Num) → Bytes
  component_name service [] = service
  component_name service (tag ∷ tags) =
      if bytes_eq tag.key (codes "component")
      then stringify tag.value
      else component_name service tags

  unfoldable pub tag_annotations : ℕ → List (Tag Num) → List BinaryAnnotation
  tag_annotations n [] = []
  tag_annotations n (tag ∷ tags) =
      let rest = tag_annotations n tags in
      if is_special tag.key then rest else build_binary_annotation tag.key tag.value n none ∷ rest

  unfoldable pub build_binary_annotations :
      TracerData Num → ZipkinSpan Num Field → Endpoint → List BinaryAnnotation
  build_binary_annotations tracer s endpoint =
      (if peer_defined s && is_rpc s
        then record {
          key = if is_rpc_client s then codes "sa" else codes "ca";
          value = 1 ∷ [];
          annotation_type = annotation_bool;
          host = some s.peer;
        }
          ∷ []
        else [])
      ++ ((if not (is_rpc s)
            then record {
              key = codes "lc";
              value = component_name endpoint.service_name s.span.tags;
              annotation_type = annotation_string;
              host = some endpoint;
            }
              ∷ []
            else [])
          ++ tag_annotations tracer.max_tag_value_length s.span.tags)

  unfoldable pub log_annotations : ℕ → Endpoint → List (LogRecord Field) → List Annotation
  log_annotations n endpoint [] = []
  log_annotations n endpoint (log ∷ logs) =
      let r = materialize log.fields in
      record {
        timestamp = to_microseconds log.timestamp;
        value = if r.0 then truncate_string (r.1) n else r.1;
        host = endpoint;
      }
      ∷ log_annotations n endpoint logs

  -- The labels of the start and the end of a call; empty for a local span.
  unfoldable pub labels : Bytes → Bytes × Bytes
  labels kind =
      if bytes_eq kind (codes "client")
      then (codes "cs", codes "cr")
      else if bytes_eq kind (codes "server")
      then (codes "sr", codes "ss")
      else ([], [])

  unfoldable pub build_annotations :
      TracerData Num → ZipkinSpan Num Field → Endpoint → List Annotation
  build_annotations tracer s endpoint =
      let l = labels s.kind in
      let start : Annotation = record {
        timestamp = to_microseconds s.span.start_time;
        value = l.0;
        host = endpoint;
      } in
      let end : Annotation = record {
        timestamp = to_microseconds (s.span.start_time +ℤ s.span.duration);
        value = l.1;
        host = endpoint;
      } in
      (if s.span.start_is_zero || bytes_eq (l.0) []
        then []
        else if is_zero s.span.duration
        then start ∷ []
        else start ∷ end ∷ [])
      ++ log_annotations tracer.max_tag_value_length endpoint s.span.logs

  abbrev unless_zero : ℕ → Option ℤ
  unless_zero id = if id == 0 then none else some (to_int64 id)

  -- The thrift span, and the span as the call leaves it.
  unfoldable pub build_zipkin_thrift :
      TracerData Num → SpanData Num Field → ThriftSpan × SpanData Num Field
  build_zipkin_thrift tracer span =
      let s = handle_special_tags atoi tracer (new_zipkin_span span) in
      let endpoint : Endpoint = record {
        ipv4 = to_int32 tracer.host_ipv4;
        port = pos 0;
        service_name = tracer.service_name;
      } in
      (
        record {
          trace_id = to_int64 s.span.context.trace_id.low;
          trace_id_high = unless_zero s.span.context.trace_id.high;
          id = to_int64 s.span.context.span_id;
          parent_id = unless_zero s.span.context.parent_id;
          name = s.span.operation_name;
          timestamp = to_microseconds s.span.start_time;
          duration = quotient s.span.duration 1000;
          debug = bit_and s.span.flags 2 == 2;
          annotations = build_annotations tracer s endpoint;
          binary_annotations = build_binary_annotations tracer s endpoint;
        },
        s.span,
      )
