-- ===== src/Conversion/Jaeger.antt =====
-- jaeger_thrift_span.go and jaeger_tag.go: spans, processes and log fields in the thrift format of
-- Jaeger.
pub mod Identity
pub mod Typed
use jaeger_client_go.Base.{
  ℕ, ◌/◌, Bool, true, false, if◌then◌else◌, List, [], ◌∷◌, ◌++◌, Option, none, some, Bytes, codes,
  bytes_eq, map, length, take,
}
use jaeger_client_go.Base.Integers.{ℤ, pos, quotient}
use jaeger_client_go.SpanContext.{SpanContext}
use jaeger_client_go.Span.{Reference, ReferenceType, child_of, follows_from}
use jaeger_client_go.Conversion.{
  Value, string, bytes, nil_bytes, span_kind, int, int8, int16, int32, int64, uint, uint8, uint16,
  uint32, uint64, float32, float64, bool, other, Tag, LogRecord, SpanData, TracerData, to_int64,
  to_microseconds, truncate_string,
}

pub data TagType : Type 0 where
  type_string type_double type_bool type_long type_binary : TagType

pub record ThriftTag (Num : Type 0) : Type 0 where
  pub key : Bytes
  pub v_type : TagType
  pub v_str : Option Bytes
  pub v_double : Option Num
  pub v_bool : Option Bool
  pub v_long : Option ℤ
  pub v_binary : Option Bytes

pub data RefType : Type 0 where
  ref_child_of ref_follows_from : RefType

pub record SpanRef : Type 0 where
  pub ref_type : RefType
  pub trace_id_low : ℤ
  pub trace_id_high : ℤ
  pub span_id : ℤ

pub record ThriftLog (Num : Type 0) : Type 0 where
  pub timestamp : ℤ
  pub fields : List (ThriftTag Num)

pub record ThriftSpan (Num : Type 0) : Type 0 where
  pub trace_id_low : ℤ
  pub trace_id_high : ℤ
  pub span_id : ℤ
  pub parent_span_id : ℤ
  pub operation_name : Bytes
  pub flags : ℕ
  pub start_time : ℤ
  pub duration : ℤ
  pub tags : List (ThriftTag Num)
  pub logs : List (ThriftLog Num)
  pub references : List SpanRef

pub record Process (Num : Type 0) : Type 0 where
  pub service_name : Bytes
  pub tags : List (ThriftTag Num)

-- What an encoder of log fields is told: the calls of its `Emit` methods, an object as the text
-- that `%+v` makes of it. Floats of 32 bits are kept as in tags.
pub data Emit (Num : Type 0) : Type 0 where
  emit_string : Bytes → Bytes → Emit Num
  emit_bool : Bytes → Bool → Emit Num
  emit_int emit_int32 emit_int64 : Bytes → ℤ → Emit Num
  emit_uint32 emit_uint64 : Bytes → ℕ → Emit Num
  emit_float32 emit_float64 : Bytes → Num → Emit Num
  emit_object : Bytes → Bytes → Emit Num

module _ {Num : Type 0} where
  -- a tag with no value yet
  abbrev pub bare_tag : Bytes → TagType → ThriftTag Num
  bare_tag key v_type = record {
    key = key;
    v_type = v_type;
    v_str = none;
    v_double = none;
    v_bool = none;
    v_long = none;
    v_binary = none;
  }

  abbrev pub str_tag : Bytes → Bytes → ThriftTag Num
  str_tag key v = record (bare_tag key type_string) { v_str = some v }

  abbrev pub long_tag : Bytes → ℤ → ThriftTag Num
  long_tag key v = record (bare_tag key type_long) { v_long = some v }

  abbrev pub double_tag : Bytes → Num → ThriftTag Num
  double_tag key v = record (bare_tag key type_double) { v_double = some v }

  abbrev pub bool_tag : Bytes → Bool → ThriftTag Num
  bool_tag key v = record (bare_tag key type_bool) { v_bool = some v }

  unfoldable pub emitted : Emit Num → ThriftTag Num
  emitted (emit_string key v) = str_tag key v
  emitted (emit_bool key v) = bool_tag key v
  emitted (emit_int key v) = long_tag key v
  emitted (emit_int32 key v) = long_tag key v
  emitted (emit_int64 key v) = long_tag key v
  emitted (emit_uint32 key v) = long_tag key (to_int64 v)
  emitted (emit_uint64 key v) = long_tag key (to_int64 v)
  emitted (emit_float32 key v) = double_tag key v
  emitted (emit_float64 key v) = double_tag key v
  emitted (emit_object key v) = str_tag key v

  unfoldable pub emit_all : List (ThriftTag Num) → List (Emit Num) → List (ThriftTag Num)
  emit_all fields [] = fields
  emit_all fields (e ∷ rest) = emit_all (fields ++ emitted e ∷ []) rest

  -- The text of a value is the library's.
  unfoldable pub build_tag : (Value Num → Bytes) → Tag Num → ℕ → ThriftTag Num
  build_tag show tag max_tag_value_length = elim tag.value [
    | string v ↦ str_tag tag.key (truncate_string v max_tag_value_length)
    | bytes v ↦ record (bare_tag tag.key type_binary) {
      v_binary = some (truncate_string v max_tag_value_length);
    }
    | nil_bytes ↦ bare_tag tag.key type_binary
    | int v ↦ long_tag tag.key v
    | int8 v ↦ long_tag tag.key v
    | int16 v ↦ long_tag tag.key v
    | int32 v ↦ long_tag tag.key v
    | int64 v ↦ long_tag tag.key v
    | uint v ↦ long_tag tag.key (to_int64 v)
    | uint8 v ↦ long_tag tag.key (to_int64 v)
    | uint16 v ↦ long_tag tag.key (to_int64 v)
    | uint32 v ↦ long_tag tag.key (to_int64 v)
    | uint64 v ↦ long_tag tag.key (to_int64 v)
    | float32 v ↦ double_tag tag.key v
    | float64 v ↦ double_tag tag.key v
    | bool v ↦ bool_tag tag.key v
    | span_kind v ↦ str_tag tag.key (truncate_string (show (span_kind v)) max_tag_value_length)
    | other v ↦ str_tag tag.key (truncate_string (show (other v)) max_tag_value_length)
  ]

  unfoldable pub build_tags : (Value Num → Bytes) → List (Tag Num) → ℕ → List (ThriftTag Num)
  build_tags show [] n = []
  build_tags show (tag ∷ tags) n = build_tag show tag n ∷ build_tags show tags n

unfoldable pub span_ref : SpanContext → RefType → SpanRef
span_ref ctx ref_type = record {
  ref_type = ref_type;
  trace_id_low = to_int64 ctx.trace_id.low;
  trace_id_high = to_int64 ctx.trace_id.high;
  span_id = to_int64 ctx.span_id;
}

unfoldable pub build_references : List Reference → List SpanRef
build_references [] = []
build_references (ref ∷ references) =
    let rest = build_references references in
    elim ref.type [
      | child_of ↦ span_ref ref.context ref_child_of ∷ rest
      | follows_from ↦ span_ref ref.context ref_follows_from ∷ rest
      | _ ↦ rest
    ]

-- `marshal` gives the calls that a log field makes on its encoder.
module _ {Num Field : Type 0} (show : Value Num → Bytes) (marshal : Field → List (Emit Num)) where
  unfoldable pub marshal_all : List (ThriftTag Num) → List Field → List (ThriftTag Num)
  marshal_all fields [] = fields
  marshal_all fields (f ∷ rest) = marshal_all (emit_all fields (marshal f)) rest

  unfoldable pub convert_logs_to_jaeger_tags : List Field → List (ThriftTag Num)
  convert_logs_to_jaeger_tags log_fields = marshal_all [] log_fields

  unfoldable pub build_logs : List (LogRecord Field) → List (ThriftLog Num)
  build_logs [] = []
  build_logs (log ∷ logs) =
      record {
        timestamp = to_microseconds log.timestamp;
        fields = convert_logs_to_jaeger_tags log.fields;
      }
      ∷ build_logs logs

  unfoldable pub build_jaeger_thrift : TracerData Num → SpanData Num Field → ThriftSpan Num
  build_jaeger_thrift tracer span = record {
    trace_id_low = to_int64 span.context.trace_id.low;
    trace_id_high = to_int64 span.context.trace_id.high;
    span_id = to_int64 span.context.span_id;
    parent_span_id = to_int64 span.context.parent_id;
    operation_name = span.operation_name;
    flags = span.flags;
    start_time = to_microseconds span.start_time;
    duration = quotient span.duration 1000;
    tags = build_tags show span.tags tracer.max_tag_value_length;
    logs = build_logs span.logs;
    references = build_references span.references;
  }

-- `buildJaegerProcessThrift`
unfoldable pub build_jaeger_process_thrift :
    {Num : Type 0} → (Value Num → Bytes) → TracerData Num → Process Num
build_jaeger_process_thrift show tracer =
    let tags = build_tags show tracer.tags tracer.max_tag_value_length in
    record {
      service_name = tracer.service_name;
      tags =
          if bytes_eq tracer.uuid []
          then tags
          else tags ++ str_tag (codes "client-uuid") tracer.uuid ∷ [];
    }
