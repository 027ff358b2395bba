-- ===== src/Conversion.antt =====
-- What jaeger_thrift_span.go and zipkin_thrift_span.go read of a span, with the values of tags in
-- all the types that they tell apart, and the conversions of numbers.
pub mod Jaeger
pub mod Zipkin
pub mod Ip
use jaeger_client_go.Base.{
  ℕ, ◌-◌, ◌^◌, ◌/◌, ◌<◌, ltb, Bool, if◌then◌else◌, List, Option, Bytes, length, take, ◌≡◌, ◌≤◌,
  arith,
}
use jaeger_client_go.Base.Integers.{ℤ, pos, negsuc, quotient}
use jaeger_client_go.SpanContext.{SpanContext}
use jaeger_client_go.Span.{Reference}

-- A tag's value; `nil_bytes` is a `[]byte` that is nil. A float32 is kept as the float64 that it
-- converts to.
pub data Value (Num : Type 0) : Type 0 where
  string bytes span_kind : Bytes → Value Num
  int int8 int16 int32 int64 : ℤ → Value Num
  uint uint8 uint16 uint32 uint64 : ℕ → Value Num
  float32 float64 : Num → Value Num
  bool : Bool → Value Num
  nil_bytes : Value Num
  other : ℕ → Value Num

pub record Tag (Num : Type 0) : Type 0 where
  pub key : Bytes
  pub value : Value Num

pub record LogRecord (Field : Type 0) : Type 0 where
  pub timestamp : ℤ
  pub fields : List Field

-- The span, with the flags of its sampling state. Times and durations are in nanoseconds, the time
-- since the epoch; `start_is_zero` is `IsZero()` of the start time.
pub record SpanData (Num Field : Type 0) : Type 0 where
  pub context : SpanContext
  pub flags : ℕ
  pub operation_name : Bytes
  pub first_in_process : Bool
  pub start_time : ℤ
  pub start_is_zero : Bool
  pub duration : ℤ
  pub tags : List (Tag Num)
  pub logs : List (LogRecord Field)
  pub references : List Reference

pub record TracerData (Num : Type 0) : Type 0 where
  pub service_name : Bytes
  pub tags : List (Tag Num)
  pub uuid : Bytes
  pub host_ipv4 : ℕ
  pub max_tag_value_length : ℕ

-- `int64(v)` of a number below 2 ^ 64
unfoldable pub to_int64 : ℕ → ℤ
to_int64 v = if ltb v (2 ^ 63) then pos v else negsuc (2 ^ 64 - 1 - v)

-- `uint64(v)` of an int64
unfoldable pub to_uint64 : ℤ → ℕ
to_uint64 (pos v) = v
to_uint64 (negsuc v) = 2 ^ 64 - 1 - v

pub to_uint64-to_int64 : (v : ℕ) → v < 2 ^ 64 → to_uint64 (to_int64 v) ≡ v
unfolding to_uint64 to_int64
to_uint64-to_int64 v h = ground arith

-- `TimeToMicrosecondsSinceEpochInt64` of a time since the epoch
unfoldable pub to_microseconds : ℤ → ℤ
to_microseconds t = quotient t 1000

-- `truncateString`
unfoldable pub truncate_string : Bytes → ℕ → Bytes
truncate_string value max_length =
    if ltb max_length (length value) then take max_length value else value
