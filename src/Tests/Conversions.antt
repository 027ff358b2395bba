-- ===== src/Tests/Conversions.antt =====
-- Spans in the formats of thrift.
use jaeger_client_go.Base.{
  ℕ, ◌≡◌, refl, Bool, true, false, List, [], ◌∷◌, Option, none, Bytes, codes, arith,
}
use jaeger_client_go.Base.Integers.{ℤ, pos}
use jaeger_client_go.SpanContext.{SpanContext, empty_context}
use jaeger_client_go.Span.{Reference, child_of, self_ref}
use jaeger_client_go.Conversion.{
  Value, string, bytes, nil_bytes, Tag, SpanData, TracerData, to_uint64,
}
use jaeger_client_go.Conversion.Jaeger.{Emit, emit_string, build_tags, build_jaeger_thrift}
use jaeger_client_go.Conversion.Jaeger.Typed.{AreTyped, build_tags-AreTyped}
use jaeger_client_go.Conversion.Jaeger.Identity.{
  read_refs, known_refs, build_jaeger_thrift-identity,
}
use jaeger_client_go.Conversion.Zipkin.Peer.{to_int32}
use jaeger_client_go.Conversion.Zipkin.{build_zipkin_thrift, log_annotations}
use jaeger_client_go.Conversion.Zipkin.Special.{ordinary, again, build_zipkin_thrift-again}

abbrev show : Value ℕ → Bytes
show v = codes "value"

abbrev marshal : Bytes → List (Emit ℕ)
marshal f = emit_string (codes "event") f ∷ []

abbrev some_tags : List (Tag ℕ)
some_tags =
    record { key = codes "span.kind"; value = string (codes "client") }
    ∷ record { key = codes "query"; value = string (codes "select") }
    ∷ record { key = codes "raw"; value = bytes (1 ∷ 2 ∷ 3 ∷ 4 ∷ []) }
    ∷ record { key = codes "nothing"; value = nil_bytes }
    ∷ []

build_tags-AreTyped_example : AreTyped 3 some_tags (build_tags show some_tags 3)
build_tags-AreTyped_example = build_tags-AreTyped show some_tags 3

abbrev far_context : SpanContext
far_context = record empty_context {
  trace_id = record { high = 1; low = 18446744073709551615 };
  span_id = 7;
  parent_id = 5;
}

abbrev references : List Reference
references =
    record { type = self_ref; context = far_context }
    ∷ record { type = child_of; context = far_context }
    ∷ []

abbrev tracer : TracerData ℕ
tracer = record {
  service_name = codes "shop";
  tags = [];
  uuid = [];
  host_ipv4 = 0;
  max_tag_value_length = 256;
}

abbrev span : SpanData ℕ Bytes
span = record {
  context = far_context;
  flags = 1;
  operation_name = codes "get";
  first_in_process = false;
  start_time = pos 1000;
  start_is_zero = false;
  duration = pos 500;
  tags = some_tags;
  logs = [];
  references = references;
}

build_jaeger_thrift-identity_example :
    (to_uint64 (build_jaeger_thrift show marshal tracer span).trace_id_high ≡ 1)
    × (to_uint64 (build_jaeger_thrift show marshal tracer span).trace_id_low ≡ 18446744073709551615)
    × (to_uint64 (build_jaeger_thrift show marshal tracer span).span_id ≡ 7)
    × (to_uint64 (build_jaeger_thrift show marshal tracer span).parent_span_id ≡ 5)
    × (read_refs (build_jaeger_thrift show marshal tracer span).references ≡ known_refs references)
build_jaeger_thrift-identity_example =
    build_jaeger_thrift-identity show marshal tracer span (omega arith) (omega arith)

abbrev atoi : Bytes → Option ℤ
atoi s = none

abbrev materialize : List Bytes → Bool × Bytes
materialize fields = (true, codes "{}")

build_zipkin_thrift-again_example :
    ((again atoi show materialize tracer span).tags ≡ ordinary atoi show materialize some_tags)
    × ((build_zipkin_thrift atoi show materialize tracer
          (again atoi show materialize tracer span)).0.annotations
        ≡ log_annotations atoi show materialize 256
            (record { ipv4 = to_int32 0; port = pos 0; service_name = codes "shop" })
            [])
build_zipkin_thrift-again_example = build_zipkin_thrift-again atoi show materialize tracer span refl
