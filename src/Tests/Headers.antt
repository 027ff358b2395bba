-- ===== src/Tests/Headers.antt =====
-- Carriers of text: Jaeger's headers and those of Zipkin.
use jaeger_client_go.Base.{
  ◌+◌, if◌then◌else◌, ◌≡◌, refl, true, false, [], ◌∷◌, List, some, Bytes, codes, bytes_eq, lookup,
  arith,
}
use jaeger_client_go.Outcome.{ok}
use jaeger_client_go.SpanContext.{
  TraceId, SpanContext, States, empty_context, trace_id_is_valid, new_span_context,
  context_is_sampled,
}
use jaeger_client_go.SpanContext.Flags.{SamplingState, fresh_state, set_flags}
use jaeger_client_go.SpanContext.Codec.{context_from_string}
use jaeger_client_go.Propagation.Escape.{within, has_prefix}
use jaeger_client_go.Propagation.Escape.RoundTrip.{IsLowering, are_lower-IsLower}
use jaeger_client_go.Propagation.TextMap.{
  TextMapPropagator, default_headers_config, new_text_map_propagator, new_http_header_propagator,
  inject, extract,
}
use jaeger_client_go.Propagation.TextMap.RoundTrip.{
  http_header-IsCodec, Fits, carrier_set, text_map_round_trip,
}
use jaeger_client_go.Propagation.TextMap.DebugId.{extract_debug_id}
use jaeger_client_go.Propagation.Zipkin as Zipkin
use jaeger_client_go.Propagation.Zipkin.RoundTrip as ZipkinTrip

abbrev one_state : SamplingState
one_state = record fresh_state { state_flags = 1 }

abbrev small_id : TraceId
small_id = record { high = 1; low = 255 }

abbrev sent_context : SpanContext
sent_context = record empty_context {
  trace_id = small_id;
  span_id = 7;
  parent_id = 5;
  baggage = (codes "user", codes "a b") ∷ [];
  sampling_state = some 0;
}

-- `strings.ToLower` on ASCII text
unfoldable to_lower : Bytes → Bytes
to_lower [] = []
to_lower (c ∷ s) = (if within 65 90 c then c + 32 else c) ∷ to_lower s

lowering : IsLowering to_lower
unfolding to_lower
lowering [] h = refl
lowering (c ∷ s) ((_, hc), h) = rw (hc, lowering s h) refl

abbrev headers : TextMapPropagator
headers = new_http_header_propagator default_headers_config

user-Fits : Fits headers (codes "user") (codes "a b")
unfolding new_http_header_propagator bytes_eq
user-Fits = record {
  lower = are_lower-IsLower (codes "uberctx-user") refl;
  not_trace = refl;
  not_debug = refl;
  not_baggage = refl;
  bytes = omega arith;
}

valid_id : trace_id_is_valid small_id ≡ true
unfolding trace_id_is_valid
valid_id = refl

text_map_round_trip_example :
    extract to_lower headers (inject carrier_set headers (one_state ∷ []) sent_context []) []
    ≡ ok (
      record empty_context {
        trace_id = small_id;
        span_id = 7;
        parent_id = 5;
        baggage = (codes "user", codes "a b") ∷ [];
        sampling_state = some 0;
      },
      record fresh_state { state_flags = 1 } ∷ [],
    )
unfolding lookup new_http_header_propagator
text_map_round_trip_example =
    text_map_round_trip to_lower lowering headers (http_header-IsCodec default_headers_config)
      sent_context (one_state ∷ []) [] one_state (are_lower-IsLower (codes "uber-trace-id") refl)
      (omega arith) (omega arith) (omega arith) (omega arith) valid_id refl (omega arith) (refl, tt)
      (user-Fits, tt)

abbrev plain : TextMapPropagator
plain = new_text_map_propagator default_headers_config

abbrev read_state : SamplingState
read_state = record fresh_state { state_flags = 1 }

abbrev read_context : SpanContext
read_context = record empty_context {
  trace_id = record { high = 0; low = 10 };
  span_id = 11;
  sampling_state = some 0;
}

reads_text : context_from_string (codes "a:b:0:1") [] ≡ ok (read_context, read_state ∷ [])
unfolding context_from_string set_flags bytes_eq jaeger_client_go.SpanContext.Codec.parse_parts
    jaeger_client_go.SpanContext.Hex.split jaeger_client_go.SpanContext.Codec.trace_id_from_string
    jaeger_client_go.SpanContext.Hex.parse_uint
    jaeger_client_go.SpanContext.Codec.span_id_from_string
reads_text = refl

lower_trace : to_lower (codes "Uber-Trace-Id") ≡ codes "uber-trace-id"
unfolding to_lower
lower_trace = refl

lower_debug : to_lower (codes "jaeger-debug-id") ≡ codes "jaeger-debug-id"
unfolding to_lower
lower_debug = refl

extract_debug_id_example :
    (extract to_lower plain
        ((codes "Uber-Trace-Id", codes "a:b:0:1") ∷ (codes "jaeger-debug-id", codes "x") ∷ [])
        []
      ≡ ok (record read_context { debug_id = codes "x"; baggage = [] }, read_state ∷ []))
    × (extract to_lower plain
          ((codes "jaeger-debug-id", codes "x") ∷ (codes "Uber-Trace-Id", codes "a:b:0:1") ∷ [])
          []
        ≡ ok (record read_context { baggage = [] }, read_state ∷ []))
unfolding new_text_map_propagator bytes_eq trace_id_is_valid
extract_debug_id_example =
    extract_debug_id to_lower plain (codes "Uber-Trace-Id") (codes "jaeger-debug-id")
      (codes "a:b:0:1") (codes "x") [] (read_state ∷ []) read_context lower_trace lower_debug refl
      reads_text refl

abbrev b3 : Zipkin.Propagator
b3 = Zipkin.new_zipkin_b3_http_header_propagator []

b3_user-Fits : ZipkinTrip.Fits b3 (codes "user")
unfolding Zipkin.new_zipkin_b3_http_header_propagator bytes_eq
b3_user-Fits = record {
  lower = are_lower-IsLower (codes "baggage-user") refl;
  not_trace_id = refl;
  not_parent_id = refl;
  not_span_id = refl;
  not_sampled = refl;
}

apart : has_prefix Zipkin.sampled_key b3.baggage_prefix ≡ false
unfolding has_prefix Zipkin.new_zipkin_b3_http_header_propagator
apart = refl

b3_round_trip_example :
    (w : List (Bytes × Bytes)) × (Zipkin.inject carrier_set b3 (one_state ∷ []) sent_context []
      ≡ ok w)
    × (Zipkin.extract to_lower b3 w [] ≡ (
        let r =
          new_span_context small_id 7 5
            (context_is_sampled (one_state ∷ []) sent_context)
            sent_context.baggage
            [] in
        ok (r.1, r.0)))
unfolding lookup
b3_round_trip_example =
    ZipkinTrip.b3_round_trip to_lower lowering b3 sent_context (one_state ∷ []) [] one_state
      (omega arith) (omega arith) (omega arith) (omega arith) valid_id refl apart (refl, tt)
      (b3_user-Fits, tt)
