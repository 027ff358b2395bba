-- ===== src/SpanContext/Baggage.antt =====
-- Baggage of a span context.
use jaeger_client_go.Base.{
  ◌≡◌, [], none, some, Bytes, bytes_eq, bytes_eq_iff, lookup, lookup-insert, lookup-delete,
  if◌then◌else◌, arith,
}
use jaeger_client_go.SpanContext.{SpanContext, with_baggage_item}

-- After `WithBaggageItem(key, value)` a lookup of the key finds the value, or nothing if the value
-- is empty, and a lookup of any other key finds what it found before. The identity of the span, its
-- sampling state and its remote mark stay.
pub lookup-with_baggage_item :
    (c : SpanContext) (key value j : Bytes)
    → (lookup j (with_baggage_item c key value).baggage ≡ (
        if bytes_eq key j
        then (if bytes_eq value [] then none else some value)
        else lookup j c.baggage))
      × ((with_baggage_item c key value).trace_id ≡ c.trace_id)
      × ((with_baggage_item c key value).span_id ≡ c.span_id)
      × ((with_baggage_item c key value).parent_id ≡ c.parent_id)
      × ((with_baggage_item c key value).sampling_state ≡ c.sampling_state)
      × ((with_baggage_item c key value).remote ≡ c.remote)
unfolding with_baggage_item
lookup-with_baggage_item c key value j =
    ground (
      arith,
      lookup-insert key j value c.baggage,
      lookup-delete key j c.baggage,
      bytes_eq_iff key j,
    )
