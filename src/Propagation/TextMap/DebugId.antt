-- ===== src/Propagation/TextMap/DebugId.antt =====
-- The debug ID header beside a trace context header.
use jaeger_client_go.Base.{◌≡◌, refl, true, false, [], ◌∷◌, Bytes, bytes_eq, bytes_eq_refl}
use jaeger_client_go.Outcome.{ok}
use jaeger_client_go.SpanContext.{SpanContext, States, trace_id_is_valid}
use jaeger_client_go.SpanContext.Codec.{context_from_string}
use jaeger_client_go.Propagation.TextMap.{
  TextMapPropagator, extract_entry, extract_entries, extracted, extract,
}

-- With different headers for the two, a carrier with a debug ID and the text of a valid trace
-- context: the debug ID is in the context that is extracted if its header comes behind that of the
-- trace context, and it is lost if it comes first.
pub extract_debug_id :
    (to_lower : Bytes → Bytes) (p : TextMapPropagator) (trace_key debug_key text id : Bytes)
    (st st' : States) (c : SpanContext)
    → to_lower trace_key ≡ p.header_keys.trace_context_header_name
    → to_lower debug_key ≡ p.header_keys.jaeger_debug_header
    → bytes_eq p.header_keys.jaeger_debug_header p.header_keys.trace_context_header_name ≡ false
    → context_from_string (p.decode_value text) st ≡ ok (c, st')
    → trace_id_is_valid c.trace_id ≡ true
    → (extract to_lower p ((trace_key, text) ∷ (debug_key, id) ∷ []) st
        ≡ ok (record c { debug_id = p.decode_value id; baggage = [] }, st'))
      × (extract to_lower p ((debug_key, id) ∷ (trace_key, text) ∷ []) st
          ≡ ok (record c { baggage = [] }, st'))
unfolding extract extract_entries extract_entry extracted
extract_debug_id to_lower p trace_key debug_key text id st st' c tk dk dt read valid =
    let tt' = bytes_eq_refl p.header_keys.trace_context_header_name in
    let dd = bytes_eq_refl p.header_keys.jaeger_debug_header in
    (rw (tk, dk, tt', dd, dt, read, valid) refl, rw (tk, dk, tt', dd, dt, read, valid) refl)
