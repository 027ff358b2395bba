-- ===== src/Propagation/TextMap/RoundTrip.antt =====
-- What is injected into a text map carrier is extracted from it.
use jaeger_client_go.Base.{
  ℕ, ◌^◌, ◌<◌, ◌==◌, ◌≡◌, refl, ◌∙◌, true, false, List, [], ◌∷◌, ◌++◌, append-nil, append_assoc,
  none, some, Bytes, bytes_eq, bytes_eq_refl, Map, insert, IsMap, insert_all, insert_all-nil,
  length, drop-append, All, All-append, arith, Bool-cases, inl, inr,
}
use jaeger_client_go.Outcome.{ok}
use jaeger_client_go.SpanContext.Flags.{SamplingState, fresh_state}
use jaeger_client_go.SpanContext.{SpanContext, States, state_of, empty_context, trace_id_is_valid}
use jaeger_client_go.SpanContext.Hex.{hex_digit, hex_pad}
use jaeger_client_go.SpanContext.Hex.RoundTrip.{hex_pad-All, hex-All}
use jaeger_client_go.SpanContext.Codec.{context_string, context_from_string}
use jaeger_client_go.SpanContext.Codec.RoundTrip.{context_from_string-string}
use jaeger_client_go.Propagation.Escape.{query_escape, query_unescape}
use jaeger_client_go.Propagation.Escape.RoundTrip.{
  IsCopied, IsLower, IsLowering, query_unescape-query_escape, query_unescape-plain,
  has_prefix-append,
}
use jaeger_client_go.Propagation.TextMap.{
  HeadersConfig, TextMapPropagator, new_text_map_propagator, new_http_header_propagator,
  decode_or_keep, inject_items, inject, Extraction, extract_entry, extract_entries, extracted,
  extract,
}

-- The decoder undoes the encoder, and leaves text without percent and plus signs alone.
pub record IsCodec (p : TextMapPropagator) : Type 0 where
  pub value : (s : Bytes) → All (λ c. c < 256) s → p.decode_value (p.encode_value s) ≡ s
  pub text : (s : Bytes) → All IsCopied s → p.decode_value s ≡ s

pub text_map-IsCodec : (c : HeadersConfig) → IsCodec (new_text_map_propagator c)
unfolding new_text_map_propagator
text_map-IsCodec c = record { value = λ s h. refl; text = λ s h. refl }

decode_or_keep_lem : (v d : Bytes) → query_unescape v ≡ some d → decode_or_keep v ≡ d
unfolding decode_or_keep
decode_or_keep_lem v d e = ground (arith, e)

pub http_header-IsCodec : (c : HeadersConfig) → IsCodec (new_http_header_propagator c)
unfolding new_http_header_propagator
http_header-IsCodec c = record {
  value = λ s h. decode_or_keep_lem (query_escape s) s (query_unescape-query_escape s h);
  text = λ s h. decode_or_keep_lem s s (query_unescape-plain s h);
}

-- A baggage item that the headers can carry: its header is ASCII without capital letters and is
-- none of the three that the propagator reads otherwise, and its value is made of bytes.
pub record Fits (p : TextMapPropagator) (k v : Bytes) : Type 0 where
  pub lower : All IsLower (p.header_keys.trace_baggage_header_prefix ++ k)
  pub not_trace :
      bytes_eq
        (p.header_keys.trace_baggage_header_prefix ++ k)
        p.header_keys.trace_context_header_name
      ≡ false
  pub not_debug :
      bytes_eq (p.header_keys.trace_baggage_header_prefix ++ k) p.header_keys.jaeger_debug_header
      ≡ false
  pub not_baggage :
      bytes_eq (p.header_keys.trace_baggage_header_prefix ++ k) p.header_keys.jaeger_baggage_header
      ≡ false
  pub bytes : All (λ c. c < 256) v

-- A carrier that gives its entries in the order in which they were set.
abbrev pub carrier_set : List (Bytes × Bytes) → Bytes → Bytes → List (Bytes × Bytes)
carrier_set w k v = w ++ (k, v) ∷ []

abbrev pub AllFit : TextMapPropagator → Map Bytes → Type 0
AllFit p [] = Unit
AllFit p ((k, v) ∷ m) = Fits p k v × AllFit p m

digit-IsCopied : (d : ℕ) → IsCopied (hex_digit d)
unfolding hex_digit
digit-IsCopied d = ground arith

context_string-IsCopied : (st : States) (c : SpanContext) → All IsCopied (context_string st c)
unfolding context_string
context_string-IsCopied st c =
    let pad = hex_pad-All IsCopied digit-IsCopied 16 in
    let flags : ℕ = elim (state_of st c) [ none ↦ 0 | some s ↦ s.state_flags ] in
    let colon : IsCopied b':' = ground arith in
    let tail = All-append IsCopied (hex_pad 16 c.span_id) _ (pad c.span_id) (
      colon,
      All-append IsCopied (hex_pad 16 c.parent_id) _ (pad c.parent_id)
          (colon, hex-All IsCopied digit-IsCopied 7 flags),
    ) in
    elim (Bool-cases (c.trace_id.high == 0)) [
      | inl z ↦
          rw z
            (All-append IsCopied (hex_pad 16 c.trace_id.low) _ (pad c.trace_id.low) (colon, tail))
      | inr nz ↦ rw nz (
          All-append IsCopied (hex_pad 16 c.trace_id.high ++ hex_pad 16 c.trace_id.low) _
            (All-append IsCopied (hex_pad 16 c.trace_id.high) _ (pad c.trace_id.high)
              (pad c.trace_id.low))
            (colon, tail))
    ]

module _ (to_lower : Bytes → Bytes) (lowering : IsLowering to_lower) (p : TextMapPropagator)
    (codec : IsCodec p) where
  entries : Map Bytes → List (Bytes × Bytes)
  entries [] = []
  entries ((k, v) ∷ m) =
      (p.header_keys.trace_baggage_header_prefix ++ k, p.encode_value v) ∷ entries m

  inject_items-entries :
      (m : Map Bytes) (w : List (Bytes × Bytes)) → inject_items carrier_set p m w ≡ w ++ entries m
  unfolding inject_items entries
  inject_items-entries [] w = rw append-nil refl
  inject_items-entries ((k, v) ∷ m) w =
      inject_items-entries m
        (carrier_set w (p.header_keys.trace_baggage_header_prefix ++ k) (p.encode_value v))
      ∙ append_assoc w _ (entries m)

  extract_item :
      (e : Extraction) (k v : Bytes)
      → Fits p k v
      → extract_entry to_lower p e
          (p.header_keys.trace_baggage_header_prefix ++ k)
          (p.encode_value v)
        ≡ ok (record e { baggage = insert k v e.baggage })
  unfolding extract_entry
  extract_item e k v f =
      let prefix = p.header_keys.trace_baggage_header_prefix in
      rw
        (
          lowering (prefix ++ k) f.lower,
          f.not_trace,
          f.not_debug,
          f.not_baggage,
          has_prefix-append prefix k,
          drop-append prefix k (length prefix) refl,
          codec.value v f.bytes,
        )
        refl

  extract_items :
      (e : Extraction) (m : Map Bytes)
      → AllFit p m
      → extract_entries to_lower p e (entries m)
        ≡ ok (record e { baggage = insert_all e.baggage m })
  unfolding extract_entries entries
  extract_items e [] h = refl
  extract_items e ((k, v) ∷ m) (f, h) =
      rw (extract_item e k v f) (extract_items (record e { baggage = insert k v e.baggage }) m h)

  extract_context :
      (e : Extraction) (st : States) (c : SpanContext) (d : SpanContext × States)
      → All IsLower p.header_keys.trace_context_header_name
      → context_from_string (context_string st c) e.states ≡ ok d
      → extract_entry to_lower p e p.header_keys.trace_context_header_name (context_string st c)
        ≡ ok (record e { ctx = d.0; states = d.1 })
  unfolding extract_entry
  extract_context e st c d lower read =
      rw
        (
          lowering p.header_keys.trace_context_header_name lower,
          bytes_eq_refl p.header_keys.trace_context_header_name,
          codec.text (context_string st c) (context_string-IsCopied st c),
          read,
        )
        refl

  inject_lem :
      (c : SpanContext) (st : States)
      → inject carrier_set p st c []
        ≡ (p.header_keys.trace_context_header_name, context_string st c) ∷ entries c.baggage
  unfolding inject
  inject_lem c st =
      inject_items-entries c.baggage
        ((p.header_keys.trace_context_header_name, context_string st c) ∷ [])

  -- Take a context whose IDs are uint64 values, with a trace ID that is not 0, flags below 10 and
  -- baggage that fits in headers (no key twice, keys that are ASCII without capitals), and a trace
  -- header that is ASCII without capitals. If it is injected into an empty carrier that gives its
  -- entries in the order of the writes, extracting from that carrier gives the same IDs, flags and
  -- baggage, in a new sampling state.
  pub text_map_round_trip :
      (c : SpanContext) (st st' : States) (s : SamplingState)
      → All IsLower p.header_keys.trace_context_header_name
      → c.trace_id.high < 2 ^ 64
      → c.trace_id.low < 2 ^ 64
      → c.span_id < 2 ^ 64
      → c.parent_id < 2 ^ 64
      → trace_id_is_valid c.trace_id ≡ true
      → state_of st c ≡ some s
      → s.state_flags < 10
      → IsMap c.baggage
      → AllFit p c.baggage
      → extract to_lower p (inject carrier_set p st c []) st'
        ≡ ok (
          record empty_context {
            trace_id = c.trace_id;
            span_id = c.span_id;
            parent_id = c.parent_id;
            baggage = c.baggage;
            sampling_state = some (length st');
          },
          st' ++ record fresh_state { state_flags = s.state_flags } ∷ [],
        )
  unfolding extract extract_entries extracted
  text_map_round_trip c st st' s lower hh hl hs hp valid e small unique fit =
      let read = context_from_string-string c st st' s hh hl hs hp e small in
      rw
        (
          inject_lem c st,
          extract_context (record { ctx = empty_context; baggage = []; states = st' }) st c _ lower
              read,
          extract_items _ c.baggage fit,
          insert_all-nil c.baggage unique,
          valid,
        )
        refl
