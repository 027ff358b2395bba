-- ===== src/SpanContext/Codec.antt =====
-- The text form of trace IDs, span IDs and span contexts: `String`, `TraceIDFromString`,
-- `SpanIDFromString` and `ContextFromString` of span_context.go.
pub mod RoundTrip
use jaeger_client_go.Base.{
  ℕ, ◌-◌, ◌%◌, ◌==◌, ltb, if◌then◌else◌, List, [], ◌∷◌, ◌++◌, Option, none, some, length, take,
  drop, Bytes, bytes_eq,
}
use jaeger_client_go.Outcome.{
  Outcome, ok, err, ◌>>=◌, Error, empty_tracer_state_string, malformed_tracer_state_string,
  trace_id_too_long, span_id_too_long, parse_uint,
}
use jaeger_client_go.SpanContext.Flags.{SamplingState, fresh_state, set_flags}
use jaeger_client_go.SpanContext.Hex.{hex_pad, hex, parse_uint as parse_number, split}
use jaeger_client_go.SpanContext.{
  TraceId, SpanId, SpanContext, States, state_of, new_state, empty_context,
}

-- `TraceID.String`
unfoldable pub trace_id_string : TraceId → Bytes
trace_id_string t = if t.high == 0 then hex_pad 16 t.low else hex_pad 16 t.high ++ hex_pad 16 t.low

-- `SpanID.String`
unfoldable pub span_id_string : SpanId → Bytes
span_id_string s = hex_pad 16 s

-- The state flags are printed as hexadecimal digits; eight hold an int32.
unfoldable pub context_string : States → SpanContext → Bytes
context_string st c =
    let flags : ℕ = elim (state_of st c) [ none ↦ 0 | some s ↦ s.state_flags ] in
    let tail = hex_pad 16 c.span_id ++ (b':' ∷ (hex_pad 16 c.parent_id ++ (b':' ∷ hex 7 flags))) in
    if c.trace_id.high == 0
    then hex_pad 16 c.trace_id.low ++ (b':' ∷ tail)
    else (hex_pad 16 c.trace_id.high ++ hex_pad 16 c.trace_id.low) ++ (b':' ∷ tail)

-- strconv.ParseUint with its error
abbrev pub parse_or_err : Bytes → ℕ → ℕ → Outcome ℕ
parse_or_err s base bits = elim (parse_number s base bits) [ none ↦ err parse_uint | some n ↦ ok n ]

unfoldable pub trace_id_from_string : Bytes → Outcome TraceId
trace_id_from_string s =
    let hi_len = length s - 16 in
    if ltb 32 (length s)
    then err trace_id_too_long
    else if ltb 16 (length s)
    then (do
      hi ← parse_or_err (take hi_len s) 16 64
      lo ← parse_or_err (drop hi_len s) 16 64
      ok (record { high = hi; low = lo }))
    else (do lo ← parse_or_err s 16 64; ok (record { high = 0; low = lo }))

unfoldable pub span_id_from_string : Bytes → Outcome SpanId
span_id_from_string s = if ltb 16 (length s) then err span_id_too_long else parse_or_err s 16 64

-- The identity and the flags that the four parts of a text spell.
unfoldable pub parse_parts : List Bytes → Outcome (TraceId × SpanId × SpanId × ℕ)
parse_parts (p ∷ q ∷ r ∷ s ∷ []) = do
  trace_id ← trace_id_from_string p
  span_id ← span_id_from_string q
  parent_id ← span_id_from_string r
  flags ← parse_or_err s 10 8
  ok (trace_id, span_id, parent_id, flags)
parse_parts _ = err malformed_tracer_state_string

-- On success the context has a new sampling state.
unfoldable pub context_from_string : Bytes → States → Outcome (SpanContext × States)
context_from_string value st = if bytes_eq value [] then err empty_tracer_state_string else do
  (trace_id, span_id, parent_id, flags) ← parse_parts (split value b':')
  let (st', r) = new_state (set_flags fresh_state flags) st
  ok (
    record empty_context {
      trace_id = trace_id;
      span_id = span_id;
      parent_id = parent_id;
      sampling_state = some r;
    },
    st',
  )
