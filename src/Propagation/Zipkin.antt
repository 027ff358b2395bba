-- ===== src/Propagation/Zipkin.antt =====
-- zipkin/propagation.go: the B3 headers of Zipkin; and zipkin.go: carriers of Zipkin's own spans.
pub mod RoundTrip
pub mod Carrier
use jaeger_client_go.Base.{
  ℕ, ◌==◌, ◌&&◌, ◌||◌, not, Bool, true, false, if◌then◌else◌, List, [], ◌∷◌, ◌++◌, Option, none,
  some, Bytes, codes, bytes_eq, Map, insert, length, drop,
}
use jaeger_client_go.Outcome.{Outcome, ok, err, panic, ◌>>=◌, span_context_not_found}
use jaeger_client_go.SpanContext.Flags.{fresh_state, set_flags, flags}
use jaeger_client_go.SpanContext.{
  TraceId, SpanContext, States, state_of, new_state, empty_context, trace_id_is_valid,
  context_is_sampled, new_span_context,
}
use jaeger_client_go.SpanContext.Codec.{
  trace_id_string, span_id_string, trace_id_from_string, parse_or_err,
}
use jaeger_client_go.Propagation.Escape.{has_prefix}

pub record Propagator : Type 0 where
  pub baggage_prefix : Bytes

-- `NewZipkinB3HTTPHeaderPropagator` with the prefixes that the options set, the last one counting
unfoldable pub new_zipkin_b3_http_header_propagator : List Bytes → Propagator
new_zipkin_b3_http_header_propagator [] = record { baggage_prefix = codes "baggage-" }
new_zipkin_b3_http_header_propagator (prefix ∷ []) = record { baggage_prefix = prefix }
new_zipkin_b3_http_header_propagator (prefix ∷ next ∷ prefixes) =
    new_zipkin_b3_http_header_propagator (next ∷ prefixes)

abbrev pub trace_id_key : Bytes
trace_id_key = codes "x-b3-traceid"

abbrev pub parent_span_id_key : Bytes
parent_span_id_key = codes "x-b3-parentspanid"

abbrev pub span_id_key : Bytes
span_id_key = codes "x-b3-spanid"

abbrev pub sampled_key : Bytes
sampled_key = codes "x-b3-sampled"

-- `Inject` into a carrier with a `Set`.
module _ {W : Type 0} (set_key : W → Bytes → Bytes → W) (p : Propagator) where
  unfoldable pub set_baggage : Map Bytes → W → W
  set_baggage [] w = w
  set_baggage ((k, v) ∷ m) w = set_baggage m (set_key w (p.baggage_prefix ++ k) v)

  -- A context without a sampling state makes `IsSampled` panic.
  unfoldable pub inject : States → SpanContext → W → Outcome W
  inject st sc w = elim (state_of st sc) [
    | none ↦ panic
    | some _ ↦
        let w1 = set_key w trace_id_key (trace_id_string sc.trace_id) in
        let w2 =
          if sc.parent_id == 0
          then w1
          else set_key w1 parent_span_id_key (span_id_string sc.parent_id) in
        let w3 = set_key w2 span_id_key (span_id_string sc.span_id) in
        let w4 =
          set_key w3 sampled_key (if context_is_sampled st sc then codes "1" else codes "0") in
        ok (set_baggage sc.baggage w4)
  ]

-- The variables of `Extract`.
pub record Extraction : Type 0 where
  pub trace_id : TraceId
  pub span_id : ℕ
  pub parent_id : ℕ
  pub sampled : Bool
  pub baggage : Map Bytes

abbrev pub no_extraction : Extraction
no_extraction = record {
  trace_id = record { high = 0; low = 0 };
  span_id = 0;
  parent_id = 0;
  sampled = false;
  baggage = [];
}

-- `to_lower` is `strings.ToLower`.
module _ (to_lower : Bytes → Bytes) (p : Propagator) where
  -- the function that `Extract` calls for each key
  unfoldable pub extract_entry : Extraction → Bytes → Bytes → Outcome Extraction
  extract_entry e raw_key value =
      let key = to_lower raw_key in
      if bytes_eq key trace_id_key
      then (trace_id_from_string value >>= λ t. ok (record e { trace_id = t }))
      else if bytes_eq key parent_span_id_key
      then (parse_or_err value 16 64 >>= λ n. ok (record e { parent_id = n }))
      else if bytes_eq key span_id_key
      then (parse_or_err value 16 64 >>= λ n. ok (record e { span_id = n }))
      else if bytes_eq key sampled_key
          && (bytes_eq value (codes "1") || bytes_eq value (codes "true"))
      then ok (record e { sampled = true })
      else if has_prefix key p.baggage_prefix
      then ok (record e { baggage = insert (drop (length p.baggage_prefix) key) value e.baggage })
      else ok e

  unfoldable pub extract_entries : Extraction → List (Bytes × Bytes) → Outcome Extraction
  extract_entries e [] = ok e
  extract_entries e ((k, v) ∷ rest) = extract_entry e k v >>= λ e'. extract_entries e' rest

  -- the end of `Extract`
  unfoldable pub extracted : States → Extraction → Outcome (SpanContext × States)
  extracted st e =
      let r = new_span_context e.trace_id e.span_id e.parent_id e.sampled e.baggage st in
      if not (trace_id_is_valid e.trace_id) then err span_context_not_found else ok (r.1, r.0)

  -- `Extract` from the entries of a carrier in the order in which it gives them.
  unfoldable pub extract : List (Bytes × Bytes) → States → Outcome (SpanContext × States)
  extract entries st = extract_entries no_extraction entries >>= λ e. extracted st e

-- A Zipkin-aware carrier, with what its setters set.
pub record ZipkinCarrier : Type 0 where
  pub trace_id : ℕ
  pub span_id : ℕ
  pub parent_id : ℕ
  pub flags : ℕ

-- `zipkinPropagator.Inject`; the flags are behind a nil pointer without a sampling state.
unfoldable pub zipkin_inject : States → SpanContext → Outcome ZipkinCarrier
zipkin_inject st ctx = elim (state_of st ctx) [
  | none ↦ panic
  | some s ↦ ok (record {
    trace_id = ctx.trace_id.low;
    span_id = ctx.span_id;
    parent_id = ctx.parent_id;
    flags = flags s;
  })
]

unfoldable pub zipkin_extract : ZipkinCarrier → States → Outcome (SpanContext × States)
zipkin_extract carrier st =
    let r = new_state (set_flags fresh_state carrier.flags) st in
    if carrier.trace_id == 0
    then err span_context_not_found
    else ok (
      record empty_context {
        trace_id = record { high = 0; low = carrier.trace_id };
        span_id = carrier.span_id;
        parent_id = carrier.parent_id;
        sampling_state = some (r.1);
      },
      r.0,
    )
