-- ===== src/Propagation/TextMap.antt =====
-- The text map and HTTP header formats: TextMapPropagator in propagation.go, and HeadersConfig in
-- header.go.
pub mod RoundTrip
pub mod DebugId
use jaeger_client_go.Base.{
  ℕ, ◌+◌, ◌==◌, ◌&&◌, not, Bool, true, false, if◌then◌else◌, List, [], ◌∷◌, ◌++◌, Option, none,
  some, Bytes, codes, bytes_eq, Map, insert, insert_all, length, drop,
}
use jaeger_client_go.Outcome.{Outcome, ok, err, ◌>>=◌, span_context_not_found}
use jaeger_client_go.SpanContext.{SpanContext, States, empty_context, trace_id_is_valid}
use jaeger_client_go.SpanContext.Hex.{split}
use jaeger_client_go.SpanContext.Codec.{context_string, context_from_string}
use jaeger_client_go.Propagation.Escape.{query_escape, query_unescape, trim_space, has_prefix}

pub record HeadersConfig : Type 0 where
  pub jaeger_debug_header : Bytes
  pub jaeger_baggage_header : Bytes
  pub trace_context_header_name : Bytes
  pub trace_baggage_header_prefix : Bytes

abbrev pub default_headers_config : HeadersConfig
default_headers_config = record {
  jaeger_debug_header = codes "jaeger-debug-id";
  jaeger_baggage_header = codes "jaeger-baggage";
  trace_context_header_name = codes "uber-trace-id";
  trace_baggage_header_prefix = codes "uberctx-";
}

abbrev or_default : Bytes → Bytes → Bytes
or_default value default = if bytes_eq value [] then default else value

-- `ApplyDefaults`
unfoldable pub apply_defaults : HeadersConfig → HeadersConfig
apply_defaults c = record {
  jaeger_debug_header = or_default c.jaeger_debug_header (codes "jaeger-debug-id");
  jaeger_baggage_header = or_default c.jaeger_baggage_header (codes "jaeger-baggage");
  trace_context_header_name = or_default c.trace_context_header_name (codes "uber-trace-id");
  trace_baggage_header_prefix = or_default c.trace_baggage_header_prefix (codes "uberctx-");
}

pub record TextMapPropagator : Type 0 where
  pub header_keys : HeadersConfig
  pub encode_value : Bytes → Bytes
  pub decode_value : Bytes → Bytes

unfoldable pub new_text_map_propagator : HeadersConfig → TextMapPropagator
new_text_map_propagator header_keys = record {
  header_keys = header_keys;
  encode_value = λ v. v;
  decode_value = λ v. v;
}

-- A value that is not escaped well is taken as it is.
unfoldable pub decode_or_keep : Bytes → Bytes
decode_or_keep v = elim (query_unescape v) [ none ↦ v | some d ↦ d ]

unfoldable pub new_http_header_propagator : HeadersConfig → TextMapPropagator
new_http_header_propagator header_keys = record {
  header_keys = header_keys;
  encode_value = query_escape;
  decode_value = decode_or_keep;
}

-- `Inject` into a carrier with a `Set`.
module _ {W : Type 0} (set_key : W → Bytes → Bytes → W) (p : TextMapPropagator) where
  unfoldable pub inject_items : Map Bytes → W → W
  inject_items [] w = w
  inject_items ((k, v) ∷ m) w =
      inject_items m (set_key w (p.header_keys.trace_baggage_header_prefix ++ k) (p.encode_value v))

  unfoldable pub inject : States → SpanContext → W → W
  inject st sc w =
      inject_items sc.baggage
        (set_key w p.header_keys.trace_context_header_name (context_string st sc))

-- The pairs of a comma separated text; a part without one equals sign is skipped.
unfoldable pub parse_pairs : List Bytes → Map Bytes → Map Bytes
parse_pairs [] baggage = baggage
parse_pairs (part ∷ rest) baggage = elim (split (trim_space part) b'=') [
  | k ∷ v ∷ [] ↦ parse_pairs rest (insert (trim_space k) v baggage)
  | _ ↦ parse_pairs rest baggage
]

-- `parseCommaSeparatedMap`
unfoldable pub parse_comma_separated_map : Bytes → Map Bytes
unfolding parse_pairs
parse_comma_separated_map value = elim (query_unescape value) [
  | none ↦ []
  | some text ↦ parse_pairs (split text b',') []
]

-- The variables of the loop over the carrier.
pub record Extraction : Type 0 where
  pub ctx : SpanContext
  pub baggage : Map Bytes
  pub states : States

-- `to_lower` is `strings.ToLower`.
module _ (to_lower : Bytes → Bytes) (p : TextMapPropagator) where
  -- the function that `Extract` calls for each key
  unfoldable pub extract_entry : Extraction → Bytes → Bytes → Outcome Extraction
  extract_entry e raw_key value =
      let key = to_lower raw_key in
      if bytes_eq key p.header_keys.trace_context_header_name
      then (context_from_string (p.decode_value value) e.states >>= λ r.
          ok (record e { ctx = r.0; states = r.1 }))
      else if bytes_eq key p.header_keys.jaeger_debug_header
      then ok (record e { ctx = record e.ctx { debug_id = p.decode_value value } })
      else if bytes_eq key p.header_keys.jaeger_baggage_header
      then ok (record e { baggage = insert_all e.baggage (parse_comma_separated_map value) })
      else if has_prefix key p.header_keys.trace_baggage_header_prefix
      then ok (record e {
        baggage =
            insert (drop (length p.header_keys.trace_baggage_header_prefix) key)
              (p.decode_value value) e.baggage;
      })
      else ok e

  unfoldable pub extract_entries : Extraction → List (Bytes × Bytes) → Outcome Extraction
  extract_entries e [] = ok e
  extract_entries e ((k, v) ∷ rest) = extract_entry e k v >>= λ e'. extract_entries e' rest

  -- the end of `Extract`
  unfoldable pub extracted : Extraction → Outcome (SpanContext × States)
  extracted e =
      if not (trace_id_is_valid e.ctx.trace_id)
        && (bytes_eq e.ctx.debug_id [] && length e.baggage == 0)
      then err span_context_not_found
      else ok (record e.ctx { baggage = e.baggage }, e.states)

  -- `Extract` from the entries of a carrier in the order in which it gives them.
  unfoldable pub extract : List (Bytes × Bytes) → States → Outcome (SpanContext × States)
  extract entries st =
      extract_entries (record { ctx = empty_context; baggage = []; states = st }) entries >>= λ e.
      extracted e

  -- the number of decoding errors that `Extract` counts
  unfoldable pub decoding_errors : List (Bytes × Bytes) → States → ℕ
  decoding_errors entries st =
      elim (extract_entries (record { ctx = empty_context; baggage = []; states = st }) entries) [
        | err e ↦ 1
        | other ↦ 0
      ]
