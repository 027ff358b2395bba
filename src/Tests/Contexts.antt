-- ===== src/Tests/Contexts.antt =====
-- Span contexts, their text and their binary form.
use jaeger_client_go.Base.{
  ℕ, zero, suc, ◌≡◌, ◌≢◌, refl, ap, true, false, if◌then◌else◌, [], ◌∷◌, ◌++◌, none, some, Bytes,
  codes, bytes_eq, Map, lookup, length, arith,
}
use jaeger_client_go.Outcome.{ok, err, panic, span_context_corrupted}
use jaeger_client_go.SpanContext.{
  TraceId, SpanContext, States, state_of, empty_context, with_baggage_item,
}
use jaeger_client_go.SpanContext.Flags.{
  SamplingState, fresh_state, set_sampled, unset_sampled, set_debug_and_sampled, set_firehose,
  set_flags, flags, is_sampled, is_debug, is_firehose,
}
use jaeger_client_go.SpanContext.Flags.Laws.{Writes, flag-Writes}
use jaeger_client_go.SpanContext.Codec.{
  trace_id_string, span_id_string, context_string, trace_id_from_string, span_id_from_string,
  context_from_string,
}
use jaeger_client_go.SpanContext.Codec.RoundTrip.{
  context_from_string-string, context_from_string_loses_flags,
}
use jaeger_client_go.SpanContext.Baggage.{lookup-with_baggage_item}
use jaeger_client_go.Propagation.Binary.{extract, inject, be_bytes}
use jaeger_client_go.Propagation.Binary.RoundTrip.{buffer_write, header_bytes, extract-inject}
use jaeger_client_go.Propagation.Binary.Refuses.{extract-inject_too_many, extract_panics}

abbrev debug_state : SamplingState
debug_state = record fresh_state { state_flags = 3 }

abbrev firehose_state : SamplingState
firehose_state = record fresh_state { state_flags = 11 }

abbrev wide_id : TraceId
wide_id = record { high = 1; low = 255 }

abbrev user : Map Bytes
user = (codes "user", codes "ann") ∷ []

abbrev some_context : SpanContext
some_context = record empty_context {
  trace_id = wide_id;
  span_id = 7;
  parent_id = 5;
  baggage = user;
  sampling_state = some 0;
}

flag-Writes_example :
    Writes debug_state
      (set_sampled debug_state)
      true
      (is_debug debug_state)
      (is_firehose debug_state)
    × Writes debug_state
        (unset_sampled debug_state)
        false
        (is_debug debug_state)
        (is_firehose debug_state)
    × Writes debug_state (set_debug_and_sampled debug_state) true true (is_firehose debug_state)
    × Writes debug_state
        (set_firehose debug_state)
        (is_sampled debug_state)
        (is_debug debug_state)
        true
flag-Writes_example = flag-Writes debug_state (omega arith)

context_from_string-string_example :
    context_from_string (context_string (debug_state ∷ []) some_context) []
    ≡ ok (
      record empty_context {
        trace_id = wide_id;
        span_id = 7;
        parent_id = 5;
        sampling_state = some 0;
      },
      record fresh_state { state_flags = 3 } ∷ [],
    )
context_from_string-string_example =
    context_from_string-string some_context (debug_state ∷ []) [] debug_state (omega arith)
      (omega arith) (omega arith) (omega arith) refl (omega arith)

-- what the text of the context with the flags 16 is read as: the flags are written in hexadecimal
-- and read in decimal
abbrev confused_context : SpanContext
confused_context = record empty_context {
  trace_id = wide_id;
  span_id = 7;
  parent_id = 5;
  sampling_state = some 0;
}

abbrev sixteen_state : SamplingState
sixteen_state = record fresh_state { state_flags = 16 }

abbrev ten_state : SamplingState
ten_state = record fresh_state { state_flags = 10 }

read_confused :
    context_from_string (context_string (sixteen_state ∷ []) some_context) []
    ≡ ok (confused_context, ten_state ∷ [])
unfolding context_from_string context_string set_flags bytes_eq
    jaeger_client_go.SpanContext.Hex.hex_pad jaeger_client_go.SpanContext.Codec.parse_parts
    jaeger_client_go.SpanContext.Hex.split jaeger_client_go.SpanContext.Hex.hex trace_id_from_string
    jaeger_client_go.SpanContext.Hex.parse_uint span_id_from_string
read_confused = refl

context_from_string_loses_flags_example : ten_state.state_flags ≢ sixteen_state.state_flags
context_from_string_loses_flags_example =
    context_from_string_loses_flags some_context confused_context (sixteen_state ∷ []) []
      (ten_state ∷ []) sixteen_state ten_state (omega arith) (omega arith) (omega arith)
      (omega arith) refl (omega arith) (omega arith) read_confused refl

lookup-with_baggage_item_example :
    (lookup (codes "user") (with_baggage_item some_context (codes "user") (codes "bob")).baggage ≡ (
      if bytes_eq (codes "user") (codes "user")
      then (if bytes_eq (codes "bob") [] then none else some (codes "bob"))
      else lookup (codes "user") some_context.baggage))
    × ((with_baggage_item some_context (codes "user") (codes "bob")).trace_id
        ≡ some_context.trace_id)
    × ((with_baggage_item some_context (codes "user") (codes "bob")).span_id ≡ some_context.span_id)
    × ((with_baggage_item some_context (codes "user") (codes "bob")).parent_id
        ≡ some_context.parent_id)
    × ((with_baggage_item some_context (codes "user") (codes "bob")).sampling_state
        ≡ some_context.sampling_state)
    × ((with_baggage_item some_context (codes "user") (codes "bob")).remote ≡ some_context.remote)
lookup-with_baggage_item_example =
    lookup-with_baggage_item some_context (codes "user") (codes "bob") (codes "user")

extract-inject_example :
    ((inject buffer_write (firehose_state ∷ []) some_context []).1 ≡ ok tt)
    × (extract ((inject buffer_write (firehose_state ∷ []) some_context []).0 ++ (1 ∷ [])) []
        ≡ ok (
          record empty_context {
            trace_id = wide_id;
            span_id = 7;
            parent_id = 5;
            baggage = user;
            sampling_state = some 0;
          },
          set_flags fresh_state (flags firehose_state) ∷ [],
          1 ∷ [],
        ))
unfolding lookup
extract-inject_example =
    extract-inject some_context (firehose_state ∷ []) [] firehose_state (1 ∷ []) (omega arith)
      (omega arith) (omega arith) (omega arith) refl (refl, tt) (omega arith, tt) (omega arith)

-- `n` items with the same empty key
abbrev many : ℕ → Map Bytes
many zero = []
many (suc n) = ([], []) ∷ many n

length-many : (n : ℕ) → length (many n) ≡ n
length-many zero = refl
length-many (suc n) = ap suc (length-many n)

abbrev crowded_context : SpanContext
crowded_context = record some_context { baggage = many 181 }

extract-inject_too_many_example :
    ((inject buffer_write (debug_state ∷ []) crowded_context []).1 ≡ ok tt)
    × (extract ((inject buffer_write (debug_state ∷ []) crowded_context []).0 ++ []) []
        ≡ err span_context_corrupted)
extract-inject_too_many_example =
    extract-inject_too_many crowded_context (debug_state ∷ []) [] debug_state [] (omega arith)
      (omega arith) (omega arith) (omega arith) refl (omega (arith, length-many 181))
      (omega (arith, length-many 181))

extract_panics_example :
    extract (header_bytes some_context 1 (be_bytes 4 1 ++ (be_bytes 4 4294967295 ++ []))) [] ≡ panic
extract_panics_example =
    extract_panics some_context 1 1 4294967295 [] [] (omega arith) (omega arith) (omega arith)
      (omega arith) (omega arith) (omega arith) (omega arith) (omega arith) (omega arith)
