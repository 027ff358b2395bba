-- ===== src/SpanContext.antt =====
-- The types of span_context.go, and the operations on a span context. The sampling state of a
-- context is a shared object: the states stand in a list, and a context holds an index into it.
pub mod Flags
pub mod Hex
pub mod Codec
pub mod Baggage
use jaeger_client_go.Base.{
  ℕ, ◌==◌, not, ◌&&◌, ◌||◌, ◌+◌, if◌then◌else◌, Bool, true, false, List, [], ◌∷◌, ◌++◌, Option,
  none, some, length, get_elem?, set, Bytes, bytes_eq, Map, lookup, insert, delete,
}
use jaeger_client_go.SpanContext.Flags.{
  SamplingState, is_sampled, is_debug, is_firehose, set_sampled, set_firehose, fresh_state, flags,
}

pub record TraceId : Type 0 where
  pub high : ℕ
  pub low : ℕ

abbrev pub SpanId : Type 0
SpanId = ℕ

abbrev pub States : Type 0
States = List SamplingState

pub record SpanContext : Type 0 where
  pub trace_id : TraceId
  pub span_id : SpanId
  pub parent_id : SpanId
  pub baggage : Map Bytes
  pub debug_id : Bytes
  pub sampling_state : Option ℕ
  pub remote : Bool

abbrev pub empty_context : SpanContext
empty_context = record {
  trace_id = record { high = 0; low = 0 };
  span_id = 0;
  parent_id = 0;
  baggage = [];
  debug_id = [];
  sampling_state = none;
  remote = false;
}

-- `c.samplingState` as it is read; `none` is a nil pointer.
abbrev pub state_of : States → SpanContext → Option SamplingState
state_of st c = elim c.sampling_state [ none ↦ none | some r ↦ get_elem? st r ]

-- Apply a write to the state that the context points to.
abbrev pub modify_state : (SamplingState → SamplingState) → SpanContext → States → States
modify_state f c st = elim c.sampling_state [
  | none ↦ st
  | some r ↦ elim (get_elem? st r) [ none ↦ st | some s ↦ set st r (f s) ]
]

-- &samplingState{…}
abbrev pub new_state : SamplingState → States → States × ℕ
new_state s st = (st ++ s ∷ [], length st)

unfoldable pub trace_id_is_valid : TraceId → Bool
trace_id_is_valid t = not (t.high == 0) || not (t.low == 0)

unfoldable pub is_valid : SpanContext → Bool
unfolding trace_id_is_valid
is_valid c = trace_id_is_valid c.trace_id && not (c.span_id == 0)

unfoldable pub is_debug_id_container_only : SpanContext → Bool
unfolding trace_id_is_valid
is_debug_id_container_only c = not (trace_id_is_valid c.trace_id) && not (bytes_eq c.debug_id [])

-- A read through a nil pointer would panic; it is `false` here, and the callers that matter hold
-- contexts with a state.
unfoldable pub is_sampling_finalized : States → SpanContext → Bool
is_sampling_finalized st c = elim (state_of st c) [ none ↦ false | some s ↦ s.final ]

unfoldable pub context_is_sampled : States → SpanContext → Bool
context_is_sampled st c = elim (state_of st c) [ none ↦ false | some s ↦ is_sampled s ]

unfoldable pub is_writeable : States → SpanContext → Bool
is_writeable st c = elim (state_of st c) [ none ↦ false | some s ↦ not s.final || is_sampled s ]

unfoldable pub new_span_context :
    TraceId → SpanId → SpanId → Bool → Map Bytes → States → States × SpanContext
new_span_context trace_id span_id parent_id sampled baggage st =
    let s = if sampled then set_sampled fresh_state else fresh_state in
    let (st', r) = new_state s st in
    (
      st',
      record {
        trace_id = trace_id;
        span_id = span_id;
        parent_id = parent_id;
        baggage = baggage;
        debug_id = [];
        sampling_state = some r;
        remote = false;
      },
    )

-- The identity, the state and a copy of the baggage; `debugID` and `remote` stay.
unfoldable pub copy_from : SpanContext → SpanContext → SpanContext
copy_from c ctx = record c {
  trace_id = ctx.trace_id;
  span_id = ctx.span_id;
  parent_id = ctx.parent_id;
  sampling_state = ctx.sampling_state;
  baggage = ctx.baggage;
}

-- An empty value deletes the item.
unfoldable pub with_baggage_item : SpanContext → Bytes → Bytes → SpanContext
with_baggage_item c key value =
    if bytes_eq value []
    then elim (lookup key c.baggage) [
      | none ↦ c
      | some _ ↦ record c { baggage = delete key c.baggage; debug_id = [] }
    ]
    else record c { baggage = insert key value c.baggage; debug_id = [] }
