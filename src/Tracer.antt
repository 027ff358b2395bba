-- ===== src/Tracer.antt =====
-- tracer.go: the start of a span. The parent is found among the references; the identity, the
-- sampling state and the baggage of the new span come from it, or are new. Random numbers are taken
-- from a list; `none` means that the generator gave no more.
pub mod Parent
pub mod Lineage
pub mod Roots
pub mod Ids
pub mod Tags
use jaeger_client_go.Base.{
  ℕ, zero, suc, ◌+◌, ltb, ◌==◌, ◌&&◌, ◌||◌, not, Bool, true, false, if◌then◌else◌, List, [], ◌∷◌,
  ◌++◌, Option, none, some, Bytes, codes, bytes_eq, Map, lookup, length, get_elem?, set,
}
use jaeger_client_go.Base.Integers.{pos}
use jaeger_client_go.SpanContext.Flags.{
  SamplingState, fresh_state, set_final, set_debug_and_sampled,
}
use jaeger_client_go.SpanContext.{
  TraceId, SpanContext, States, state_of, modify_state, new_state, is_valid,
  is_debug_id_container_only, is_sampling_finalized, context_is_sampled, empty_context,
}
use jaeger_client_go.Sampler.{Value, string, span_kind, Tag}
use jaeger_client_go.Span.Logs.{empty_buffer}
use jaeger_client_go.Span.{
  ReferenceType, child_of, follows_from, self_ref, Reference, Span, Metric, World, World',
  Components, Options, apply_sampling_decision, set_tag, spans_started_sampled,
  spans_started_not_sampled, spans_started_delayed_sampling, traces_started_sampled,
  traces_started_not_sampled, traces_started_delayed_sampling, traces_joined_sampled,
  traces_joined_not_sampled,
}

-- opentracing.SpanReference; the context is `none` if it is not a Jaeger span context.
pub record SpanReference : Type 0 where
  pub type : ReferenceType
  pub referenced_context : Option SpanContext

unfoldable pub is_empty_reference : SpanContext → Bool
is_empty_reference ctx =
    not (is_valid ctx) && (not (is_debug_id_container_only ctx) && length ctx.baggage == 0)

-- The variables of the loop over the references.
pub record Lookup : Type 0 where
  pub references : List Reference
  pub parent : SpanContext
  pub has_parent : Bool
  pub ctx : SpanContext
  pub is_self_ref : Bool

abbrev pub no_lookup : Lookup
no_lookup = record {
  references = [];
  parent = empty_context;
  has_parent = false;
  ctx = empty_context;
  is_self_ref = false;
}

abbrev pub is_child_of : ReferenceType → Bool
is_child_of child_of = true
is_child_of t = false

-- A reference that is neither empty nor a self reference.
unfoldable pub take_parent : Lookup → ReferenceType → SpanContext → Lookup
take_parent l type ctx =
    let references =
      if is_valid ctx
      then l.references ++ record { type = type; context = ctx } ∷ []
      else l.references in
    if not l.has_parent
    then record l { references = references; parent = ctx; has_parent = is_child_of type }
    else record l { references = references }

-- One round of the loop over the references.
unfoldable pub take_reference : Lookup → SpanReference → Lookup
unfolding take_parent
take_reference l ref = elim ref.referenced_context [
  | none ↦ l
  | some ctx ↦ if is_empty_reference ctx then l else elim ref.type [
    | self_ref ↦ record l { is_self_ref = true; ctx = ctx }
    | type ↦ take_parent l type ctx
  ]
]

unfoldable pub take_references : Lookup → List SpanReference → Lookup
unfolding take_reference
take_references l [] = l
take_references l (ref ∷ rest) = take_references (take_reference l ref) rest

-- If no ChildOf reference was found but another that may be the parent, that is the parent.
unfoldable pub find_parent : List SpanReference → Lookup
unfolding take_references
find_parent refs =
    let l = take_references no_lookup refs in
    if not l.has_parent && not (is_empty_reference l.parent)
    then record l { has_parent = true }
    else l

-- `randomID`: the first number that is not 0.
unfoldable pub random_id : List ℕ → Option (ℕ × List ℕ)
random_id [] = none
random_id (n ∷ rest) = let more = random_id rest in if n == 0 then more else some (n, rest)

-- ext.SpanKindRPCServer in the tags, as the enumeration's value or as a string
abbrev pub is_server_kind : {Num : Type 0} → Option (Value Num) → Bool
is_server_kind (some (string s)) = bytes_eq s (codes "server")
is_server_kind (some (span_kind s)) = bytes_eq s (codes "server")
is_server_kind v = false

module _ {Num Field : Type 0} (C : Components Num Field) (options : Options) where
  -- `ctx.traceID.High`, with 128 bit trace IDs
  abbrev pub high_id : World' C → Option (ℕ × World' C)
  high_id w = elim w.high_trace_ids [
    | [] ↦ if options.gen128_bit then none else some (0, w)
    | h ∷ rest ↦
        if options.gen128_bit then some (h, record w { high_trace_ids = rest }) else some (0, w)
  ]

  -- The tag that tells the debug ID of the parent.
  abbrev pub debug_tag : Bytes → List (Tag Num)
  debug_tag debug_id = record { key = codes "jaeger-debug-id"; value = string debug_id } ∷ []

  -- The context of the first span of a trace with the ID of `high` and `low`; a parent that carries
  -- only a debug ID makes it a debug trace, if the throttler allows it.
  unfoldable pub begin_trace :
      Lookup → Bytes → ℕ → ℕ → World' C → SpanContext × List (Tag Num) × World' C
  begin_trace l operation_name low high w =
      let (states, r) = new_state (record fresh_state { local_root_span = low }) w.states in
      let ctx = record l.ctx {
        trace_id = record { high = high; low = low };
        span_id = low;
        parent_id = 0;
        sampling_state = some r;
      } in
      let (throttler, allowed) = C.is_allowed w.throttler operation_name in
      let stored = record w { states = states } in
      let asked = record stored { throttler = throttler } in
      if l.has_parent && is_debug_id_container_only l.parent
      then (if allowed
          then (
            ctx,
            debug_tag l.parent.debug_id,
            record asked { states = modify_state set_debug_and_sampled ctx states },
          )
          else (ctx, [], asked))
      else (ctx, [], stored)

  unfoldable pub new_trace :
      Lookup → Bytes → World' C → Option (SpanContext × List (Tag Num) × World' C)
  new_trace l operation_name w = elim (random_id w.random) [
    | none ↦ none
    | some (low, random) ↦ elim (high_id (record w { random = random })) [
      | none ↦ none
      | some (high, w1) ↦ some (begin_trace l operation_name low high w1)
    ]
  ]

  -- The identity of a child, which a server span may share with its client.
  abbrev pub child_ids : Lookup → Bool → World' C → Option (ℕ × ℕ × World' C)
  child_ids l rpc_server w =
      if rpc_server && options.zipkin_shared_rpc_span
      then some (l.parent.span_id, l.parent.parent_id, w)
      else elim (random_id w.random) [
        | none ↦ none
        | some (id, random) ↦ some (id, l.parent.span_id, record w { random = random })
      ]

  abbrev pub enter_process : ℕ → SamplingState → SamplingState
  enter_process span_id s = record (set_final s) { local_root_span = span_id }

  -- A child of the parent, in the parent's trace, with the parent's sampling state.
  unfoldable pub make_child : Lookup → ℕ → ℕ → World' C → SpanContext × World' C
  make_child l span_id parent_id w =
      let ctx = record l.ctx {
        trace_id = l.parent.trace_id;
        span_id = span_id;
        parent_id = parent_id;
        sampling_state = l.parent.sampling_state;
      } in
      if l.parent.remote
      then (ctx, record w { states = modify_state (enter_process span_id) ctx w.states })
      else (ctx, w)

  unfoldable pub child_of_parent : Lookup → Bool → World' C → Option (SpanContext × World' C)
  child_of_parent l rpc_server w = elim (child_ids l rpc_server w) [
    | none ↦ none
    | some (span_id, parent_id, w1) ↦ some (make_child l span_id parent_id w1)
  ]

  -- A copy of the parent's baggage, if there is any.
  abbrev pub inherit_baggage : Lookup → SpanContext → SpanContext
  inherit_baggage l ctx =
      if l.has_parent && not (length l.parent.baggage == 0)
      then record ctx { baggage = l.parent.baggage }
      else ctx

  -- The context of the new span, the tags that the tracer adds, and whether a trace starts.
  unfoldable pub start_context :
      Lookup → Bool → Bytes → World' C → Option (SpanContext × List (Tag Num) × Bool × World' C)
  start_context l rpc_server operation_name w =
      if l.is_self_ref
      then some (l.ctx, [], false, w)
      else if not l.has_parent || not (is_valid l.parent)
      then elim (new_trace l operation_name w) [
        | none ↦ none
        | some (ctx, tags, w1) ↦ some (inherit_baggage l ctx, tags, true, w1)
      ]
      else elim (child_of_parent l rpc_server w) [
        | none ↦ none
        | some (ctx, w1) ↦ some (inherit_baggage l ctx, [], false, w1)
      ]

  -- `emitNewSpanMetrics`
  unfoldable pub new_span_metrics : Span Num Field → Bool → World' C → List Metric
  new_span_metrics sp new_trace w =
      if not (is_sampling_finalized w.states sp.context)
      then (if new_trace
          then traces_started_delayed_sampling ∷ spans_started_delayed_sampling ∷ []
          else spans_started_delayed_sampling ∷ [])
      else if context_is_sampled w.states sp.context
      then (if new_trace
          then traces_started_sampled ∷ spans_started_sampled ∷ []
          else if sp.first_in_process
          then traces_joined_sampled ∷ spans_started_sampled ∷ []
          else spans_started_sampled ∷ [])
      else if new_trace
      then traces_started_not_sampled ∷ spans_started_not_sampled ∷ []
      else if sp.first_in_process
      then traces_joined_not_sampled ∷ spans_started_not_sampled ∷ []
      else spans_started_not_sampled ∷ []

  -- The tags of the options, each set as by `SetTag`.
  abbrev pub set_tags : Span Num Field → Map (Value Num) → World' C → Span Num Field × World' C
  set_tags s [] w = (s, w)
  set_tags s ((k, v) ∷ rest) w = let (s', w') = set_tag C options s k v w in set_tags s' rest w'

  -- The tags that a span has before those of the options: the slice is made anew, and what the
  -- sampling decision put there is lost, if its capacity is below the number of tags to come.
  unfoldable pub make_room : (List (Tag Num) → ℕ) → List (Tag Num) → ℕ → List (Tag Num)
  make_room capacity tags total =
      if total == 0 then tags else if ltb (capacity tags) total then [] else tags

  -- The part of `startSpanWithOptions` behind the context. How the runtime grows a slice is not
  -- part of the repository: `capacity` is the capacity of the slice that holds the tags of the
  -- decision.
  unfoldable pub begin_span :
      (List (Tag Num) → ℕ)
      → SpanContext
      → List (Tag Num)
      → Bool
      → List Reference
      → Bool
      → Bytes
      → ℕ
      → Map (Value Num)
      → World' C
      → Span Num Field × World' C
  unfolding make_room
  begin_span capacity ctx internal_tags new_trace references rpc_server operation_name start_time
        tags w =
      let sp : Span Num Field = record {
        context = ctx;
        operation_name = operation_name;
        first_in_process = rpc_server || ctx.parent_id == 0;
        start_time = start_time;
        duration = pos 0;
        tags = [];
        log_buffer = empty_buffer;
        references = references;
        reference_counter = 0;
      } in
      let (sampler, states, decision) = C.on_create_span w.sampler w.states sp in
      let asked = record w { sampler = sampler; states = states } in
      let (s1, w1) =
        if not (is_sampling_finalized w.states ctx)
        then apply_sampling_decision C decision sp asked
        else (sp, w) in
      let room = make_room capacity s1.tags (length tags + length internal_tags) in
      let (s2, w2) = set_tags (record s1 { tags = room ++ internal_tags }) tags w1 in
      (s2, record w2 { metrics = new_span_metrics s2 new_trace w2 ++ w2.metrics })

  -- `startSpanWithOptions`
  unfoldable pub start_span :
      (List (Tag Num) → ℕ)
      → Bytes
      → List SpanReference
      → Map (Value Num)
      → ℕ
      → World' C
      → Option (Span Num Field × World' C)
  unfolding find_parent start_context begin_span
  start_span capacity operation_name refs tags start_time w =
      let l = find_parent refs in
      let rpc_server = is_server_kind (lookup (codes "span.kind") tags) in
      elim (start_context l rpc_server operation_name w) [
        | none ↦ none
        | some (ctx, internal_tags, new_trace, w1) ↦ some (
            begin_span capacity ctx internal_tags new_trace l.references rpc_server operation_name
              start_time tags w1)
      ]
