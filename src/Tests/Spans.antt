-- ===== src/Tests/Spans.antt =====
-- Spans with a small sampler and throttler.
use jaeger_client_go.Base.{
  ℕ, ◌≡◌, ◌≢◌, refl, ◌⊎◌, Bool, true, false, List, [], ◌∷◌, ◌++◌, some, Bytes, codes, Map, length,
  arith,
}
use jaeger_client_go.Base.{All}
use jaeger_client_go.Sampler.{Tag}
use jaeger_client_go.SpanContext.{
  TraceId, SpanContext, States, state_of, empty_context, context_is_sampled,
}
use jaeger_client_go.SpanContext.Flags.{SamplingState, fresh_state}
use jaeger_client_go.Sampler.{Value, uint16, string}
use jaeger_client_go.Span.{Span, World', Components, Options, finish_with_options}
use jaeger_client_go.Span.Logs.{LogApi, Log, LogBuffer, empty_buffer, fix_logs_if_dropped}
use jaeger_client_go.Span.Logs.History.{append_all, Shows, fix_logs_if_dropped-Shows}
use jaeger_client_go.Span.Sampling.{Priority, set_sampling_priority_lem}
use jaeger_client_go.Span.Finished.{finish_with_options_lem}
use jaeger_client_go.Tracer.{Lookup, begin_span, start_context}
use jaeger_client_go.Tracer.{new_trace}
use jaeger_client_go.Tracer.Roots.{IsRoot, new_trace-IsRoot}
use jaeger_client_go.Base.{none, bytes_eq, if◌then◌else◌, lookup, take}
use jaeger_client_go.Base.{◌+◌}
use jaeger_client_go.Base.Integers.{pos}
use jaeger_client_go.BaggageSetter.{Restriction, BaggageMetrics, set_baggage}
use jaeger_client_go.BaggageSetter.Truncation.{set_baggage_lem}
use jaeger_client_go.Tracer.Tags.{to_tags, begin_span_tags}
use jaeger_client_go.Span.{child_of, follows_from}
use jaeger_client_go.Tracer.{SpanReference, find_parent}
use jaeger_client_go.Tracer.Parent.{or_empty, chosen, valid_references, find_parent_lem}
use jaeger_client_go.Tracer.Lineage.{IsChild, start_context-IsChild}

abbrev api : LogApi
api = record { Field = Bytes × ℕ; string = λ k v. (k, 0); int = λ k n. (k, n) }

-- A sampler that samples every span for good, and a throttler that allows what it is told.
abbrev components : Components ℕ api.Field
components = record {
  Sampler = Unit {0};
  Throttler = Bool;
  on_create_span = λ z st s. (
    z,
    st,
    record {
      sample = true;
      retryable = false;
      tags = record { key = codes "sampler.type"; value = string (codes "const") } ∷ [];
    },
  );
  on_set_operation_name =
      λ z st s name. (z, st, record { sample = true; retryable = false; tags = [] });
  on_set_tag = λ z st s key value. (z, st, record { sample = true; retryable = false; tags = [] });
  on_finish_span = λ z st s. (z, st, record { sample = true; retryable = false; tags = [] });
  is_allowed = λ allowed name. (allowed, allowed);
}

abbrev options : Options
options = record {
  max_logs_per_span = 3;
  no_debug_flag_on_forced_sampling = false;
  zipkin_shared_rpc_span = false;
  gen128_bit = false;
}

abbrev context : SpanContext
context = record empty_context {
  trace_id = record { high = 0; low = 9 };
  span_id = 9;
  sampling_state = some 0;
}

abbrev unsampled_state : SamplingState
unsampled_state = record fresh_state { final = true }

abbrev world : SamplingState → World' components
world s = record {
  states = s ∷ [];
  sampler = tt;
  throttler = true;
  random = 0 ∷ 4 ∷ [];
  high_trace_ids = [];
  metrics = [];
}

abbrev log_at : ℕ → Log api
log_at n = record { timestamp = n; fields = [] }

abbrev five_logs : List (Log api)
five_logs = log_at 1 ∷ log_at 2 ∷ log_at 3 ∷ log_at 4 ∷ log_at 5 ∷ []

abbrev span : Span ℕ api.Field
span = record {
  context = context;
  operation_name = codes "get";
  first_in_process = true;
  start_time = 1;
  duration = pos 0;
  tags = [];
  log_buffer = append_all api 3 empty_buffer five_logs;
  references = [];
  reference_counter = 0;
}

fix_logs_if_dropped-Shows_example :
    (b : LogBuffer api.Field) × (fix_logs_if_dropped api (append_all api 3 empty_buffer five_logs)
      ≡ some b)
    × Shows api 3 five_logs b.logs
    × (b.num_dropped_logs ≡ 0)
fix_logs_if_dropped-Shows_example = fix_logs_if_dropped-Shows api 3 five_logs

finish_with_options_lem_example :
    (s' : Span ℕ api.Field) × (w' : World' components) × (reported : Bool) × (finish_with_options
        api components span 8
        (log_at 6 ∷ [])
        (world fresh_state)
      ≡ some (s', w', reported))
    × (reported ≡ context_is_sampled w'.states span.context)
    × (((reported ≡ true)
          × (shown : List (Log api)) × Shows api 3 five_logs shown
          × (s'.log_buffer.logs ≡ shown ++ (log_at 6 ∷ []))
          × (s'.log_buffer.num_dropped_logs ≡ 0))
        ⊎ ((reported ≡ false) × (s'.log_buffer ≡ span.log_buffer)))
finish_with_options_lem_example =
    finish_with_options_lem api components span 8 3 five_logs (log_at 6 ∷ []) (world fresh_state)
      refl

set_sampling_priority_lem_example :
    Priority components options context (codes "get") 1 (world unsampled_state) unsampled_state
set_sampling_priority_lem_example =
    set_sampling_priority_lem components options context (codes "get") 1 (world unsampled_state)
      unsampled_state refl (omega arith)

not_priority : codes "user" ≢ codes "sampling.priority"
not_priority e = absurd (ground (arith, e))

-- two tags of the caller, on a slice with room for one tag: the tag of the decision is lost
abbrev two_tags : Map (Value ℕ)
two_tags = (codes "user", uint16 1) ∷ (codes "user", uint16 2) ∷ []

begin_span_tags_example :
    (begin_span components options length context [] true [] false
      (codes "get")
      1
      two_tags
      (world fresh_state)).0.tags
    ≡ [] ++ ([] ++ to_tags two_tags)
begin_span_tags_example =
    begin_span_tags components options length context [] true [] false (codes "get") 1 two_tags
      (world fresh_state) fresh_state tt
      (record {
        sample = true;
        retryable = false;
        tags = record { key = codes "sampler.type"; value = string (codes "const") } ∷ [];
      })
      refl refl (omega arith) (λ sp. refl) refl refl (not_priority, (not_priority, tt))

abbrev child_lookup : Lookup
child_lookup = record {
  references = [];
  parent = record context { remote = true; baggage = (codes "user", codes "ann") ∷ [] };
  has_parent = true;
  ctx = empty_context;
  is_self_ref = false;
}

nonzero_to_come : ¬ All (λ n. n ≡ 0) (world fresh_state).random
nonzero_to_come (_, (e, _)) = absurd (omega (arith, e))

start_context-IsChild_example :
    (r : SpanContext × List (Tag ℕ) × Bool × World' components) × (start_context components options
        child_lookup false
        (codes "get")
        (world fresh_state)
      ≡ some r)
    × IsChild components options child_lookup false fresh_state r
unfolding jaeger_client_go.SpanContext.is_valid
start_context-IsChild_example =
    start_context-IsChild components options child_lookup false (codes "get") (world fresh_state)
      fresh_state refl refl refl refl refl nonzero_to_come

abbrev debug_lookup : Lookup
debug_lookup = record {
  references = [];
  parent = record empty_context { debug_id = codes "ticket" };
  has_parent = true;
  ctx = empty_context;
  is_self_ref = false;
}

new_trace-IsRoot_example :
    (r : SpanContext × List (Tag ℕ) × World' components) × (new_trace components options
        debug_lookup
        (codes "get")
        (world fresh_state)
      ≡ some r)
    × IsRoot components options debug_lookup (codes "get") (world fresh_state) 0 r
new_trace-IsRoot_example =
    new_trace-IsRoot components options debug_lookup (codes "get") (world fresh_state) refl
      nonzero_to_come

abbrev short_restriction : Restriction
short_restriction = record { key_allowed = true; max_value_length = pos 2 }

abbrev no_metrics : BaggageMetrics
no_metrics = record { baggage_update_success = 0; baggage_update_failure = 0; baggage_truncate = 0 }

set_baggage_lem_example :
    (s' : Span ℕ api.Field) × (metrics' : BaggageMetrics) × (set_baggage api components options
        short_restriction span
        (codes "user")
        (codes "ann")
        8
        (world fresh_state)
        no_metrics
      ≡ some (s', metrics'))
    × (lookup (codes "user") s'.context.baggage ≡ (
        if bytes_eq (codes "user") (codes "user")
        then (if bytes_eq (take 2 (codes "ann")) [] then none else some (take 2 (codes "ann")))
        else lookup (codes "user") span.context.baggage))
    × (metrics'.baggage_update_success ≡ 0 + 1)
    × (metrics'.baggage_update_failure ≡ 0)
set_baggage_lem_example =
    set_baggage_lem api components options short_restriction 2 span (codes "user") (codes "ann")
      (codes "user") 8 (world fresh_state) no_metrics refl refl

-- a span that another span follows, and a child of one
abbrev followed : SpanReference
followed = record {
  type = follows_from;
  referenced_context =
      some (record empty_context { trace_id = record { high = 0; low = 4 }; span_id = 6 });
}

abbrev parents : List SpanReference
parents = followed ∷ record followed { type = child_of } ∷ []

find_parent_lem_example :
    ((find_parent parents).parent ≡ or_empty (chosen parents))
    × ((find_parent parents).has_parent ≡ elim (chosen parents) [ none ↦ false | some c ↦ true ])
    × ((find_parent parents).references ≡ valid_references parents)
find_parent_lem_example = find_parent_lem parents
