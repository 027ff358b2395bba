-- ===== src/Span.antt =====
-- span.go: spans and what happens to them. The sampler, the debug throttler and the log fields are
-- other components: they enter as an interface, with their states in the world that the operations
-- pass on. Observers, which are only notified, are left out.
pub mod Logs
pub mod Pool
pub mod Sampling
pub mod Finished
use jaeger_client_go.Base.{
  ℕ, zero, suc, ◌+◌, ◌-◌, ◌==◌, ltb, ◌&&◌, ◌||◌, not, Bool, true, false, if◌then◌else◌, List, [],
  ◌∷◌, ◌++◌, Option, none, some, Bytes, codes, bytes_eq, Map, lookup, length,
}
use jaeger_client_go.Base.Integers.{ℤ, pos, time_sub}
use jaeger_client_go.SpanContext.Flags.{
  set_final, set_sampled, unset_sampled, set_debug_and_sampled, set_firehose,
}
use jaeger_client_go.SpanContext.{
  SpanContext, States, modify_state, is_sampling_finalized, context_is_sampled, is_writeable,
  empty_context,
}
use jaeger_client_go.Sampler.{Value, uint16, Tag, SamplingDecision}
use jaeger_client_go.Span.Logs.{
  LogApi, LogRecord, Log, LogBuffer, empty_buffer, append_log, fix_logs_if_dropped,
}

-- the types of references of opentracing-go, and the one that constants.go adds
pub data ReferenceType : Type 0 where
  child_of follows_from self_ref other_ref : ReferenceType

pub record Reference : Type 0 where
  pub type : ReferenceType
  pub context : SpanContext

pub record Span (Num Field : Type 0) : Type 0 where
  pub context : SpanContext
  pub operation_name : Bytes
  pub first_in_process : Bool
  pub start_time : ℕ
  pub duration : ℤ
  pub tags : List (Tag Num)
  pub log_buffer : LogBuffer Field
  pub references : List Reference
  pub reference_counter : ℕ

-- The metrics that a tracer counts on spans and traces.
pub data Metric : Type 0 where
  spans_started_sampled spans_started_not_sampled spans_started_delayed_sampling : Metric
  traces_started_sampled traces_started_not_sampled traces_started_delayed_sampling : Metric
  traces_joined_sampled traces_joined_not_sampled : Metric
  spans_finished_sampled spans_finished_not_sampled spans_finished_delayed_sampling : Metric

-- What the operations read and write besides the span: the shared sampling states, the states of
-- the sampler and of the debug throttler, the random numbers to come, and the metrics, latest
-- first.
pub record World (Sampler Throttler : Type 0) : Type 0 where
  pub states : States
  pub sampler : Sampler
  pub throttler : Throttler
  pub random : List ℕ
  pub high_trace_ids : List ℕ
  pub metrics : List Metric

-- A SamplerV2 and a Throttler. A sampler may write to the sampling states.
pub record Components (Num Field : Type 0) : Type 1 where
  pub Sampler : Type 0
  pub Throttler : Type 0
  pub on_create_span : Sampler → States → Span Num Field → Sampler × States × SamplingDecision Num
  pub on_set_operation_name :
      Sampler → States → Span Num Field → Bytes → Sampler × States × SamplingDecision Num
  pub on_set_tag :
      Sampler
      → States
      → Span Num Field
      → Bytes
      → Value Num
      → Sampler × States × SamplingDecision Num
  pub on_finish_span : Sampler → States → Span Num Field → Sampler × States × SamplingDecision Num
  pub is_allowed : Throttler → Bytes → Throttler × Bool

-- the options of a tracer that the model reads
pub record Options : Type 0 where
  pub max_logs_per_span : ℕ
  pub no_debug_flag_on_forced_sampling : Bool
  pub zipkin_shared_rpc_span : Bool
  pub gen128_bit : Bool

module _ {Num Field : Type 0} where
  unfoldable pub append_tag : Span Num Field → Bytes → Value Num → Span Num Field
  append_tag s key value = record s { tags = s.tags ++ record { key = key; value = value } ∷ [] }

  abbrev pub append_tags : Span Num Field → List (Tag Num) → Span Num Field
  append_tags s [] = s
  append_tags s (tag ∷ rest) = append_tags (append_tag s tag.key tag.value) rest

  -- `reset`; the reference counter is set to 0 too
  unfoldable pub reset : Span Num Field → Span Num Field
  reset s = record {
    context = empty_context;
    operation_name = [];
    first_in_process = false;
    start_time = 0;
    duration = pos 0;
    tags = [];
    log_buffer = empty_buffer;
    references = [];
    reference_counter = 0;
  }

module _ {Num Field : Type 0} (C : Components Num Field) where
  abbrev pub World' : Type 0
  World' = World C.Sampler C.Throttler

  -- Write to the sampling state of a context.
  abbrev pub write_state : (States → States) → World' → World'
  write_state f w = record w { states = f w.states }

  unfoldable pub apply_sampling_decision :
      SamplingDecision Num → Span Num Field → World' → Span Num Field × World'
  unfolding append_tag
  apply_sampling_decision decision s w =
      let w1 =
        if not decision.retryable then write_state (modify_state set_final s.context) w else w in
      if decision.sample
      then (append_tags s decision.tags, write_state (modify_state set_sampled s.context) w1)
      else (s, w1)

  -- `setSamplingPriority`: whether the flag was updated
  unfoldable pub set_sampling_priority :
      Options → SpanContext → Bytes → Value Num → World' → Bool × World'
  set_sampling_priority options ctx operation_name (uint16 val) w =
      let final = λ (f : States → States). write_state (λ st. modify_state set_final ctx (f st)) in
      let (throttler, allowed) = C.is_allowed w.throttler operation_name in
      let w1 = record w { throttler = throttler } in
      if val == 0
      then (true, final (modify_state unset_sampled ctx) w)
      else if options.no_debug_flag_on_forced_sampling
      then (true, final (modify_state set_sampled ctx) w)
      else if allowed
      then (true, final (modify_state set_debug_and_sampled ctx) w1)
      else (false, w1)
  set_sampling_priority options ctx operation_name value w = (false, w)

  unfoldable pub set_operation_name : Span Num Field → Bytes → World' → Span Num Field × World'
  set_operation_name s operation_name w =
      let s1 = record s { operation_name = operation_name } in
      let (sampler, states, decision) =
        C.on_set_operation_name w.sampler w.states s1 operation_name in
      let asked = record w { sampler = sampler; states = states } in
      if not (is_sampling_finalized w.states s.context)
      then apply_sampling_decision decision s1 asked
      else (s1, w)

  -- The part of `setTagInternal` behind the sampling priority.
  unfoldable pub sample_and_append_tag :
      Span Num Field → Bytes → Value Num → World' → Span Num Field × World'
  sample_and_append_tag s key value w =
      let (sampler, states, decision) = C.on_set_tag w.sampler w.states s key value in
      let asked = record w { sampler = sampler; states = states } in
      let (s1, w1) =
        if not (is_sampling_finalized w.states s.context)
        then apply_sampling_decision decision s asked
        else (s, w) in
      if is_writeable w1.states s.context then (append_tag s1 key value, w1) else (s1, w1)

  -- `setTagInternal`, with or without locking
  unfoldable pub set_tag :
      Options → Span Num Field → Bytes → Value Num → World' → Span Num Field × World'
  unfolding sample_and_append_tag
  set_tag options s key value w =
      let (updated, w1) = set_sampling_priority options s.context s.operation_name value w in
      if bytes_eq key (codes "sampling.priority")
      then (if updated then sample_and_append_tag s key value w1 else (s, w1))
      else sample_and_append_tag s key value w

  -- `LogFields`: the record is made at the time `now`.
  unfoldable pub log_fields : Options → Span Num Field → List Field → ℕ → World' → Span Num Field
  log_fields options s fields now w =
      if context_is_sampled w.states s.context
      then record s {
        log_buffer =
            append_log options.max_logs_per_span s.log_buffer
              (record { timestamp = now; fields = fields });
      }
      else s

  -- `EnableFirehose`
  unfoldable pub enable_firehose : Span Num Field → World' → World'
  enable_firehose s w = write_state (modify_state set_firehose s.context) w

  -- The metric of `reportSpan`.
  unfoldable pub finished_metric : World' → SpanContext → Metric
  finished_metric w ctx =
      if not (is_sampling_finalized w.states ctx)
      then spans_finished_delayed_sampling
      else if context_is_sampled w.states ctx
      then spans_finished_sampled
      else spans_finished_not_sampled

  -- The sampling decision of `FinishWithOptions`.
  unfoldable pub decide_at_finish : Span Num Field → World' → Span Num Field × World'
  decide_at_finish s w =
      let (sampler, states, decision) = C.on_finish_span w.sampler w.states s in
      let asked = record w { sampler = sampler; states = states } in
      if not (is_sampling_finalized w.states s.context)
      then apply_sampling_decision decision s asked
      else (s, w)

-- The logs of a sampled span when it is finished: the order is restored, and the records of the
-- options are added, with no limit.
unfoldable pub finish_logs :
    (api : LogApi) → LogBuffer api.Field → List (Log api) → Option (LogBuffer api.Field)
finish_logs api b log_records = elim (fix_logs_if_dropped api b) [
  | none ↦ none
  | some b' ↦ some (record b' { logs = b'.logs ++ log_records })
]

module _ {Num : Type 0} (api : LogApi) (C : Components Num api.Field) where
  -- `FinishWithOptions` with the metric of `reportSpan`: the span, the world, and whether the span
  -- is handed to the reporter. `none` stands for the loop of `fix_logs`, if it did not end.
  unfoldable pub finish_with_options :
      Span Num api.Field
      → ℕ
      → List (Log api)
      → World' C
      → Option (Span Num api.Field × World' C × Bool)
  finish_with_options s finish_time log_records w =
      let (s2, w2) =
        decide_at_finish C (record s { duration = time_sub finish_time s.start_time }) w in
      let w3 = record w2 { metrics = finished_metric C w2 s.context ∷ w2.metrics } in
      if context_is_sampled w2.states s.context
      then elim (finish_logs api s2.log_buffer log_records) [
        | none ↦ none
        | some b ↦ some (record s2 { log_buffer = b }, w3, true)
      ]
      else some (s2, w3, false)
