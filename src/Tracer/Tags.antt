-- ===== src/Tracer/Tags.antt =====
-- The tags of a span that a sampler decides to sample.
use jaeger_client_go.Base.{
  ℕ, ◌+◌, ◌<◌, ltb, ◌==◌, ◌||◌, ◌≡◌, ◌≢◌, refl, ap, ◌∙◌, Bool, true, false, if◌then◌else◌, List, [],
  ◌∷◌, ◌++◌, append-nil, append_assoc, some, Bytes, codes, bytes_eq, bytes_eq_iff, Map, length,
  Bool-cases, inl, inr,
}
use jaeger_client_go.Base.Integers.{pos}
use jaeger_client_go.SpanContext.Flags.{SamplingState, set_final, set_sampled, is_sampled}
use jaeger_client_go.SpanContext.Flags.Laws.{flag-Writes}
use jaeger_client_go.SpanContext.{SpanContext, state_of, is_sampling_finalized, is_writeable}
use jaeger_client_go.Sampler.{Value, Tag, SamplingDecision}
use jaeger_client_go.Span.{
  Span, World', Components, Options, append_tag, append_tags, apply_sampling_decision, set_tag,
  Reference,
}
use jaeger_client_go.Span.Logs.{empty_buffer}
use jaeger_client_go.Span.Sampling.{finalized_lem, writeable_lem, state_of-modify_state}
use jaeger_client_go.Tracer.{set_tags, make_room, begin_span}

-- the entries of a tag map as tags
abbrev pub to_tags : {Num : Type 0} → Map (Value Num) → List (Tag Num)
to_tags [] = []
to_tags ((k, v) ∷ rest) = record { key = k; value = v } ∷ to_tags rest

-- no tag that forces the sampling priority
abbrev pub HasNoPriority : {Num : Type 0} → Map (Value Num) → Type 0
HasNoPriority [] = Unit
HasNoPriority ((k, v) ∷ rest) = (k ≢ codes "sampling.priority") × HasNoPriority rest

module _ {Num Field : Type 0} (C : Components Num Field) (options : Options) where
  -- On a span that is sampled for good a tag is appended, and nothing else changes.
  set_tag_sampled :
      (s : Span Num Field) (key : Bytes) (value : Value Num) (w : World' C) (state : SamplingState)
      → key ≢ codes "sampling.priority"
      → state_of w.states s.context ≡ some state
      → state.final ≡ true
      → is_sampled state ≡ true
      → set_tag C options s key value w ≡ (append_tag s key value, w)
  unfolding set_tag
  set_tag_sampled s key value w state ne found final sampled =
      let closed : is_sampling_finalized w.states s.context ≡ true =
        finalized_lem s.context w.states state found ∙ final in
      let writeable : is_writeable w.states s.context ≡ true =
        writeable_lem s.context w.states state found ∙ rw (sampled, final) in
      let other : bytes_eq key (codes "sampling.priority") ≡ false =
        elim (Bool-cases (bytes_eq key (codes "sampling.priority"))) [
          | inl e ↦ absurd (ne ((bytes_eq_iff key _).0 e))
          | inr n ↦ n
        ] in
      rw (other, closed, writeable)

  set_tags_sampled :
      (tags : Map (Value Num)) (s : Span Num Field) (w : World' C) (state : SamplingState)
      → HasNoPriority tags
      → state_of w.states s.context ≡ some state
      → state.final ≡ true
      → is_sampled state ≡ true
      → set_tags C options s tags w ≡ (record s { tags = s.tags ++ to_tags tags }, w)
  unfolding append_tag
  set_tags_sampled [] s w state h found final sampled = rw append-nil
  set_tags_sampled ((k, v) ∷ rest) s w state (hk, h) found final sampled =
      rw (set_tag_sampled s k v w state hk found final sampled) (
        rw (set_tags_sampled rest (append_tag s k v) w state h found final sampled)
          (rw append_assoc))

  append_tags_lem :
      (tags : List (Tag Num)) (s : Span Num Field)
      → append_tags s tags ≡ record s { tags = s.tags ++ tags }
  unfolding append_tag
  append_tags_lem [] s = rw append-nil
  append_tags_lem (tag ∷ rest) s =
      append_tags_lem rest (append_tag s tag.key tag.value) ∙ rw append_assoc

  -- A final decision to sample.
  decision_lem :
      (d : SamplingDecision Num) (s : Span Num Field) (w : World' C) (state : SamplingState)
      → d.sample ≡ true
      → d.retryable ≡ false
      → state_of w.states s.context ≡ some state
      → ((apply_sampling_decision C d s w).0 ≡ record s { tags = s.tags ++ d.tags })
        × (state_of (apply_sampling_decision C d s w).1.states s.context
            ≡ some (set_sampled (set_final state)))
  unfolding apply_sampling_decision
  decision_lem d s w state yes_sample for_good found =
      rw (yes_sample, for_good)
        (
          append_tags_lem d.tags s,
          state_of-modify_state set_sampled s.context _ (set_final state)
              (state_of-modify_state set_final s.context w.states state found),
        )

  final_sampled :
      (state : SamplingState)
      → state.state_flags < 256
      → is_sampled (set_sampled (set_final state)) ≡ true
  unfolding set_final
  final_sampled state byte = (flag-Writes (set_final state) byte).0.0

  set_sampled-final : (state : SamplingState) → (set_sampled (set_final state)).final ≡ true
  unfolding set_sampled set_final
  set_sampled-final state = refl

  -- A span whose sampler decides for good to sample it, started with tags that do not force the
  -- priority, has the tags of the decision, then those of the tracer, then those of the options;
  -- but if the slice with the tags of the decision has less capacity than the number of the others,
  -- the tags of the decision are lost.
  pub begin_span_tags :
      (capacity : List (Tag Num) → ℕ) (ctx : SpanContext) (internal_tags : List (Tag Num))
      (new_trace : Bool) (references : List Reference) (rpc_server : Bool) (operation_name : Bytes)
      (start_time : ℕ) (tags : Map (Value Num)) (w : World' C) (state : SamplingState)
      (z : C.Sampler) (d : SamplingDecision Num)
      → state_of w.states ctx ≡ some state
      → state.final ≡ false
      → state.state_flags < 256
      → ((sp : Span Num Field) → C.on_create_span w.sampler w.states sp ≡ (z, w.states, d))
      → d.sample ≡ true
      → d.retryable ≡ false
      → HasNoPriority tags
      → (begin_span C options capacity ctx internal_tags new_trace references rpc_server
          operation_name start_time tags w).0.tags
        ≡ (if (length tags + length internal_tags) == 0
            then d.tags
            else if ltb (capacity d.tags) (length tags + length internal_tags)
            then []
            else d.tags)
          ++ (internal_tags ++ to_tags tags)
  unfolding begin_span make_room
  begin_span_tags capacity ctx internal_tags new_trace references rpc_server operation_name
        start_time tags w state z d found pending byte decides yes_sample for_good plain =
      let sp : Span Num Field = record {
        context = ctx;
        operation_name = operation_name;
        first_in_process = rpc_server || ctx.parent_id == 0;
        start_time = start_time;
        duration = pos 0;
        tags = [];
        log_buffer = empty_buffer;
        references = references;
        reference_counter = 0;
      } in
      let open_state : is_sampling_finalized w.states ctx ≡ false =
        finalized_lem ctx w.states state found ∙ pending in
      let asked = record w { sampler = z; states = w.states } in
      let (same_span, written) = decision_lem d sp asked state yes_sample for_good found in
      let room = make_room C options capacity d.tags (length tags + length internal_tags) in
      let set =
        set_tags_sampled tags (record sp { tags = room ++ internal_tags })
          (apply_sampling_decision C d sp asked).1 (set_sampled (set_final state)) plain written
          (set_sampled-final state) (final_sampled state byte) in
      rw (open_state, decides sp, same_span)
        (ap (λ (r : Span Num Field × World' C). r.0.tags) set
          ∙ append_assoc room internal_tags (to_tags tags))
