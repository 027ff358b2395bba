-- ===== src/Tracer/Roots.antt =====
-- The first span of a new trace.
use jaeger_client_go.Base.{
  ℕ, ◌&&◌, ◌≡◌, ◌≢◌, refl, inl, inr, Bool, false, if◌then◌else◌, List, [], ◌∷◌, ◌++◌, some, Bytes,
  length, All, set, ap, get_elem?-append, Bool-cases, Option-cases, arith,
}
use jaeger_client_go.SpanContext.Flags.{SamplingState, fresh_state, set_debug_and_sampled}
use jaeger_client_go.SpanContext.{SpanContext, States, modify_state, is_debug_id_container_only}
use jaeger_client_go.Sampler.{Tag}
use jaeger_client_go.Span.{World', Components, Options}
use jaeger_client_go.Tracer.{Lookup, random_id, debug_tag, begin_trace, new_trace}
use jaeger_client_go.Tracer.Ids.{random_id-ne-zero, random_id_total}

module _ {Num Field : Type 0} (C : Components Num Field) (options : Options) (l : Lookup)
    (operation_name : Bytes) (w : World' C) where
  -- whether the throttler allows the debug trace that the parent asks for
  abbrev pub forced : Bool
  forced =
      (l.has_parent && is_debug_id_container_only l.parent)
      && (C.is_allowed w.throttler operation_name).1

  -- the sampling state of a root with this span ID
  abbrev pub root_state : ℕ → SamplingState
  root_state id =
      if forced
      then set_debug_and_sampled (record fresh_state { local_root_span = id })
      else record fresh_state { local_root_span = id }

  -- What the context of a root is, with the high half of its trace ID. Its sampling state is one
  -- more object in the store.
  abbrev pub IsRoot : ℕ → SpanContext × List (Tag Num) × World' C → Type 0
  IsRoot high (ctx, tags, w') =
      (ctx.span_id ≢ 0)
      × (ctx.trace_id ≡ record { high = high; low = ctx.span_id })
      × (ctx.parent_id ≡ 0)
      × (tags ≡ (if forced then debug_tag C options l.parent.debug_id else []))
      × (ctx.sampling_state ≡ some (length w.states))
      × (w'.states ≡ w.states ++ root_state ctx.span_id ∷ [])

  modify_state-last :
      (f : SamplingState → SamplingState) (c : SpanContext) (st : States) (s : SamplingState)
      → modify_state f (record c { sampling_state = some (length st) }) (st ++ s ∷ [])
        ≡ st ++ f s ∷ []
  modify_state-last f c st s =
      rw (get_elem?-append st [] s (length st) refl, modify_state) (set-last f st s)
    where
      set-last :
          (f : SamplingState → SamplingState) (st : States) (s : SamplingState)
          → set (st ++ s ∷ []) (length st) (f s) ≡ st ++ f s ∷ []
      set-last f [] s = refl
      set-last f (t ∷ st) s = ap (λ rest. t ∷ rest) (set-last f st s)

  begin_trace-IsRoot :
      (low high : ℕ) (random : List ℕ)
      → low ≢ 0
      → IsRoot high (begin_trace C options l operation_name low high (record w { random = random }))
  unfolding begin_trace
  begin_trace-IsRoot low high random nonzero =
      let ctx = record l.ctx {
        trace_id = record { high = high; low = low };
        span_id = low;
        parent_id = 0;
        sampling_state = some (length w.states);
      } in
      let fresh : SamplingState = record fresh_state { local_root_span = low } in
      let written = modify_state-last set_debug_and_sampled ctx w.states fresh in
      elim (Bool-cases (l.has_parent && is_debug_id_container_only l.parent)) [
        | inr plain ↦ rw plain (nonzero, refl, refl, refl, refl, refl)
        | inl debug ↦ elim (Bool-cases (C.is_allowed w.throttler operation_name).1) [
          | inl allowed ↦ rw (debug, allowed) (nonzero, refl, refl, refl, refl, written)
          | inr refused ↦ rw (debug, refused) (nonzero, refl, refl, refl, refl, refl)
        ]
      ]

  -- If trace IDs have 64 bits and the random numbers to come are not all 0, a new trace begins. The
  -- ID of its first span is not 0 and is the trace ID, with nothing in the high half, and it has no
  -- parent. Its sampling state is a new object behind those of the store, which are as they were:
  -- open, with the span as local root, and with no flags, but sampled and debug if the parent
  -- carries only a debug ID and the throttler allows that, when the debug ID also becomes a tag.
  pub new_trace-IsRoot :
      options.gen128_bit ≡ false
      → ¬ All (λ n. n ≡ 0) w.random
      → (r : SpanContext × List (Tag Num) × World' C) × (new_trace C options l operation_name w
          ≡ some r)
        × IsRoot 0 r
  unfolding new_trace
  new_trace-IsRoot narrow nonzero = elim (Option-cases (random_id w.random)) [
    | inl e ↦ absurd (nonzero (random_id_total w.random e))
    | inr ((low, random), e) ↦ (
      begin_trace C options l operation_name low 0 (record w { random = random }),
      narrow_lem low random e,
      begin_trace-IsRoot low 0 random (random_id-ne-zero w.random random low e),
    )
  ]
    where
      narrow_lem :
          (low : ℕ) (random : List ℕ)
          → random_id w.random ≡ some (low, random)
          → new_trace C options l operation_name w
            ≡ some (begin_trace C options l operation_name low 0 (record w { random = random }))
      narrow_lem low random e = ground (arith, e, narrow)
