-- ===== src/Tracer/Lineage.antt =====
-- What a span has of its parent.
use jaeger_client_go.Base.{
  ℕ, ◌==◌, ◌&&◌, ◌≡◌, ◌≢◌, refl, sym, ◌∙◌, ◌⊎◌, inl, inr, Bool, true, false, if◌then◌else◌, List,
  [], ◌∷◌, none, some, Bytes, length, All, Bool-cases, Option-cases, arith,
}
use mathlib.Core.Option.{some-injective}
use mathlib.Core.Path.{subst}
use jaeger_client_go.SpanContext.Flags.{SamplingState}
use jaeger_client_go.SpanContext.{SpanContext, state_of, is_valid}
use jaeger_client_go.Sampler.{Tag}
use jaeger_client_go.Span.{World', Components, Options}
use jaeger_client_go.Tracer.{
  Lookup, random_id, make_child, child_of_parent, start_context, inherit_baggage, enter_process,
  child_ids,
}
use jaeger_client_go.Span.Sampling.{state_of-modify_state}
use jaeger_client_go.Tracer.Ids.{random_id-ne-zero, random_id_total}

module _ {Num Field : Type 0} (C : Components Num Field) (options : Options) (l : Lookup)
    (rpc_server : Bool) where
  child_of_parent_lem :
      (w w' : World' C) (ctx : SpanContext)
      → child_of_parent C options l rpc_server w ≡ some (ctx, w')
      → (ctx.trace_id ≡ l.parent.trace_id)
        × (ctx.sampling_state ≡ l.parent.sampling_state)
        × (ctx.baggage ≡ l.ctx.baggage)
        × ((((rpc_server && options.zipkin_shared_rpc_span) ≡ true)
              × (ctx.span_id ≡ l.parent.span_id)
              × (ctx.parent_id ≡ l.parent.parent_id))
            ⊎ (((rpc_server && options.zipkin_shared_rpc_span) ≡ false)
                × (ctx.span_id ≢ 0)
                × (ctx.parent_id ≡ l.parent.span_id)))
  unfolding child_of_parent make_child
  child_of_parent_lem w w' ctx h = elim (Option-cases (random_id w.random)) [
    | inl e ↦ ground (arith, e)
    | inr ((n, rest), e) ↦ ground (arith, e, random_id-ne-zero w.random rest n e)
  ]

  make_child_state :
      (span_id parent_id : ℕ) (w : World' C) (s : SamplingState)
      → state_of w.states l.parent ≡ some s
      → state_of
          (make_child C options l span_id parent_id w).1.states
          (make_child C options l span_id parent_id w).0
        ≡ some (
            if l.parent.remote
            then enter_process C options (make_child C options l span_id parent_id w).0.span_id s
            else s)
  unfolding make_child
  make_child_state span_id parent_id w s found = elim (Bool-cases l.parent.remote) [
    | inl far ↦ rw far (
        state_of-modify_state (enter_process C options span_id)
          (record l.ctx { sampling_state = l.parent.sampling_state }) w.states s found)
    | inr near ↦ rw near found
  ]

  child_ids_states :
      (w : World' C) (a b : ℕ) (w1 : World' C)
      → child_ids C options l rpc_server w ≡ some (a, b, w1)
      → w1.states ≡ w.states
  child_ids_states w a b w1 h = elim (Option-cases (random_id w.random)) [
    | inl e ↦ ground (arith, e)
    | inr ((n, rest), e) ↦ ground (arith, e)
  ]

  -- The sampling state of the child is the parent's, and made final by a remote parent.
  child_state :
      (w w' : World' C) (ctx : SpanContext) (s : SamplingState)
      → child_of_parent C options l rpc_server w ≡ some (ctx, w')
      → state_of w.states l.parent ≡ some s
      → state_of w'.states ctx
        ≡ some (if l.parent.remote then enter_process C options ctx.span_id s else s)
  unfolding child_of_parent
  child_state w w' ctx s h found = elim (Option-cases (child_ids C options l rpc_server w)) [
    | inl e ↦ absurd (ground (arith, e))
    | inr ((a, b, w1), e) ↦
        let p : make_child C options l a b w1 ≡ (ctx, w') =
          some-injective _ _ (sym (made a b w1 e) ∙ h) in
        let found1 : state_of w1.states l.parent ≡ some s =
          rw (child_ids_states w a b w1 e) found in
        subst
          (λ (r : SpanContext × World' C).
            state_of r.1.states r.0
            ≡ some (if l.parent.remote then enter_process C options r.0.span_id s else s))
          p (make_child_state a b w1 s found1)
  ]
    where
      made :
          (a b : ℕ) (w1 : World' C)
          → child_ids C options l rpc_server w ≡ some (a, b, w1)
          → child_of_parent C options l rpc_server w ≡ some (make_child C options l a b w1)
      made a b w1 e = rw (child_of_parent, e)

length_zero : {A : Type 0} (xs : List A) → (length xs == 0) ≡ true → xs ≡ []
length_zero [] h = refl
length_zero (x ∷ xs) h = absurd (ground arith)

module _ {Num Field : Type 0} (C : Components Num Field) (options : Options) where
  baggage-inherit :
      (l : Lookup) (ctx : SpanContext)
      → l.has_parent ≡ true
      → ctx.baggage ≡ []
      → (inherit_baggage C options l ctx).baggage ≡ l.parent.baggage
  baggage-inherit l ctx has none_yet = elim (Bool-cases (length l.parent.baggage == 0)) [
    | inl z ↦ rw (has, z) (none_yet ∙ sym (length_zero l.parent.baggage z))
    | inr nz ↦ rw (has, nz)
  ]

  -- What a child has of its parent.
  abbrev pub IsChild :
      Lookup → Bool → SamplingState → SpanContext × List (Tag Num) × Bool × World' C → Type 0
  IsChild l rpc_server s (ctx, tags, starts, w') =
      (starts ≡ false)
      × (tags ≡ [])
      × (ctx.trace_id ≡ l.parent.trace_id)
      × (ctx.sampling_state ≡ l.parent.sampling_state)
      × (ctx.baggage ≡ l.parent.baggage)
      × (state_of w'.states ctx
          ≡ some (if l.parent.remote then enter_process C options ctx.span_id s else s))
      × ((((rpc_server && options.zipkin_shared_rpc_span) ≡ true)
            × (ctx.span_id ≡ l.parent.span_id)
            × (ctx.parent_id ≡ l.parent.parent_id))
          ⊎ (((rpc_server && options.zipkin_shared_rpc_span) ≡ false)
              × (ctx.span_id ≢ 0)
              × (ctx.parent_id ≡ l.parent.span_id)))

  started-IsChild :
      (l : Lookup) (rpc_server : Bool) (operation_name : Bytes) (w w' : World' C)
      (ctx : SpanContext) (tags : List (Tag Num)) (starts : Bool) (s : SamplingState)
      → l.is_self_ref ≡ false
      → l.has_parent ≡ true
      → is_valid l.parent ≡ true
      → l.ctx.baggage ≡ []
      → state_of w.states l.parent ≡ some s
      → start_context C options l rpc_server operation_name w ≡ some (ctx, tags, starts, w')
      → IsChild l rpc_server s (ctx, tags, starts, w')
  unfolding start_context
  started-IsChild l rpc_server operation_name w w' ctx tags starts s no_self has valid plain found
        h =
      elim (Option-cases (child_of_parent C options l rpc_server w)) [
        | inl e ↦ absurd (ground (arith, sym (none_started e) ∙ h))
        | inr ((c, w1), e) ↦
            let p : (inherit_baggage C options l c, [], false, w1) ≡ (ctx, tags, starts, w') =
              some-injective _ _ (sym (some_started c w1 e) ∙ h) in
            subst (IsChild l rpc_server s) p (child c w1 e)
      ]
    where
      none_started :
          child_of_parent C options l rpc_server w ≡ none
          → start_context C options l rpc_server operation_name w ≡ none
      none_started e = ground (arith, e)

      some_started :
          (c : SpanContext) (w1 : World' C)
          → child_of_parent C options l rpc_server w ≡ some (c, w1)
          → start_context C options l rpc_server operation_name w
            ≡ some (inherit_baggage C options l c, [], false, w1)
      some_started c w1 e = ground (arith, e)

      child :
          (c : SpanContext) (w1 : World' C)
          → child_of_parent C options l rpc_server w ≡ some (c, w1)
          → IsChild l rpc_server s (inherit_baggage C options l c, [], false, w1)
      child c w1 e =
          let (trace, state, bag, ids) = child_of_parent_lem C options l rpc_server w w1 c e in
          let final = child_state C options l rpc_server w w1 c s e found in
          let inherited = baggage-inherit l c has (bag ∙ plain) in
          elim (Bool-cases (length l.parent.baggage == 0)) [
            | inl z ↦ (
              refl,
              refl,
              rw (has, z) trace,
              rw (has, z) state,
              inherited,
              rw (has, z) final,
              rw (has, z) ids,
            )
            | inr nz ↦ (
              refl,
              refl,
              rw (has, nz) trace,
              rw (has, nz) state,
              inherited,
              rw (has, nz) final,
              rw (has, nz) ids,
            )
          ]

  start_context_total :
      (l : Lookup) (rpc_server : Bool) (operation_name : Bytes) (w : World' C)
      → l.is_self_ref ≡ false
      → l.has_parent ≡ true
      → is_valid l.parent ≡ true
      → start_context C options l rpc_server operation_name w ≡ none
      → All (λ n. n ≡ 0) w.random
  unfolding start_context child_of_parent
  start_context_total l rpc_server operation_name w no_self has valid e =
      random_id_total w.random (ground (arith, e))

  -- A span with a valid parent and no self reference joins the parent's trace: it has its trace ID,
  -- its sampling state and its baggage, and no trace starts. Its parent is the parent's span and
  -- its own ID is not 0, or it shares both IDs with the parent if it is a server span and the
  -- options say so. A parent in this process leaves the sampling state as it is; a remote one makes
  -- the decision final and the new span the local root. The random source gives a number that is
  -- not 0 at some time, and then the span is started.
  pub start_context-IsChild :
      (l : Lookup) (rpc_server : Bool) (operation_name : Bytes) (w : World' C) (s : SamplingState)
      → l.is_self_ref ≡ false
      → l.has_parent ≡ true
      → is_valid l.parent ≡ true
      → l.ctx.baggage ≡ []
      → state_of w.states l.parent ≡ some s
      → ¬ All (λ n. n ≡ 0) w.random
      → (r : SpanContext × List (Tag Num) × Bool × World' C) × (start_context C options l rpc_server
            operation_name w
          ≡ some r)
        × IsChild l rpc_server s r
  start_context-IsChild l rpc_server operation_name w s no_self has valid plain found random =
      elim (Option-cases (start_context C options l rpc_server operation_name w)) [
        | inl e ↦
            absurd (random (start_context_total l rpc_server operation_name w no_self has valid e))
        | inr ((ctx, tags, starts, w'), e) ↦ (
          (ctx, tags, starts, w'),
          e,
          started-IsChild l rpc_server operation_name w w' ctx tags starts s no_self has valid plain
              found e,
        )
      ]
