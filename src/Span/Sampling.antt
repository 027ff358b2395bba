-- ===== src/Span/Sampling.antt =====
-- Forced sampling, and spans that cannot be written to.
use jaeger_client_go.Base.{
  ℕ, zero, suc, ◌<◌, ◌≡◌, ◌≢◌, refl, ◌∙◌, Bool, true, false, not, ◌||◌, ◌==◌, if◌then◌else◌, List,
  [], ◌∷◌, Option, none, some, get_elem?, set, Bytes, codes, bytes_eq, bytes_eq_iff, arith,
  Bool-cases, inl, inr,
}
use jaeger_client_go.SpanContext.Flags.{
  SamplingState, is_sampled, is_debug, is_firehose, set_final, set_sampled, unset_sampled,
  set_debug_and_sampled,
}
use jaeger_client_go.SpanContext.Flags.Laws.{Writes, flag-Writes}
use jaeger_client_go.SpanContext.{
  SpanContext, States, state_of, modify_state, is_sampling_finalized, is_writeable,
}
use jaeger_client_go.Sampler.{Value, uint16}
use jaeger_client_go.Span.{Span, Components, World', Options, set_sampling_priority, set_tag}

get_elem?-set_same :
    {A : Type 0} (xs : List A) (i : ℕ) (a b : A)
    → get_elem? xs i ≡ some a
    → get_elem? (set xs i b) i ≡ some b
get_elem?-set_same [] i a b h = absurd (ground arith)
get_elem?-set_same (x ∷ xs) zero a b h = refl
get_elem?-set_same (x ∷ xs) (suc i) a b h = get_elem?-set_same xs i a b h

-- What a write through a context does to the state that it points to.
pub state_of-modify_state :
    (f : SamplingState → SamplingState) (c : SpanContext) (st : States) (s : SamplingState)
    → state_of st c ≡ some s
    → state_of (modify_state f c st) c ≡ some (f s)
state_of-modify_state f c st s h = go c.sampling_state h
  where
    go :
        (r : Option ℕ)
        → elim r as (λ _. Option SamplingState) [ none ↦ none | some i ↦ get_elem? st i ] ≡ some s
        → elim r as (λ _. Option SamplingState) [
          | none ↦ none
          | some i ↦
              get_elem?
                (elim r as (λ _. States) [
                  | none ↦ st
                  | some j ↦ elim (get_elem? st j) as (λ _. States) [
                    | none ↦ st
                    | some x ↦ set st j (f x)
                  ]
                ])
                i
        ]
          ≡ some (f s)
    go none e = absurd (ground arith)
    go (some i) e = rw e (get_elem?-set_same st i s (f s) e)

-- two writes in a row, the second to make the decision final
final_write :
    (f : SamplingState → SamplingState) (c : SpanContext) (st : States) (s : SamplingState)
    → state_of st c ≡ some s
    → state_of (modify_state set_final c (modify_state f c st)) c ≡ some (set_final (f s))
final_write f c st s h =
    state_of-modify_state set_final c (modify_state f c st) (f s) (state_of-modify_state f c st s h)

-- The state after an accepted priority.
Final : SamplingState → SamplingState → Bool → Bool → Type 0
Final s s' sampled debug =
    (s'.final ≡ true) × (is_sampled s' ≡ sampled) × (is_debug s' ≡ debug) × (s'.state_flags < 256)

set_final-Final :
    (s s' : SamplingState) (sampled debug firehose : Bool)
    → Writes s s' sampled debug firehose
    → Final s (set_final s') sampled debug
unfolding Final set_final is_sampled is_debug is_firehose
set_final-Final s s' sampled debug firehose w = (refl, w.0, w.1, w.3)

module _ {Num Field : Type 0} (C : Components Num Field) (options : Options) (ctx : SpanContext)
    (op : Bytes) where
  abbrev priority : ℕ → World' C → Bool × World' C
  priority val w = set_sampling_priority C options ctx op (uint16 val) w

  -- The state behind a context after the priority tag, and whether the tag was accepted.
  abbrev pub Priority : ℕ → World' C → SamplingState → Type 0
  Priority val w s =
      let allowed = (C.is_allowed w.throttler op).1 in
      let forced = options.no_debug_flag_on_forced_sampling in
      ((priority val w).0 ≡ ((val == 0) || (forced || allowed)))
      × (s' : SamplingState) × (state_of (priority val w).1.states ctx ≡ some s')
      × (s'.final ≡ (if (val == 0) || (forced || allowed) then true else s.final))
      × (is_sampled s'
          ≡ (if val == 0 then false else if forced || allowed then true else is_sampled s))
      × (is_debug s'
          ≡ (if val == 0 then is_debug s else if forced then is_debug s else allowed || is_debug s))
      × (s'.state_flags < 256)

  -- The `sampling.priority` tag with a uint16: the value 0 ends sampling and leaves the debug flag
  -- as it was; another value samples the trace, with the debug flag unless the options forbid it,
  -- and then only if the throttler allows the operation; if it does not, neither the two flags nor
  -- the finality change. The flags stay a byte. A priority that is accepted makes the decision
  -- final.
  pub set_sampling_priority_lem :
      (val : ℕ) (w : World' C) (s : SamplingState)
      → state_of w.states ctx ≡ some s
      → s.state_flags < 256
      → Priority val w s
  unfolding set_sampling_priority Final
  set_sampling_priority_lem val w s found byte =
      let writes = flag-Writes s byte in
      elim (Bool-cases (val == 0)) [
        | inl z ↦
            let (f, a, d, lt) = set_final-Final s _ _ _ _ writes.1 in
            rw z (
              refl,
              set_final (unset_sampled s),
              final_write unset_sampled ctx w.states s found,
              f,
              a,
              d,
              lt,
            )
        | inr nz ↦ elim (Bool-cases options.no_debug_flag_on_forced_sampling) [
          | inl forced ↦
              let (f, a, d, lt) = set_final-Final s _ _ _ _ writes.0 in
              rw (nz, forced)
                (
                  refl,
                  set_final (set_sampled s),
                  final_write set_sampled ctx w.states s found,
                  f,
                  a,
                  d,
                  lt,
                )
          | inr free ↦ elim (Bool-cases (C.is_allowed w.throttler op).1) [
            | inl allowed ↦
                let (f, a, d, lt) = set_final-Final s _ _ _ _ writes.2 in
                rw (nz, free, allowed)
                  (
                    refl,
                    set_final (set_debug_and_sampled s),
                    final_write set_debug_and_sampled ctx w.states s found,
                    f,
                    a,
                    d,
                    lt,
                  )
            | inr denied ↦ rw (nz, free, denied) (refl, s, found, refl, refl, refl, byte)
          ]
        ]
      ]

pub finalized_lem :
    (c : SpanContext) (st : States) (s : SamplingState)
    → state_of st c ≡ some s
    → is_sampling_finalized st c ≡ s.final
unfolding is_sampling_finalized
finalized_lem c st s found = rw (found, is_sampling_finalized)

pub writeable_lem :
    (c : SpanContext) (st : States) (s : SamplingState)
    → state_of st c ≡ some s
    → is_writeable st c ≡ (not s.final || is_sampled s)
unfolding is_writeable
writeable_lem c st s found = rw (found, is_writeable)

module _ {Num Field : Type 0} (C : Components Num Field) (options : Options) where
  -- A tag, other than the sampling priority, on a span that is not sampled and whose decision is
  -- final changes neither the span nor anything else, and no sampler is asked.
  pub set_tag_unwriteable :
      (s : Span Num Field) (key : Bytes) (value : Value Num) (w : World' C) (state : SamplingState)
      → key ≢ codes "sampling.priority"
      → state_of w.states s.context ≡ some state
      → state.final ≡ true
      → is_sampled state ≡ false
      → set_tag C options s key value w ≡ (s, w)
  unfolding set_tag
  set_tag_unwriteable s key value w state ne found final unsampled =
      let fin = finalized_lem s.context w.states state found in
      let writeable = writeable_lem s.context w.states state found in
      let closed : is_sampling_finalized w.states s.context ≡ true = fin ∙ final in
      let shut : is_writeable w.states s.context ≡ false = writeable ∙ rw (unsampled, final) in
      let other : bytes_eq key (codes "sampling.priority") ≡ false =
        elim (Bool-cases (bytes_eq key (codes "sampling.priority"))) [
          | inl e ↦ absurd (ne ((bytes_eq_iff key _).0 e))
          | inr n ↦ n
        ] in
      rw (other, closed, shut)
