-- ===== src/Propagation/Zipkin/RoundTrip.antt =====
-- What is injected into the carriers of Zipkin is extracted from them.
use jaeger_client_go.Base.{
  ℕ, ◌^◌, ◌<◌, ◌==◌, ◌≡◌, refl, ◌∙◌, ==_iff, Bool, true, false, if◌then◌else◌, List, [], ◌∷◌, ◌++◌,
  append-nil, append_assoc, some, Bytes, codes, bytes_eq, Map, insert, IsMap, insert_all,
  insert_all-nil, length, drop-append, All, arith, Bool-cases, inl, inr,
}
use jaeger_client_go.Outcome.{ok}
use jaeger_client_go.SpanContext.Flags.{SamplingState}
use jaeger_client_go.SpanContext.{
  SpanContext, States, state_of, trace_id_is_valid, context_is_sampled, new_span_context, TraceId,
}
use jaeger_client_go.SpanContext.Codec.{
  trace_id_string, span_id_string, trace_id_from_string, parse_or_err,
}
use jaeger_client_go.SpanContext.Codec.RoundTrip.{parse_or_err-hex_pad, id_from_string-string}
use jaeger_client_go.Propagation.Escape.{has_prefix}
use jaeger_client_go.Propagation.Escape.RoundTrip.{
  IsLower, IsLowering, are_lower-IsLower, has_prefix-append,
}
use jaeger_client_go.Propagation.TextMap.RoundTrip.{carrier_set}
use jaeger_client_go.Propagation.Zipkin.{
  Propagator, trace_id_key, parent_span_id_key, span_id_key, sampled_key, set_baggage, inject,
  Extraction, no_extraction, extract_entry, extract_entries, extracted, extract,
}

-- a baggage key whose header is ASCII without capital letters, and none of the four
pub record Fits (p : Propagator) (k : Bytes) : Type 0 where
  pub lower : All IsLower (p.baggage_prefix ++ k)
  pub not_trace_id : bytes_eq (p.baggage_prefix ++ k) trace_id_key ≡ false
  pub not_parent_id : bytes_eq (p.baggage_prefix ++ k) parent_span_id_key ≡ false
  pub not_span_id : bytes_eq (p.baggage_prefix ++ k) span_id_key ≡ false
  pub not_sampled : bytes_eq (p.baggage_prefix ++ k) sampled_key ≡ false

abbrev pub AllFit : Propagator → Map Bytes → Type 0
AllFit p [] = Unit
AllFit p ((k, v) ∷ m) = Fits p k × AllFit p m

span_id_lem : (n : ℕ) → n < 2 ^ 64 → parse_or_err (span_id_string n) 16 64 ≡ ok n
unfolding span_id_string
span_id_lem n h = parse_or_err-hex_pad n h

module _ (to_lower : Bytes → Bytes) (lowering : IsLowering to_lower) (p : Propagator) where
  entries : Map Bytes → List (Bytes × Bytes)
  entries [] = []
  entries ((k, v) ∷ m) = (p.baggage_prefix ++ k, v) ∷ entries m

  set_baggage-entries :
      (m : Map Bytes) (w : List (Bytes × Bytes)) → set_baggage carrier_set p m w ≡ w ++ entries m
  unfolding set_baggage entries
  set_baggage-entries [] w = rw append-nil refl
  set_baggage-entries ((k, v) ∷ m) w =
      set_baggage-entries m (carrier_set w (p.baggage_prefix ++ k) v) ∙ append_assoc w _ (entries m)

  extract_item :
      (e : Extraction) (k v : Bytes)
      → Fits p k
      → extract_entry to_lower p e (p.baggage_prefix ++ k) v
        ≡ ok (record e { baggage = insert k v e.baggage })
  unfolding extract_entry
  extract_item e k v f =
      rw
        (
          lowering (p.baggage_prefix ++ k) f.lower,
          f.not_trace_id,
          f.not_parent_id,
          f.not_span_id,
          f.not_sampled,
          has_prefix-append p.baggage_prefix k,
          drop-append p.baggage_prefix k (length p.baggage_prefix) refl,
        )
        refl

  extract_items :
      (e : Extraction) (m : Map Bytes)
      → AllFit p m
      → extract_entries to_lower p e (entries m)
        ≡ ok (record e { baggage = insert_all e.baggage m })
  unfolding extract_entries entries
  extract_items e [] h = refl
  extract_items e ((k, v) ∷ m) (f, h) =
      rw (extract_item e k v f) (extract_items (record e { baggage = insert k v e.baggage }) m h)

  -- the headers of the identity
  extract_trace_id :
      (e : Extraction) (t : TraceId)
      → trace_id_from_string (trace_id_string t) ≡ ok t
      → extract_entry to_lower p e trace_id_key (trace_id_string t) ≡ ok (record e { trace_id = t })
  unfolding extract_entry bytes_eq
  extract_trace_id e t h = rw (lowering trace_id_key (are_lower-IsLower trace_id_key refl), h) refl

  extract_parent_id :
      (e : Extraction) (n : ℕ)
      → parse_or_err (span_id_string n) 16 64 ≡ ok n
      → extract_entry to_lower p e parent_span_id_key (span_id_string n)
        ≡ ok (record e { parent_id = n })
  unfolding extract_entry bytes_eq
  extract_parent_id e n h =
      rw (lowering parent_span_id_key (are_lower-IsLower parent_span_id_key refl), h) refl

  extract_span_id :
      (e : Extraction) (n : ℕ)
      → parse_or_err (span_id_string n) 16 64 ≡ ok n
      → extract_entry to_lower p e span_id_key (span_id_string n) ≡ ok (record e { span_id = n })
  unfolding extract_entry bytes_eq
  extract_span_id e n h = rw (lowering span_id_key (are_lower-IsLower span_id_key refl), h) refl

  extract_sampled :
      (e : Extraction) (b : Bool)
      → e.sampled ≡ false
      → has_prefix sampled_key p.baggage_prefix ≡ false
      → extract_entry to_lower p e sampled_key (if b then codes "1" else codes "0")
        ≡ ok (record e { sampled = b })
  unfolding extract_entry bytes_eq
  extract_sampled e true h q = rw (lowering sampled_key (are_lower-IsLower sampled_key refl)) refl
  extract_sampled e false h q =
      rw (lowering sampled_key (are_lower-IsLower sampled_key refl), q)
        (λ i. ok (record e { sampled = h i }))

  -- what comes behind the parent's header
  last_headers : States → SpanContext → List (Bytes × Bytes)
  last_headers st c =
      (span_id_key, span_id_string c.span_id)
      ∷ (sampled_key, if context_is_sampled st c then codes "1" else codes "0")
      ∷ entries c.baggage

  headers : States → SpanContext → List (Bytes × Bytes)
  headers st c =
      (trace_id_key, trace_id_string c.trace_id)
      ∷ (if c.parent_id == 0
          then last_headers st c
          else (parent_span_id_key, span_id_string c.parent_id) ∷ last_headers st c)

  inject_lem :
      (st : States) (c : SpanContext) (s : SamplingState)
      → state_of st c ≡ some s
      → inject carrier_set p st c [] ≡ ok (headers st c)
  unfolding inject headers last_headers
  inject_lem st c s e =
      let first : Bytes × Bytes = (trace_id_key, trace_id_string c.trace_id) in
      let parent : Bytes × Bytes = (parent_span_id_key, span_id_string c.parent_id) in
      let span : Bytes × Bytes = (span_id_key, span_id_string c.span_id) in
      let mark : Bytes × Bytes =
        (sampled_key, if context_is_sampled st c then codes "1" else codes "0") in
      ground (
        arith,
        e,
        set_baggage-entries c.baggage (first ∷ span ∷ mark ∷ []),
        set_baggage-entries c.baggage (first ∷ parent ∷ span ∷ mark ∷ []),
      )

  extract_last :
      (st : States) (c : SpanContext) (e : Extraction)
      → c.span_id < 2 ^ 64
      → has_prefix sampled_key p.baggage_prefix ≡ false
      → e.sampled ≡ false
      → e.baggage ≡ []
      → IsMap c.baggage
      → AllFit p c.baggage
      → extract_entries to_lower p e (last_headers st c)
        ≡ ok (record e {
          span_id = c.span_id;
          sampled = context_is_sampled st c;
          baggage = c.baggage;
        })
  unfolding last_headers extract_entries
  extract_last st c e hs apart fresh empty unique fit =
      rw
        (
          extract_span_id e c.span_id (span_id_lem c.span_id hs),
          extract_sampled (record e { span_id = c.span_id }) (context_is_sampled st c) fresh apart,
          extract_items (record e { span_id = c.span_id; sampled = context_is_sampled st c })
              c.baggage fit,
          empty,
          insert_all-nil c.baggage unique,
        )
        refl

  extract_headers :
      (st : States) (c : SpanContext)
      → c.trace_id.high < 2 ^ 64
      → c.trace_id.low < 2 ^ 64
      → c.span_id < 2 ^ 64
      → c.parent_id < 2 ^ 64
      → has_prefix sampled_key p.baggage_prefix ≡ false
      → IsMap c.baggage
      → AllFit p c.baggage
      → extract_entries to_lower p no_extraction (headers st c)
        ≡ ok (record {
          trace_id = c.trace_id;
          span_id = c.span_id;
          parent_id = c.parent_id;
          sampled = context_is_sampled st c;
          baggage = c.baggage;
        })
  unfolding headers extract_entries
  extract_headers st c hh hl hs hp apart unique fit =
      let found : Extraction = record no_extraction { trace_id = c.trace_id } in
      let trace =
        extract_trace_id no_extraction c.trace_id
          (id_from_string-string c.trace_id c.span_id hh hl hs).0 in
      elim (Bool-cases (c.parent_id == 0)) [
        | inl z ↦
            let zero_parent : 0 ≡ c.parent_id = omega (arith, (==_iff c.parent_id 0).0 z) in
            rw (trace, z)
              (extract_last st c found hs apart refl refl unique fit ∙ (λ i. ok (record {
                trace_id = c.trace_id;
                span_id = c.span_id;
                parent_id = zero_parent i;
                sampled = context_is_sampled st c;
                baggage = c.baggage;
              })))
        | inr z ↦
            rw (trace, z)
              (rw (extract_parent_id found c.parent_id (span_id_lem c.parent_id hp)) (
                extract_last st c (record found { parent_id = c.parent_id }) hs apart refl refl
                  unique fit))
      ]

  -- A context with uint64 IDs and a trace ID that is not 0, whose baggage fits in headers (no key
  -- twice, keys that are ASCII without capitals), is injected without a panic, under a baggage
  -- prefix that does not begin the header of the sampled mark. Extracting from a carrier that gives
  -- the entries in the order of the writes gives a new context with the same IDs, the same sampled
  -- mark and the same baggage.
  pub b3_round_trip :
      (c : SpanContext) (st st' : States) (s : SamplingState)
      → c.trace_id.high < 2 ^ 64
      → c.trace_id.low < 2 ^ 64
      → c.span_id < 2 ^ 64
      → c.parent_id < 2 ^ 64
      → trace_id_is_valid c.trace_id ≡ true
      → state_of st c ≡ some s
      → has_prefix sampled_key p.baggage_prefix ≡ false
      → IsMap c.baggage
      → AllFit p c.baggage
      → (w : List (Bytes × Bytes)) × (inject carrier_set p st c [] ≡ ok w)
        × (extract to_lower p w st' ≡ (
            let r =
              new_span_context c.trace_id c.span_id c.parent_id
                (context_is_sampled st c)
                c.baggage
                st' in
            ok (r.1, r.0)))
  unfolding extract extracted
  b3_round_trip c st st' s hh hl hs hp valid e apart unique fit = (
    headers st c,
    inject_lem st c s e,
    rw (extract_headers st c hh hl hs hp apart unique fit, valid) refl,
  )
