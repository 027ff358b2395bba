-- ===== src/Conversion/Jaeger/Identity.antt =====
-- The identity of spans and of the spans that they refer to, in the thrift format.
use jaeger_client_go.Base.{ℕ, ◌^◌, ◌<◌, ◌≡◌, refl, List, [], ◌∷◌, Bytes, All}
use jaeger_client_go.SpanContext.{SpanContext, TraceId}
use jaeger_client_go.Span.{Reference, ReferenceType, child_of, follows_from, self_ref, other_ref}
use jaeger_client_go.Conversion.{Value, SpanData, TracerData, to_uint64, to_uint64-to_int64}
use jaeger_client_go.Conversion.Jaeger.{
  RefType, ref_child_of, ref_follows_from, SpanRef, Emit, span_ref, build_references,
  build_jaeger_thrift,
}

abbrev pub HasWords : SpanContext → Type 0
HasWords c =
    (c.trace_id.high < 2 ^ 64)
    × (c.trace_id.low < 2 ^ 64)
    × (c.span_id < 2 ^ 64)
    × (c.parent_id < 2 ^ 64)

-- what a reader of a reference learns: its type, the trace and the span
abbrev pub read_ref : SpanRef → RefType × (TraceId × ℕ)
read_ref r = (
  r.ref_type,
  (
    record { high = to_uint64 r.trace_id_high; low = to_uint64 r.trace_id_low },
    to_uint64 r.span_id,
  ),
)

abbrev pub read_refs : List SpanRef → List (RefType × (TraceId × ℕ))
read_refs [] = []
read_refs (r ∷ rs) = read_ref r ∷ read_refs rs

-- the references of the two types that opentracing knows
abbrev pub known_refs : List Reference → List (RefType × (TraceId × ℕ))
known_refs [] = []
known_refs (r ∷ rs) = elim r.type [
  | child_of ↦ (ref_child_of, (r.context.trace_id, r.context.span_id)) ∷ known_refs rs
  | follows_from ↦ (ref_follows_from, (r.context.trace_id, r.context.span_id)) ∷ known_refs rs
  | _ ↦ known_refs rs
]

read_span_ref :
    (c : SpanContext) (t : RefType)
    → HasWords c
    → read_ref (span_ref c t) ≡ (t, (c.trace_id, c.span_id))
unfolding span_ref
read_span_ref c t (hh, hl, hs, hp) = λ i. (
  t,
  (
    record {
      high = to_uint64-to_int64 c.trace_id.high hh i;
      low = to_uint64-to_int64 c.trace_id.low hl i;
    },
    to_uint64-to_int64 c.span_id hs i,
  ),
)

-- one more reference of the type `type`
abbrev known_ref :
    ReferenceType → SpanContext → List (RefType × (TraceId × ℕ)) → List (RefType × (TraceId × ℕ))
known_ref child_of c rest = (ref_child_of, (c.trace_id, c.span_id)) ∷ rest
known_ref follows_from c rest = (ref_follows_from, (c.trace_id, c.span_id)) ∷ rest
known_ref self_ref c rest = rest
known_ref other_ref c rest = rest

read_next :
    (type : ReferenceType) (c : SpanContext) (rs : List Reference)
    → HasWords c
    → read_refs (build_references rs) ≡ known_refs rs
    → read_refs (build_references (record { type = type; context = c } ∷ rs))
      ≡ known_refs (record { type = type; context = c } ∷ rs)
unfolding build_references
read_next child_of c rs h e = λ i. read_span_ref c ref_child_of h i ∷ e i
read_next follows_from c rs h e = λ i. read_span_ref c ref_follows_from h i ∷ e i
read_next self_ref c rs h e = e
read_next other_ref c rs h e = e

-- What is built from references tells their trace and span IDs, for those of the two known types,
-- in their order.
read_refs-build_references :
    (rs : List Reference)
    → All (λ r. HasWords r.context) rs
    → read_refs (build_references rs) ≡ known_refs rs
unfolding build_references
read_refs-build_references [] h = refl
read_refs-build_references (r ∷ rs) (h, hs) =
    read_next r.type r.context rs h (read_refs-build_references rs hs)

module _ {Num Field : Type 0} (show : Value Num → Bytes) (marshal : Field → List (Emit Num)) where
  -- From the thrift form of a span whose IDs are uint64 numbers, and those of its references too, a
  -- reader learns the same trace, span and parent IDs, and of the references of the two types of
  -- opentracing their types and IDs in order; the others are left out.
  pub build_jaeger_thrift-identity :
      (tracer : TracerData Num) (span : SpanData Num Field)
      → HasWords span.context
      → All (λ r. HasWords r.context) span.references
      → (to_uint64 (build_jaeger_thrift show marshal tracer span).trace_id_high
          ≡ span.context.trace_id.high)
        × (to_uint64 (build_jaeger_thrift show marshal tracer span).trace_id_low
            ≡ span.context.trace_id.low)
        × (to_uint64 (build_jaeger_thrift show marshal tracer span).span_id ≡ span.context.span_id)
        × (to_uint64 (build_jaeger_thrift show marshal tracer span).parent_span_id
            ≡ span.context.parent_id)
        × (read_refs (build_jaeger_thrift show marshal tracer span).references
            ≡ known_refs span.references)
  unfolding build_jaeger_thrift
  build_jaeger_thrift-identity tracer span (hh, hl, hs, hp) refs = (
    to_uint64-to_int64 span.context.trace_id.high hh,
    to_uint64-to_int64 span.context.trace_id.low hl,
    to_uint64-to_int64 span.context.span_id hs,
    to_uint64-to_int64 span.context.parent_id hp,
    read_refs-build_references span.references refs,
  )
