-- ===== src/Conversion/Zipkin/Special.antt =====
-- What becomes of the special tags of a span that is converted for Zipkin.
use jaeger_client_go.Base.{
  ◌≡◌, refl, sym, ap, ◌∙◌, Option, Bool, true, false, Bool-cases, inl, inr, if◌then◌else◌, List, [],
  ◌∷◌, ◌++◌, append-nil, append_assoc, Bytes, bytes_eq,
}
use jaeger_client_go.Base.Integers.{ℤ, pos}
use jaeger_client_go.Conversion.{Value, Tag, SpanData, TracerData}
use jaeger_client_go.Conversion.Zipkin.Peer.{
  ZipkinSpan, Endpoint, is_special, handle_special, filter_tags, handle_special_tags,
  new_zipkin_span, to_int32,
}
use jaeger_client_go.Conversion.Zipkin.{
  log_annotations, labels, build_annotations, build_zipkin_thrift,
}

module _ {Num Field : Type 0} (atoi : Bytes → Option ℤ) (show : Value Num → Bytes)
    (materialize : List Field → Bool × Bytes) where
  abbrev pub ordinary : List (Tag Num) → List (Tag Num)
  ordinary [] = []
  ordinary (tag ∷ tags) = if is_special tag.key then ordinary tags else tag ∷ ordinary tags

  filter_tags-ordinary :
      (s : ZipkinSpan Num Field) (filtered tags : List (Tag Num))
      → (filter_tags atoi s filtered tags).1 ≡ filtered ++ ordinary tags
  unfolding filter_tags
  filter_tags-ordinary s filtered [] = sym (append-nil filtered)
  filter_tags-ordinary s filtered (tag ∷ tags) = elim (Bool-cases (is_special tag.key)) [
    | inl e ↦
        rw (e, filter_tags)
          (filter_tags-ordinary (handle_special atoi tag.key s tag.value) filtered tags)
    | inr e ↦
        rw (e, filter_tags)
          (filter_tags-ordinary s (filtered ++ tag ∷ []) tags
            ∙ append_assoc filtered (tag ∷ []) (ordinary tags))
  ]

  -- tags without special ones among them change nothing of the span
  filter_tags-again :
      (s : ZipkinSpan Num Field) (filtered tags : List (Tag Num))
      → (filter_tags atoi s filtered (ordinary tags)).0 ≡ s
  unfolding filter_tags
  filter_tags-again s filtered [] = refl
  filter_tags-again s filtered (tag ∷ tags) = elim (Bool-cases (is_special tag.key)) [
    | inl e ↦ rw e (filter_tags-again s filtered tags)
    | inr e ↦ rw (e, filter_tags) (rw e (filter_tags-again s (filtered ++ tag ∷ []) tags))
  ]

  handled : TracerData Num → SpanData Num Field → ZipkinSpan Num Field
  handled tracer span = handle_special_tags atoi tracer (new_zipkin_span span)

  handled-tags :
      (tracer : TracerData Num) (span : SpanData Num Field)
      → (handled tracer span).span.tags
        ≡ ordinary (if span.first_in_process then span.tags ++ tracer.tags else span.tags)
  unfolding handled handle_special_tags
  handled-tags tracer span =
      filter_tags-ordinary (new_zipkin_span span) []
        (if span.first_in_process then span.tags ++ tracer.tags else span.tags)

  -- a span with ordinary tags, not the first of its process, has no kind for Zipkin
  handled-kind :
      (tracer : TracerData Num) (span : SpanData Num Field) (tags : List (Tag Num))
      → span.first_in_process ≡ false
      → span.tags ≡ ordinary tags
      → (handled tracer span).kind ≡ []
  unfolding handled handle_special_tags
  handled-kind tracer span tags first e =
      ap (λ (l : List (Tag Num)). (filter_tags atoi (new_zipkin_span span) [] l).0.kind)
        (ap (λ b. if b then span.tags ++ tracer.tags else span.tags) first ∙ e)
      ∙ ap (λ (s : ZipkinSpan Num Field). s.kind) (filter_tags-again (new_zipkin_span span) [] tags)

  labels-nil : bytes_eq (labels atoi show materialize []).0 [] ≡ true
  unfolding labels bytes_eq
  labels-nil = refl

  local_annotations :
      (tracer : TracerData Num) (s : ZipkinSpan Num Field) (endpoint : Endpoint)
      → s.kind ≡ []
      → build_annotations atoi show materialize tracer s endpoint
        ≡ log_annotations atoi show materialize tracer.max_tag_value_length endpoint s.span.logs
  unfolding build_annotations labels
  local_annotations tracer s endpoint e =
      let none_here : bytes_eq (labels atoi show materialize s.kind).0 [] ≡ true =
        ap (λ k. bytes_eq (labels atoi show materialize k).0 []) e ∙ labels-nil in
      elim (Bool-cases s.span.start_is_zero) [
        | inl zero_time ↦ rw zero_time refl
        | inr set_time ↦ rw (set_time, none_here) refl
      ]

  abbrev pub again : TracerData Num → SpanData Num Field → SpanData Num Field
  again tracer span = (build_zipkin_thrift atoi show materialize tracer span).1

  -- The conversion leaves the span without its special tags, and with the tracer's tags too if it
  -- is the first of its process. So a span that is not the first and is converted once more, for a
  -- second Zipkin transport, has lost its kind: only its logs become annotations, and not the start
  -- and the end of the call.
  pub build_zipkin_thrift-again :
      (tracer : TracerData Num) (span : SpanData Num Field)
      → span.first_in_process ≡ false
      → ((again tracer span).tags ≡ ordinary span.tags)
        × ((build_zipkin_thrift atoi show materialize tracer (again tracer span)).0.annotations
            ≡ log_annotations atoi show materialize tracer.max_tag_value_length
                (record {
                  ipv4 = to_int32 tracer.host_ipv4;
                  port = pos 0;
                  service_name = tracer.service_name;
                })
                span.logs)
  unfolding build_zipkin_thrift handled handle_special_tags
  build_zipkin_thrift-again tracer span first =
      let tags =
        handled-tags tracer span
        ∙ ap (λ b. ordinary (if b then span.tags ++ tracer.tags else span.tags)) first in
      (
        tags,
        local_annotations tracer (handled tracer (again tracer span)) _
            (handled-kind tracer (again tracer span) span.tags first tags),
      )
