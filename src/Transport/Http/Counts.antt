-- ===== src/Transport/Http/Counts.antt =====
-- The HTTP transports keep count of the spans that they are given.
use jaeger_client_go.Base.{◌+◌, ◌≡◌, [], ◌∷◌, length, length-append, arith}
use jaeger_client_go.Transport.{IsCounting}
use jaeger_client_go.Transport.Http.{
  Collector, HttpTransport, flush, append, http_transport, zipkin_flush, zipkin_append,
  zipkin_transport,
}

module _ {Span : Type 0} (C : Collector Span) where
  flush_counts :
      (c : HttpTransport C) → length c.spans ≡ length (flush C c).0.spans + (flush C c).1.count
  unfolding flush
  flush_counts c = ground arith

  pub append_counts :
      (c : HttpTransport C) (x : Span)
      → length c.spans + 1 ≡ length (append C c x).0.spans + (append C c x).1.count
  unfolding append flush
  append_counts c x = ground (arith, length-append c.spans (C.build_span x ∷ []))

  http_counts : IsCounting (http_transport C)
  http_counts = record {
    buffered = λ c. length c.spans;
    append_counts = append_counts;
    flush_counts = flush_counts;
  }

  zipkin_flush_counts :
      (c : HttpTransport C)
      → length c.spans ≡ length (zipkin_flush C c).0.spans + (zipkin_flush C c).1.count
  unfolding zipkin_flush
  zipkin_flush_counts c = ground arith

  zipkin_append_counts :
      (c : HttpTransport C) (x : Span)
      → length c.spans + 1 ≡ length (zipkin_append C c x).0.spans + (zipkin_append C c x).1.count
  unfolding zipkin_append zipkin_flush
  zipkin_append_counts c x = ground (arith, length-append c.spans (C.build_span x ∷ []))

  zipkin_counts : IsCounting (zipkin_transport C)
  zipkin_counts = record {
    buffered = λ c. length c.spans;
    append_counts = zipkin_append_counts;
    flush_counts = zipkin_flush_counts;
  }
