-- ===== src/Lib.antt =====
-- A verification library for the Jaeger client library for Go.
--
-- The program's parts. A tracer (tracer.go) starts spans (span.go): it chooses a parent among the
-- references, gives the span its IDs, asks a sampler, and hands finished spans to a reporter. The
-- identity of a span is its context (span_context.go), which propagators (propagation.go) write
-- into carriers and read from them (headers with their names in header.go, bytes, and Zipkin's
-- headers in zipkin/propagation.go); the sampling flags of a context are in a state that all spans
-- of a process in one trace share. Samplers (sampler.go, sampler_v2.go) decide by the trace ID, by
-- a rate limiter (utils/rate_limiter.go) or by operation, as a server says (sampler_remote.go), or
-- by their own rules (x/priority_sampler.go, x/tag_sampler.go). The remote reporter (reporter.go)
-- queues spans for a go-routine that packs them into datagrams (transport.go, transport_udp.go) or
-- posts them in batches (transport/http.go, transport/zipkin/http.go), in the formats of
-- jaeger_thrift_span.go and zipkin_thrift_span.go. An observer (rpcmetrics) counts the calls that
-- a server answers. Debug spans are limited by a throttler
-- (internal/throttler/remote/throttler.go).
--
-- Files and what they model.
--   Base         names and lemmas that the other files share: tests, lists, Go maps, float64
--   Outcome      results of functions that return an error or panic
--   SpanContext  span_context.go: Flags has samplingState, Codec the text form (TraceIDFromString,
--                ContextFromString and the String methods), Baggage the theorem on WithBaggageItem
--   Propagation  propagation.go: Binary has BinaryPropagator, TextMap has TextMapPropagator with
--                header.go, over the text functions of the standard library, as they are documented, in
--                Escape; Zipkin has zipkin/propagation.go and zipkin.go
--   RateLimiter  utils/rate_limiter.go
--   Sampler      sampler.go and sampler_v2.go: Operations has the guaranteed throughput and the
--                per-operation sampler, Remote has sampler_remote.go
--   Custom       Priority has x/priority_sampler.go, TagMatching has x/tag_sampler.go
--   Span         span.go: Logs has the bounded log, Pool has Retain and Release with
--                span_allocator.go, the other functions are in Span itself
--   Tracer       startSpanWithOptions of tracer.go, cut into the functions find_parent, start_context
--                (the context of a new trace or of a child) and begin_span (the rest)
--   Conversion   what a conversion reads of a span; Jaeger has jaeger_thrift_span.go and jaeger_tag.go,
--                Zipkin has zipkin_thrift_span.go, Ip the addresses of utils/utils.go
--   Transport    transport.go, transport_udp.go in Udp, and both HTTP transports in Http
--   Reporter     the remote reporter of reporter.go
--   Throttler    internal/throttler/remote/throttler.go
--   BaggageSetter  baggage_setter.go with internal/baggage/restriction_manager.go and
--                internal/baggage/remote/restriction_manager.go
--   RpcMetrics   rpcmetrics: Normalizer, Endpoints, Metrics and Observer as its files
--   Config       config/config_env.go, and NewSampler of config/config.go in Samplers
--   Tests        inputs on which the theorems are tried
--
-- State. A function that changes an object takes and returns it. The pointer to a sampling state is an
-- index into a list of states (SpanContext.States), so contexts that share a state see each other's
-- writes. A span's other surroundings (the states of the sampler and the throttler, the random numbers
-- to come, the metrics) are a record World. Locks make an operation one step; the go-routines of the
-- reporter are a step relation.
--
-- Parameters. float64 arithmetic, the fields of log records of opentracing-go, the sizes of thrift
-- structs and their serialization, the clients that send datagrams and requests, the agent of the
-- throttler, the texts of values and the reading of numbers by strconv, and the capacity that append
-- gives a slice are arguments of the definitions, and so is strings.ToLower, of which theorems use that
-- it keeps ASCII text without capital letters. What theorems use of float64 is the record IsOrdered:
-- laws that hold of every float64, since each asks for operands whose result is not NaN. Comparisons
-- exclude NaN; factors, subtrahends and what is converted to an integer are from 0 to 2 ^ 63. A Go map
-- is a list of its entries in some order; where the order in which it is read matters, the order is
-- part of the input.
--
-- Times are nanoseconds: natural numbers where a clock gives them, and signed ones, like durations, in
-- the conversions of spans.
--
-- Bounds. uint64 values are natural numbers below 2 ^ 64, where a theorem needs that. The loop of
-- rotateLogBuffer runs on fuel, one more than the length of the buffer: each round writes one place
-- for good. The loop of randomID runs on the list of random numbers to come, and gives up at its end.
--
-- Not modelled: the assembly of a tracer and its options, sockets, the HTTP fetcher of strategies and
-- the reading of JSON, the reporters that only keep or log spans, and the thrift libraries; observers
-- of spans other than rpcmetrics and loggers, which only listen.
pub mod BaggageSetter
pub mod Base
pub mod Config
pub mod Conversion
pub mod Custom
pub mod Outcome
pub mod Propagation
pub mod RateLimiter
pub mod Reporter
pub mod RpcMetrics
pub mod Sampler
pub mod Span
pub mod SpanContext
pub mod Tests
pub mod Throttler
pub mod Tracer
pub mod Transport
