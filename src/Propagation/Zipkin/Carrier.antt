-- ===== src/Propagation/Zipkin/Carrier.antt =====
-- What is injected into a carrier of Zipkin's own spans is extracted from it.
use jaeger_client_go.Base.{◌==◌, ◌≡◌, if◌then◌else◌, [], ◌∷◌, ◌++◌, some, length, arith}
use jaeger_client_go.Outcome.{ok, err, ◌>>=◌, span_context_not_found}
use jaeger_client_go.SpanContext.Flags.{SamplingState, fresh_state, set_flags, flags}
use jaeger_client_go.SpanContext.{SpanContext, States, state_of, empty_context}
use jaeger_client_go.Propagation.Zipkin.{zipkin_inject, zipkin_extract}

-- Whatever a context holds, what is injected into a Zipkin span carrier is extracted with the same
-- span and parent IDs and flags, but the upper half of the trace ID is lost, and without a lower
-- half the extraction finds no context.
pub zipkin_extract-zipkin_inject :
    (c : SpanContext) (st st' : States) (s : SamplingState)
    → state_of st c ≡ some s
    → (zipkin_inject st c >>= λ carrier. zipkin_extract carrier st') ≡ (
        if c.trace_id.low == 0
        then err span_context_not_found
        else ok (
          record empty_context {
            trace_id = record { high = 0; low = c.trace_id.low };
            span_id = c.span_id;
            parent_id = c.parent_id;
            sampling_state = some (length st');
          },
          st' ++ (set_flags fresh_state (flags s)) ∷ [],
        ))
unfolding zipkin_inject zipkin_extract
zipkin_extract-zipkin_inject c st st' s e = ground (arith, e)
