-- ===== src/Sampler/Operations/Capacity.antt =====
-- How many operations the per-operation sampler tracks.
use Prim.Native.Nat.{max}
use jaeger_client_go.Base.{
  ℕ, ◌≤◌, ◌≡◌, Bool, true, Option, none, some, Option-cases, inl, inr, Bytes, lookup, lookup-insert,
  length-insert, bytes_eq_refl, length, arith,
}
use jaeger_client_go.Base.Float.{Float}
use jaeger_client_go.SpanContext.{TraceId}
use jaeger_client_go.Sampler.{probabilistic_is_sampled}
use jaeger_client_go.Sampler.Operations.{
  GuaranteedSampler, PerOperationSampler, new_guaranteed_sampler, guaranteed_is_sampled,
  get_sampler_for_operation, try_sampling,
}

module _ (F : Float) (s : PerOperationSampler F) (operation : Bytes) (now : ℕ) where
  got : PerOperationSampler F × Option (GuaranteedSampler F)
  got = get_sampler_for_operation F s operation now

  get_bound : length got.0.samplers ≤ max (length s.samplers) s.max_operations
  unfolding got get_sampler_for_operation
  get_bound = ground (
    arith,
    length-insert operation
        (new_guaranteed_sampler F s.lower_bound s.default_sampler.sampling_rate now) s.samplers,
  )

  -- a sampler that was handed out is the one that is stored
  get_stored : (g : GuaranteedSampler F) → got.1 ≡ some g → lookup operation got.0.samplers ≡ some g
  unfolding got get_sampler_for_operation
  get_stored g h = ground (
    arith,
    lookup-insert operation operation
        (new_guaranteed_sampler F s.lower_bound s.default_sampler.sampling_rate now) s.samplers,
    bytes_eq_refl operation,
  )

  -- A sampling attempt, whatever the operation, leaves at most as many samplers as there were, or
  -- as `maxOperations` says if that is more.
  pub length-try_sampling :
      (is_local_root : Bool) (id : TraceId)
      → length (try_sampling F s is_local_root id operation now).0.samplers
        ≤ max (length s.samplers) s.max_operations
  unfolding try_sampling got
  length-try_sampling is_local_root id = elim (Option-cases got.1) [
    | inl e ↦ ground (arith, e, get_bound)
    | inr (g, e) ↦ ground (
      arith,
      e,
      get_bound,
      get_stored g e,
      length-insert operation (guaranteed_is_sampled F g id now).0 got.0.samplers,
    )
  ]

  -- An operation that is not tracked, when the sampler is full, is decided by the default
  -- sampler, and the state of the sampler does not change.
  pub try_sampling_full :
      (id : TraceId)
      → lookup operation s.samplers ≡ none
      → s.max_operations ≤ length s.samplers
      → try_sampling F s true id operation now ≡ (
        s,
        (probabilistic_is_sampled F s.default_sampler id).0,
        (probabilistic_is_sampled F s.default_sampler id).1,
      )
  unfolding try_sampling get_sampler_for_operation
  try_sampling_full id fresh full = ground (arith, fresh)
