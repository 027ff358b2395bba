-- ===== src/Sampler/Operations.antt =====
-- sampler.go: the sampler with a guaranteed throughput, and the sampler that has one of these for
-- each operation. The samplers are pointers in the program; each stands in one place of the model,
-- and is written back there when it changes.
pub mod Capacity
pub mod Update
use jaeger_client_go.Base.{
  ℕ, zero, suc, leb, ◌||◌, not, Bool, true, false, if◌then◌else◌, List, [], ◌∷◌, Option, none, some,
  Bytes, codes, Map, lookup, insert, length,
}
use jaeger_client_go.Base.Float.{Float}
use jaeger_client_go.SpanContext.{TraceId}
use jaeger_client_go.Sampler.{
  Tag, float64, sampler_tags, SamplingDecision, undecided, ProbabilisticSampler,
  RateLimitingSampler, init_probabilistic, probabilistic_is_sampled, new_rate_limiting_sampler,
  rate_limiting_is_sampled, update_rate_limiting,
}

pub record GuaranteedSampler (F : Float) : Type 0 where
  pub probabilistic_sampler : ProbabilisticSampler F.Num
  pub lower_bound_sampler : RateLimitingSampler F
  pub tags : List (Tag F.Num)
  pub sampling_rate : F.Num
  pub lower_bound : F.Num

-- A strategy for one operation, and the strategies that the backend sends.
pub record OperationStrategy (Num : Type 0) : Type 0 where
  pub operation : Bytes
  pub sampling_rate : Num

pub record PerOperationStrategies (Num : Type 0) : Type 0 where
  pub default_sampling_probability : Num
  pub default_lower_bound : Num
  pub per_operation : List (OperationStrategy Num)

pub record PerOperationSampler (F : Float) : Type 0 where
  pub samplers : Map (GuaranteedSampler F)
  pub default_sampler : ProbabilisticSampler F.Num
  pub lower_bound : F.Num
  pub max_operations : ℕ
  pub operation_name_late_binding : Bool

module _ (F : Float) where
  abbrev pub lower_bound_tags : F.Num → List (Tag F.Num)
  lower_bound_tags rate = sampler_tags (codes "lowerbound") (float64 rate)

  -- `setProbabilisticSampler` on a new sampler, in which the probabilistic sampler and the tags are
  -- nil.
  unfoldable pub new_guaranteed_sampler : F.Num → F.Num → ℕ → GuaranteedSampler F
  new_guaranteed_sampler lower_bound sampling_rate now =
      let p = init_probabilistic F sampling_rate in
      record {
        probabilistic_sampler = p;
        lower_bound_sampler = new_rate_limiting_sampler F lower_bound now;
        tags = lower_bound_tags p.sampling_rate;
        sampling_rate = p.sampling_rate;
        lower_bound = lower_bound;
      }

  -- `setProbabilisticSampler` on a sampler in use.
  unfoldable pub set_probabilistic_sampler : GuaranteedSampler F → F.Num → GuaranteedSampler F
  set_probabilistic_sampler s rate =
      let p =
        if not (F.beq s.sampling_rate rate)
        then init_probabilistic F rate
        else s.probabilistic_sampler in
      let s' = record s { probabilistic_sampler = p } in
      if not (F.beq s.sampling_rate p.sampling_rate)
      then record s' { sampling_rate = p.sampling_rate; tags = lower_bound_tags p.sampling_rate }
      else s'

  -- The lower bound is charged whichever sampler decides.
  unfoldable pub guaranteed_is_sampled :
      GuaranteedSampler F → TraceId → ℕ → GuaranteedSampler F × Bool × List (Tag F.Num)
  guaranteed_is_sampled s id now =
      let (sampled, tags) = probabilistic_is_sampled F s.probabilistic_sampler id in
      let (lower, within, _) = rate_limiting_is_sampled F s.lower_bound_sampler now in
      let s' = record s { lower_bound_sampler = lower } in
      if sampled then (s', true, tags) else (s', within, s.tags)

  unfoldable pub update_guaranteed : GuaranteedSampler F → F.Num → F.Num → ℕ → GuaranteedSampler F
  unfolding set_probabilistic_sampler
  update_guaranteed s lower_bound rate now =
      let s' = set_probabilistic_sampler s rate in
      if not (F.beq s'.lower_bound lower_bound)
      then record s' {
        lower_bound_sampler = update_rate_limiting F s'.lower_bound_sampler lower_bound now;
        lower_bound = lower_bound;
      }
      else s'

  abbrev pub default_max_operations : ℕ
  default_max_operations = 2000

  -- The loop of `NewPerOperationSampler`.
  unfoldable pub make_samplers :
      F.Num
      → ℕ
      → List (OperationStrategy F.Num)
      → Map (GuaranteedSampler F)
      → Map (GuaranteedSampler F)
  make_samplers lower_bound now [] samplers = samplers
  make_samplers lower_bound now (strategy ∷ rest) samplers = make_samplers lower_bound now rest (
      insert strategy.operation (new_guaranteed_sampler lower_bound strategy.sampling_rate now)
        samplers)

  -- A maximum that is 0 or negative stands for the default; here it is 0.
  unfoldable pub new_per_operation_sampler :
      ℕ → Bool → PerOperationStrategies F.Num → ℕ → PerOperationSampler F
  unfolding make_samplers
  new_per_operation_sampler max_operations late_binding strategies now = record {
    samplers = make_samplers strategies.default_lower_bound now strategies.per_operation [];
    default_sampler = init_probabilistic F strategies.default_sampling_probability;
    lower_bound = strategies.default_lower_bound;
    max_operations = if leb max_operations 0 then default_max_operations else max_operations;
    operation_name_late_binding = late_binding;
  }

  -- The sampler that is used; `none` is the default sampler.
  unfoldable pub get_sampler_for_operation :
      PerOperationSampler F → Bytes → ℕ → PerOperationSampler F × Option (GuaranteedSampler F)
  get_sampler_for_operation s operation now =
      let made = new_guaranteed_sampler s.lower_bound s.default_sampler.sampling_rate now in
      elim (lookup operation s.samplers) [
        | some sampler ↦ (s, some sampler)
        | none ↦
            if leb s.max_operations (length s.samplers)
            then (s, none)
            else (record s { samplers = insert operation made s.samplers }, some made)
      ]

  -- `is_local_root` is the answer of `isLocalRootSpan` for the span.
  unfoldable pub try_sampling :
      PerOperationSampler F
      → Bool
      → TraceId
      → Bytes
      → ℕ
      → PerOperationSampler F × Bool × List (Tag F.Num)
  unfolding get_sampler_for_operation
  try_sampling s is_local_root id operation now =
      let (s', chosen) = get_sampler_for_operation s operation now in
      if is_local_root
      then elim chosen [
        | none ↦
            let (sampled, tags) = probabilistic_is_sampled F s'.default_sampler id in
            (s', sampled, tags)
        | some g ↦
            let (g', sampled, tags) = guaranteed_is_sampled g id now in
            (record s' { samplers = insert operation g' s'.samplers }, sampled, tags)
      ]
      else (s', false, [])

  unfoldable pub on_create_span :
      PerOperationSampler F
      → Bool
      → TraceId
      → Bytes
      → ℕ
      → PerOperationSampler F × SamplingDecision F.Num
  on_create_span s is_local_root id operation now =
      let (s', sampled, tags) = try_sampling s is_local_root id operation now in
      (s', record { sample = sampled; retryable = s.operation_name_late_binding; tags = tags })

  unfoldable pub on_set_operation_name :
      PerOperationSampler F
      → Bool
      → TraceId
      → Bytes
      → ℕ
      → PerOperationSampler F × SamplingDecision F.Num
  on_set_operation_name s is_local_root id operation now =
      let (s', sampled, tags) = try_sampling s is_local_root id operation now in
      (s', record { sample = sampled; retryable = false; tags = tags })

  -- The loop of `update`: `old` are the samplers before it, `samplers` those that are kept. A
  -- sampler that is updated is a pointer that `old` shares, so a second strategy for its operation
  -- finds it updated.
  unfoldable pub update_samplers :
      F.Num
      → ℕ
      → List (OperationStrategy F.Num)
      → Map (GuaranteedSampler F)
      → Map (GuaranteedSampler F)
      → Map (GuaranteedSampler F)
  update_samplers lower_bound now [] old samplers = samplers
  update_samplers lower_bound now (strategy ∷ rest) old samplers =
      let op = strategy.operation in
      let rate = strategy.sampling_rate in
      let found = λ (g : GuaranteedSampler F). update_guaranteed g lower_bound rate now in
      update_samplers lower_bound now rest
        (elim (lookup op old) [ none ↦ old | some g ↦ insert op (found g) old ])
        (insert op
          (elim (lookup op old) [
            | none ↦ new_guaranteed_sampler lower_bound rate now
            | some g ↦ found g
          ])
          samplers)

  unfoldable pub update :
      PerOperationSampler F → PerOperationStrategies F.Num → ℕ → PerOperationSampler F
  unfolding update_samplers
  update s strategies now = record s {
    samplers =
        update_samplers strategies.default_lower_bound now strategies.per_operation s.samplers [];
    lower_bound = strategies.default_lower_bound;
    default_sampler =
        if not (F.beq s.default_sampler.sampling_rate strategies.default_sampling_probability)
        then init_probabilistic F strategies.default_sampling_probability
        else s.default_sampler;
  }
