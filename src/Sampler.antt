-- ===== src/Sampler.antt =====
-- sampler.go and sampler_v2.go: the types, and the samplers that decide without looking at the
-- operation. A sampler that changes is returned with its decision.
pub mod Boundary
pub mod Operations
pub mod Remote
use jaeger_client_go.Base.{
  ℕ, ◌-◌, ◌%◌, ◌^◌, leb, ◌||◌, not, Bool, true, false, if◌then◌else◌, List, [], ◌∷◌, Option, none,
  some, Bytes, codes,
}
use jaeger_client_go.Base.Float.{Float}
use jaeger_client_go.RateLimiter
use jaeger_client_go.RateLimiter.{ReconfigurableRateLimiter}
use jaeger_client_go.SpanContext.{TraceId}

-- The values of tags that the program makes or tests; `other` stands for any other Go value.
pub data Value (Num : Type 0) : Type 0 where
  bool : Bool → Value Num
  float64 : Num → Value Num
  string : Bytes → Value Num
  span_kind : Bytes → Value Num
  uint16 : ℕ → Value Num
  other : ℕ → Value Num

pub record Tag (Num : Type 0) : Type 0 where
  pub key : Bytes
  pub value : Value Num

pub record SamplingDecision (Num : Type 0) : Type 0 where
  pub sample : Bool
  pub retryable : Bool
  pub tags : List (Tag Num)

abbrev pub sampler_tags : {Num : Type 0} → Bytes → Value Num → List (Tag Num)
sampler_tags type param =
    record { key = codes "sampler.type"; value = string type }
    ∷ record { key = codes "sampler.param"; value = param }
    ∷ []

-- legacySamplerV1Base: the decisions of a sampler that implements only `IsSampled`
abbrev pub legacy_decision : {Num : Type 0} → Bool → List (Tag Num) → SamplingDecision Num
legacy_decision is_sampled tags = record { sample = is_sampled; retryable = false; tags = tags }

abbrev pub undecided : {Num : Type 0} → SamplingDecision Num
undecided = record { sample = false; retryable = true; tags = [] }

pub record ConstSampler (Num : Type 0) : Type 0 where
  pub decision : Bool
  pub tags : List (Tag Num)

unfoldable pub new_const_sampler : {Num : Type 0} → Bool → ConstSampler Num
new_const_sampler sample = record {
  decision = sample;
  tags = sampler_tags (codes "const") (bool sample);
}

unfoldable pub const_is_sampled : {Num : Type 0} → ConstSampler Num → Bool × List (Tag Num)
const_is_sampled s = (s.decision, s.tags)

pub record ProbabilisticSampler (Num : Type 0) : Type 0 where
  pub sampling_rate : Num
  pub sampling_boundary : ℕ
  pub tags : List (Tag Num)

pub record RateLimitingSampler (F : Float) : Type 0 where
  pub max_traces_per_second : F.Num
  pub rate_limiter : ReconfigurableRateLimiter F
  pub tags : List (Tag F.Num)

abbrev pub max_random_number : ℕ
max_random_number = 2 ^ 63 - 1

module _ (F : Float) where
  -- math.Max(0.0, math.Min(samplingRate, 1.0))
  abbrev pub clamp : F.Num → F.Num
  clamp rate = F.max (F.of_nat 0) (F.min rate (F.of_nat 1))

  -- `init`, which sets every field
  unfoldable pub init_probabilistic : F.Num → ProbabilisticSampler F.Num
  init_probabilistic rate = record {
    sampling_rate = clamp rate;
    sampling_boundary = F.floor (F.mul (F.of_nat max_random_number) (clamp rate));
    tags = sampler_tags (codes "probabilistic") (float64 (clamp rate));
  }

  abbrev pub out_of_range : F.Num → Bool
  out_of_range rate = F.ltb rate (F.of_nat 0) || F.ltb (F.of_nat 1) rate

  -- `none` is the error
  unfoldable pub new_probabilistic_sampler : F.Num → Option (ProbabilisticSampler F.Num)
  new_probabilistic_sampler rate =
      if out_of_range rate then none else some (init_probabilistic rate)

  -- The mask 2^63 - 1 keeps the remainder by 2^63.
  unfoldable pub probabilistic_is_sampled :
      ProbabilisticSampler F.Num → TraceId → Bool × List (Tag F.Num)
  probabilistic_is_sampled s id = (leb (id.low % 2 ^ 63) s.sampling_boundary, s.tags)

  -- The sampler after `Update`, and whether the rate was accepted.
  unfoldable pub update_probabilistic :
      ProbabilisticSampler F.Num → F.Num → ProbabilisticSampler F.Num × Bool
  update_probabilistic s rate =
      if out_of_range rate then (s, false) else (init_probabilistic rate, true)

  abbrev pub max_balance_of : F.Num → F.Num
  max_balance_of rate = F.max rate (F.of_nat 1)

  -- `init`: the limiter is made, or kept with new parameters.
  unfoldable pub init_rate_limiting :
      Option (ReconfigurableRateLimiter F) → F.Num → ℕ → RateLimitingSampler F
  init_rate_limiting limiter rate now = record {
    max_traces_per_second = rate;
    rate_limiter = elim limiter [
      | none ↦ RateLimiter.new_rate_limiter F rate (max_balance_of rate) now
      | some rl ↦ RateLimiter.update F rl rate (max_balance_of rate) now
    ];
    tags = sampler_tags (codes "ratelimiting") (float64 rate);
  }

  unfoldable pub new_rate_limiting_sampler : F.Num → ℕ → RateLimitingSampler F
  unfolding init_rate_limiting
  new_rate_limiting_sampler = init_rate_limiting none

  unfoldable pub rate_limiting_is_sampled :
      RateLimitingSampler F → ℕ → RateLimitingSampler F × Bool × List (Tag F.Num)
  rate_limiting_is_sampled s now =
      let (rl, sampled) = RateLimiter.check_credit F s.rate_limiter (F.of_nat 1) now in
      (record s { rate_limiter = rl }, sampled, s.tags)

  unfoldable pub update_rate_limiting : RateLimitingSampler F → F.Num → ℕ → RateLimitingSampler F
  unfolding init_rate_limiting
  update_rate_limiting s rate now =
      if not (F.beq s.max_traces_per_second rate)
      then init_rate_limiting (some s.rate_limiter) rate now
      else s
