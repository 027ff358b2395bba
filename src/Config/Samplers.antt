-- ===== src/Config/Samplers.antt =====
-- config/config.go: the sampler that a configuration asks for.
use jaeger_client_go.Base.{
  ℕ, ◌&&◌, ◌||◌, not, if◌then◌else◌, [], Bytes, Option, none, some, codes, bytes_eq,
}
use jaeger_client_go.Base.Float.{Float}
use jaeger_client_go.Sampler.{
  ConstSampler, new_const_sampler, ProbabilisticSampler, new_probabilistic_sampler,
  RateLimitingSampler, new_rate_limiting_sampler,
}
use jaeger_client_go.Config.{SamplerConfig}

module _ (F : Float) where
  -- A sampler; a remotely controlled one has its initial sampler and the configuration of the rest.
  pub data NewSampler : Type 0 where
    const_sampler : ConstSampler F.Num → NewSampler
    probabilistic_sampler : ProbabilisticSampler F.Num → NewSampler
    rate_limiting_sampler : RateLimitingSampler F → NewSampler
    remote_sampler : ProbabilisticSampler F.Num → SamplerConfig F.Num → NewSampler

  -- the probabilistic sampler, also of the copy that a remote one is started with
  unfoldable pub probabilistic_of : SamplerConfig F.Num → Option (ProbabilisticSampler F.Num)
  probabilistic_of sc =
      if F.leb (F.of_nat 0) sc.param && F.leb sc.param (F.of_nat 1)
      then new_probabilistic_sampler F sc.param
      else none

  -- `NewSampler`; `none` is an error, and `to_lower` is `strings.ToLower`.
  unfoldable pub new_sampler : (Bytes → Bytes) → SamplerConfig F.Num → ℕ → Option NewSampler
  new_sampler to_lower sc now =
      let type = to_lower sc.type in
      if bytes_eq type (codes "const")
      then some (const_sampler (new_const_sampler (not (F.beq sc.param (F.of_nat 0)))))
      else if bytes_eq type (codes "probabilistic")
      then elim (probabilistic_of sc) [ none ↦ none | some s ↦ some (probabilistic_sampler s) ]
      else if bytes_eq type (codes "ratelimiting")
      then some (rate_limiting_sampler (new_rate_limiting_sampler F sc.param now))
      else if bytes_eq type (codes "remote") || bytes_eq sc.type []
      then elim (probabilistic_of sc) [ none ↦ none | some s ↦ some (remote_sampler s sc) ]
      else none
