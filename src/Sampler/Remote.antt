-- ===== src/Sampler/Remote.antt =====
-- sampler_remote.go: the sampler that polls a server for its strategy. A poll holds the lock, so it
-- is one step; decisions are those of the active sampler.
pub mod Poll
use jaeger_client_go.Base.{
  ℕ, ◌+◌, Bool, true, false, if◌then◌else◌, List, [], ◌∷◌, Option, none, some,
}
use jaeger_client_go.Base.Float.{Float}
use jaeger_client_go.Sampler.{
  ProbabilisticSampler, RateLimitingSampler, init_probabilistic, update_probabilistic,
  new_rate_limiting_sampler, update_rate_limiting,
}
use jaeger_client_go.Sampler.Operations.{
  PerOperationStrategies, PerOperationSampler, new_per_operation_sampler,
  update as update_operations,
}

module _ (F : Float) where
  -- The samplers that the updaters tell apart; `other` is any other one.
  pub data ActiveSampler : Type 0 where
    probabilistic : ProbabilisticSampler F.Num → ActiveSampler
    rate_limiting : RateLimitingSampler F → ActiveSampler
    per_operation : PerOperationSampler F → ActiveSampler
    other : ℕ → ActiveSampler

  -- A parsed response; a rate limit is given as the float64 it is converted to.
  pub record SamplingStrategy : Type 0 where
    pub probabilistic_sampling : Option F.Num
    pub rate_limiting_sampling : Option F.Num
    pub operation_sampling : Option (PerOperationStrategies F.Num)

  -- The updaters of the library, the first with its parameters.
  pub data SamplerUpdater : Type 0 where
    adaptive_updater : ℕ → Bool → SamplerUpdater
    probabilistic_updater : SamplerUpdater
    rate_limiting_updater : SamplerUpdater

  -- What an updater returns: no sampler, an error, or a sampler.
  pub data Updated : Type 0 where
    not_mine : Updated
    failed : Updated
    updated : ActiveSampler → Updated

  unfoldable pub update_to_probabilistic : ActiveSampler → F.Num → Updated
  update_to_probabilistic (probabilistic ps) rate =
      let r = update_probabilistic F ps rate in
      if r.1 then updated (probabilistic (r.0)) else failed
  update_to_probabilistic (rate_limiting s) rate =
      updated (probabilistic (init_probabilistic F rate))
  update_to_probabilistic (per_operation s) rate =
      updated (probabilistic (init_probabilistic F rate))
  update_to_probabilistic (other n) rate = updated (probabilistic (init_probabilistic F rate))

  unfoldable pub update_to_rate_limiting : ActiveSampler → F.Num → ℕ → Updated
  update_to_rate_limiting (rate_limiting rl) rate_limit now =
      updated (rate_limiting (update_rate_limiting F rl rate_limit now))
  update_to_rate_limiting (probabilistic s) rate_limit now =
      updated (rate_limiting (new_rate_limiting_sampler F rate_limit now))
  update_to_rate_limiting (per_operation s) rate_limit now =
      updated (rate_limiting (new_rate_limiting_sampler F rate_limit now))
  update_to_rate_limiting (other n) rate_limit now =
      updated (rate_limiting (new_rate_limiting_sampler F rate_limit now))

  unfoldable pub update_to_per_operation :
      ℕ → Bool → ActiveSampler → PerOperationStrategies F.Num → ℕ → Updated
  update_to_per_operation max_operations late_binding (per_operation s) strategies now =
      updated (per_operation (update_operations F s strategies now))
  update_to_per_operation max_operations late_binding (probabilistic s) strategies now =
      updated
        (per_operation (new_per_operation_sampler F max_operations late_binding strategies now))
  update_to_per_operation max_operations late_binding (rate_limiting s) strategies now =
      updated
        (per_operation (new_per_operation_sampler F max_operations late_binding strategies now))
  update_to_per_operation max_operations late_binding (other n) strategies now =
      updated
        (per_operation (new_per_operation_sampler F max_operations late_binding strategies now))

  -- `Update` of each updater
  unfoldable pub run_updater : SamplerUpdater → ActiveSampler → SamplingStrategy → ℕ → Updated
  run_updater (adaptive_updater max_operations late_binding) sampler strategy now =
      elim strategy.operation_sampling [
        | none ↦ not_mine
        | some operations ↦
            update_to_per_operation max_operations late_binding sampler operations now
      ]
  run_updater probabilistic_updater sampler strategy now = elim strategy.probabilistic_sampling [
    | none ↦ not_mine
    | some rate ↦ update_to_probabilistic sampler rate
  ]
  run_updater rate_limiting_updater sampler strategy now = elim strategy.rate_limiting_sampling [
    | none ↦ not_mine
    | some rate_limit ↦ update_to_rate_limiting sampler rate_limit now
  ]

  -- `updateSamplerViaUpdaters`: the new sampler; `none` is an error.
  unfoldable pub update_sampler_via_updaters :
      List SamplerUpdater → ActiveSampler → SamplingStrategy → ℕ → Option ActiveSampler
  update_sampler_via_updaters [] sampler strategy now = none
  update_sampler_via_updaters (u ∷ updaters) sampler strategy now =
      let rest = update_sampler_via_updaters updaters sampler strategy now in
      elim (run_updater u sampler strategy now) [
        | not_mine ↦ rest
        | failed ↦ none
        | updated s ↦ some s
      ]

  -- the updaters by default
  abbrev pub default_updaters : ℕ → Bool → List SamplerUpdater
  default_updaters max_operations late_binding =
      adaptive_updater max_operations late_binding
      ∷ probabilistic_updater
      ∷ rate_limiting_updater
      ∷ []

  pub record RemotelyControlledSampler : Type 0 where
    pub sampler : ActiveSampler
    pub updaters : List SamplerUpdater
    pub query_failures : ℕ
    pub update_failures : ℕ
    pub retrieved : ℕ
    pub updates : ℕ

  -- What fetching and parsing give, which are interfaces.
  pub data Response : Type 0 where
    fetch_failed parse_failed : Response
    parsed : SamplingStrategy → Response

  unfoldable pub update_sampler :
      RemotelyControlledSampler → Response → ℕ → RemotelyControlledSampler
  update_sampler s fetch_failed now = record s { query_failures = s.query_failures + 1 }
  update_sampler s parse_failed now = record s { update_failures = s.update_failures + 1 }
  update_sampler s (parsed strategy) now =
      elim (update_sampler_via_updaters s.updaters s.sampler strategy now) [
        | none ↦ record s { retrieved = s.retrieved + 1; update_failures = s.update_failures + 1 }
        | some sampler ↦ record s {
          retrieved = s.retrieved + 1;
          sampler = sampler;
          updates = s.updates + 1;
        }
      ]

  -- the polls of the ticker
  unfoldable pub poll_all :
      RemotelyControlledSampler → List (Response × ℕ) → RemotelyControlledSampler
  poll_all s [] = s
  poll_all s ((r, now) ∷ rest) = poll_all (update_sampler s r now) rest
