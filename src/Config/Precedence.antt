-- ===== src/Config/Precedence.antt =====
-- Which settings of a configuration stay when the environment is empty.
use jaeger_client_go.Base.{◌≡◌, refl, Bool, true, false, if◌then◌else◌, [], ◌++◌, codes, bytes_eq}
use jaeger_client_go.Base.Integers.{pos}
use jaeger_client_go.Config.{
  env_ok, SamplerConfig, ReporterConfig, Configuration, Environment, override, tags_from_env,
  sampling_server, sampler_config_from_env, agent_port, agent_from_env, reporter_config_from_env,
  from_env,
}

same_branches : {A : Type 0} (b : Bool) (x : A) → ◌≡◌ {A = A} (if b then x else x) x
same_branches true x = refl
same_branches false x = refl

module _ {Num : Type 0} (E : Environment Num) where
  -- the environment with no variable set
  abbrev pub unset_environment : Environment Num
  unset_environment = record E { getenv = λ name. [] }

  sampler_unset :
      (sc : SamplerConfig Num) → sampler_config_from_env unset_environment sc ≡ env_ok sc
  unfolding sampler_config_from_env sampling_server override bytes_eq
  sampler_unset sc = refl

  -- the reporter's configuration with the agent's default address if it has none
  abbrev pub with_agent : ReporterConfig → ReporterConfig
  with_agent rc =
      if bytes_eq rc.local_agent_host_port []
      then record rc {
        local_agent_host_port = codes "localhost" ++ (codes ":" ++ E.show_int (pos 6831));
      }
      else rc

  reporter_unset :
      (rc : ReporterConfig) → reporter_config_from_env unset_environment rc ≡ env_ok (with_agent rc)
  unfolding reporter_config_from_env agent_from_env agent_port override bytes_eq
  reporter_unset rc =
      same_branches (with_agent rc).disable_attempt_reconnecting (env_ok (with_agent rc))

  -- In an environment with none of the variables set, FromEnv succeeds and leaves every setting of
  -- a configuration as it is, but a reporter without an agent's address gets the default one.
  pub from_env_unset :
      (c : Configuration Num)
      → from_env unset_environment c ≡ env_ok (record c { reporter = with_agent c.reporter })
  unfolding from_env tags_from_env override bytes_eq
  from_env_unset c = rw (sampler_unset c.sampler, reporter_unset c.reporter) refl
