-- ===== src/Config.antt =====
-- config/config_env.go, and the choice of a sampler in config/config.go: a configuration from the
-- environment.
pub mod Pairs
pub mod Tags
pub mod Precedence
pub mod Samplers
use jaeger_client_go.Base.{
  ℕ, zero, suc, ◌-◌, ◌==◌, ◌&&◌, ◌||◌, not, Bool, true, false, if◌then◌else◌, List, [], ◌∷◌, ◌++◌,
  Option, none, some, Bytes, codes, bytes_eq, length, take, drop,
}
use jaeger_client_go.Config.Pairs.{parse_tags}
use jaeger_client_go.Base.Integers.{ℤ, pos}

-- A value, an error that names a variable, or a panic.
pub data EnvResult (A : Type 0) : Type 0 where
  env_ok : A → EnvResult A
  env_err : Bytes → EnvResult A
  env_panic : EnvResult A

infixl 5 ◌>>=◌
abbrev pub ◌>>=◌ : {A B : Type 0} → EnvResult A → (A → EnvResult B) → EnvResult B
env_ok a >>= f = f a
env_err e >>= f = env_err e
env_panic >>= f = env_panic

pub record SamplerConfig (Num : Type 0) : Type 0 where
  pub type : Bytes
  pub param : Num
  pub sampling_server_url : Bytes
  pub sampling_refresh_interval : ℤ
  pub max_operations : ℤ

pub record ReporterConfig : Type 0 where
  pub queue_size : ℤ
  pub buffer_flush_interval : ℤ
  pub log_spans : Bool
  pub local_agent_host_port : Bytes
  pub disable_attempt_reconnecting : Bool
  pub attempt_reconnect_interval : ℤ
  pub collector_endpoint : Bytes
  pub user : Bytes
  pub password : Bytes

-- the fields that the environment sets
pub record Configuration (Num : Type 0) : Type 0 where
  pub service_name : Bytes
  pub disabled : Bool
  pub rpc_metrics : Bool
  pub gen128_bit : Bool
  pub tags : List (Bytes × Bytes)
  pub sampler : SamplerConfig Num
  pub reporter : ReporterConfig

-- `os.Getenv`, and the parsers and printers of the library. `show_endpoint` is what
-- `url.ParseRequestURI` makes of a URL, as text again.
pub record Environment (Num : Type 0) : Type 0 where
  pub getenv : Bytes → Bytes
  pub parse_bool : Bytes → Option Bool
  pub parse_float : Bytes → Option Num
  pub parse_int : Bytes → Option ℤ
  pub parse_duration : Bytes → Option ℤ
  pub show_endpoint : Bytes → Option Bytes
  pub show_int : ℤ → Bytes

module _ {Num : Type 0} (E : Environment Num) where
  -- A variable that is set is parsed, and its value stored; a failure is an error.
  unfoldable pub override :
      {A C : Type 0} → Bytes → (Bytes → Option A) → (A → C → C) → C → EnvResult C
  override name parse store c =
      let e = E.getenv name in
      if bytes_eq e []
      then env_ok c
      else elim (parse e) [ none ↦ env_err name | some value ↦ env_ok (store value c) ]

  -- the first variable that is set of those that give the sampling server
  unfoldable pub sampling_server : Bytes → Bytes
  sampling_server url =
      let endpoint = E.getenv (codes "JAEGER_SAMPLING_ENDPOINT") in
      let manager = E.getenv (codes "JAEGER_SAMPLER_MANAGER_HOST_PORT") in
      let agent = E.getenv (codes "JAEGER_AGENT_HOST") in
      if not (bytes_eq endpoint [])
      then endpoint
      else if not (bytes_eq manager [])
      then manager
      else if not (bytes_eq agent [])
      then codes "http://" ++ (agent ++ codes ":5778/sampling")
      else url

  unfoldable pub sampler_config_from_env : SamplerConfig Num → EnvResult (SamplerConfig Num)
  sampler_config_from_env sc = do
    sc1 ←
        override (codes "JAEGER_SAMPLER_TYPE") (λ e. some e)
          (λ (v : Bytes) (c : SamplerConfig Num). record c { type = v }) sc
    sc2 ←
        override (codes "JAEGER_SAMPLER_PARAM") E.parse_float
          (λ (v : Num) (c : SamplerConfig Num). record c { param = v }) sc1
    sc3 ←
        override (codes "JAEGER_SAMPLER_MAX_OPERATIONS") E.parse_int
          (λ (v : ℤ) (c : SamplerConfig Num). record c { max_operations = v })
          (record sc2 { sampling_server_url = sampling_server sc2.sampling_server_url })
    override (codes "JAEGER_SAMPLER_REFRESH_INTERVAL") E.parse_duration
        (λ (v : ℤ) (c : SamplerConfig Num). record c { sampling_refresh_interval = v }) sc3

  -- the collector's endpoint, when it is set
  unfoldable pub endpoint_from_env : Bytes → ReporterConfig → EnvResult ReporterConfig
  endpoint_from_env e rc =
      let user = E.getenv (codes "JAEGER_USER") in
      let pswd = E.getenv (codes "JAEGER_PASSWORD") in
      elim (E.show_endpoint e) [
        | none ↦ env_err (codes "JAEGER_ENDPOINT")
        | some u ↦
            if (not (bytes_eq user []) && bytes_eq pswd [])
              || (bytes_eq user [] && not (bytes_eq pswd []))
            then env_err (codes "JAEGER_USER")
            else env_ok (record rc { collector_endpoint = u; user = user; password = pswd })
      ]

  -- The port of the agent, and whether it was set.
  unfoldable pub agent_port : EnvResult (ℤ × Bool)
  agent_port =
      let e = E.getenv (codes "JAEGER_AGENT_PORT") in
      if bytes_eq e [] then env_ok (pos 6831, false) else elim (E.parse_int e) [
        | none ↦ env_err (codes "JAEGER_AGENT_PORT")
        | some value ↦ env_ok (value, true)
      ]

  unfoldable pub agent_from_env : ReporterConfig → EnvResult ReporterConfig
  agent_from_env rc =
      let e = E.getenv (codes "JAEGER_AGENT_HOST") in
      let host = if bytes_eq e [] then codes "localhost" else e in
      agent_port >>= λ port.
      let rc1 : ReporterConfig =
        if not (bytes_eq e []) || (port.1 || bytes_eq rc.local_agent_host_port [])
        then record rc { local_agent_host_port = host ++ (codes ":" ++ E.show_int (port.0)) }
        else rc in
      override (codes "JAEGER_REPORTER_ATTEMPT_RECONNECTING_DISABLED") E.parse_bool
        (λ (v : Bool) (c : ReporterConfig). record c { disable_attempt_reconnecting = v }) rc1
      >>= λ rc2.
          (if rc2.disable_attempt_reconnecting
            then env_ok rc2
            else override (codes "JAEGER_REPORTER_ATTEMPT_RECONNECT_INTERVAL") E.parse_duration
                (λ (v : ℤ) (c : ReporterConfig). record c { attempt_reconnect_interval = v }) rc2)

  unfoldable pub reporter_config_from_env : ReporterConfig → EnvResult ReporterConfig
  reporter_config_from_env rc = do
    rc1 ←
        override (codes "JAEGER_REPORTER_MAX_QUEUE_SIZE") E.parse_int
          (λ (v : ℤ) (c : ReporterConfig). record c { queue_size = v }) rc
    rc2 ←
        override (codes "JAEGER_REPORTER_FLUSH_INTERVAL") E.parse_duration
          (λ (v : ℤ) (c : ReporterConfig). record c { buffer_flush_interval = v }) rc1
    rc3 ←
        override (codes "JAEGER_REPORTER_LOG_SPANS") E.parse_bool
          (λ (v : Bool) (c : ReporterConfig). record c { log_spans = v }) rc2
    let e = E.getenv (codes "JAEGER_ENDPOINT")
    if bytes_eq e [] then agent_from_env rc3 else endpoint_from_env e rc3

  unfoldable pub tags_from_env : Configuration Num → EnvResult (Configuration Num)
  tags_from_env c =
      let e = E.getenv (codes "JAEGER_TAGS") in
      if bytes_eq e [] then env_ok c else elim (parse_tags E.getenv e) [
        | none ↦ env_panic
        | some tags ↦ env_ok (record c { tags = tags })
      ]

  -- `FromEnv`; a missing sampler or reporter configuration is the empty one here.
  unfoldable pub from_env : Configuration Num → EnvResult (Configuration Num)
  from_env c = do
    c1 ←
        override (codes "JAEGER_SERVICE_NAME") (λ e. some e)
          (λ (v : Bytes) (c : Configuration Num). record c { service_name = v }) c
    c2 ←
        override (codes "JAEGER_RPC_METRICS") E.parse_bool
          (λ (v : Bool) (c : Configuration Num). record c { rpc_metrics = v }) c1
    c3 ←
        override (codes "JAEGER_DISABLED") E.parse_bool
          (λ (v : Bool) (c : Configuration Num). record c { disabled = v }) c2
    c4 ← tags_from_env c3
    c5 ←
        override (codes "JAEGER_TRACEID_128BIT") E.parse_bool
          (λ (v : Bool) (c : Configuration Num). record c { gen128_bit = v }) c4
    s ← sampler_config_from_env c5.sampler
    r ← reporter_config_from_env c5.reporter
    env_ok (record c5 { sampler = s; reporter = r })
