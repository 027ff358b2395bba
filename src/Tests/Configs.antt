-- ===== src/Tests/Configs.antt =====
-- Configurations from the environment.
use jaeger_client_go.Base.{
  ℕ, ◌≡◌, refl, false, if◌then◌else◌, [], none, some, codes, bytes_eq, get_elem?, arith,
}
use jaeger_client_go.Base.Integers.{pos}
use jaeger_client_go.SpanContext.Hex.{split, split_from}
use jaeger_client_go.Config.{env_panic, Configuration, Environment, from_env}
use jaeger_client_go.Config.Tags.{from_env_panics}

-- JAEGER_TAGS has a first part without an equals sign
abbrev environment : Environment ℕ
environment = record {
  getenv = λ name. if bytes_eq name (codes "JAEGER_TAGS") then codes "debug,team=a" else [];
  parse_bool = λ s. none;
  parse_float = λ s. none;
  parse_int = λ s. none;
  parse_duration = λ s. none;
  show_endpoint = λ s. none;
  show_int = λ n. [];
}

abbrev configuration : Configuration ℕ
configuration = record {
  service_name = codes "shop";
  disabled = false;
  rpc_metrics = false;
  gen128_bit = false;
  tags = [];
  sampler = record {
    type = codes "const";
    param = 1;
    sampling_server_url = [];
    sampling_refresh_interval = pos 0;
    max_operations = pos 0;
  };
  reporter = record {
    queue_size = pos 0;
    buffer_flush_interval = pos 0;
    log_spans = false;
    local_agent_host_port = [];
    disable_attempt_reconnecting = false;
    attempt_reconnect_interval = pos 0;
    collector_endpoint = [];
    user = [];
    password = [];
  };
}

tags_are_set : bytes_eq (environment.getenv (codes "JAEGER_TAGS")) [] ≡ false
unfolding bytes_eq
tags_are_set = refl

others_are_not :
    (environment.getenv (codes "JAEGER_SERVICE_NAME") ≡ [])
    × (environment.getenv (codes "JAEGER_RPC_METRICS") ≡ [])
    × (environment.getenv (codes "JAEGER_DISABLED") ≡ [])
unfolding bytes_eq
others_are_not = (refl, refl, refl)

first_part :
    get_elem? (split (environment.getenv (codes "JAEGER_TAGS")) b',') 0 ≡ some (codes "debug")
unfolding split split_from bytes_eq
first_part = refl

from_env_panics_example : from_env environment configuration ≡ env_panic
from_env_panics_example =
    from_env_panics environment configuration 0 (codes "debug") (others_are_not.0)
      (others_are_not.1) (others_are_not.2) tags_are_set first_part (omega arith)
