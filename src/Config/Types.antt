-- ===== src/Config/Types.antt =====
-- scm/main/port/runtime/src/types/runtime_config.rs and scm/main/port/config/src/error/config_error.rs.
use edge_bootstrap.Prelude.{ℕ, String, List, [], Bool, false, Option, none}
use edge_bootstrap.Monitor.Sampler.{AutoscalePolicy}

-- Settings of other crates, which the program only passes on, and the floats.
pub record Foreign : Type 1 where
  pub PemTlsConfig : Type 0
  pub JwtConfig : Type 0
  pub HttpConfig : Type 0
  pub GrpcChannelConfig : Type 0
  pub ObservabilityConfig : Type 0
  pub LoadbalancerConfig : Type 0
  pub IntrusionConfig : Type 0
  pub Float : Type 0

pub record MetricsConfig : Type 0 where
  pub bind : String
  pub path : String

-- The backend sections of the three observability crates, with the settings that the program reads.
pub data MetricsBackendKind : Type 0 where
  memory file prometheus otel sqlite : MetricsBackendKind

pub data TracerBackendKind : Type 0 where
  memory file jaeger otel sqlite : TracerBackendKind

pub data LogBackendKind : Type 0 where
  memory file elk otel sqlite : LogBackendKind

-- `file` is a path, `otel` a service name.
pub record MetricsBackendConfig : Type 0 where
  pub active : MetricsBackendKind
  pub file : Option String
  pub prometheus : Option (Unit {0})
  pub otel : Option String

-- `jaeger` is a service name and an endpoint.
pub record TracerBackendConfig : Type 0 where
  pub active : TracerBackendKind
  pub file : Option String
  pub jaeger : Option (String × String)
  pub otel : Option String

-- `file` is a path and a size in megabytes, `elk` an index.
pub record LogBackendConfig : Type 0 where
  pub active : LogBackendKind
  pub file : Option (String × ℕ)
  pub elk : Option String
  pub otel : Option String

pub record RuntimeConfig (x : Foreign) : Type 0 where
  pub service_name : String
  pub http_bind : String
  pub grpc_bind : String
  pub shutdown_timeout_secs : ℕ
  pub systemd_notify : Bool
  pub tenant_id : Option String
  pub http_tls : Option x.PemTlsConfig
  pub grpc_tls : Option x.PemTlsConfig
  pub http_auth : Option x.JwtConfig
  pub grpc_allow_unauthenticated : Bool
  pub egress_http : Option x.HttpConfig
  pub egress_grpc : Option x.GrpcChannelConfig
  pub services : List (String × x.LoadbalancerConfig)
  pub grpc_reflection : Bool
  pub metrics : Option MetricsConfig
  pub metrics_backend : Option MetricsBackendConfig
  pub tracer_backend : Option TracerBackendConfig
  pub log_backend : Option LogBackendConfig
  pub autoscale : Option (AutoscalePolicy x.Float)
  pub observability : Option x.ObservabilityConfig
  pub deploy_dir : Option String
  pub intrusion : Option x.IntrusionConfig

unfoldable pub default : {x : Foreign} → RuntimeConfig x
default = record {
  service_name = "swe-edge";
  http_bind = "0.0.0.0:8080";
  grpc_bind = "0.0.0.0:50051";
  shutdown_timeout_secs = 30;
  systemd_notify = false;
  tenant_id = none;
  http_tls = none;
  grpc_tls = none;
  http_auth = none;
  grpc_allow_unauthenticated = false;
  egress_http = none;
  egress_grpc = none;
  services = [];
  grpc_reflection = false;
  metrics = none;
  metrics_backend = none;
  tracer_backend = none;
  log_backend = none;
  autoscale = none;
  observability = none;
  deploy_dir = none;
  intrusion = none;
}

-- An i/o error and a parse error are given by what failed.
pub data ConfigError : Type 0 where
  parse io unknown_tenant invalid_tenant_id bad_env_var handler_build : String → ConfigError
