-- ===== src/Config/Override.antt =====
-- scm/main/adapter/src/core/config/types/config_override.rs: a partial overlay and its application.
pub mod Merge
use edge_bootstrap.Prelude.{
  ℕ, String, Bool, Option, none, some, or_else, unwrap_or, is_empty_text, if◌then◌else◌,
}
use edge_bootstrap.Monitor.Sampler.{AutoscalePolicy}
use edge_bootstrap.Config.Types.{Foreign, MetricsConfig, RuntimeConfig}

pub record ConfigOverride (x : Foreign) : Type 0 where
  pub service_name : Option String
  pub http_bind : Option String
  pub grpc_bind : Option String
  pub shutdown_timeout_secs : Option ℕ
  pub systemd_notify : Option Bool
  pub tenant_id : Option String
  pub http_tls : Option x.PemTlsConfig
  pub grpc_tls : Option x.PemTlsConfig
  pub http_auth : Option x.JwtConfig
  pub grpc_allow_unauthenticated : Option Bool
  pub egress_http : Option x.HttpConfig
  pub egress_grpc : Option x.GrpcChannelConfig
  pub grpc_reflection : Option Bool
  pub metrics : Option MetricsConfig
  pub autoscale : Option (AutoscalePolicy x.Float)
  pub observability : Option x.ObservabilityConfig

-- An empty tenant id in a file sets nothing.
abbrev pub non_empty : Option String → Option String
non_empty none = none
non_empty (some v) = if is_empty_text v then none else some v

-- Each `if let Some(v) = self.f { base.f = v }` of the source is one field; `services`, the backends,
-- `deploy_dir` and `intrusion` have none.
unfoldable pub apply_to : {x : Foreign} → ConfigOverride x → RuntimeConfig x → RuntimeConfig x
apply_to o base = record base {
  service_name = unwrap_or o.service_name base.service_name;
  http_bind = unwrap_or o.http_bind base.http_bind;
  grpc_bind = unwrap_or o.grpc_bind base.grpc_bind;
  shutdown_timeout_secs = unwrap_or o.shutdown_timeout_secs base.shutdown_timeout_secs;
  systemd_notify = unwrap_or o.systemd_notify base.systemd_notify;
  tenant_id = or_else (non_empty o.tenant_id) base.tenant_id;
  http_tls = or_else o.http_tls base.http_tls;
  grpc_tls = or_else o.grpc_tls base.grpc_tls;
  http_auth = or_else o.http_auth base.http_auth;
  grpc_allow_unauthenticated =
      unwrap_or o.grpc_allow_unauthenticated base.grpc_allow_unauthenticated;
  egress_http = or_else o.egress_http base.egress_http;
  egress_grpc = or_else o.egress_grpc base.egress_grpc;
  grpc_reflection = unwrap_or o.grpc_reflection base.grpc_reflection;
  metrics = or_else o.metrics base.metrics;
  autoscale = or_else o.autoscale base.autoscale;
  observability = or_else o.observability base.observability;
}
