-- ===== src/Config/Building/Full.antt =====
-- `RuntimeConfigBuilder` of scm/main/port/runtime/src/types/runtime_config.rs.
use edge_bootstrap.Prelude.{ℕ, String, Bool}
use edge_bootstrap.Config.Types.{Foreign, RuntimeConfig, default}
use edge_bootstrap.Config.Setters.{
  with_service_name, with_http_bind, with_grpc_bind, with_shutdown_timeout, with_systemd_notify,
  with_tenant_id,
}

pub record RuntimeConfigBuilder (x : Foreign) : Type 0 where
  pub inner : RuntimeConfig x

module _ {x : Foreign} where
  unfoldable pub new : RuntimeConfigBuilder x
  new = record { inner = default }

  unfoldable pub service_name : String → RuntimeConfigBuilder x → RuntimeConfigBuilder x
  unfolding with_service_name
  service_name v b = record { inner = with_service_name v b.inner }

  unfoldable pub http_bind : String → RuntimeConfigBuilder x → RuntimeConfigBuilder x
  unfolding with_http_bind
  http_bind v b = record { inner = with_http_bind v b.inner }

  unfoldable pub grpc_bind : String → RuntimeConfigBuilder x → RuntimeConfigBuilder x
  unfolding with_grpc_bind
  grpc_bind v b = record { inner = with_grpc_bind v b.inner }

  unfoldable pub shutdown_timeout_secs : ℕ → RuntimeConfigBuilder x → RuntimeConfigBuilder x
  unfolding with_shutdown_timeout
  shutdown_timeout_secs v b = record { inner = with_shutdown_timeout v b.inner }

  unfoldable pub systemd_notify : Bool → RuntimeConfigBuilder x → RuntimeConfigBuilder x
  unfolding with_systemd_notify
  systemd_notify v b = record { inner = with_systemd_notify v b.inner }

  unfoldable pub tenant_id : String → RuntimeConfigBuilder x → RuntimeConfigBuilder x
  unfolding with_tenant_id
  tenant_id v b = record { inner = with_tenant_id v b.inner }

  unfoldable pub build : RuntimeConfigBuilder x → RuntimeConfig x
  build b = b.inner
