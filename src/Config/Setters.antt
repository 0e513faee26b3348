-- ===== src/Config/Setters.antt =====
-- The fluent setters of scm/main/port/runtime/src/types/runtime_config.rs.
use edge_bootstrap.Prelude.{ℕ, String, Bool, some}
use edge_bootstrap.Config.Types.{Foreign, RuntimeConfig}

module _ {x : Foreign} where
  unfoldable pub with_service_name : String → RuntimeConfig x → RuntimeConfig x
  with_service_name name c = record c { service_name = name }

  unfoldable pub with_http_bind : String → RuntimeConfig x → RuntimeConfig x
  with_http_bind addr c = record c { http_bind = addr }

  unfoldable pub with_grpc_bind : String → RuntimeConfig x → RuntimeConfig x
  with_grpc_bind addr c = record c { grpc_bind = addr }

  unfoldable pub with_shutdown_timeout : ℕ → RuntimeConfig x → RuntimeConfig x
  with_shutdown_timeout secs c = record c { shutdown_timeout_secs = secs }

  unfoldable pub with_systemd_notify : Bool → RuntimeConfig x → RuntimeConfig x
  with_systemd_notify enabled c = record c { systemd_notify = enabled }

  unfoldable pub with_tenant_id : String → RuntimeConfig x → RuntimeConfig x
  with_tenant_id id c = record c { tenant_id = some id }
