-- ===== src/Config/Building/Overlay.antt =====
-- `ConfigOverrideBuilder` of scm/main/adapter/src/core/config/types/config_override.rs.
use edge_bootstrap.Prelude.{ℕ, String, Bool, some}
use edge_bootstrap.Config.Types.{Foreign}
use edge_bootstrap.Config.Override.{ConfigOverride}
use edge_bootstrap.Config.Override.Merge.{nothing}

pub record ConfigOverrideBuilder (x : Foreign) : Type 0 where
  pub inner : ConfigOverride x

module _ {x : Foreign} where
  unfoldable pub new : ConfigOverrideBuilder x
  new = record { inner = nothing }

  unfoldable pub service_name : String → ConfigOverrideBuilder x → ConfigOverrideBuilder x
  service_name v b = record { inner = record b.inner { service_name = some v } }

  unfoldable pub http_bind : String → ConfigOverrideBuilder x → ConfigOverrideBuilder x
  http_bind v b = record { inner = record b.inner { http_bind = some v } }

  unfoldable pub grpc_bind : String → ConfigOverrideBuilder x → ConfigOverrideBuilder x
  grpc_bind v b = record { inner = record b.inner { grpc_bind = some v } }

  unfoldable pub shutdown_timeout_secs : ℕ → ConfigOverrideBuilder x → ConfigOverrideBuilder x
  shutdown_timeout_secs v b = record { inner = record b.inner { shutdown_timeout_secs = some v } }

  unfoldable pub systemd_notify : Bool → ConfigOverrideBuilder x → ConfigOverrideBuilder x
  systemd_notify v b = record { inner = record b.inner { systemd_notify = some v } }

  unfoldable pub tenant_id : String → ConfigOverrideBuilder x → ConfigOverrideBuilder x
  tenant_id v b = record { inner = record b.inner { tenant_id = some v } }

  unfoldable pub grpc_allow_unauthenticated :
      Bool → ConfigOverrideBuilder x → ConfigOverrideBuilder x
  grpc_allow_unauthenticated v b = record {
    inner = record b.inner { grpc_allow_unauthenticated = some v };
  }

  unfoldable pub grpc_reflection : Bool → ConfigOverrideBuilder x → ConfigOverrideBuilder x
  grpc_reflection v b = record { inner = record b.inner { grpc_reflection = some v } }

  unfoldable pub build : ConfigOverrideBuilder x → ConfigOverride x
  build b = b.inner
