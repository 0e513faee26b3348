-- ===== src/Runtime/Manager/Building.antt =====
-- `DefaultRuntimeManagerBuilder` of scm/main/adapter/src/core/runtime/manager/default_runtime_manager.rs.
use edge_bootstrap.Prelude.{ℕ, Option, none, some}
use edge_bootstrap.Transport.{Display}
use edge_bootstrap.Adapters.{DefaultIngress, DefaultEgress}
use edge_bootstrap.Config.Types.{Foreign, RuntimeConfig}
use edge_bootstrap.Runtime.Lifecycle.{LifecycleMonitor}
use edge_bootstrap.Runtime.Manager.{Manager}

pub record DefaultRuntimeManagerBuilder (x : Foreign) (W : Type 0) : Type 0 where
  pub config : Option (RuntimeConfig x)
  pub ingress : Option (DefaultIngress W)
  pub egress : Option (DefaultEgress W)
  pub lifecycle : Option (LifecycleMonitor W)

module _ {x : Foreign} {W : Type 0} where
  unfoldable pub new : DefaultRuntimeManagerBuilder x W
  new = record { config = none; ingress = none; egress = none; lifecycle = none }

  unfoldable pub config :
      RuntimeConfig x → DefaultRuntimeManagerBuilder x W → DefaultRuntimeManagerBuilder x W
  config c b = record b { config = some c }

  unfoldable pub ingress :
      DefaultIngress W → DefaultRuntimeManagerBuilder x W → DefaultRuntimeManagerBuilder x W
  ingress i b = record b { ingress = some i }

  unfoldable pub egress :
      DefaultEgress W → DefaultRuntimeManagerBuilder x W → DefaultRuntimeManagerBuilder x W
  egress e b = record b { egress = some e }

  unfoldable pub lifecycle :
      LifecycleMonitor W → DefaultRuntimeManagerBuilder x W → DefaultRuntimeManagerBuilder x W
  lifecycle l b = record b { lifecycle = some l }

  -- `display` and `clock` are what the manager calls beside its parts. `none` if a part is missing:
  -- `build` panics.
  unfoldable pub build : Display → (W → ℕ) → DefaultRuntimeManagerBuilder x W → Option (Manager W)
  build display clock b = elim (b.config) [
    | none ↦ none
    | some c ↦ elim (b.ingress) [
      | none ↦ none
      | some i ↦ elim (b.egress) [
        | none ↦ none
        | some e ↦ elim (b.lifecycle) [
          | none ↦ none
          | some l ↦ some (record {
            systemd_notify = c.systemd_notify;
            ingress = i;
            egress = e;
            lifecycle = l;
            message_broker = none;
            display = display;
            clock = clock;
          })
        ]
      ]
    ]
  ]
