-- ===== src/Facade.antt =====
-- scm/main/adapter/src/saf/bootstrap_svc.rs: the entry functions, other than `run` (Serve/Plain).
pub mod Entries
use edge_bootstrap.Prelude.{ℕ, String, List, Option, none, some, Result, Call}
use edge_bootstrap.Config.Types.{Foreign, RuntimeConfig, ConfigError}
use edge_bootstrap.Config.Host.{Host, FilePath, Value}
use edge_bootstrap.Config.Loader
use edge_bootstrap.Config.Section
use edge_bootstrap.Config.Validator.{validate}
use edge_bootstrap.Transport.{HttpIngress, GrpcIngress, HttpEgress, GrpcEgress}
use edge_bootstrap.Adapters
use edge_bootstrap.Adapters.{DefaultIngress, DefaultEgress, empty, with_grpc, with_grpc_egress}
use edge_bootstrap.Monitor.Floats.{Floats}
use edge_bootstrap.Monitor.Provider.{MetricsProvider}
use edge_bootstrap.Runtime.Status.{RuntimeError, RuntimeHealth}
use edge_bootstrap.Runtime.Manager.{Manager, State}
use edge_bootstrap.Runtime.HealthHandler.{default_health_handler}
use edge_bootstrap.Runtime.Lifecycle.{LifecycleMonitor, metrics_lifecycle_monitor}

module _ {x : Foreign} (h : Host x) where
  unfoldable pub load_config : Result ConfigError (RuntimeConfig x)
  load_config = Loader.load h (Loader.new h)

  unfoldable pub load_config_from : FilePath → Result ConfigError (RuntimeConfig x)
  load_config_from dir = Loader.load h (Loader.with_dir h dir)

  unfoldable pub load_tenant_config : String → Result ConfigError (RuntimeConfig x)
  load_tenant_config id = Loader.load_for_tenant h (Loader.new h) id

  unfoldable pub load_tenant_config_from : String → FilePath → Result ConfigError (RuntimeConfig x)
  load_tenant_config_from id dir = Loader.load_for_tenant h (Loader.with_dir h dir) id

  unfoldable pub load_config_xdg : String → Result ConfigError (RuntimeConfig x)
  load_config_xdg app_name = Loader.load h (Loader.xdg h app_name)

  unfoldable pub load_tenant_config_xdg : String → String → Result ConfigError (RuntimeConfig x)
  load_tenant_config_xdg app_name id = Loader.load_for_tenant h (Loader.xdg h app_name) id

  module _ {T : Type 0} (convert : Value → Result String T) (fallback : T) where
    unfoldable pub load_section : String → Result ConfigError T
    load_section key = Section.load_section h key convert fallback (Loader.new h)

    unfoldable pub load_section_from : String → FilePath → Result ConfigError T
    load_section_from key dir = Section.load_section h key convert fallback (Loader.with_dir h dir)

    unfoldable pub load_section_xdg : String → String → Result ConfigError T
    load_section_xdg app_name key =
        Section.load_section h key convert fallback (Loader.xdg h app_name)

unfoldable pub validate_config : {x : Foreign} → RuntimeConfig x → Result RuntimeError (Unit {0})
validate_config config = validate config

-- `ServerMonitor::observe`
unfoldable pub observe :
    {F W : Type 0} → Floats F → LifecycleMonitor W → MetricsProvider F W → LifecycleMonitor W
observe fl inner provider = metrics_lifecycle_monitor fl provider inner

abbrev pub health_path : String
health_path = "/health"

-- `ServerMonitor::health_handler`, with serde_json as `to_json`
unfoldable pub health_handler :
    {W : Type 0} → Manager W → (RuntimeHealth → Result String (List ℕ)) → HttpIngress (State W)
health_handler m to_json = default_health_handler m to_json health_path

module _ {W : Type 0} where
  unfoldable pub http_egress : HttpEgress W → DefaultEgress W
  http_egress http = Adapters.new_http http

  unfoldable pub http_grpc_egress : HttpEgress W → GrpcEgress W → DefaultEgress W
  http_grpc_egress http grpc = with_grpc_egress grpc (Adapters.new_http http)

  unfoldable pub empty_ingress : DefaultIngress W
  empty_ingress = empty

  unfoldable pub http_ingress : HttpIngress W → DefaultIngress W
  http_ingress http = Adapters.new_http_ingress http

  unfoldable pub grpc_ingress : GrpcIngress W → DefaultIngress W
  grpc_ingress grpc = Adapters.new_grpc_ingress grpc

  unfoldable pub http_grpc_ingress : HttpIngress W → GrpcIngress W → DefaultIngress W
  http_grpc_ingress http grpc = with_grpc grpc (Adapters.new_http_ingress http)
