-- ===== src/Builder.antt =====
-- scm/main/adapter/src/core/runtime/types/runtime_builder.rs and runtime.rs: what a builder has collected.
pub mod Setters
pub mod Routes
pub mod Registry
use edge_bootstrap.Prelude.{String, Bool, false, Option, none, Call}
use edge_bootstrap.Config.Types.{Foreign, RuntimeConfig}
use edge_bootstrap.Transport.{HttpIngress, GrpcIngress, HttpEgress, GrpcEgress}
use edge_bootstrap.Dispatch.HttpJob.{HttpJob}
use edge_bootstrap.Dispatch.GrpcJob.{GrpcJob}
use edge_bootstrap.Guard.{Wired}
use edge_bootstrap.Monitor.Provider.{MetricsProvider}
use edge_bootstrap.Observability.{TracerProvider, LoggerProvider, ObserverContext}
use edge_bootstrap.Runtime.Lifecycle.{LifecycleMonitor}

-- Objects of other crates that the program only passes on, with the operations on a chain of gRPC
-- interceptors.
pub record Parts : Type 1 where
  pub TokenVerifier : Type 0
  pub Interceptor : Type 0
  pub Chain : Type 0
  pub HttpStream : Type 0
  pub TracingConfig : Type 0
  pub SchedulerConfig : Type 0
  pub SchedulerJob : Type 0
  pub no_interceptors : Chain
  pub push_interceptor : Chain → Interceptor → Chain
  pub is_empty_chain : Chain → Bool

-- What handlers of a service observe by.
abbrev pub Observer : Foreign → Type 0 → Type 0
Observer x W = ObserverContext x.Float W

-- `P` and `R` are the router and the registry of the HTTP job, `G` is the registry of the gRPC job.
pub record RuntimeBuilder (x : Foreign) (y : Parts) (W P R G : Type 0) : Type 0 where
  pub config : Option (RuntimeConfig x)
  pub app_name : Option String
  pub http_handler : Option (HttpIngress W)
  pub grpc_handler : Option (GrpcIngress W)
  pub http_job : Option (HttpJob (Observer x W) W P R)
  pub grpc_job : Option (GrpcJob (Observer x W) W G)
  pub http_tls : Option x.PemTlsConfig
  pub grpc_tls : Option x.PemTlsConfig
  pub http_bearer_verifier : Option y.TokenVerifier
  pub grpc_interceptors : y.Chain
  pub grpc_allow_unauthenticated : Bool
  pub egress_http : Option (HttpEgress W)
  pub egress_grpc : Option (GrpcEgress W)
  pub lifecycle : Option (LifecycleMonitor W)
  pub tracing_config : Option y.TracingConfig
  pub stream_handler : Option y.HttpStream
  pub metrics_provider : Option (MetricsProvider x.Float W)
  pub tracer_provider : Option (TracerProvider W)
  pub log_drain_backend : Option (LoggerProvider W)
  pub observer_context_override : Option (Observer x W)
  pub message_broker : Option (Call W String (Unit {0}))
  pub intrusion : Option (Wired W)
  pub scheduler : Option (y.SchedulerConfig × y.SchedulerJob)

-- `Runtime::builder`
unfoldable pub builder : {x : Foreign} {y : Parts} {W P R G : Type 0} → RuntimeBuilder x y W P R G
builder {x} {y} = record {
  config = none;
  app_name = none;
  http_handler = none;
  grpc_handler = none;
  http_job = none;
  grpc_job = none;
  http_tls = none;
  grpc_tls = none;
  http_bearer_verifier = none;
  grpc_interceptors = y.no_interceptors;
  grpc_allow_unauthenticated = false;
  egress_http = none;
  egress_grpc = none;
  lifecycle = none;
  tracing_config = none;
  stream_handler = none;
  metrics_provider = none;
  tracer_provider = none;
  log_drain_backend = none;
  observer_context_override = none;
  message_broker = none;
  intrusion = none;
  scheduler = none;
}
