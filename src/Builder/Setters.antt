-- ===== src/Builder/Setters.antt =====
-- The fluent setters of scm/main/adapter/src/core/runtime/types/runtime_builder.rs, under their names.
use edge_bootstrap.Prelude.{String, true, some, Call}
use edge_bootstrap.Config.Types.{Foreign, RuntimeConfig}
use edge_bootstrap.Transport.{HttpIngress, GrpcIngress, HttpEgress, GrpcEgress}
use edge_bootstrap.Guard.{Wired}
use edge_bootstrap.Monitor.Provider.{MetricsProvider}
use edge_bootstrap.Observability.{TracerProvider, LoggerProvider, ObserverContext}
use edge_bootstrap.Runtime.Lifecycle.{LifecycleMonitor}
use edge_bootstrap.Builder.{Parts, RuntimeBuilder}

module _ {x : Foreign} {y : Parts} {W P R G : Type 0} where
  unfoldable pub config : RuntimeConfig x → RuntimeBuilder x y W P R G → RuntimeBuilder x y W P R G
  config v b = record b { config = some v }

  unfoldable pub app_name : String → RuntimeBuilder x y W P R G → RuntimeBuilder x y W P R G
  app_name v b = record b { app_name = some v }

  unfoldable pub with_tracing :
      y.TracingConfig → RuntimeBuilder x y W P R G → RuntimeBuilder x y W P R G
  with_tracing v b = record b { tracing_config = some v }

  unfoldable pub http_tls : x.PemTlsConfig → RuntimeBuilder x y W P R G → RuntimeBuilder x y W P R G
  http_tls v b = record b { http_tls = some v }

  unfoldable pub grpc_tls : x.PemTlsConfig → RuntimeBuilder x y W P R G → RuntimeBuilder x y W P R G
  grpc_tls v b = record b { grpc_tls = some v }

  unfoldable pub http_bearer_auth :
      y.TokenVerifier → RuntimeBuilder x y W P R G → RuntimeBuilder x y W P R G
  http_bearer_auth v b = record b { http_bearer_verifier = some v }

  unfoldable pub grpc_auth : y.Interceptor → RuntimeBuilder x y W P R G → RuntimeBuilder x y W P R G
  grpc_auth i b = record b { grpc_interceptors = y.push_interceptor b.grpc_interceptors i }

  unfoldable pub grpc_allow_unauthenticated :
      RuntimeBuilder x y W P R G → RuntimeBuilder x y W P R G
  grpc_allow_unauthenticated b = record b { grpc_allow_unauthenticated = true }

  unfoldable pub egress_http :
      HttpEgress W → RuntimeBuilder x y W P R G → RuntimeBuilder x y W P R G
  egress_http v b = record b { egress_http = some v }

  unfoldable pub egress_grpc :
      GrpcEgress W → RuntimeBuilder x y W P R G → RuntimeBuilder x y W P R G
  egress_grpc v b = record b { egress_grpc = some v }

  unfoldable pub lifecycle :
      LifecycleMonitor W → RuntimeBuilder x y W P R G → RuntimeBuilder x y W P R G
  lifecycle v b = record b { lifecycle = some v }

  unfoldable pub http_handler :
      HttpIngress W → RuntimeBuilder x y W P R G → RuntimeBuilder x y W P R G
  http_handler v b = record b { http_handler = some v }

  unfoldable pub grpc_handler :
      GrpcIngress W → RuntimeBuilder x y W P R G → RuntimeBuilder x y W P R G
  grpc_handler v b = record b { grpc_handler = some v }

  unfoldable pub stream_handler :
      y.HttpStream → RuntimeBuilder x y W P R G → RuntimeBuilder x y W P R G
  stream_handler v b = record b { stream_handler = some v }

  unfoldable pub with_message_broker :
      Call W String (Unit {0}) → RuntimeBuilder x y W P R G → RuntimeBuilder x y W P R G
  with_message_broker v b = record b { message_broker = some v }

  unfoldable pub with_scheduler :
      y.SchedulerConfig → y.SchedulerJob → RuntimeBuilder x y W P R G → RuntimeBuilder x y W P R G
  with_scheduler cfg job b = record b { scheduler = some (cfg, job) }

  unfoldable pub with_intrusion : Wired W → RuntimeBuilder x y W P R G → RuntimeBuilder x y W P R G
  with_intrusion v b = record b { intrusion = some v }

  unfoldable pub with_metrics_provider :
      MetricsProvider x.Float W → RuntimeBuilder x y W P R G → RuntimeBuilder x y W P R G
  with_metrics_provider v b = record b { metrics_provider = some v }

  unfoldable pub with_tracer_provider :
      TracerProvider W → RuntimeBuilder x y W P R G → RuntimeBuilder x y W P R G
  with_tracer_provider v b = record b { tracer_provider = some v }

  unfoldable pub with_log_drain_backend :
      LoggerProvider W → RuntimeBuilder x y W P R G → RuntimeBuilder x y W P R G
  with_log_drain_backend v b = record b { log_drain_backend = some v }

  unfoldable pub with_observer_context :
      ObserverContext x.Float W → RuntimeBuilder x y W P R G → RuntimeBuilder x y W P R G
  with_observer_context v b = record b { observer_context_override = some v }
