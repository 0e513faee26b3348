-- ===== src/Serve/Resolve.antt =====
-- What `serve` resolves before it spawns anything:
-- scm/main/adapter/src/core/runtime/runtime_builder_serve.rs. What the builder was given goes before what
-- the configuration says.
use edge_bootstrap.Prelude.{
  ℕ, String, List, true, Option, none, some, Result, ok, Call, map_err, and_then, or_else,
  unwrap_or,
}
use edge_bootstrap.Config.Types.{Foreign, RuntimeConfig, ConfigError}
use edge_bootstrap.Config.Host.{Host}
use edge_bootstrap.Config.Loader
use edge_bootstrap.Transport.{
  GrpcIngress, HttpEgress, GrpcEgress, StreamRequest, GrpcIngressError, GrpcResponse, Display,
}
use edge_bootstrap.Adapters.{DefaultEgress, new_http, with_grpc_egress}
use edge_bootstrap.Dispatch.Interface.{Registry, PathRouter}
use edge_bootstrap.Dispatch.HttpJob.{HttpHandler}
use edge_bootstrap.Dispatch.GrpcJob.{GrpcHandler, GrpcJob}
use edge_bootstrap.Guard.{Wired}
use edge_bootstrap.Monitor.Floats.{Floats}
use edge_bootstrap.Monitor.Provider.{MetricsProvider}
use edge_bootstrap.Observability.{
  TracerProvider, LoggerProvider, MetricRegistry, ObserverContext, observer_context,
}
use edge_bootstrap.Runtime.Status.{RuntimeError, start_failed}
use edge_bootstrap.Runtime.Lifecycle.{LifecycleMonitor}
use edge_bootstrap.Runtime.Runner.{Timing}
use edge_bootstrap.Assembly.Backends.{
  MetricsFactory, TracerFactory, LogFactory, build_metrics_provider, build_tracer_provider,
  build_log_backend,
}
use edge_bootstrap.Builder.{Parts, Observer, RuntimeBuilder}
use edge_bootstrap.Serve.{Task, GrpcServer, Setting, or_failed}

-- The other crates and the machine, as far as `serve` and `run` call them.
pub record Env (x : Foreign) (y : Parts) (W P R G : Type 0) : Type 1 where
  pub host : Host x
  pub config_error : ConfigError → String
  pub tracing_of : x.ObservabilityConfig → y.TracingConfig
  pub jwt_verifier : x.JwtConfig → Result String y.TokenVerifier
  -- observability
  pub metrics_factory : MetricsFactory (MetricsProvider x.Float W)
  pub tracer_factory : TracerFactory (TracerProvider W)
  pub log_factory : LogFactory (LoggerProvider W)
  pub noop_metrics : MetricRegistry x.Float W
  pub floats : Floats x.Float
  pub print_float : x.Float → String
  pub bytes : String → List ℕ
  pub clock : W → ℕ
  -- dispatch
  pub http_registry : Registry R (HttpHandler (Observer x W) W)
  pub router : PathRouter P
  pub grpc_registry : Registry G (GrpcHandler (Observer x W) W)
  pub parse_uri : String → Option String
  pub into_security_context : String → String
  pub default_stream : StreamRequest → Call W GrpcIngressError GrpcResponse
  pub reflection : GrpcJob (Observer x W) W G → GrpcIngress W
  pub reflection_info_method : String
  -- egress and the rules engine
  pub http_egress_with_config : x.HttpConfig → Result String (HttpEgress W)
  pub default_http_egress : Result String (HttpEgress W)
  pub grpc_transport : x.GrpcChannelConfig → Result String (GrpcEgress W)
  pub build_intrusion : x.IntrusionConfig → Result String (Wired W)
  pub null_lifecycle : LifecycleMonitor W
  pub display : Display
  -- servers: the transport's refusal of a setting; a new thread; the signal and the timeout of the
  -- runner; and a wait of at most five seconds for a task
  pub refuses : {V : Type 0} → GrpcServer x y V → Setting x y → Option String
  pub spawn_thread : Call W String (Unit {0})
  pub timing : Timing W
  pub wait_five_seconds : Task → W → W

abbrev pub default_app_name : String
default_app_name = "swe-edge"

module _ {x : Foreign} {y : Parts} {W P R G : Type 0} (env : Env x y W P R G) where
  -- A configuration that was not given is loaded from the XDG chain; it is not validated.
  unfoldable pub resolve_config : RuntimeBuilder x y W P R G → Result RuntimeError (RuntimeConfig x)
  resolve_config b = elim (b.config) [
    | some config ↦ ok config
    | none ↦
        map_err (λ e. start_failed (env.config_error e))
          (Loader.load env.host (Loader.xdg env.host (unwrap_or b.app_name default_app_name)))
  ]

  unfoldable pub resolve_tracing :
      RuntimeBuilder x y W P R G → RuntimeConfig x → Option y.TracingConfig
  resolve_tracing b config =
      or_else b.tracing_config
        (elim (config.observability) [ none ↦ none | some o ↦ some (env.tracing_of o) ])

  -- `JwtVerifier::from_config`, if authentication is configured.
  unfoldable pub configured_verifier :
      Option x.JwtConfig → Result RuntimeError (Option y.TokenVerifier)
  configured_verifier none = ok none
  configured_verifier (some auth) = and_then (or_failed (env.jwt_verifier auth)) (λ v. ok (some v))

  unfoldable pub resolve_verifier :
      RuntimeBuilder x y W P R G → RuntimeConfig x → Result RuntimeError (Option y.TokenVerifier)
  resolve_verifier b config = elim (b.http_bearer_verifier) [
    | some v ↦ ok (some v)
    | none ↦ configured_verifier config.http_auth
  ]

  -- Only with a metrics endpoint is there a provider.
  unfoldable pub resolve_metrics :
      RuntimeBuilder x y W P R G
      → RuntimeConfig x
      → Result RuntimeError (Option (MetricsProvider x.Float W))
  resolve_metrics b config = elim (config.metrics) [
    | none ↦ ok none
    | some m ↦ elim (b.metrics_provider) [
      | some p ↦ ok (some p)
      | none ↦
          and_then (build_metrics_provider env.metrics_factory true config.metrics_backend)
            (λ p. ok (some p))
    ]
  ]

  unfoldable pub resolve_tracer :
      RuntimeBuilder x y W P R G → RuntimeConfig x → Result RuntimeError (TracerProvider W)
  resolve_tracer b config = elim (b.tracer_provider) [
    | some p ↦ ok p
    | none ↦ build_tracer_provider env.tracer_factory config.tracer_backend
  ]

  unfoldable pub resolve_log :
      RuntimeBuilder x y W P R G → RuntimeConfig x → Result RuntimeError (LoggerProvider W)
  resolve_log b config = elim (b.log_drain_backend) [
    | some p ↦ ok p
    | none ↦ build_log_backend env.log_factory config.log_backend
  ]

  -- A whole context that was given takes the place of the three backends.
  unfoldable pub resolve_observer_context :
      Option (ObserverContext x.Float W)
      → TracerProvider W
      → LoggerProvider W
      → Option (MetricsProvider x.Float W)
      → ObserverContext x.Float W
  resolve_observer_context (some o) tracer logger provider = o
  resolve_observer_context none tracer logger provider =
      observer_context env.floats env.clock env.noop_metrics tracer logger provider

  unfoldable pub resolve_egress_http :
      RuntimeBuilder x y W P R G → RuntimeConfig x → Result RuntimeError (HttpEgress W)
  resolve_egress_http b config = elim (b.egress_http) [
    | some h ↦ ok h
    | none ↦ elim (config.egress_http) [
      | some cfg ↦ or_failed (env.http_egress_with_config cfg)
      | none ↦ or_failed env.default_http_egress
    ]
  ]

  unfoldable pub configured_grpc :
      Option x.GrpcChannelConfig → Result RuntimeError (Option (GrpcEgress W))
  configured_grpc none = ok none
  configured_grpc (some cfg) = and_then (or_failed (env.grpc_transport cfg)) (λ g. ok (some g))

  unfoldable pub resolve_egress_grpc :
      RuntimeBuilder x y W P R G → RuntimeConfig x → Result RuntimeError (Option (GrpcEgress W))
  resolve_egress_grpc b config = elim (b.egress_grpc) [
    | some g ↦ ok (some g)
    | none ↦ configured_grpc config.egress_grpc
  ]

  unfoldable pub configured_intrusion :
      Option x.IntrusionConfig → Result RuntimeError (Option (Wired W))
  configured_intrusion none = ok none
  configured_intrusion (some cfg) =
      and_then (or_failed (env.build_intrusion cfg)) (λ w. ok (some w))

  unfoldable pub resolve_intrusion :
      RuntimeBuilder x y W P R G → RuntimeConfig x → Result RuntimeError (Option (Wired W))
  resolve_intrusion b config = elim (b.intrusion) [
    | some w ↦ ok (some w)
    | none ↦ configured_intrusion config.intrusion
  ]

-- `DefaultEgress` with a gRPC client if there is one.
unfoldable pub egress_of : {W : Type 0} → HttpEgress W → Option (GrpcEgress W) → DefaultEgress W
unfolding new_http with_grpc_egress
egress_of http none = new_http http
egress_of http (some g) = with_grpc_egress g (new_http http)
