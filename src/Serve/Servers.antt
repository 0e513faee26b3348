-- ===== src/Serve/Servers.antt =====
-- The servers that `serve` builds: scm/main/adapter/src/core/runtime/runtime_builder_serve.rs.
use edge_bootstrap.Prelude.{
  String, List, [], ◌∷◌, Option, none, some, Result, ok, or_else, is_some, if◌then◌else◌, ◌||◌,
  and_then,
}
use edge_bootstrap.Config.Types.{Foreign, RuntimeConfig}
use edge_bootstrap.Transport.{HttpIngress, GrpcIngress}
use edge_bootstrap.Adapters.{DefaultIngress, DefaultEgress}
use edge_bootstrap.Dispatch.GrpcJob.{list_route_ids}
use edge_bootstrap.Guard.{Wired}
use edge_bootstrap.Monitor.Provider.{MetricsProvider}
use edge_bootstrap.Monitor.Counters.{TrafficCounters}
use edge_bootstrap.Monitor.MetricsHandler.{metrics_handler}
use edge_bootstrap.Observability.{ObserverContext}
use edge_bootstrap.Runtime.Status.{RuntimeError}
use edge_bootstrap.Assembly.{http_stack, grpc_stack}
use edge_bootstrap.Builder.{Parts, RuntimeBuilder}
use edge_bootstrap.Serve.{HttpServer, GrpcServer, Event, serving, serving_grpc, serving_metrics}
use edge_bootstrap.Serve.Settings.{configure}
use edge_bootstrap.Serve.Resolve.{Env}

-- What stands when everything is resolved. The observer is the one that the jobs of `input` give to
-- their handlers.
pub record Prepared (x : Foreign) (y : Parts) (W : Type 0) : Type 0 where
  pub config : RuntimeConfig x
  pub verifier : Option y.TokenVerifier
  pub provider : Option (MetricsProvider x.Float W)
  pub observer : ObserverContext x.Float W
  pub input : DefaultIngress W
  pub output : DefaultEgress W
  pub wired : Option (Wired W)

module _ {x : Foreign} {y : Parts} {W P R G : Type 0} (env : Env x y W P R G)
    (b : RuntimeBuilder x y W P R G) (p : Prepared x y W) where
  unfoldable pub http_server : HttpIngress W → HttpServer x y (TrafficCounters W)
  http_server h = record {
    bind = p.config.http_bind;
    handler = http_stack env.floats env.clock p.provider p.wired h;
    tls = or_else b.http_tls p.config.http_tls;
    verifier = p.verifier;
    stream = b.stream_handler;
  }

  unfoldable pub http_events : List (Event x y (TrafficCounters W))
  unfolding http_server
  http_events = elim (p.input.http) [ none ↦ [] | some h ↦ serving (http_server h) ∷ [] ]

  unfoldable pub reflection_ingress : Option (GrpcIngress W)
  reflection_ingress =
      if p.config.grpc_reflection
      then elim (b.grpc_job) [ none ↦ none | some job ↦ some (env.reflection job) ]
      else none

  unfoldable pub grpc_route_ids : List String
  grpc_route_ids = elim (b.grpc_job) [ none ↦ [] | some job ↦ list_route_ids env.grpc_registry job ]

  unfoldable pub grpc_server :
      GrpcIngress W → Result RuntimeError (GrpcServer x y (TrafficCounters W))
  grpc_server g =
      configure (λ server. env.refuses server) env.reflection_info_method grpc_route_ids
        (is_some reflection_ingress) (or_else b.grpc_tls p.config.grpc_tls) b.grpc_interceptors
        (b.grpc_allow_unauthenticated || p.config.grpc_allow_unauthenticated)
        (record {
          bind = p.config.grpc_bind;
          handler = grpc_stack env.floats env.clock p.provider reflection_ingress p.wired g;
          settings = [];
        })

  unfoldable pub grpc_events : Result RuntimeError (List (Event x y (TrafficCounters W)))
  grpc_events = elim (p.input.grpc) [
    | none ↦ ok []
    | some g ↦ and_then (grpc_server g) (λ server. ok (serving_grpc server ∷ []))
  ]

  -- Bind address and path of the metrics endpoint, over the counters that the monitors fill.
  unfoldable pub metrics_server : Option (HttpServer x y (TrafficCounters W))
  metrics_server = elim (p.config.metrics) [
    | none ↦ none
    | some m ↦ elim (p.provider) [
      | none ↦ none
      | some provider ↦ some (record {
        bind = m.bind;
        handler = metrics_handler provider env.print_float env.bytes m.path;
        tls = none;
        verifier = none;
        stream = none;
      })
    ]
  ]

  unfoldable pub metrics_events : List (Event x y (TrafficCounters W))
  metrics_events = elim metrics_server [ none ↦ [] | some s ↦ serving_metrics s ∷ [] ]
