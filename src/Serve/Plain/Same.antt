-- ===== src/Serve/Plain/Same.antt =====
-- `run` and `serve` on the same parts.
use edge_bootstrap.Prelude.{[], none, ◌≡◌, arith}
use edge_bootstrap.Config.Types.{Foreign, RuntimeConfig}
use edge_bootstrap.Transport.{HttpIngress, HttpEgress}
use edge_bootstrap.Adapters
use edge_bootstrap.Adapters.{empty, with_http, has_any}
use edge_bootstrap.Runtime.Lifecycle.{LifecycleMonitor}
use edge_bootstrap.Assembly.{choose_ingress, add_http, add_grpc}
use edge_bootstrap.Assembly.Backends.{build_tracer_provider, build_log_backend}
use edge_bootstrap.Builder.{Parts, RuntimeBuilder, builder}
use edge_bootstrap.Builder.Setters
use edge_bootstrap.Serve.Resolve.{
  Env, resolve_config, resolve_tracing, resolve_verifier, resolve_metrics, resolve_tracer,
  resolve_log, resolve_egress_http, resolve_egress_grpc, resolve_intrusion, configured_grpc,
  configured_intrusion, egress_of,
}
use edge_bootstrap.Serve.Servers.{metrics_server, http_events, grpc_events, metrics_events}
use edge_bootstrap.Serve.Teardown.{teardown, conduct}
use edge_bootstrap.Serve.Whole.{
  prepare, launch, schedule, manager_of, serve, http_job_ingress, grpc_job_ingress,
}
use edge_bootstrap.Serve.Plain.{run, runtime_manager, plain_http, plain_grpc}

module _ {x : Foreign} {y : Parts} {W P R G : Type 0} (env : Env x y W P R G)
    (config : RuntimeConfig x) (http : HttpIngress W) (egress : HttpEgress W)
    (lifecycle : LifecycleMonitor W) where
  abbrev pub plain_builder : RuntimeBuilder x y W P R G
  plain_builder =
      Setters.http_handler http
        (Setters.egress_http egress (Setters.lifecycle lifecycle (Setters.config config builder)))

  -- For a service with an HTTP handler, an HTTP egress client and a configuration that asks for neither a
  -- metrics endpoint nor backends, intrusion rules or a gRPC client: `serve` of the builder that has
  -- been given these gives the same result, and leaves the same world, as `run` of them.
  pub serve-eq-run :
      (w : W)
      → config.metrics ≡ none
      → config.tracer_backend ≡ none
      → config.log_backend ≡ none
      → config.intrusion ≡ none
      → config.egress_grpc ≡ none
      → let served = serve env plain_builder (record { log = []; world = w }) in
        let ran =
          run env config
            (with_http http empty)
            (Adapters.new_http egress)
            lifecycle
            (record { log = []; world = w }) in
        (served.1 ≡ ran.1) × (served.0.world ≡ ran.0.world)
  unfolding serve prepare launch schedule manager_of http_job_ingress grpc_job_ingress
      resolve_config resolve_tracing resolve_verifier resolve_metrics resolve_tracer resolve_log
      resolve_egress_http resolve_egress_grpc resolve_intrusion configured_grpc configured_intrusion
      egress_of choose_ingress add_http add_grpc with_http empty has_any Adapters.new_http
      build_tracer_provider build_log_backend metrics_server http_events grpc_events metrics_events
      run runtime_manager plain_http plain_grpc builder Setters.http_handler Setters.egress_http
      Setters.lifecycle Setters.config conduct teardown
  serve-eq-run w metrics tracer logs intrusion grpc = ground arith
