-- ===== src/Examples/Serve.antt =====
-- `serve` and `run` of small services.
use edge_bootstrap.Prelude.{
  ℕ, ◌+◌, String, List, [], ◌∷◌, true, none, some, ok, err, is_err, ◌≡◌, ◌↔◌, refl, if◌then◌else◌,
}
use edge_bootstrap.Transport.{
  HttpIngress, GrpcIngress, GrpcResponse, GrpcIngressError, UnaryRequest, InboundRequest,
  HttpIngressError, healthy,
}
use edge_bootstrap.Adapters
use edge_bootstrap.Adapters.{empty, with_http, with_grpc, has_any}
use edge_bootstrap.Config.Types.{RuntimeConfig, default}
use edge_bootstrap.Dispatch.HttpJob.{HttpHandler, http_ingress_job}
use edge_bootstrap.Dispatch.GrpcJob.{GrpcHandler}
use edge_bootstrap.Guard.{Wired, reject, blocked}
use edge_bootstrap.Monitor.Counters
use edge_bootstrap.Monitor.Counters.{TrafficCounters}
use edge_bootstrap.Monitor.Load.Balance.{new-IsSound}
use edge_bootstrap.Monitor.Provider.{MetricsProvider}
use edge_bootstrap.Observability.{TracerProvider, LoggerProvider, MetricRegistry}
use edge_bootstrap.Runtime.Status.{stopped}
use edge_bootstrap.Assembly.Backends.{
  MetricsFactory, TracerFactory, LogFactory, build_tracer_provider, build_log_backend,
  build_metrics_provider,
}
use edge_bootstrap.Builder.{Parts, RuntimeBuilder, builder}
use edge_bootstrap.Builder.Setters
use edge_bootstrap.Serve.{GrpcServer, HttpServer, streaming_kind, unary, bidi_stream, tls}
use edge_bootstrap.Serve.Log.{ran_status}
use edge_bootstrap.Serve.Settings.{configure, ask, ask_if, ask_tls, ask_unary}
use edge_bootstrap.Serve.Resolve.{
  Env, resolve_config, resolve_tracing, resolve_verifier, resolve_metrics, resolve_tracer,
  resolve_log, resolve_egress_http, resolve_egress_grpc, resolve_intrusion, configured_verifier,
  configured_grpc, egress_of, resolve_observer_context, configured_intrusion,
}
use edge_bootstrap.Serve.Servers.{
  Prepared, metrics_server, metrics_events, http_events, http_server, grpc_events, grpc_server,
  grpc_route_ids, reflection_ingress,
}
use edge_bootstrap.Serve.Teardown.{conduct, teardown}
use edge_bootstrap.Assembly.{http_stack, grpc_stack, choose_ingress, add_http, add_grpc}
use edge_bootstrap.Serve.Whole.{
  serve, prepare, launch, schedule, manager_of, http_job_ingress, grpc_job_ingress,
}
use edge_bootstrap.Serve.Outcome.{Ended, serve-Ended, serve_ok_iff}
use edge_bootstrap.Serve.Secured.{serve_secured}
use edge_bootstrap.Serve.Answers.{serve_answers}
use edge_bootstrap.Serve.Guarded.{settings_of, serve_grpc_secured}
use edge_bootstrap.Serve.Plain.{run}
use edge_bootstrap.Serve.Plain.Same.{plain_builder, serve-eq-run}
use edge_bootstrap.Examples.Fixtures.{
  floats, provider, clock, http, egress, lifecycle, display, request, TestObserver,
}
use edge_bootstrap.Examples.Config.{foreign, host}
use edge_bootstrap.Examples.Dispatch.{registry, router, routed}
use edge_bootstrap.Examples.Runtime.{timing}

abbrev pub parts : Parts
parts = record {
  TokenVerifier = Unit {0};
  Interceptor = Unit {0};
  Chain = Unit {0};
  HttpStream = Unit {0};
  TracingConfig = Unit {0};
  SchedulerConfig = Unit {0};
  SchedulerJob = Unit {0};
  no_interceptors = tt;
  push_interceptor = λ chain i. tt;
  is_empty_chain = λ chain. true;
}

abbrev pub tracer : TracerProvider ℕ
tracer = record { export_span = λ span w. w + 1 }

abbrev pub logger : LoggerProvider ℕ
logger = record { emit = λ entry w. w + 1; flush = λ w. w }

abbrev metrics_factory : MetricsFactory (MetricsProvider ℕ ℕ)
metrics_factory = record {
  memory = provider;
  file = λ p. provider;
  prometheus = provider;
  otel = λ s. provider;
}

abbrev tracer_factory : TracerFactory (TracerProvider ℕ)
tracer_factory = record {
  memory = tracer;
  file = λ p. tracer;
  jaeger = λ s e. tracer;
  otel = λ s. tracer;
}

abbrev log_factory : LogFactory (LoggerProvider ℕ)
log_factory = record {
  memory = logger;
  file = λ p n. logger;
  elk = λ i. logger;
  otel = λ s. logger;
}

abbrev noop : MetricRegistry ℕ ℕ
noop = record { counter = λ name n w. w; gauge = λ name v w. w; histogram = λ name v w. w }

abbrev grpc_answer : GrpcResponse
grpc_answer = record { body = []; metadata = [] }

abbrev pub reflection : GrpcIngress ℕ
reflection = record {
  handle_unary = λ req w. (w, ok grpc_answer);
  handle_stream = λ req w. (w, ok grpc_answer);
  health_check = λ w. (w, ok healthy);
}

-- Every engine that is configured rejects.
abbrev wired : Wired ℕ
wired = record {
  extract_ip = λ peer forwarded. peer;
  guard = λ event w. (w + 1, reject "lfi" "path");
  header = λ name headers. none;
  method_text = λ m. "GET";
  clock = λ w. w;
}

abbrev pub env :
    Env foreign parts ℕ
      (List (String × String))
      (List (String × HttpHandler TestObserver ℕ))
      (List (String × GrpcHandler TestObserver ℕ))
env = record {
  host = host;
  config_error = λ e. "config";
  tracing_of = λ o. tt;
  jwt_verifier = λ c. ok tt;
  metrics_factory = metrics_factory;
  tracer_factory = tracer_factory;
  log_factory = log_factory;
  noop_metrics = noop;
  floats = floats;
  print_float = λ f. "0";
  bytes = λ s. [];
  clock = clock;
  http_registry = registry;
  router = router;
  grpc_registry = registry;
  parse_uri = λ s. some s;
  into_security_context = λ s. s;
  default_stream = λ req w. (w, ok grpc_answer);
  reflection = λ job. reflection;
  reflection_info_method = "grpc.reflection.v1.ServerReflection/ServerReflectionInfo";
  http_egress_with_config = λ c. ok egress;
  default_http_egress = ok egress;
  grpc_transport = λ c. err "refused";
  build_intrusion = λ c. ok wired;
  null_lifecycle = lifecycle;
  display = display;
  refuses = λ server setting. none;
  spawn_thread = λ w. (w, ok tt);
  timing = timing;
  wait_five_seconds = λ t w. w + 1;
}

abbrev pub Service : Type 0
Service =
    RuntimeBuilder foreign parts ℕ (List (String × String))
      (List (String × HttpHandler TestObserver ℕ)) (List (String × GrpcHandler TestObserver ℕ))

-- An HTTP handler, guarded, with a TLS configuration.
abbrev guarded : Service
guarded =
    Setters.config default
      (Setters.http_tls tt (Setters.with_intrusion wired (Setters.http_handler http builder)))

serve-Ended_example : Ended env guarded (serve env guarded (record { log = []; world = 5 }))
serve-Ended_example = serve-Ended env guarded 5

serve_ok_example :
    let after = serve env guarded (record { log = []; world = 5 }) in
    (after.1 ≡ ok tt) ↔ (ran_status after.0.log ≡ some stopped)
serve_ok_example = serve_ok_iff env guarded 5

abbrev unset : GrpcServer foreign parts ℕ
unset = record { bind = "0.0.0.0:50051"; handler = reflection; settings = [] }

abbrev set : GrpcServer foreign parts ℕ
set = record unset {
  settings = streaming_kind "pkg.Echo/Say" unary ∷ streaming_kind "info" bidi_stream ∷ tls tt ∷ [];
}

-- The server that `guarded` leads to, and a request for it.
abbrev server : HttpServer foreign parts (TrafficCounters ℕ)
server = record {
  bind = "0.0.0.0:8080";
  handler = http_stack floats clock none (some wired) http;
  tls = some tt;
  verifier = none;
  stream = none;
}

abbrev inbound : InboundRequest
inbound = record { request = request; security = ""; peer_ip = "10.0.0.1" }

abbrev pub counters : TrafficCounters ℕ
counters = Counters.new floats provider 7

serve_secured_example :
    (server.stream ≡ none)
    × (server.handler.handle inbound counters ≡ (
      record counters { world = 8 },
      err (HttpIngressError.permission_denied (blocked "lfi" "path")),
    ))
    × (some tt ≡ server.tls)
    × (server.verifier ≡ server.verifier)
unfolding serve prepare launch schedule manager_of http_job_ingress grpc_job_ingress resolve_config
    resolve_tracing resolve_verifier resolve_metrics resolve_tracer resolve_log resolve_egress_http
    resolve_egress_grpc resolve_intrusion configured_verifier configured_grpc egress_of
    choose_ingress add_http add_grpc with_http empty has_any Adapters.new_http build_tracer_provider
    build_log_backend metrics_server metrics_events http_events http_server grpc_events builder
    Setters.http_handler Setters.http_tls Setters.with_intrusion Setters.config conduct teardown
    default Counters.new
serve_secured_example =
    serve_secured env guarded 5 server wired inbound counters "lfi" "path" refl refl refl refl

-- A job with one route, a metrics endpoint and no guard.
abbrev counted_config : RuntimeConfig foreign
counted_config = record default {
  metrics = some (record { bind = "0.0.0.0:9090"; path = "/metrics" });
}

abbrev counted : Service
counted = Setters.config counted_config (record builder { http_job = some routed })

abbrev counted_observer : TestObserver
counted_observer = resolve_observer_context env none tracer logger (some provider)

abbrev job_ingress : HttpIngress ℕ
job_ingress = http_ingress_job registry router (λ url. some url) (λ s. s) counted_observer routed

abbrev counted_prepared : Prepared foreign parts ℕ
counted_prepared = record {
  config = counted_config;
  verifier = none;
  provider = some provider;
  observer = counted_observer;
  input = with_http job_ingress empty;
  output = egress_of egress none;
  wired = none;
}

abbrev counted_server : HttpServer foreign parts (TrafficCounters ℕ)
counted_server = record {
  bind = "0.0.0.0:8080";
  handler = http_stack floats clock (some provider) none job_ingress;
  tls = none;
  verifier = none;
  stream = none;
}

serve_answers_example :
    let after = counted_server.handler.handle inbound counters in
    (counted_server.stream ≡ none)
    × (after.1 ≡ (job_ingress.handle inbound 7).1)
    × (after.0.requests_in_flight ≡ 0)
    × (after.0.requests_since_tick ≡ 1)
    × (after.0.errors_since_tick ≡ (if is_err (job_ingress.handle inbound 7).1 then 1 else 0))
unfolding serve prepare launch schedule manager_of http_job_ingress grpc_job_ingress resolve_config
    resolve_tracing resolve_verifier resolve_metrics resolve_tracer resolve_log resolve_egress_http
    resolve_egress_grpc resolve_intrusion configured_verifier configured_grpc egress_of
    choose_ingress add_http add_grpc with_http empty has_any Adapters.new_http build_tracer_provider
    build_metrics_provider build_log_backend metrics_server metrics_events http_events http_server
    grpc_events builder Setters.config conduct teardown default Counters.new configured_intrusion
serve_answers_example =
    serve_answers env counted 5 counted_prepared counted_server routed provider inbound counters
      refl refl refl refl refl refl refl (new-IsSound floats provider 7)

-- The guard with a gRPC handler.
abbrev guarded_grpc : Service
guarded_grpc =
    Setters.config default (Setters.with_intrusion wired (Setters.grpc_handler reflection builder))

abbrev grpc_started : GrpcServer foreign parts (TrafficCounters ℕ)
grpc_started = record {
  bind = "0.0.0.0:50051";
  handler = grpc_stack floats clock none none (some wired) reflection;
  settings = [];
}

abbrev pub grpc_call : UnaryRequest
grpc_call = record {
  request = record { method = "/grpc.reflection.v1.Info"; body = []; metadata = [] };
  security = "";
  peer_ip = "10.0.0.1";
}

serve_grpc_secured_example :
    (grpc_started.handler.handle_unary grpc_call counters ≡ (
      record counters { world = 8 },
      err (GrpcIngressError.permission_denied (blocked "lfi" "path")),
    ))
    × ((p : Prepared foreign parts ℕ) × ((prepare env guarded_grpc
            (record { log = []; world = 5 })).1
          ≡ ok p)
        × (grpc_started.settings ≡ settings_of env guarded_grpc p))
unfolding serve prepare launch schedule manager_of http_job_ingress grpc_job_ingress resolve_config
    resolve_tracing resolve_verifier resolve_metrics resolve_tracer resolve_log resolve_egress_http
    resolve_egress_grpc resolve_intrusion configured_verifier configured_grpc egress_of
    choose_ingress add_http add_grpc with_grpc empty has_any Adapters.new_http build_tracer_provider
    build_log_backend metrics_server metrics_events http_events grpc_events builder grpc_server
    grpc_route_ids reflection_ingress configure ask ask_if ask_tls ask_unary Setters.grpc_handler
    Setters.with_intrusion Setters.config conduct teardown default Counters.new
serve_grpc_secured_example =
    serve_grpc_secured env guarded_grpc 5 grpc_started wired grpc_call counters "lfi" "path" refl
      refl refl

serve-eq-run_example :
    let served =
      serve env
        (plain_builder env default http egress lifecycle)
        (record { log = []; world = 5 }) in
    let ran =
      run env default
        (with_http http empty)
        (Adapters.new_http egress)
        lifecycle
        (record { log = []; world = 5 }) in
    (served.1 ≡ ran.1) × (served.0.world ≡ ran.0.world)
unfolding default
serve-eq-run_example = serve-eq-run env default http egress lifecycle 5 refl refl refl refl refl
