-- ===== src/Examples/Programs.antt =====
-- A service with the configuration, the handler and the routes of security-e2e, served.
use edge_bootstrap.Prelude.{
  ℕ, String, List, [], ◌∷◌, true, false, none, some, Result, ok, err, ◌≡◌, refl, sym, ◌∙◌,
  if◌then◌else◌, ok-injective, eq_iff, Bool-cases, inl, inr,
}
use text.Mathlib.Text.{◌==◌ as str_eq}
use edge_bootstrap.Transport.{
  HttpMethod, raw, InboundRequest, UnaryRequest, GrpcIngress, HttpIngress,
}
use edge_bootstrap.Adapters
use edge_bootstrap.Adapters.{DefaultIngress, empty, with_http, with_grpc, has_any}
use edge_bootstrap.Codec.{Serde, SerdeLaws, json_encode, grpc_json_encode, json_decode}
use edge_bootstrap.Codec.Calls.{http_decoder, grpc_decoder}
use edge_bootstrap.Config.Types.{default}
use edge_bootstrap.Config.Setters.{
  with_service_name, with_http_bind, with_grpc_bind, with_systemd_notify,
}
use edge_bootstrap.Dispatch.Interface.{Handler, find, put}
use edge_bootstrap.Dispatch.HttpJob
use edge_bootstrap.Dispatch.HttpJob.{HttpHandler}
use edge_bootstrap.Dispatch.GrpcJob
use edge_bootstrap.Dispatch.GrpcJob.{GrpcHandler}
use edge_bootstrap.Monitor.Counters
use edge_bootstrap.Monitor.Counters.{TrafficCounters}
use edge_bootstrap.Assembly.{grpc_stack, http_stack, choose_ingress, add_http, add_grpc}
use edge_bootstrap.Assembly.Backends.{build_tracer_provider, build_log_backend}
use edge_bootstrap.Observability.{observer_context}
use edge_bootstrap.Builder.{builder}
use edge_bootstrap.Builder.Setters
use edge_bootstrap.Builder.Routes.{http_route_with}
use edge_bootstrap.Serve.{GrpcServer, HttpServer, allow_unauthenticated}
use edge_bootstrap.Serve.Settings.{configure, ask, ask_if, ask_tls, ask_unary}
use edge_bootstrap.Serve.Resolve.{
  resolve_config, resolve_tracing, resolve_verifier, resolve_metrics, resolve_tracer, resolve_log,
  resolve_egress_http, resolve_egress_grpc, resolve_intrusion, configured_verifier, configured_grpc,
  egress_of, resolve_observer_context, configured_intrusion,
}
use edge_bootstrap.Serve.Servers.{
  Prepared, metrics_server, metrics_events, http_events, grpc_events, grpc_server, grpc_route_ids,
  reflection_ingress,
}
use edge_bootstrap.Serve.Teardown.{conduct, teardown}
use edge_bootstrap.Serve.Whole.{
  serve, prepare, launch, schedule, manager_of, http_job_ingress, grpc_job_ingress,
}
use edge_bootstrap.Programs.Configs
use edge_bootstrap.Programs.Handlers.{secure_echo_handler}
use edge_bootstrap.Serve.Routed.{serve_http_route}
use edge_bootstrap.Examples.Fixtures.{floats, clock, egress, display, TestObserver}
use edge_bootstrap.Examples.Config.{foreign}
use edge_bootstrap.Examples.Dispatch.{registry, registry_laws, router}
use edge_bootstrap.Examples.Serve.{parts, env, tracer, logger, Service, counters}

-- Only one text can be written.
abbrev message : Serde String
message = record {
  from_value = λ v. err "value";
  from_slice = λ body. elim body [ [] ↦ err "empty" | n ∷ rest ↦ ok "hi" ];
  to_vec = λ s. if str_eq s "hi" then ok (1 ∷ []) else err "only hi";
}

message_read :
    (s : String) (body : List ℕ) → message.to_vec s ≡ ok body → message.from_slice body ≡ ok s
message_read s body e = elim (Bool-cases (str_eq s "hi")) [
  | inl equal ↦
      let shown : message.to_vec s ≡ ok (1 ∷ []) = rw equal refl in
      let hi = (eq_iff s "hi").0 equal in
      let one = ok-injective (1 ∷ []) body (sym shown ∙ e) in rw hi (rw⁻¹ one refl)
  | inr other ↦ let shown : message.to_vec s ≡ err "only hi" = rw other refl in cc
]

message_laws : SerdeLaws message
message_laws = record { from_slice-to_vec = message_read }

abbrev handler : Handler TestObserver ℕ String String
handler = secure_echo_handler (λ w. (w, ok true))

abbrev http_job :
    HttpJob.HttpJob TestObserver ℕ
      (List (String × String))
      (List (String × HttpHandler TestObserver ℕ))
http_job =
    (HttpJob.register_route registry router handler (http_decoder display message)
      (json_encode message (λ s. [])) (HttpJob.new registry router)).0

abbrev grpc_job : GrpcJob.GrpcJob TestObserver ℕ (List (String × GrpcHandler TestObserver ℕ))
grpc_job =
    (GrpcJob.register_route registry handler (grpc_decoder display message)
      (grpc_json_encode message) (GrpcJob.new registry)).0

abbrev secure : Service
secure = record builder {
  config = some (Configs.security tt);
  http_job = some http_job;
  grpc_job = some grpc_job;
  grpc_allow_unauthenticated = true;
}

abbrev observer : TestObserver
observer = resolve_observer_context env none tracer logger none

abbrev http_ingress : HttpIngress ℕ
http_ingress = HttpJob.http_ingress_job registry router (λ s. some s) (λ s. s) observer http_job

abbrev grpc_ingress : GrpcIngress ℕ
grpc_ingress = GrpcJob.grpc_ingress_job registry env.default_stream observer grpc_job

abbrev prepared : Prepared foreign parts ℕ
prepared = record {
  config = Configs.security tt;
  verifier = some tt;
  provider = none;
  observer = observer;
  input = with_grpc grpc_ingress (with_http http_ingress empty);
  output = egress_of egress none;
  wired = none;
}

abbrev server : GrpcServer foreign parts (TrafficCounters ℕ)
server = record {
  bind = "127.0.0.1:19290";
  handler = grpc_stack floats clock none none none grpc_ingress;
  settings = allow_unauthenticated true ∷ [];
}

abbrev call : UnaryRequest
call = record {
  request = record { method = "/secure-echo"; body = 1 ∷ []; metadata = [] };
  security = "alice";
  peer_ip = "10.0.0.1";
}

-- Before the gRPC route, and before what was set after it.
abbrev posted_only : Service
posted_only = record secure { grpc_job = none; grpc_allow_unauthenticated = false }

abbrev both_routes : Service
both_routes = record secure { grpc_allow_unauthenticated = false }

abbrev decode_grpc : List ℕ → Result String String
decode_grpc = grpc_decoder display message

abbrev http_started : HttpServer foreign parts (TrafficCounters ℕ)
http_started = record {
  bind = "127.0.0.1:18290";
  handler = http_stack floats clock none none http_ingress;
  tls = none;
  verifier = some tt;
  stream = none;
}

abbrev post : InboundRequest
post = record {
  request = record {
    method = HttpMethod.other_method "POST";
    url = "/secure-echo";
    headers = [];
    body = some (raw (1 ∷ []));
  };
  security = "alice";
  peer_ip = "10.0.0.1";
}

serve_http_route_example :
    (http_started.stream ≡ none)
    × (http_started.handler.handle post counters
        ≡ (record counters { world = 8 }, ok (json_encode message (λ s. []) "hi")))
unfolding serve prepare launch schedule manager_of http_job_ingress grpc_job_ingress resolve_config
    resolve_tracing resolve_verifier resolve_metrics resolve_tracer resolve_log resolve_egress_http
    resolve_egress_grpc resolve_intrusion configured_verifier configured_grpc egress_of
    choose_ingress add_http add_grpc with_grpc with_http empty has_any Adapters.new_http
    build_tracer_provider build_log_backend metrics_server metrics_events http_events grpc_events
    builder grpc_server grpc_route_ids reflection_ingress configure ask ask_if ask_tls ask_unary
    Setters.grpc_allow_unauthenticated Setters.config conduct teardown default Counters.new
    configured_intrusion http_route_with HttpJob.register_route HttpJob.check_names HttpJob.new
    HttpJob.add_handler HttpJob.add_pattern GrpcJob.register_route GrpcJob.check_names GrpcJob.new
    GrpcJob.add_handler find put Configs.security with_service_name with_http_bind with_grpc_bind
    with_systemd_notify secure_echo_handler resolve_observer_context GrpcJob.list_route_ids
    observer_context json_decode HttpJob.path_from_url HttpJob.bridge
serve_http_route_example =
    serve_http_route env registry_laws handler (http_decoder display message)
      (json_encode message (λ s. [])) (record posted_only { http_job = none }) posted_only secure
      http_job 5 prepared http_started "/secure-echo" "/secure-echo" post counters refl refl refl
      refl refl refl refl refl refl refl refl
