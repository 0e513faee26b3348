-- ===== src/Serve/Answers.antt =====
-- What the HTTP server that `serve` starts answers, and what its counters count.
use edge_bootstrap.Prelude.{
  ◌+◌, ◌%◌, [], Option, none, some, ok, or_else, is_err, ok-injective, if◌then◌else◌, inl, inr, ◌≡◌,
  refl, arith, ap, sym, ◌∙◌,
}
use mathlib.Core.Option.{some-injective}
use edge_bootstrap.Config.Types.{Foreign}
use edge_bootstrap.Transport.{InboundRequest, HttpIngress, GrpcIngress}
use edge_bootstrap.Adapters.{DefaultIngress, with_http, with_grpc, has_any, empty}
use edge_bootstrap.Dispatch.HttpJob.{HttpJob, http_ingress_job}
use edge_bootstrap.Guard.{Wired}
use edge_bootstrap.Monitor.Floats.{u64_mod}
use edge_bootstrap.Monitor.Provider.{MetricsProvider}
use edge_bootstrap.Monitor.Counters.{TrafficCounters}
use edge_bootstrap.Monitor.Load.{http_load_monitor, record_load}
use edge_bootstrap.Monitor.Load.Balance.{IsSound, record_load_balance}
use edge_bootstrap.Assembly.{
  http_stack, guard_http, monitor_http, choose_ingress, add_http, add_grpc,
}
use edge_bootstrap.Builder.{Parts, Observer, RuntimeBuilder}
use edge_bootstrap.Serve.{Event, HttpServer, Process}
use edge_bootstrap.Serve.Resolve.{Env, resolve_intrusion, configured_intrusion}
use edge_bootstrap.Serve.Servers.{Prepared, http_server}
use edge_bootstrap.Serve.Whole.{prepare, serve, http_job_ingress, grpc_job_ingress}
use edge_bootstrap.Serve.Origin.{serve_of}
use edge_bootstrap.Serve.Secured.{
  http_of, built, prepare_http, launch_http, teardown_http, prepared_security,
}

module _ {x : Foreign} {y : Parts} {W P R G : Type 0} (env : Env x y W P R G)
    (b : RuntimeBuilder x y W P R G) where
  pub prepared_input :
      (s : Process (Event x y (TrafficCounters W)) W) (p : Prepared x y W)
      → (prepare env b s).1 ≡ ok p
      → choose_ingress
          (http_job_ingress env b p.observer)
          b.http_handler
          (grpc_job_ingress env b p.observer)
          b.grpc_handler
        ≡ ok p.input
  unfolding prepare
  prepared_input s p e = ground arith

  pub chosen_http :
      (job handler : Option (HttpIngress W)) (i : DefaultIngress W)
      (gjob ghandler : Option (GrpcIngress W))
      → choose_ingress job handler gjob ghandler ≡ ok i
      → i.http ≡ or_else job handler
  unfolding choose_ingress add_http add_grpc with_http with_grpc empty has_any
  chosen_http job handler i gjob ghandler e = ground arith

  pub prepared_unguarded :
      (s : Process (Event x y (TrafficCounters W)) W) (p : Prepared x y W)
      → (prepare env b s).1 ≡ ok p
      → b.intrusion ≡ none
      → p.config.intrusion ≡ none
      → p.wired ≡ none
  unfolding resolve_intrusion configured_intrusion
  prepared_unguarded s p e unset unconfigured = ground (arith, (prepared_security env b s p e).0)

  stack_unguarded :
      (wired : Option (Wired W)) (given : Option (MetricsProvider x.Float W))
      (provider : MetricsProvider x.Float W) (h : HttpIngress W)
      → wired ≡ none
      → given ≡ some provider
      → http_stack env.floats env.clock given wired h
        ≡ http_load_monitor env.floats provider env.clock h
  unfolding http_stack guard_http monitor_http
  stack_unguarded wired given provider h unguarded provided =
      ap (λ t. guard_http t (monitor_http env.floats env.clock given h)) unguarded
      ∙ ap (λ t. monitor_http env.floats env.clock t h) provided

  pub job_ingress :
      (observer : Observer x W) (job : HttpJob (Observer x W) W P R)
      → b.http_job ≡ some job
      → http_job_ingress env b observer
        ≡ some (
            http_ingress_job env.http_registry env.router env.parse_uri env.into_security_context
              observer job)
  unfolding http_job_ingress
  job_ingress observer job there = ground arith

  built_given :
      (p : Prepared x y W) (h : HttpIngress W)
      → p.input.http ≡ some h
      → built env b p ≡ some (http_server env b p h)
  built_given p h there = rw there refl

  pub started_server :
      (s : Process (Event x y (TrafficCounters W)) W) (p : Prepared x y W)
      (server : HttpServer x y (TrafficCounters W)) (h : HttpIngress W)
      → http_of s.log ≡ none
      → (prepare env b s).1 ≡ ok p
      → http_of (serve env b s).0.log ≡ some server
      → p.input.http ≡ some h
      → server ≡ http_server env b p h
  started_server s p server h before prepared started there =
      elim (serve_of env b http_of (built env b) (λ status log. refl) (prepare_http env b)
        (launch_http env b) (teardown_http env b) s before) [
          | inl nowhere ↦ cc
          | inr (q, done, log) ↦
              let same : q ≡ p = ok-injective q p (sym done ∙ prepared) in
              let shown : built env b p ≡ some server =
                ap (built env b) (sym same) ∙ sym log ∙ started in
              some-injective server (http_server env b p h) (sym shown ∙ built_given p h there)
        ]

  server_unguarded :
      (p : Prepared x y W) (h : HttpIngress W) (provider : MetricsProvider x.Float W)
      → p.wired ≡ none
      → p.provider ≡ some provider
      → (http_server env b p h).handler ≡ http_load_monitor env.floats provider env.clock h
  unfolding http_server
  server_unguarded p h provider unguarded provided =
      stack_unguarded p.wired p.provider provider h unguarded provided

  handles :
      (p : Prepared x y W) (server : HttpServer x y (TrafficCounters W)) (h : HttpIngress W)
      (provider : MetricsProvider x.Float W) (req : InboundRequest)
      → server ≡ http_server env b p h
      → p.wired ≡ none
      → p.provider ≡ some provider
      → server.handler.handle req ≡ record_load env.floats provider env.clock (h.handle req)
  unfolding http_load_monitor
  handles p server h provider req same unguarded provided =
      ap (λ t. t.handler.handle req) same
      ∙ ap (λ t. t.handle req) (server_unguarded p h provider unguarded provided)

  pub server_stream :
      (p : Prepared x y W) (server : HttpServer x y (TrafficCounters W)) (h : HttpIngress W)
      → server ≡ http_server env b p h
      → server.stream ≡ b.stream_handler
  unfolding http_server
  server_stream p server h same = ap (λ t. t.stream) same

  -- `serve` of a builder with an HTTP job and a metrics endpoint, without a stream handler, and with
  -- intrusion rules neither in the builder nor in the configuration: if it starts an HTTP server, then
  -- this server has no stream handler, so that all requests go to its handler, and on sound counters
  -- the handler answers every request as the job does, with the resolved observer, in the world where
  -- the request finds it; it leaves as many requests in flight as before, and counts one request
  -- more, and one error more if and only if the answer is an error.
  pub serve_answers :
      (w : W) (p : Prepared x y W) (server : HttpServer x y (TrafficCounters W))
      (job : HttpJob (Observer x W) W P R) (provider : MetricsProvider x.Float W)
      (req : InboundRequest) (c : TrafficCounters W)
      → let s0 : Process (Event x y (TrafficCounters W)) W = record { log = []; world = w } in
        let ingress =
          http_ingress_job env.http_registry env.router env.parse_uri env.into_security_context
            p.observer job in
        let after = server.handler.handle req c in
        (prepare env b s0).1 ≡ ok p
        → http_of (serve env b s0).0.log ≡ some server
        → b.stream_handler ≡ none
        → b.http_job ≡ some job
        → b.intrusion ≡ none
        → p.config.intrusion ≡ none
        → p.provider ≡ some provider
        → IsSound c
        → (server.stream ≡ none)
          × (after.1 ≡ (ingress.handle req c.world).1)
          × (after.0.requests_in_flight ≡ c.requests_in_flight)
          × (after.0.requests_since_tick ≡ (c.requests_since_tick + 1) % u64_mod)
          × (after.0.errors_since_tick ≡ (
              if is_err (ingress.handle req c.world).1
              then (c.errors_since_tick + 1) % u64_mod
              else c.errors_since_tick))
  serve_answers w p server job provider req c prepared started unstreamed there unset unconfigured
        provided sound =
      let s0 : Process (Event x y (TrafficCounters W)) W = record { log = []; world = w } in
      let ingress =
        http_ingress_job env.http_registry env.router env.parse_uri env.into_security_context
          p.observer job in
      let input : p.input.http ≡ some ingress =
        chosen_http (http_job_ingress env b p.observer) b.http_handler p.input
          (grpc_job_ingress env b p.observer) b.grpc_handler (prepared_input s0 p prepared)
        ∙ ap (λ o. or_else o b.http_handler) (job_ingress p.observer job there) in
      let running = started_server s0 p server ingress refl prepared started input in
      let unguarded = prepared_unguarded s0 p prepared unset unconfigured in
      let monitored = handles p server ingress provider req running unguarded provided in
      let (same, kept, flight, requests, errors) =
        record_load_balance env.floats provider env.clock (ingress.handle req) c sound in
      (
        server_stream p server ingress running ∙ unstreamed,
        rw monitored same,
        rw monitored flight,
        rw monitored requests,
        rw monitored errors,
      )
