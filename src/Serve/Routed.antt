-- ===== src/Serve/Routed.antt =====
-- What the HTTP server that `serve` starts answers on the route that the builder was given last.
use edge_bootstrap.Prelude.{
  String, [], none, some, Result, ok, or_else, unwrap_or, ok-injective, ◌≡◌, refl, ap, sym, subst,
  ◌∙◌,
}
use mathlib.Core.Option.{some-injective}
use edge_bootstrap.Config.Types.{Foreign}
use edge_bootstrap.Transport.{InboundRequest, HttpRequest, HttpResponse, HttpIngress}
use edge_bootstrap.Dispatch.Interface.{Handler, HandlerContext, RegistryLaws}
use edge_bootstrap.Dispatch.HttpJob
use edge_bootstrap.Dispatch.HttpJob.{HttpJob, http_ingress_job, path_from_url}
use edge_bootstrap.Dispatch.HttpJob.Running.{on_the_wire, registered_found, ingress_answers}
use edge_bootstrap.Monitor.Counters.{TrafficCounters}
use edge_bootstrap.Assembly.{http_stack, guard_http, monitor_http, http_uncounted}
use edge_bootstrap.Builder.{Parts, Observer, RuntimeBuilder}
use edge_bootstrap.Builder.Routes.{http_route_with}
use edge_bootstrap.Builder.Routes.Served.{expect-eq-some}
use edge_bootstrap.Serve.{Event, HttpServer, Process}
use edge_bootstrap.Serve.Resolve.{Env}
use edge_bootstrap.Serve.Servers.{Prepared, http_server}
use edge_bootstrap.Serve.Whole.{prepare, serve, http_job_ingress, grpc_job_ingress}
use edge_bootstrap.Serve.Secured.{http_of}
use edge_bootstrap.Serve.Answers.{
  prepared_input, prepared_unguarded, chosen_http, job_ingress, started_server, server_stream,
}

module _ {x : Foreign} {y : Parts} {W P R G : Type 0} (env : Env x y W P R G) where
  server_bare :
      (b : RuntimeBuilder x y W P R G) (p : Prepared x y W) (h : HttpIngress W)
      → p.wired ≡ none
      → p.provider ≡ none
      → (http_server env b p h).handler ≡ http_uncounted h
  unfolding http_server http_stack guard_http monitor_http
  server_bare b p h unguarded unmonitored =
      ap (λ t. guard_http t (monitor_http env.floats env.clock p.provider h)) unguarded
      ∙ ap (λ t. monitor_http env.floats env.clock t h) unmonitored

  bare_call :
      (h : HttpIngress W) (req : InboundRequest) (c : TrafficCounters W)
      → (http_uncounted h).handle req c
        ≡ (record c { world = (h.handle req c.world).0 }, (h.handle req c.world).1)
  unfolding http_uncounted
  bare_call h req c = refl

  module _ (laws : RegistryLaws env.http_registry) {Req Resp : Type 0}
      (h : Handler (Observer x W) W Req Resp) (decode : HttpRequest → Result String Req)
      (encode : Resp → HttpResponse) where
    routed_job :
        (b0 b1 : RuntimeBuilder x y W P R G)
        → http_route_with env.http_registry env.router h decode encode b0 ≡ some b1
        → (job : HttpJob (Observer x W) W P R) × (b1.http_job ≡ some job)
          × (id : String) × (pattern : String) × (HttpJob.check_names env.http_registry env.router h
              ≡ ok (id, pattern))
          × (env.http_registry.get job.registry id
              ≡ ok (
                  some (
                    env.http_registry.wrap id pattern
                      (HttpJob.bridge env.http_registry env.router h decode encode))))
    unfolding http_route_with
    routed_job b0 b1 e =
        let first = unwrap_or b0.http_job (HttpJob.new env.http_registry env.router) in
        let made = HttpJob.register_route env.http_registry env.router h decode encode first in
        let (done, same) =
          expect-eq-some (λ (j : HttpJob (Observer x W) W P R). record b0 { http_job = some j })
            made b1 e in
        let (id, pattern, checked, found) =
          registered_found env.http_registry env.router laws h decode encode first done in
        (
          made.0,
          ap (λ (c : RuntimeBuilder x y W P R G). c.http_job) (sym same),
          id,
          pattern,
          checked,
          found,
        )

    route_found :
        (b0 b1 : RuntimeBuilder x y W P R G) (job : HttpJob (Observer x W) W P R)
        (id pattern : String)
        → http_route_with env.http_registry env.router h decode encode b0 ≡ some b1
        → b1.http_job ≡ some job
        → HttpJob.check_names env.http_registry env.router h ≡ ok (id, pattern)
        → env.http_registry.get job.registry id
          ≡ ok (
              some (
                env.http_registry.wrap id pattern
                  (HttpJob.bridge env.http_registry env.router h decode encode)))
    route_found b0 b1 job id pattern routed there named =
        let (made, held, i, q, checked, found) = routed_job b0 b1 routed in
        let one : made ≡ job = some-injective made job (sym held ∙ there) in
        let pair : (i, q) ≡ (id, pattern) =
          ok-injective (i, q) (id, pattern) (sym checked ∙ named) in
        let bridged = HttpJob.bridge env.http_registry env.router h decode encode in
        let served = λ (j : HttpJob (Observer x W) W P R) (v : String × String).
          env.http_registry.get j.registry v.0
          ≡ ok (some (env.http_registry.wrap v.0 v.1 bridged)) in
        subst (λ j. served j (id, pattern)) one (subst (served made) pair found)

    -- Where the registry keeps its laws: `serve` of a builder whose last HTTP route did not panic,
    -- without stream handler, intrusion rules and metrics endpoint: if it starts an HTTP server, then
    -- this server has no stream handler, so that all requests go to its handler, and on a URL whose
    -- path the router leads to the handler's id, the handler executes the pipeline around this
    -- handler with its decoder and encoder, once, in the security context that the request's context
    -- gives and with the resolved observer, and answers what the pipeline gives, or its error as an
    -- internal one; the counters stay as they are.
    pub serve_http_route :
        (b0 b1 b : RuntimeBuilder x y W P R G) (job : HttpJob (Observer x W) W P R) (w : W)
        (p : Prepared x y W) (server : HttpServer x y (TrafficCounters W)) (id pattern : String)
        (req : InboundRequest) (c : TrafficCounters W)
        → let s0 : Process (Event x y (TrafficCounters W)) W = record { log = []; world = w } in
          let ctx : HandlerContext (Observer x W) = record {
            security = env.into_security_context req.security;
            observer = p.observer;
          } in
          let pipeline =
            env.http_registry.wrap id pattern
              (HttpJob.bridge env.http_registry env.router h decode encode) in
          let outcome = pipeline.execute ctx req.request c.world in
          http_route_with env.http_registry env.router h decode encode b0 ≡ some b1
          → b1.http_job ≡ some job
          → b.http_job ≡ some job
          → HttpJob.check_names env.http_registry env.router h ≡ ok (id, pattern)
          → (prepare env b s0).1 ≡ ok p
          → http_of (serve env b s0).0.log ≡ some server
          → b.stream_handler ≡ none
          → b.intrusion ≡ none
          → p.config.intrusion ≡ none
          → p.provider ≡ none
          → env.router.at job.router
              (path_from_url env.http_registry env.router env.parse_uri req.request.url)
            ≡ some id
          → (server.stream ≡ none)
            × (server.handler.handle req c
                ≡ (record c { world = outcome.0 }, on_the_wire outcome.1))
    serve_http_route b0 b1 b job w p server id pattern req c routed there held named prepared
          started unstreamed unset unconfigured unmonitored at =
        let s0 : Process (Event x y (TrafficCounters W)) W = record { log = []; world = w } in
        let g =
          http_ingress_job env.http_registry env.router env.parse_uri env.into_security_context
            p.observer job in
        let found = route_found b0 b1 job id pattern routed there named in
        let input : p.input.http ≡ some g =
          chosen_http env b (http_job_ingress env b p.observer) b.http_handler p.input
            (grpc_job_ingress env b p.observer) b.grpc_handler (prepared_input env b s0 p prepared)
          ∙ ap (λ o. or_else o b.http_handler) (job_ingress env b p.observer job held) in
        let running = started_server env b s0 p server g refl prepared started input in
        let bare =
          server_bare b p g (prepared_unguarded env b s0 p prepared unset unconfigured)
            unmonitored in
        let handled =
          ap (λ t. t.handler.handle req c) running
          ∙ ap (λ t. t.handle req c) bare
          ∙ bare_call g req c in
        let pipeline =
          env.http_registry.wrap id pattern
            (HttpJob.bridge env.http_registry env.router h decode encode) in
        (
          server_stream env b p server g running ∙ unstreamed,
          rw handled (
              ap (λ r. (record c { world = r.0 }, r.1))
                (ingress_answers env.http_registry env.router laws env.parse_uri
                  env.into_security_context p.observer job id pipeline req c.world at found)),
        )
