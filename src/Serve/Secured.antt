-- ===== src/Serve/Secured.antt =====
-- The HTTP server that `serve` starts, and the security that the builder was given.
use edge_bootstrap.Prelude.{
  String, List, [], ◌∷◌, Option, none, some, ok, err, or_else, Option-cases, inl, inr, ◌≡◌, refl,
  arith, sym, ◌∙◌,
}
use mathlib.Core.Option.{some-injective}
use edge_bootstrap.Config.Types.{Foreign}
use edge_bootstrap.Transport.{InboundRequest, HttpIngressError, HttpIngress}
use edge_bootstrap.Monitor.Counters.{TrafficCounters}
use edge_bootstrap.Guard.{Wired, reject, blocked, build_http_event, http_intrusion_guard}
use edge_bootstrap.Guard.Decisions.{guarded-denied}
use edge_bootstrap.Assembly.{http_stack, guard_http, monitor_http, wired_uncounted}
use edge_bootstrap.Builder.{Parts, RuntimeBuilder}
use edge_bootstrap.Serve.{Event, serving, HttpServer, Process}
use edge_bootstrap.Serve.Resolve.{Env, resolve_intrusion, resolve_verifier}
use edge_bootstrap.Serve.Servers.{Prepared, http_server, http_events, grpc_events, metrics_events}
use edge_bootstrap.Serve.Teardown.{Spawned, teardown}
use edge_bootstrap.Serve.Whole.{prepare, launch, schedule, serve}
use edge_bootstrap.Serve.Origin.{serve_of}

-- The HTTP server of a log.
abbrev pub http_of :
    {x : Foreign} {y : Parts} {V : Type 0} → List (Event x y V) → Option (HttpServer x y V)
http_of [] = none
http_of (serving s ∷ log) = some s
http_of (_ ∷ log) = http_of log

module _ {x : Foreign} {y : Parts} {W P R G : Type 0} (env : Env x y W P R G)
    (b : RuntimeBuilder x y W P R G) where
  pub prepare_http :
      (s : Process (Event x y (TrafficCounters W)) W)
      → http_of (prepare env b s).0.log ≡ http_of s.log
  unfolding prepare
  prepare_http s = ground arith

  abbrev pub built : Prepared x y W → Option (HttpServer x y (TrafficCounters W))
  built p = elim (p.input.http) [ none ↦ none | some h ↦ some (http_server env b p h) ]

  pub launch_http :
      (p : Prepared x y W) (s : Process (Event x y (TrafficCounters W)) W)
      → http_of (launch env b p s).0.log ≡ or_else (built p) (http_of s.log)
  unfolding launch schedule http_events grpc_events metrics_events
  launch_http p s = ground arith

  pub teardown_http :
      (t : Spawned) (s : Process (Event x y (TrafficCounters W)) W)
      → http_of (teardown env t s).0.log ≡ http_of s.log
  unfolding teardown
  teardown_http t s = ground arith

  pub prepared_security :
      (s : Process (Event x y (TrafficCounters W)) W) (p : Prepared x y W)
      → (prepare env b s).1 ≡ ok p
      → (resolve_intrusion env b p.config ≡ ok p.wired)
        × (resolve_verifier env b p.config ≡ ok p.verifier)
  unfolding prepare
  prepared_security s p e = ground arith

  prepared_verifier :
      (s : Process (Event x y (TrafficCounters W)) W) (p : Prepared x y W)
      → (prepare env b s).1 ≡ ok p
      → or_else b.http_bearer_verifier p.verifier ≡ p.verifier
  unfolding resolve_verifier
  prepared_verifier s p e = ground (arith, (prepared_security s p e).1)

  pub prepared_wired :
      (s : Process (Event x y (TrafficCounters W)) W) (p : Prepared x y W) (wired : Wired W)
      → (prepare env b s).1 ≡ ok p
      → b.intrusion ≡ some wired
      → p.wired ≡ some wired
  unfolding resolve_intrusion
  prepared_wired s p wired e given = ground (arith, (prepared_security s p e).0)

  built_server :
      (p : Prepared x y W) (server : HttpServer x y (TrafficCounters W))
      → built p ≡ some server
      → (h : HttpIngress W) × (server ≡ http_server env b p h)
  built_server p server e = elim (Option-cases (p.input.http)) [
    | inl missing ↦ let shown : built p ≡ none = rw missing refl in cc
    | inr (h, there) ↦
        let shown : built p ≡ some (http_server env b p h) = rw there refl in
        (h, some-injective server (http_server env b p h) (sym e ∙ shown))
  ]

  server_tls :
      (p : Prepared x y W) (h : HttpIngress W)
      → or_else b.http_tls (http_server env b p h).tls ≡ (http_server env b p h).tls
  unfolding http_server
  server_tls p h = ground arith

  server_denies :
      (p : Prepared x y W) (h : HttpIngress W) (wired : Wired W) (req : InboundRequest)
      (c : TrafficCounters W) (rule reason : String)
      → p.wired ≡ some wired
      → (wired.guard (build_http_event wired req c.world) c.world).1 ≡ reject rule reason
      → (http_server env b p h).handler.handle req c ≡ (
        record c { world = (wired.guard (build_http_event wired req c.world) c.world).0 },
        err (HttpIngressError.permission_denied (blocked rule reason)),
      )
  unfolding http_server http_stack guard_http http_intrusion_guard build_http_event
  server_denies p h wired req c rule reason given rejected =
      let counted = wired_uncounted wired in
      rw given (
        guarded-denied counted HttpIngressError.permission_denied (build_http_event counted req)
          ((monitor_http env.floats env.clock p.provider h).handle req) c rule reason rejected)

  -- `serve` of a builder with intrusion wiring and without a stream handler: if it starts an HTTP
  -- server, then this server has no stream handler either, so that all requests go to its handler;
  -- its handler denies every request that the rules engine rejects, with rule and reason, and
  -- changes no counter; and the server has the TLS configuration and the token verifier of the
  -- builder, where the builder has them, whatever the configuration says.
  pub serve_secured :
      (w : W) (server : HttpServer x y (TrafficCounters W)) (wired : Wired W) (req : InboundRequest)
      (c : TrafficCounters W) (rule reason : String)
      → http_of (serve env b (record { log = []; world = w })).0.log ≡ some server
      → b.stream_handler ≡ none
      → b.intrusion ≡ some wired
      → (wired.guard (build_http_event wired req c.world) c.world).1 ≡ reject rule reason
      → (server.stream ≡ none)
        × (server.handler.handle req c ≡ (
          record c { world = (wired.guard (build_http_event wired req c.world) c.world).0 },
          err (HttpIngressError.permission_denied (blocked rule reason)),
        ))
        × (or_else b.http_tls server.tls ≡ server.tls)
        × (or_else b.http_bearer_verifier server.verifier ≡ server.verifier)
  unfolding http_server
  serve_secured w server wired req c rule reason started unstreamed given rejected =
      let s0 : Process (Event x y (TrafficCounters W)) W = record { log = []; world = w } in
      elim (serve_of env b http_of built (λ status log. refl) prepare_http launch_http teardown_http
        s0 refl) [
          | inl nowhere ↦ cc
          | inr (p, done, log) ↦
              let (h, same) = built_server p server (sym log ∙ started) in
              rw same (
                unstreamed,
                server_denies p h wired req c rule reason (prepared_wired s0 p wired done given)
                    rejected,
                server_tls p h,
                prepared_verifier s0 p done,
              )
        ]
