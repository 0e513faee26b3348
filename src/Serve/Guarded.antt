-- ===== src/Serve/Guarded.antt =====
-- The gRPC server that `serve` starts: its guard and its settings.
use edge_bootstrap.Prelude.{
  String, List, [], ◌∷◌, ◌||◌, Option, none, some, ok, err, or_else, is_some, Option-cases,
  Result-cases, inl, inr, ◌≡◌, refl, arith, ap, sym, ◌∙◌,
}
use mathlib.Core.Option.{some-injective}
use edge_bootstrap.Config.Types.{Foreign}
use edge_bootstrap.Transport.{UnaryRequest, GrpcIngressError, GrpcIngress}
use edge_bootstrap.Monitor.Counters.{TrafficCounters}
use edge_bootstrap.Guard.{Wired, reject, blocked, build_grpc_event, grpc_intrusion_guard}
use edge_bootstrap.Guard.Decisions.{guarded-denied}
use edge_bootstrap.Assembly.{grpc_stack, guard_grpc, reflect, monitor_grpc, wired_uncounted}
use edge_bootstrap.Builder.{Parts, RuntimeBuilder}
use edge_bootstrap.Serve.{Event, serving_grpc, GrpcServer, Setting, Process}
use edge_bootstrap.Serve.Settings.Exact.{wanted, configure_settings}
use edge_bootstrap.Serve.Resolve.{Env}
use edge_bootstrap.Serve.Servers.{
  Prepared, grpc_server, grpc_route_ids, reflection_ingress, http_events, grpc_events,
  metrics_events,
}
use edge_bootstrap.Serve.Teardown.{Spawned, teardown}
use edge_bootstrap.Serve.Whole.{prepare, launch, schedule, serve}
use edge_bootstrap.Serve.Origin.{serve_of}
use edge_bootstrap.Serve.Secured.{prepared_wired}

-- The gRPC server of a log.
abbrev pub grpc_of :
    {x : Foreign} {y : Parts} {V : Type 0} → List (Event x y V) → Option (GrpcServer x y V)
grpc_of [] = none
grpc_of (serving_grpc s ∷ log) = some s
grpc_of (_ ∷ log) = grpc_of log

module _ {x : Foreign} {y : Parts} {W P R G : Type 0} (env : Env x y W P R G)
    (b : RuntimeBuilder x y W P R G) where
  pub prepare_grpc :
      (s : Process (Event x y (TrafficCounters W)) W)
      → grpc_of (prepare env b s).0.log ≡ grpc_of s.log
  unfolding prepare
  prepare_grpc s = ground arith

  abbrev pub built_over :
      Prepared x y W → Option (GrpcIngress W) → Option (GrpcServer x y (TrafficCounters W))
  built_over p none = none
  built_over p (some g) = elim (grpc_server env b p g) [ err e ↦ none | ok server ↦ some server ]

  abbrev pub built : Prepared x y W → Option (GrpcServer x y (TrafficCounters W))
  built p = built_over p p.input.grpc

  pub launch_grpc :
      (p : Prepared x y W) (s : Process (Event x y (TrafficCounters W)) W)
      → grpc_of (launch env b p s).0.log ≡ or_else (built p) (grpc_of s.log)
  unfolding launch schedule http_events grpc_events metrics_events
  launch_grpc p s = ground arith

  pub teardown_grpc :
      (t : Spawned) (s : Process (Event x y (TrafficCounters W)) W)
      → grpc_of (teardown env t s).0.log ≡ grpc_of s.log
  unfolding teardown
  teardown_grpc t s = ground arith

  abbrev pub settings_of : Prepared x y W → List (Setting x y)
  settings_of p =
      wanted env.reflection_info_method (grpc_route_ids env b p)
        (is_some (reflection_ingress env b p)) (or_else b.grpc_tls p.config.grpc_tls)
        b.grpc_interceptors (b.grpc_allow_unauthenticated || p.config.grpc_allow_unauthenticated)

  abbrev pub server_of : Prepared x y W → GrpcIngress W → GrpcServer x y (TrafficCounters W)
  server_of p g = record {
    bind = p.config.grpc_bind;
    handler = grpc_stack env.floats env.clock p.provider (reflection_ingress env b p) p.wired g;
    settings = settings_of p;
  }

  server_made :
      (p : Prepared x y W) (g : GrpcIngress W) (made : GrpcServer x y (TrafficCounters W))
      → grpc_server env b p g ≡ ok made
      → made ≡ server_of p g
  unfolding grpc_server
  server_made p g made e =
      let bare : GrpcServer x y (TrafficCounters W) = record {
        bind = p.config.grpc_bind;
        handler = grpc_stack env.floats env.clock p.provider (reflection_ingress env b p) p.wired g;
        settings = [];
      } in
      configure_settings (λ s. env.refuses s) env.reflection_info_method (grpc_route_ids env b p)
        (is_some (reflection_ingress env b p)) (or_else b.grpc_tls p.config.grpc_tls)
        b.grpc_interceptors (b.grpc_allow_unauthenticated || p.config.grpc_allow_unauthenticated)
        bare made e

  pub built_over_server :
      (p : Prepared x y W) (g : GrpcIngress W) (server : GrpcServer x y (TrafficCounters W))
      → built_over p (some g) ≡ some server
      → server ≡ server_of p g
  built_over_server p g server e = elim (Result-cases (grpc_server env b p g)) [
    | inr (x, failed) ↦
        let shown : built_over p (some g) ≡ none = rw (failed, built_over) refl in cc
    | inl (made, done) ↦
        let shown : built_over p (some g) ≡ some made = rw (done, built_over) refl in
        some-injective server made (sym e ∙ shown) ∙ server_made p g made done
  ]

  built_server :
      (p : Prepared x y W) (server : GrpcServer x y (TrafficCounters W))
      → built p ≡ some server
      → (g : GrpcIngress W) × (server ≡ server_of p g)
  built_server p server e = elim (Option-cases (p.input.grpc)) [
    | inl missing ↦ let shown : built p ≡ none = ap (built_over p) missing in cc
    | inr (g, there) ↦ (g, built_over_server p g server (ap (built_over p) (sym there) ∙ e))
  ]

  server_denies :
      (p : Prepared x y W) (g : GrpcIngress W) (wired : Wired W) (req : UnaryRequest)
      (c : TrafficCounters W) (rule reason : String)
      → p.wired ≡ some wired
      → let event = build_grpc_event wired req.request.method req.peer_ip req.request.metadata in
        (wired.guard (event c.world) c.world).1 ≡ reject rule reason
        → (server_of p g).handler.handle_unary req c ≡ (
          record c { world = (wired.guard (event c.world) c.world).0 },
          err (GrpcIngressError.permission_denied (blocked rule reason)),
        )
  unfolding grpc_stack guard_grpc grpc_intrusion_guard build_grpc_event
  server_denies p g wired req c rule reason given rejected =
      let counted = wired_uncounted wired in
      let inner =
        reflect (reflection_ingress env b p) (monitor_grpc env.floats env.clock p.provider g) in
      ap (λ o. (guard_grpc o inner).handle_unary req c) given
      ∙ (guarded-denied counted GrpcIngressError.permission_denied
          (build_grpc_event counted req.request.method req.peer_ip req.request.metadata)
          (inner.handle_unary req) c rule reason rejected)

  -- `serve` of a builder with intrusion wiring: if it starts a gRPC server, then this server denies every
  -- unary call that the rules engine rejects, those of the reflection service included, with rule and
  -- reason, and changes no counter; and it has exactly the settings that builder and configuration ask
  -- for.
  pub serve_grpc_secured :
      (w : W) (server : GrpcServer x y (TrafficCounters W)) (wired : Wired W) (req : UnaryRequest)
      (c : TrafficCounters W) (rule reason : String)
      → let s0 : Process (Event x y (TrafficCounters W)) W = record { log = []; world = w } in
        let event = build_grpc_event wired req.request.method req.peer_ip req.request.metadata in
        grpc_of (serve env b s0).0.log ≡ some server
        → b.intrusion ≡ some wired
        → (wired.guard (event c.world) c.world).1 ≡ reject rule reason
        → (server.handler.handle_unary req c ≡ (
          record c { world = (wired.guard (event c.world) c.world).0 },
          err (GrpcIngressError.permission_denied (blocked rule reason)),
        ))
          × ((p : Prepared x y W) × ((prepare env b s0).1 ≡ ok p)
              × (server.settings ≡ settings_of p))
  serve_grpc_secured w server wired req c rule reason started given rejected =
      let s0 : Process (Event x y (TrafficCounters W)) W = record { log = []; world = w } in
      elim (serve_of env b grpc_of built (λ status log. refl) prepare_grpc launch_grpc teardown_grpc
        s0 refl) [
          | inl nowhere ↦ cc
          | inr (p, done, log) ↦
              let (g, same) = built_server p server (sym log ∙ started) in
              let settled : (q : Prepared x y W) × ((prepare env b s0).1 ≡ ok q)
                  × (server.settings ≡ settings_of q) =
                (p, done, ap (λ t. t.settings) same) in
              let denied =
                server_denies p g wired req c rule reason
                  (prepared_wired env b s0 p wired done given) rejected in
              (ap (λ t. t.handler.handle_unary req c) same ∙ denied, settled)
        ]
