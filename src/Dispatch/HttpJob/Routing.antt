-- ===== src/Dispatch/HttpJob/Routing.antt =====
-- Registration and routing together: what a job that was built by registrations can do.
use edge_bootstrap.Prelude.{
  String, none, some, Result, ok, err, Result-cases, ◌≡◌, ◌≢◌, ◌⊎◌, inl, inr, refl, sym, ◌∙◌,
  eq_iff, Bool-cases, Option-cases,
}
use text.Mathlib.Text.{◌==◌ as str_eq}
use edge_bootstrap.Transport.{HttpRequest, HttpResponse}
use edge_bootstrap.Dispatch.Interface.{
  Handler, Registry, RegistryLaws, PathRouter, PathRouterLaws, no_match, routing,
  registration_failed, handler_rejected, put, find, find-put,
}
use edge_bootstrap.Dispatch.HttpJob.{
  HttpHandler, HttpJob, bridge, new, check_names, add_handler, add_pattern, register_route,
  find_handler,
}

module _ {O W P R : Type 0} (reg : Registry R (HttpHandler O W)) (rt : PathRouter P) where
  -- Every path that is routed has a handler.
  abbrev pub IsRoutable : HttpJob O W P R → Type 0
  IsRoutable job =
      (path id : String)
      → rt.at job.router path ≡ some id
      → (h : HttpHandler O W) × (reg.get job.registry id ≡ ok (some h))

  -- The jobs that registrations build, those that fail included.
  pub data Built : HttpJob O W P R → Type 1 where
    fresh : Built (new reg rt)
    registered :
        {job : HttpJob O W P R} {Req Resp : Type 0} (h : Handler O W Req Resp)
        (decode : HttpRequest → Result String Req) (encode : Resp → HttpResponse)
        → Built job
        → Built (register_route reg rt h decode encode job).0

  module _ (laws : RegistryLaws reg) (paths : PathRouterLaws rt) where
    same_or_not : (id j : String) → (j ≡ id) ⊎ (j ≢ id)
    same_or_not id j = elim (Bool-cases (str_eq j id)) [
      | inl e ↦ inl ((eq_iff j id).0 e)
      | inr e ↦ inr (λ q. cc (sym ((eq_iff j id).1 q) ∙ e))
    ]

    -- A registration keeps a handler for every id that has one.
    pub get-register :
        (s : R) (id j : String) (h k : HttpHandler O W)
        → reg.get s j ≡ ok (some k)
        → (k' : HttpHandler O W) × (reg.get (reg.register s id h).0 j ≡ ok (some k'))
    get-register s id j h k g = elim (Result-cases (reg.register s id h).1) [
      | inr (e, failed) ↦ (k, laws.get_failed s id j h e failed ∙ g)
      | inl (u, done) ↦ elim (same_or_not id j) [
        | inl same ↦ (h, rw same (laws.get_same s id h done))
        | inr other ↦ (k, laws.get_other s id j h other ∙ g)
      ]
    ]

    module _ (id pattern : String) (h : HttpHandler O W) (job : HttpJob O W P R) where
      -- What a registration has changed by the time the router is asked.
      abbrev stored : HttpJob O W P R
      stored = record job {
        health_handlers = put id h job.health_handlers;
        registry = (reg.register job.registry id (reg.wrap id pattern h)).0;
      }

      add_handler_failed :
          (e : String)
          → (reg.register job.registry id (reg.wrap id pattern h)).1 ≡ err e
          → add_handler reg rt (id, pattern) h job ≡ (stored, err (handler_rejected e))
      unfolding add_handler
      add_handler_failed e failed = rw (failed, add_handler) refl

      add_handler_refused :
          (e : String)
          → (reg.register job.registry id (reg.wrap id pattern h)).1 ≡ ok tt
          → rt.insert job.router pattern id ≡ err e
          → add_handler reg rt (id, pattern) h job ≡ (stored, err (registration_failed pattern e))
      unfolding add_handler
      add_handler_refused e done refused = rw (done, add_handler) (rw (refused, add_pattern) refl)

      add_handler_done :
          (p : P)
          → (reg.register job.registry id (reg.wrap id pattern h)).1 ≡ ok tt
          → rt.insert job.router pattern id ≡ ok p
          → add_handler reg rt (id, pattern) h job ≡ (record stored { router = p }, ok tt)
      unfolding add_handler
      add_handler_done p done inserted = rw (done, add_handler) (rw (inserted, add_pattern) refl)

      stored-IsRoutable : IsRoutable job → IsRoutable stored
      stored-IsRoutable routable path j at =
          let (k, g) = routable path j at in
          get-register job.registry id j (reg.wrap id pattern h) k g

      grown-IsRoutable :
          (p : P)
          → (reg.register job.registry id (reg.wrap id pattern h)).1 ≡ ok tt
          → rt.insert job.router pattern id ≡ ok p
          → IsRoutable job
          → IsRoutable (record stored { router = p })
      grown-IsRoutable p done inserted routable path j at =
          elim (paths.at_insert job.router p pattern id path j inserted at) [
            | inl old ↦ stored-IsRoutable routable path j old
            | inr same ↦ (
              reg.wrap id pattern h,
              rw same (laws.get_same job.registry id (reg.wrap id pattern h) done),
            )
          ]

      add_handler-IsRoutable :
          IsRoutable job → IsRoutable (add_handler reg rt (id, pattern) h job).0
      add_handler-IsRoutable routable =
          elim (Result-cases (reg.register job.registry id (reg.wrap id pattern h)).1) [
            | inr (e, failed) ↦ rw (add_handler_failed e failed) (stored-IsRoutable routable)
            | inl (u, done) ↦ elim (Result-cases (rt.insert job.router pattern id)) [
              | inr (e, refused) ↦
                  rw (add_handler_refused e done refused) (stored-IsRoutable routable)
              | inl (p, inserted) ↦
                  rw (add_handler_done p done inserted) (grown-IsRoutable p done inserted routable)
            ]
          ]

    register_route-IsRoutable :
        {Req Resp : Type 0} (h : Handler O W Req Resp) (decode : HttpRequest → Result String Req)
        (encode : Resp → HttpResponse) (job : HttpJob O W P R)
        → IsRoutable job
        → IsRoutable (register_route reg rt h decode encode job).0
    unfolding register_route
    register_route-IsRoutable h decode encode job routable =
        elim (Result-cases (check_names reg rt h)) [
          | inr (e, bad) ↦ rw (bad, register_route) routable
          | inl ((id, pattern), good) ↦
              rw (good, register_route)
                (add_handler-IsRoutable id pattern (bridge reg rt h decode encode) job routable)
        ]

    Built-IsRoutable : {job : HttpJob O W P R} → Built job → IsRoutable job
    unfolding new
    Built-IsRoutable fresh path id at = cc (paths.at_empty path)
    Built-IsRoutable (registered {job} h decode encode b) path id at =
        register_route-IsRoutable h decode encode job (Built-IsRoutable b) path id at

    -- Where registry and router keep their laws: on a job built by any registrations, those that
    -- failed included, a path that the router knows always leads to a handler: the lookup fails
    -- only with the routing error, and then the router does not know the path.
    pub find_handler_total :
        {job : HttpJob O W P R} (path : String)
        → Built job
        → ((h : HttpHandler O W) × (find_handler reg rt job path ≡ ok h))
          ⊎ ((rt.at job.router path ≡ none)
              × (find_handler reg rt job path ≡ err (routing no_match)))
    unfolding find_handler
    find_handler_total {job} path b = elim (Option-cases (rt.at job.router path)) [
      | inl missing ↦ inr (missing, rw missing)
      | inr (id, at) ↦ let (h, found) = Built-IsRoutable b path id at in inl (h, rw (at, found))
    ]

    -- Where registry and router keep their laws: a registration that the registry takes but whose
    -- pattern the router refuses fails, but not without effect: the new handler has replaced the
    -- one registered under its id, in the registry and for the health check, while the routes stay
    -- as they were.
    pub refused_pattern_replaces :
        {Req Resp : Type 0} (h : Handler O W Req Resp) (decode : HttpRequest → Result String Req)
        (encode : Resp → HttpResponse) (job : HttpJob O W P R) (id pattern e : String)
        → check_names reg rt h ≡ ok (id, pattern)
        → (reg.register job.registry id (reg.wrap id pattern (bridge reg rt h decode encode))).1
          ≡ ok tt
        → rt.insert job.router pattern id ≡ err e
        → let after = register_route reg rt h decode encode job in
          let bridged = bridge reg rt h decode encode in
          (after.1 ≡ err (registration_failed pattern e))
          × (after.0.router ≡ job.router)
          × (reg.get after.0.registry id ≡ ok (some (reg.wrap id pattern bridged)))
          × (find id after.0.health_handlers ≡ some bridged)
    unfolding register_route
    refused_pattern_replaces h decode encode job id pattern e names done refused =
        let bridged = bridge reg rt h decode encode in
        rw (names, register_route)
          (rw (add_handler_refused id pattern bridged job e done refused) (
            refl,
            refl,
            laws.get_same job.registry id (reg.wrap id pattern bridged) done,
            rw (find-put job.health_handlers id id bridged, (eq_iff id id).1 refl) refl,
          ))
