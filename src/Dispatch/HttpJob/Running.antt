-- ===== src/Dispatch/HttpJob/Running.antt =====
-- What a registered HTTP handler is given and what becomes of its answer.
use edge_bootstrap.Prelude.{
  String, Option, some, Result, ok, err, map_err, Result-cases, inl, inr, ◌≡◌, refl, arith, ap, sym,
  ◌∙◌,
}
use edge_bootstrap.Transport.{HttpRequest, HttpResponse, InboundRequest, HttpIngressError, internal}
use edge_bootstrap.Dispatch.Interface.{
  Handler, HandlerContext, Registry, RegistryLaws, PathRouter, JobError,
}
use edge_bootstrap.Dispatch.HttpJob.{
  HttpHandler, HttpJob, bridge, check_names, add_handler, add_pattern, register_route, find_handler,
  route, path_from_url, run, map_job_error, http_ingress_job,
}

-- What an outcome is on the wire.
abbrev pub on_the_wire : Result String HttpResponse → Result HttpIngressError HttpResponse
on_the_wire (ok resp) = ok resp
on_the_wire (err e) = err (internal e)

module _ {O W P R : Type 0} (reg : Registry R (HttpHandler O W)) (rt : PathRouter P)
    (laws : RegistryLaws reg) where
  added_registry :
      (id pattern : String) (k : HttpHandler O W) (job : HttpJob O W P R)
      → (add_handler reg rt (id, pattern) k job).0.registry
        ≡ (reg.register job.registry id (reg.wrap id pattern k)).0
  unfolding add_handler add_pattern
  added_registry id pattern k job = ground arith

  added_ok :
      (id pattern : String) (k : HttpHandler O W) (job : HttpJob O W P R)
      → (add_handler reg rt (id, pattern) k job).1 ≡ ok tt
      → (reg.register job.registry id (reg.wrap id pattern k)).1 ≡ ok tt
  unfolding add_handler
  added_ok id pattern k job e = ground arith

  added_found :
      (id pattern : String) (k : HttpHandler O W) (job : HttpJob O W P R)
      → (add_handler reg rt (id, pattern) k job).1 ≡ ok tt
      → reg.get (add_handler reg rt (id, pattern) k job).0.registry id
        ≡ ok (some (reg.wrap id pattern k))
  added_found id pattern k job e =
      ap (λ s. reg.get s id) (added_registry id pattern k job)
      ∙ laws.get_same job.registry id (reg.wrap id pattern k) (added_ok id pattern k job e)

  module _ {Req Resp : Type 0} (h : Handler O W Req Resp) (decode : HttpRequest → Result String Req)
      (encode : Resp → HttpResponse) (job : HttpJob O W P R) where
    pub registered_found :
        (register_route reg rt h decode encode job).1 ≡ ok tt
        → (id : String) × (pattern : String) × (check_names reg rt h ≡ ok (id, pattern))
          × (reg.get (register_route reg rt h decode encode job).0.registry id
              ≡ ok (some (reg.wrap id pattern (bridge reg rt h decode encode))))
    unfolding register_route
    registered_found e = elim (Result-cases (check_names reg rt h)) [
      | inr (x, bad) ↦
          let shown : (register_route reg rt h decode encode job).1 ≡ err x =
            rw (bad, register_route) refl in
          cc
      | inl ((id, pattern), good) ↦
          let same : register_route reg rt h decode encode job
              ≡ add_handler reg rt (id, pattern) (bridge reg rt h decode encode) job =
            rw (good, register_route) refl in
          (
            id,
            pattern,
            good,
            rw same (
                added_found id pattern (bridge reg rt h decode encode) job
                  (ap (λ r. r.1) (sym same) ∙ e)),
          )
    ]

  find_handler-found :
      (job : HttpJob O W P R) (path id : String) (k : HttpHandler O W)
      → rt.at job.router path ≡ some id
      → reg.get job.registry id ≡ ok (some k)
      → find_handler reg rt job path ≡ ok k
  unfolding find_handler route
  find_handler-found job path id k at found = rw at (rw found refl)

  wire :
      (r : W × Result String HttpResponse)
      → let answer : W × Result HttpIngressError HttpResponse =
          (r.0, map_err (map_job_error reg rt) (map_err JobError.handler_failed r.1)) in
        answer ≡ (r.0, on_the_wire r.1)
  unfolding map_job_error
  wire (w, ok resp) = refl
  wire (w, err e) = refl

  pub ingress_answers :
      (parse : String → Option String) (into_security_context : String → String) (observer : O)
      (job : HttpJob O W P R) (id : String) (k : HttpHandler O W) (req : InboundRequest) (w : W)
      → rt.at job.router (path_from_url reg rt parse req.request.url) ≡ some id
      → reg.get job.registry id ≡ ok (some k)
      → let ctx : HandlerContext O = record {
        security = into_security_context req.security;
        observer = observer;
      } in
        let outcome = k.execute ctx req.request w in
        (http_ingress_job reg rt parse into_security_context observer job).handle req w
        ≡ (outcome.0, on_the_wire outcome.1)
  unfolding http_ingress_job run
  ingress_answers parse into_security_context observer job id k req w at found =
      let ctx : HandlerContext O = record {
        security = into_security_context req.security;
        observer = observer;
      } in
      let path = path_from_url reg rt parse req.request.url in
      rw (find_handler-found job path id k at found, run) (wire (k.execute ctx req.request w))
