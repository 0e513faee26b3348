-- ===== src/Dispatch/HttpJob.antt =====
-- scm/main/adapter/src/core/dispatch/default_http_job.rs and http_ingress_job.rs.
pub mod Routing
pub mod Overlap
pub mod Running
use edge_bootstrap.Prelude.{
  String, List, [], ◌∷◌, Bool, true, false, Option, none, some, Result, ok, err, Call, map_err,
  and_then, ok_or, if◌then◌else◌, before, is_empty_text, unwrap_or,
}
use edge_bootstrap.Transport.{
  HttpRequest, HttpResponse, InboundRequest, HttpIngressError, not_found, internal, unavailable,
  HealthCheck, healthy, unhealthy, HttpIngress,
}
use edge_bootstrap.Dispatch.Interface.{
  Handler, HandlerContext, Registry, PathRouter, RoutingError, no_match, JobError,
  handler_unavailable, routing, handler_failed, cancelled, JobRegistrationError,
  registration_failed, handler_rejected, put, all_healthy,
}

abbrev pub HttpHandler : Type 0 → Type 0 → Type 0
HttpHandler O W = Handler O W HttpRequest HttpResponse

pub record HttpJob (O W P R : Type 0) : Type 0 where
  pub router : P
  pub registry : R
  pub health_handlers : List (String × HttpHandler O W)

abbrev pub empty_pattern : String
empty_pattern =
    "Handler::pattern() must not be empty — HTTP routes on pattern, not id; a Handler that only overrides id() compiles, works over gRPC, and would otherwise silently never match any HTTP request"

abbrev pub empty_id : String
empty_id = "Handler::id() must not be empty"

unfoldable pub bridge_result :
    {W Resp A : Type 0} → (Resp → A) → W × Result String Resp → W × Result String A
bridge_result encode (w, ok resp) = (w, ok (encode resp))
bridge_result encode (w, err e) = (w, err e)

module _ {O W P R : Type 0} (reg : Registry R (HttpHandler O W)) (rt : PathRouter P) where
  -- `BridgedHttpHandler`
  unfoldable pub bridge :
      {Req Resp : Type 0}
      → Handler O W Req Resp
      → (HttpRequest → Result String Req)
      → (Resp → HttpResponse)
      → HttpHandler O W
  unfolding bridge_result
  bridge inner decode encode = record {
    id = inner.id;
    pattern = inner.pattern;
    execute = λ ctx req w. elim (decode req) [
      | err e ↦ (w, err (reg.invalid_request e))
      | ok typed ↦ bridge_result encode (inner.execute ctx typed w)
    ];
    health_check = inner.health_check;
  }

  unfoldable pub new : HttpJob O W P R
  new = record { router = rt.empty; registry = reg.empty; health_handlers = [] }

  -- The id and the pattern that a handler registers with.
  unfoldable pub check_names :
      {Req Resp : Type 0} → Handler O W Req Resp → Result JobRegistrationError (String × String)
  check_names h = and_then (map_err handler_rejected h.id) (λ id.
      if is_empty_text id
      then err (handler_rejected empty_id)
      else (and_then (map_err handler_rejected h.pattern) (λ pattern.
          if is_empty_text pattern
          then err (handler_rejected empty_pattern)
          else ok (id, pattern))))

  -- The router's part, after the registry's.
  unfoldable pub add_pattern :
      String → String → HttpJob O W P R → HttpJob O W P R × Result JobRegistrationError (Unit {0})
  add_pattern id pattern job = elim (rt.insert job.router pattern id) [
    | err e ↦ (job, err (registration_failed pattern e))
    | ok p ↦ (record job { router = p }, ok tt)
  ]

  unfoldable pub add_handler :
      String × String
      → HttpHandler O W
      → HttpJob O W P R
      → HttpJob O W P R × Result JobRegistrationError (Unit {0})
  unfolding add_pattern
  add_handler (id, pattern) erased job =
      let (registry, r) = reg.register job.registry id (reg.wrap id pattern erased) in
      let job' = record job {
        health_handlers = put id erased job.health_handlers;
        registry = registry;
      } in
      elim r [ err e ↦ (job', err (handler_rejected e)) | ok _ ↦ add_pattern id pattern job' ]

  unfoldable pub register_route :
      {Req Resp : Type 0}
      → Handler O W Req Resp
      → (HttpRequest → Result String Req)
      → (Resp → HttpResponse)
      → HttpJob O W P R
      → HttpJob O W P R × Result JobRegistrationError (Unit {0})
  register_route h decode encode job = elim (check_names h) [
    | err e ↦ (job, err e)
    | ok names ↦ add_handler names (bridge h decode encode) job
  ]

  -- `parse` is the parser of the http crate, with the path of what it reads.
  unfoldable pub path_from_url : (String → Option String) → String → String
  path_from_url parse url = unwrap_or (parse url) (before b'#' (before b'?' url))

  unfoldable pub route : HttpJob O W P R → String → Result RoutingError String
  route job input = ok_or (rt.at job.router input) no_match

  unfoldable pub find_handler : HttpJob O W P R → String → Result JobError (HttpHandler O W)
  unfolding route
  find_handler job path = and_then (map_err routing (route job path)) (λ id.
      and_then (map_err handler_failed (reg.get job.registry id))
        (λ found. ok_or found (handler_unavailable id)))

  unfoldable pub run :
      (String → Option String)
      → HttpJob O W P R
      → HandlerContext O
      → HttpRequest
      → Call W JobError HttpResponse
  run parse job ctx req w = elim (find_handler job (path_from_url parse req.url)) [
    | err e ↦ (w, err e)
    | ok h ↦ let (w', r) = h.execute ctx req w in (w', map_err handler_failed r)
  ]

  unfoldable pub map_job_error : JobError → HttpIngressError
  map_job_error (handler_unavailable m) = not_found m
  map_job_error (routing no_match) = not_found reg.no_match_text
  map_job_error (handler_failed m) = internal m
  map_job_error cancelled = unavailable "job cancelled"

  unfoldable pub job_health : HttpJob O W P R → Call W HttpIngressError HealthCheck
  job_health job w =
      let (w', up) = all_healthy job.health_handlers w in
      (
        w',
        ok (if up then healthy else unhealthy "one or more registered handlers reported unhealthy"),
      )

  -- `HttpIngressJob`. Each request is handled in the security context that its own context gives, and
  -- with the one observer.
  unfoldable pub http_ingress_job :
      (String → Option String) → (String → String) → O → HttpJob O W P R → HttpIngress W
  unfolding run map_job_error job_health
  http_ingress_job parse into_security_context observer job = record {
    handle = λ req w.
        let ctx : HandlerContext O = record {
          security = into_security_context req.security;
          observer = observer;
        } in
        let (w', r) = run parse job ctx req.request w in (w', map_err map_job_error r);
    health_check = job_health job;
  }
