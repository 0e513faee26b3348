-- ===== src/Dispatch/GrpcJob.antt =====
-- scm/main/adapter/src/core/dispatch/default_grpc_job.rs and grpc_ingress_job.rs. A gRPC method is the
-- id of a handler: there is no router beside the registry.
pub mod Registration
pub mod Overlap
use edge_bootstrap.Prelude.{
  ℕ, String, List, [], Option, Result, ok, err, Call, map_err, and_then, ok_or, if◌then◌else◌,
  is_empty_text, Bool, true, false, is_some,
}
use edge_bootstrap.Transport.{
  GrpcRequest, GrpcResponse, UnaryRequest, StreamRequest, GrpcIngressError, unimplemented, internal,
  unavailable, HealthCheck, healthy, unhealthy, GrpcIngress,
}
use edge_bootstrap.Dispatch.Interface.{
  Handler, HandlerContext, Registry, RoutingError, no_match, JobError, handler_unavailable, routing,
  handler_failed, cancelled, JobRegistrationError, registration_failed, handler_rejected, put,
  all_healthy,
}

abbrev pub GrpcHandler : Type 0 → Type 0 → Type 0
GrpcHandler O W = Handler O W (List ℕ) (List ℕ)

pub record GrpcJob (O W R : Type 0) : Type 0 where
  pub registry : R
  pub health_handlers : List (String × GrpcHandler O W)

abbrev pub empty_id : String
empty_id = "Handler::id() must not be empty — gRPC routes on id"

abbrev pub empty_pattern : String
empty_pattern =
    "Handler::pattern() must not be empty — even though gRPC doesn't route on it, HTTP does, and this handler would silently fail to route if registered there too"

abbrev pub taken : String
taken = "a route with this id is already registered"

unfoldable pub encode_result :
    {W Resp : Type 0} → (Resp → List ℕ) → W × Result String Resp → W × Result String (List ℕ)
encode_result encode (w, ok resp) = (w, ok (encode resp))
encode_result encode (w, err e) = (w, err e)

-- What `run` makes of the handler's result.
unfoldable pub respond :
    {W : Type 0} → W × Result String (List ℕ) → W × Result JobError GrpcResponse
respond (w, ok body) = (w, ok (record { body = body; metadata = [] }))
respond (w, err e) = (w, err (handler_failed e))

-- `registry.get(…).map(|r| r.handler.is_some()).unwrap_or(false)`
abbrev pub is_registered : {H : Type 0} → Result String (Option H) → Bool
is_registered (ok found) = is_some found
is_registered (err e) = false

module _ {O W R : Type 0} (reg : Registry R (GrpcHandler O W)) where
  -- `BridgedGrpcHandler`
  unfoldable pub bridge :
      {Req Resp : Type 0}
      → Handler O W Req Resp
      → (List ℕ → Result String Req)
      → (Resp → List ℕ)
      → GrpcHandler O W
  unfolding encode_result
  bridge inner decode encode = record {
    id = inner.id;
    pattern = inner.pattern;
    execute = λ ctx body w. elim (decode body) [
      | err e ↦ (w, err (reg.invalid_request e))
      | ok typed ↦ encode_result encode (inner.execute ctx typed w)
    ];
    health_check = inner.health_check;
  }

  unfoldable pub new : GrpcJob O W R
  new = record { registry = reg.empty; health_handlers = [] }

  -- The id that a handler registers with; its pattern is checked and dropped.
  unfoldable pub check_names :
      {Req Resp : Type 0} → Handler O W Req Resp → Result JobRegistrationError String
  check_names h = and_then (map_err handler_rejected h.id) (λ id.
      if is_empty_text id
      then err (handler_rejected empty_id)
      else (and_then (map_err handler_rejected h.pattern) (λ pattern.
          if is_empty_text pattern then err (handler_rejected empty_pattern) else ok id)))

  -- The steps after the check that the id is free.
  unfoldable pub add_handler :
      String
      → GrpcHandler O W
      → GrpcJob O W R
      → GrpcJob O W R × Result JobRegistrationError (Unit {0})
  add_handler id erased job =
      let (registry, r) = reg.register job.registry id (reg.wrap id id erased) in
      (
        record { registry = registry; health_handlers = put id erased job.health_handlers },
        map_err handler_rejected r,
      )

  unfoldable pub register_route :
      {Req Resp : Type 0}
      → Handler O W Req Resp
      → (List ℕ → Result String Req)
      → (Resp → List ℕ)
      → GrpcJob O W R
      → GrpcJob O W R × Result JobRegistrationError (Unit {0})
  register_route h decode encode job = elim (check_names h) [
    | err e ↦ (job, err e)
    | ok id ↦
        if is_registered (reg.get job.registry id)
        then (job, err (registration_failed id taken))
        else add_handler id (bridge h decode encode) job
  ]

  unfoldable pub route : GrpcJob O W R → String → Result RoutingError String
  route job input = if is_registered (reg.get job.registry input) then ok input else err no_match

  unfoldable pub find_handler : GrpcJob O W R → String → Result JobError (GrpcHandler O W)
  unfolding route
  find_handler job method = and_then (map_err routing (route job method)) (λ id.
      and_then (map_err handler_failed (reg.get job.registry id))
        (λ found. ok_or found (handler_unavailable id)))

  unfoldable pub run : GrpcJob O W R → HandlerContext O → GrpcRequest → Call W JobError GrpcResponse
  run job ctx req w = elim (find_handler job req.method) [
    | err e ↦ (w, err e)
    | ok h ↦ respond (h.execute ctx req.body w)
  ]

  unfoldable pub list_route_ids : GrpcJob O W R → List String
  list_route_ids job = elim (reg.list_ids job.registry) [ err e ↦ [] | ok ids ↦ ids ]

  unfoldable pub map_job_error : JobError → GrpcIngressError
  map_job_error (handler_unavailable m) = unimplemented m
  map_job_error (routing no_match) = unimplemented reg.no_match_text
  map_job_error (handler_failed m) = internal m
  map_job_error cancelled = unavailable "job cancelled"

  unfoldable pub job_health : GrpcJob O W R → Call W GrpcIngressError HealthCheck
  job_health job w =
      let (w', up) = all_healthy job.health_handlers w in
      (
        w',
        ok (if up then healthy else unhealthy "one or more registered handlers reported unhealthy"),
      )

  -- `GrpcIngressJob`; `stream` is the method that the trait itself gives.
  unfoldable pub grpc_ingress_job :
      (StreamRequest → Call W GrpcIngressError GrpcResponse) → O → GrpcJob O W R → GrpcIngress W
  unfolding run map_job_error job_health
  grpc_ingress_job stream observer job = record {
    handle_unary = λ req w.
        let ctx : HandlerContext O = record { security = req.security; observer = observer } in
        let (w', r) = run job ctx req.request w in (w', map_err map_job_error r);
    handle_stream = stream;
    health_check = job_health job;
  }
