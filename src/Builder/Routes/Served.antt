-- ===== src/Builder/Routes/Served.antt =====
-- What the route methods of a builder promise of the jobs that `serve` takes from it.
use edge_bootstrap.Prelude.{
  String, List, ℕ, Option, none, some, Result, ok, err, unwrap_or, ◌≡◌, ◌⊎◌, refl, ap, sym, ◌∙◌,
}
use edge_bootstrap.Config.Types.{Foreign}
use edge_bootstrap.Transport.{HttpRequest, HttpResponse, GrpcRequest}
use edge_bootstrap.Dispatch.Interface.{
  Handler, HandlerContext, Registry, RegistryLaws, PathRouter, PathRouterLaws, JobRegistrationError,
  routing, no_match,
}
use edge_bootstrap.Dispatch.HttpJob
use edge_bootstrap.Dispatch.HttpJob.{HttpHandler, HttpJob}
use edge_bootstrap.Dispatch.HttpJob.Routing.{Built, fresh, registered, find_handler_total}
use edge_bootstrap.Dispatch.GrpcJob
use edge_bootstrap.Dispatch.GrpcJob.{GrpcHandler, GrpcJob, is_registered, respond}
use edge_bootstrap.Dispatch.GrpcJob.Registration.{Later, now, after, registration_lasts}
use edge_bootstrap.Builder.{Parts, Observer, RuntimeBuilder}
use edge_bootstrap.Builder.Routes.{expect, http_route_with, grpc_route_with}

pub expect-eq-some :
    {J B : Type 0} (f : J → B) (r : J × Result JobRegistrationError (Unit {0})) (b : B)
    → expect f r ≡ some b
    → (r.1 ≡ ok tt) × (f r.0 ≡ b)
expect-eq-some f (job, ok tt) b e = (refl, cc)
expect-eq-some f (job, err x) b e = cc

module _ {x : Foreign} {y : Parts} {W P R G : Type 0}
    (reg : Registry R (HttpHandler (Observer x W) W)) (rt : PathRouter P) where
  -- The builders that `Runtime::builder` and any calls lead to: HTTP routes that do not panic, and calls
  -- that keep the HTTP job.
  pub data Assembled : RuntimeBuilder x y W P R G → Type 1 where
    start : {b : RuntimeBuilder x y W P R G} → b.http_job ≡ none → Assembled b
    kept :
        {b b' : RuntimeBuilder x y W P R G} → Assembled b → b'.http_job ≡ b.http_job → Assembled b'
    routed :
        {b b' : RuntimeBuilder x y W P R G} {Req Resp : Type 0}
        (h : Handler (Observer x W) W Req Resp) (decode : HttpRequest → Result String Req)
        (encode : Resp → HttpResponse)
        → Assembled b
        → http_route_with reg rt h decode encode b ≡ some b'
        → Assembled b'

  abbrev http_job_of : RuntimeBuilder x y W P R G → HttpJob (Observer x W) W P R
  http_job_of b = unwrap_or b.http_job (HttpJob.new reg rt)

  Assembled-Built : {b : RuntimeBuilder x y W P R G} → Assembled b → Built reg rt (http_job_of b)
  unfolding http_route_with
  Assembled-Built (start e) = rw e fresh
  Assembled-Built (kept a e) = rw e (Assembled-Built a)
  Assembled-Built (routed {b} {b'} h decode encode a e) =
      let (done, same) =
        expect-eq-some (λ (j : HttpJob (Observer x W) W P R). record b { http_job = some j })
          (HttpJob.register_route reg rt h decode encode (http_job_of b)) b' e in
      let held = ap (λ (c : RuntimeBuilder x y W P R G). c.http_job) (sym same) in
      rw held (registered h decode encode (Assembled-Built a))

  -- Where registry and router keep their laws: the HTTP job of a builder that any calls have assembled,
  -- routes that did not panic among them, has a handler for every path that its router knows: the
  -- lookup fails only with the routing error, and then the router does not know the path.
  pub assembled_routes :
      RegistryLaws reg
      → PathRouterLaws rt
      → {b : RuntimeBuilder x y W P R G} (job : HttpJob (Observer x W) W P R) (path : String)
      → Assembled b
      → b.http_job ≡ some job
      → ((h : HttpHandler (Observer x W) W) × (HttpJob.find_handler reg rt job path ≡ ok h))
        ⊎ ((rt.at job.router path ≡ none)
            × (HttpJob.find_handler reg rt job path ≡ err (routing no_match)))
  assembled_routes laws paths job path a e =
      let built : Built reg rt job = let from = Assembled-Built a in rw e at from in
      find_handler_total reg rt laws paths path built

module _ {x : Foreign} {y : Parts} {W P R G : Type 0}
    (reg : Registry G (GrpcHandler (Observer x W) W)) where
  -- The builders that further calls make of a builder: gRPC routes that do not panic, and calls that
  -- keep the gRPC job.
  pub data Extended (b : RuntimeBuilder x y W P R G) : RuntimeBuilder x y W P R G → Type 1 where
    same : Extended b b
    kept :
        {c c' : RuntimeBuilder x y W P R G}
        → Extended b c
        → c'.grpc_job ≡ c.grpc_job
        → Extended b c'
    routed :
        {c c' : RuntimeBuilder x y W P R G} {Req Resp : Type 0}
        (h : Handler (Observer x W) W Req Resp) (decode : List ℕ → Result String Req)
        (encode : Resp → List ℕ)
        → Extended b c
        → grpc_route_with reg h decode encode c ≡ some c'
        → Extended b c'

  abbrev job_of : RuntimeBuilder x y W P R G → GrpcJob (Observer x W) W G
  job_of b = unwrap_or b.grpc_job (GrpcJob.new reg)

  grpc_route_with-eq-some :
      {Req Resp : Type 0} (h : Handler (Observer x W) W Req Resp)
      (decode : List ℕ → Result String Req) (encode : Resp → List ℕ)
      (b b' : RuntimeBuilder x y W P R G)
      → grpc_route_with reg h decode encode b ≡ some b'
      → ((GrpcJob.register_route reg h decode encode (job_of b)).1 ≡ ok tt)
        × (b'.grpc_job ≡ some (GrpcJob.register_route reg h decode encode (job_of b)).0)
  unfolding grpc_route_with
  grpc_route_with-eq-some h decode encode b b' e =
      let (done, made) =
        expect-eq-some (λ (j : GrpcJob (Observer x W) W G). record b { grpc_job = some j })
          (GrpcJob.register_route reg h decode encode (job_of b)) b' e in
      (done, ap (λ (c : RuntimeBuilder x y W P R G). c.grpc_job) (sym made))

  Extended-Later :
      {b c : RuntimeBuilder x y W P R G} (job : GrpcJob (Observer x W) W G)
      → b.grpc_job ≡ some job
      → Extended b c
      → (later : GrpcJob (Observer x W) W G) × (c.grpc_job ≡ some later) × Later reg job later
  Extended-Later job e same = (job, e, now)
  Extended-Later job e (kept l k) =
      let (later, held, steps) = Extended-Later job e l in (later, k ∙ held, steps)
  Extended-Later job e (routed {c} {c'} h decode encode l k) =
      let (later, held, steps) = Extended-Later job e l in
      let (done, made) = grpc_route_with-eq-some h decode encode c c' k in
      (
        (GrpcJob.register_route reg h decode encode later).0,
        made
            ∙ ap
                (λ (o : Option (GrpcJob (Observer x W) W G)).
                  some
                    (GrpcJob.register_route reg h decode encode (unwrap_or o (GrpcJob.new reg))).0)
                held,
        after h decode encode steps,
      )

  -- Where the registry keeps its laws: a gRPC route that did not panic is served by its handler, whatever
  -- is set and routed on the builder afterwards: the builder's job then runs the method that is the
  -- handler's id by decoding, executing this handler in its pipeline and encoding.
  pub grpc_route_lasts :
      RegistryLaws reg
      → {Req Resp : Type 0} (h : Handler (Observer x W) W Req Resp)
        (decode : List ℕ → Result String Req) (encode : Resp → List ℕ)
        (b b' c : RuntimeBuilder x y W P R G) (w : W)
      → grpc_route_with reg h decode encode b ≡ some b'
      → Extended b' c
      → (job : GrpcJob (Observer x W) W G) × (c.grpc_job ≡ some job)
        × (id : String) × (GrpcJob.check_names reg h ≡ ok id)
        × ((ctx : HandlerContext (Observer x W)) (req : GrpcRequest)
            → req.method ≡ id
            → GrpcJob.run reg job ctx req w
              ≡ respond
                  ((reg.wrap id id (GrpcJob.bridge reg h decode encode)).execute ctx req.body w))
  grpc_route_lasts laws h decode encode b b' c w e l =
      let (done, made) = grpc_route_with-eq-some h decode encode b b' e in
      let first = (GrpcJob.register_route reg h decode encode (job_of b)).0 in
      let (later, held, steps) = Extended-Later first made l in
      let (id, good, runs) =
        registration_lasts reg laws h decode encode (job_of b) later w done steps in
      (later, held, id, good, runs)
