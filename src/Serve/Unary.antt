-- ===== src/Serve/Unary.antt =====
-- What the gRPC server that `serve` starts answers on the routes of the builder.
use edge_bootstrap.Prelude.{
  ℕ, String, List, [], Option, none, some, Result, ok, err, or_else, ok-injective, inl, inr, ◌≡◌,
  refl, arith, ap, sym, ◌∙◌,
}
use edge_bootstrap.Config.Types.{Foreign}
use edge_bootstrap.Transport.{HttpIngress, GrpcIngress, GrpcIngressError, internal, GrpcResponse}
use edge_bootstrap.Adapters.{DefaultIngress, with_http, with_grpc, has_any, empty}
use edge_bootstrap.Dispatch.Interface.{Handler, RegistryLaws}
use edge_bootstrap.Dispatch.GrpcJob
use edge_bootstrap.Dispatch.GrpcJob.{GrpcJob, grpc_ingress_job, encode_result}
use edge_bootstrap.Monitor.Counters.{TrafficCounters}
use edge_bootstrap.Assembly.{choose_ingress, add_http, add_grpc}
use edge_bootstrap.Builder.{Parts, Observer, RuntimeBuilder}
use edge_bootstrap.Serve.{Event, GrpcServer, Process}
use edge_bootstrap.Serve.Resolve.{Env}
use edge_bootstrap.Serve.Servers.{Prepared}
use edge_bootstrap.Serve.Whole.{prepare, serve, http_job_ingress, grpc_job_ingress}
use edge_bootstrap.Serve.Origin.{serve_of}
use edge_bootstrap.Serve.Answers.{prepared_input}
use edge_bootstrap.Serve.Guarded.{
  grpc_of, built, built_over, built_over_server, server_of, prepare_grpc, launch_grpc,
  teardown_grpc,
}

-- What an outcome is on the wire.
abbrev pub on_the_wire : Result String (List ℕ) → Result GrpcIngressError GrpcResponse
on_the_wire (ok body) = ok (record { body = body; metadata = [] })
on_the_wire (err e) = err (internal e)

module _ {x : Foreign} {y : Parts} {W P R G : Type 0} (env : Env x y W P R G)
    (b : RuntimeBuilder x y W P R G) where
  chosen_grpc :
      (job handler : Option (GrpcIngress W)) (i : DefaultIngress W)
      (hjob hhandler : Option (HttpIngress W))
      → choose_ingress hjob hhandler job handler ≡ ok i
      → i.grpc ≡ or_else job handler
  unfolding choose_ingress add_http add_grpc with_http with_grpc empty has_any
  chosen_grpc job handler i hjob hhandler e = ground arith

  -- The ingress of a job, with an observer.
  abbrev pub ingress_of : Observer x W → GrpcJob (Observer x W) W G → GrpcIngress W
  ingress_of observer job = grpc_ingress_job env.grpc_registry env.default_stream observer job

  job_ingress :
      (observer : Observer x W) (job : GrpcJob (Observer x W) W G)
      → b.grpc_job ≡ some job
      → grpc_job_ingress env b observer ≡ some (ingress_of observer job)
  unfolding grpc_job_ingress
  job_ingress observer job there = ground arith

  pub prepared_grpc :
      (s : Process (Event x y (TrafficCounters W)) W) (p : Prepared x y W)
      (job : GrpcJob (Observer x W) W G)
      → (prepare env b s).1 ≡ ok p
      → b.grpc_job ≡ some job
      → p.input.grpc ≡ some (ingress_of p.observer job)
  prepared_grpc s p job prepared there =
      chosen_grpc (grpc_job_ingress env b p.observer) b.grpc_handler p.input
        (http_job_ingress env b p.observer) b.http_handler (prepared_input env b s p prepared)
      ∙ ap (λ o. or_else o b.grpc_handler) (job_ingress p.observer job there)

  pub started_grpc :
      (s : Process (Event x y (TrafficCounters W)) W) (p : Prepared x y W)
      (server : GrpcServer x y (TrafficCounters W)) (g : GrpcIngress W)
      → grpc_of s.log ≡ none
      → (prepare env b s).1 ≡ ok p
      → grpc_of (serve env b s).0.log ≡ some server
      → p.input.grpc ≡ some g
      → server ≡ server_of env b p g
  started_grpc s p server g before prepared started there =
      elim (serve_of env b grpc_of (built env b) (λ status log. refl) (prepare_grpc env b)
        (launch_grpc env b) (teardown_grpc env b) s before) [
          | inl nowhere ↦ cc
          | inr (q, done, log) ↦
              let same : q ≡ p = ok-injective q p (sym done ∙ prepared) in
              let shown : built env b p ≡ some server =
                ap (built env b) (sym same) ∙ sym log ∙ started in
              built_over_server env b p g server (ap (built_over env b p) (sym there) ∙ shown)
        ]

  module _ (laws : RegistryLaws env.grpc_registry) {Req Resp : Type 0}
      (h : Handler (Observer x W) W Req Resp) (decode : List ℕ → Result String Req)
      (encode : Resp → List ℕ) where
    -- What the job runs for this handler.
    abbrev pipeline_of : String → GrpcJob.GrpcHandler (Observer x W) W
    pipeline_of id = env.grpc_registry.wrap id id (GrpcJob.bridge env.grpc_registry h decode encode)
