-- ===== src/Builder/Routes.antt =====
-- The route methods of scm/main/adapter/src/core/runtime/types/runtime_builder.rs. A job that is not there
-- yet is made; a registration that fails panics, which is `none`.
pub mod Served
use edge_bootstrap.Prelude.{
  String, List, ℕ, Option, none, some, Result, ok, err, map_err, unwrap_or,
}
use edge_bootstrap.Config.Types.{Foreign}
use edge_bootstrap.Transport.{HttpRequest, HttpResponse, Display}
use edge_bootstrap.Codec.{Serde, json_decode, json_encode, grpc_json_decode, grpc_json_encode}
use edge_bootstrap.Dispatch.Interface.{Handler, Registry, PathRouter, JobRegistrationError}
use edge_bootstrap.Dispatch.HttpJob
use edge_bootstrap.Dispatch.HttpJob.{HttpHandler, HttpJob}
use edge_bootstrap.Dispatch.GrpcJob
use edge_bootstrap.Dispatch.GrpcJob.{GrpcHandler, GrpcJob}
use edge_bootstrap.Builder.{Parts, Observer, RuntimeBuilder}

-- `result.expect(…)`
abbrev pub expect : {J B : Type 0} → (J → B) → J × Result JobRegistrationError (Unit {0}) → Option B
expect f (job, ok _) = some (f job)
expect f (job, err e) = none

module _ {x : Foreign} {y : Parts} {W P R G : Type 0} where
  unfoldable pub http_route_with :
      Registry R (HttpHandler (Observer x W) W)
      → PathRouter P
      → {Req Resp : Type 0} → Handler (Observer x W) W Req Resp
      → (HttpRequest → Result String Req)
      → (Resp → HttpResponse)
      → RuntimeBuilder x y W P R G
      → Option (RuntimeBuilder x y W P R G)
  http_route_with reg rt h decode encode b =
      let job = unwrap_or b.http_job (HttpJob.new reg rt) in
      expect (λ j. record b { http_job = some j })
        (HttpJob.register_route reg rt h decode encode job)

  unfoldable pub grpc_route_with :
      Registry G (GrpcHandler (Observer x W) W)
      → {Req Resp : Type 0} → Handler (Observer x W) W Req Resp
      → (List ℕ → Result String Req)
      → (Resp → List ℕ)
      → RuntimeBuilder x y W P R G
      → Option (RuntimeBuilder x y W P R G)
  grpc_route_with reg h decode encode b =
      let job = unwrap_or b.grpc_job (GrpcJob.new reg) in
      expect (λ j. record b { grpc_job = some j }) (GrpcJob.register_route reg h decode encode job)

-- The routes with the JSON codec: an error of the decoder is given by its text.
module _ {x : Foreign} {y : Parts} {W P R G : Type 0} (d : Display) where
  unfoldable pub http_route :
      Registry R (HttpHandler (Observer x W) W)
      → PathRouter P
      → (String → List ℕ)
      → {Req Resp : Type 0} → Serde Req
      → Serde Resp
      → Handler (Observer x W) W Req Resp
      → RuntimeBuilder x y W P R G
      → Option (RuntimeBuilder x y W P R G)
  unfolding http_route_with
  http_route reg rt bytes req resp h =
      http_route_with reg rt h (λ r. map_err d.http_ingress_error (json_decode req r))
        (json_encode resp bytes)

  unfoldable pub grpc_route :
      Registry G (GrpcHandler (Observer x W) W)
      → {Req Resp : Type 0} → Serde Req
      → Serde Resp
      → Handler (Observer x W) W Req Resp
      → RuntimeBuilder x y W P R G
      → Option (RuntimeBuilder x y W P R G)
  unfolding grpc_route_with
  grpc_route reg req resp h =
      grpc_route_with reg h (λ body. map_err d.grpc_ingress_error (grpc_json_decode req body))
        (grpc_json_encode resp)
