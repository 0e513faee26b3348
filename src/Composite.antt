-- ===== src/Composite.antt =====
-- scm/main/adapter/src/core/composite/composite_grpc_ingress.rs: gRPC reflection beside the service.
use edge_bootstrap.Prelude.{String, if◌then◌else◌, starts_with}
use edge_bootstrap.Transport.{GrpcIngress}

abbrev pub reflection_prefix : String
reflection_prefix = "/grpc.reflection."

module _ {W : Type 0} where
  unfoldable pub route : GrpcIngress W → GrpcIngress W → String → GrpcIngress W
  route primary reflection method =
      if starts_with method reflection_prefix then reflection else primary

  unfoldable pub composite_grpc_ingress : GrpcIngress W → GrpcIngress W → GrpcIngress W
  unfolding route
  composite_grpc_ingress primary reflection = record {
    handle_unary = λ req. (route primary reflection req.request.method).handle_unary req;
    handle_stream = λ req. (route primary reflection req.method).handle_stream req;
    health_check = primary.health_check;
  }
