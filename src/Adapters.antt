-- ===== src/Adapters.antt =====
-- The holders of ingress and egress adapters: scm/main/adapter/src/core/ingress/default_ingress.rs,
-- scm/main/adapter/src/core/egress/default_egress.rs and `has_any` of
-- scm/main/port/ingress/src/traits/ingress.rs.
use edge_bootstrap.Prelude.{Bool, Option, none, some, ◌||◌, is_some}
use edge_bootstrap.Transport.{HttpIngress, GrpcIngress, HttpEgress, GrpcEgress}

pub record DefaultIngress (W : Type 0) : Type 0 where
  pub http : Option (HttpIngress W)
  pub grpc : Option (GrpcIngress W)

pub record DefaultEgress (W : Type 0) : Type 0 where
  pub http : HttpEgress W
  pub grpc : Option (GrpcEgress W)

module _ {W : Type 0} where
  unfoldable pub empty : DefaultIngress W
  empty = record { http = none; grpc = none }

  unfoldable pub new_http_ingress : HttpIngress W → DefaultIngress W
  new_http_ingress h = record { http = some h; grpc = none }

  unfoldable pub new_grpc_ingress : GrpcIngress W → DefaultIngress W
  new_grpc_ingress g = record { http = none; grpc = some g }

  unfoldable pub with_http : HttpIngress W → DefaultIngress W → DefaultIngress W
  with_http h i = record i { http = some h }

  unfoldable pub with_grpc : GrpcIngress W → DefaultIngress W → DefaultIngress W
  with_grpc g i = record i { grpc = some g }

  unfoldable pub has_any : DefaultIngress W → Bool
  has_any i = is_some i.http || is_some i.grpc

  unfoldable pub new_http : HttpEgress W → DefaultEgress W
  new_http h = record { http = h; grpc = none }

  unfoldable pub with_grpc_egress : GrpcEgress W → DefaultEgress W → DefaultEgress W
  with_grpc_egress g e = record e { grpc = some g }
