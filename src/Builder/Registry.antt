-- ===== src/Builder/Registry.antt =====
-- scm/main/port/runtime/src/types/service_registry.rs, and `build_registry` of
-- scm/main/adapter/src/core/runtime/types/runtime_builder.rs.
pub mod Services
use edge_bootstrap.Prelude.{
  String, List, [], ◌∷◌, map, Bool, Option, none, some, Result, ok, err, map_err, and_then,
  if◌then◌else◌,
}
use edge_bootstrap.Config.Types.{Foreign}
use edge_bootstrap.Transport.{HttpEgress, GrpcEgress}
use edge_bootstrap.Dispatch.Interface.{put, find}
use edge_bootstrap.Balancer.{Urls, Pool, load_balanced_http_egress}
use edge_bootstrap.Builder.{Parts, RuntimeBuilder}

pub record ServiceRegistry (W : Type 0) : Type 0 where
  pub http : HttpEgress W
  pub grpc : Option (GrpcEgress W)
  pub services : List (String × HttpEgress W)

module _ {W : Type 0} where
  unfoldable pub new_registry : HttpEgress W → Option (GrpcEgress W) → ServiceRegistry W
  new_registry http grpc = record { http = http; grpc = grpc; services = [] }

  unfoldable pub with_service : String → HttpEgress W → ServiceRegistry W → ServiceRegistry W
  with_service name client r = record r { services = put name client r.services }

  unfoldable pub service : ServiceRegistry W → String → Option (HttpEgress W)
  service r name = find name r.services

  unfoldable pub service_names : ServiceRegistry W → List String
  service_names r = map (λ s. s.0) r.services

-- `LoadbalancerSvc::build_pool`, and whether a configuration lists a backend.
pub record Pools (C W : Type 0) : Type 0 where
  pub build : C → Result String (Pool W)
  pub has_no_backends : C → Bool

module _ {U C W : Type 0} (urls : Urls U) (pools : Pools C W) where
  -- `LoadBalancedHttpEgress::new`
  unfoldable pub new_balanced : HttpEgress W → C → Result String (HttpEgress W)
  new_balanced inner config =
      and_then (map_err (λ e. e) (pools.build config))
        (λ pool. ok (load_balanced_http_egress urls pool inner))

  -- One round of the loop: a service without backends, or whose pool does not build, is left out.
  unfoldable pub add_service : HttpEgress W → String × C → ServiceRegistry W → ServiceRegistry W
  unfolding with_service
  add_service http (name, config) r =
      if pools.has_no_backends config
      then r
      else elim (new_balanced http config) [ err e ↦ r | ok client ↦ with_service name client r ]

  unfoldable pub add_services :
      HttpEgress W → List (String × C) → ServiceRegistry W → ServiceRegistry W
  add_services http [] r = r
  add_services http (s ∷ ss) r = add_services http ss (add_service http s r)

-- What the registry is filled with: the services of an explicit configuration.
unfoldable pub listed :
    {x : Foreign} {y : Parts} {W P R G : Type 0}
    → RuntimeBuilder x y W P R G
    → List (String × x.LoadbalancerConfig)
listed b = elim (b.config) [ none ↦ [] | some config ↦ config.services ]

module _ {x : Foreign} {y : Parts} {U W P R G : Type 0} (urls : Urls U)
    (pools : Pools x.LoadbalancerConfig W) where
  unfoldable pub build_registry : RuntimeBuilder x y W P R G → Option (ServiceRegistry W)
  unfolding new_registry listed
  build_registry b = elim (b.egress_http) [
    | none ↦ none
    | some http ↦ some (add_services urls pools http (listed b) (new_registry http b.egress_grpc))
  ]
