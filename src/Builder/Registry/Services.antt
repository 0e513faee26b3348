-- ===== src/Builder/Registry/Services.antt =====
-- What `build_registry` makes of the services of a configuration.
use edge_bootstrap.Prelude.{
  String, List, [], ◌∷◌, false, Option, none, some, ok, err, or_else, or_else-none, Result-cases,
  Bool-cases, Option-cases, ◌≡◌, ◌↔◌, ◌⊎◌, inl, inr, refl, ap, sym, ◌∙◌, arith, eq_iff,
  if◌then◌else◌,
}
use text.Mathlib.Text.{◌==◌ as str_eq}
use edge_bootstrap.Config.Types.{Foreign}
use edge_bootstrap.Transport.{HttpEgress}
use edge_bootstrap.Dispatch.Interface.{find, find-put, Distinct}
use edge_bootstrap.Balancer.{Urls, Pool, load_balanced_http_egress}
use edge_bootstrap.Builder.{Parts, RuntimeBuilder}
use edge_bootstrap.Builder.Registry.{
  ServiceRegistry, Pools, new_registry, with_service, service, add_service, add_services,
  build_registry, listed, new_balanced,
}

module _ {U C W : Type 0} (urls : Urls U) (pools : Pools C W) (http : HttpEgress W) where
  -- The client that one configuration leads to.
  abbrev client_of : C → Option (HttpEgress W)
  client_of config = if pools.has_no_backends config then none else elim (pools.build config) [
    | err e ↦ none
    | ok pool ↦ some (load_balanced_http_egress urls pool http)
  ]

  abbrev client_opt : Option C → Option (HttpEgress W)
  client_opt none = none
  client_opt (some config) = client_of config

  service-add_service :
      (name : String) (config : C) (r : ServiceRegistry W) (j : String)
      → find j (add_service urls pools http (name, config) r).services ≡ (
          if str_eq name j
          then or_else (client_of config) (find j r.services)
          else find j r.services)
  unfolding add_service new_balanced with_service
  service-add_service name config r j = elim (Bool-cases (pools.has_no_backends config)) [
    | inl empty ↦ rw empty (ground arith)
    | inr some_listed ↦ elim (Result-cases (pools.build config)) [
      | inl (pool, built) ↦
          rw (some_listed, built)
            (find-put r.services name j (load_balanced_http_egress urls pool http))
      | inr (e, failed) ↦ rw (some_listed, failed) (ground arith)
    ]
  ]

  service-add_services :
      (ss : List (String × C)) (r : ServiceRegistry W) (j : String)
      → Distinct ss
      → find j (add_services urls pools http ss r).services
        ≡ or_else (client_opt (find j ss)) (find j r.services)
  unfolding add_services find
  service-add_services [] r j d = refl
  service-add_services ((n, c) ∷ ss) r j (fresh, d) =
      let ih = service-add_services ss (add_service urls pools http (n, c) r) j d in
      let one = service-add_service n c r j in
      elim (Bool-cases (str_eq n j)) [
        | inl same ↦
            let gone : find j ss ≡ none = ap (λ k. find k ss) (sym ((eq_iff n j).0 same)) ∙ fresh in
            rw (ih, one, gone, same) refl
        | inr other ↦ rw (ih, one, other) refl
      ]

  add_service-defaults :
      (s : String × C) (r : ServiceRegistry W)
      → ((add_service urls pools http s r).http ≡ r.http)
        × ((add_service urls pools http s r).grpc ≡ r.grpc)
  unfolding add_service with_service
  add_service-defaults (name, config) r = ground arith

  add_services-defaults :
      (ss : List (String × C)) (r : ServiceRegistry W)
      → ((add_services urls pools http ss r).http ≡ r.http)
        × ((add_services urls pools http ss r).grpc ≡ r.grpc)
  unfolding add_services
  add_services-defaults [] r = (refl, refl)
  add_services-defaults (s ∷ ss) r =
      let (h, g) = add_service-defaults s r in
      let (h', g') = add_services-defaults ss (add_service urls pools http s r) in (h' ∙ h, g' ∙ g)

  -- Both directions of what a lookup of a client says about the configuration it came from.
  client_opt_iff :
      (o : Option C) (client : HttpEgress W)
      → (client_opt o ≡ some client) ↔ (
          (config : C) × (pool : Pool W) × (o ≡ some config)
          × (pools.has_no_backends config ≡ false)
          × (pools.build config ≡ ok pool)
          × (client ≡ load_balanced_http_egress urls pool http))
  client_opt_iff none client = ((λ e. cc), (λ (config, pool, e, a, b, c). cc))
  client_opt_iff (some config) client = (to, from)
    where
      to :
          client_of config ≡ some client
          → (c : C) × (pool : Pool W) × (some config ≡ some c)
            × (pools.has_no_backends c ≡ false)
            × (pools.build c ≡ ok pool)
            × (client ≡ load_balanced_http_egress urls pool http)
      to e = elim (Bool-cases (pools.has_no_backends config)) [
        | inl empty ↦ let shown : client_of config ≡ none = rw empty refl in cc
        | inr full ↦ elim (Result-cases (pools.build config)) [
          | inl (pool, built) ↦
              let shown : client_of config ≡ some (load_balanced_http_egress urls pool http) =
                rw (full, built) refl in
              (config, pool, refl, full, built, cc)
          | inr (x, failed) ↦ let shown : client_of config ≡ none = rw (full, failed) refl in cc
        ]
      ]

      from :
          ((c : C) × (pool : Pool W) × (some config ≡ some c)
            × (pools.has_no_backends c ≡ false)
            × (pools.build c ≡ ok pool)
            × (client ≡ load_balanced_http_egress urls pool http))
          → client_of config ≡ some client
      from (c, pool, e, full, built, same) = ground arith

module _ {x : Foreign} {y : Parts} {U W P R G : Type 0} (urls : Urls U)
    (pools : Pools x.LoadbalancerConfig W) where
  -- Where the services of the explicit configuration, if there is one, have distinct names: a builder
  -- with an HTTP egress client gives a registry that holds this client and the gRPC client of the
  -- builder; and under a name it holds a client exactly if the configuration lists a service of that
  -- name with some backends whose pool builds, and the client then balances over that pool. A
  -- service that is left out changes nothing for the others. Without an HTTP egress client there is
  -- no registry.
  pub build_registry_services :
      (b : RuntimeBuilder x y W P R G)
      → Distinct (listed b)
      → ((b.egress_http ≡ none) × (build_registry urls pools b ≡ none))
        ⊎ ((http : HttpEgress W) × (r : ServiceRegistry W) × (b.egress_http ≡ some http)
            × (build_registry urls pools b ≡ some r)
            × (r.http ≡ http)
            × (r.grpc ≡ b.egress_grpc)
            × ((name : String) (client : HttpEgress W)
                → (service r name ≡ some client) ↔ (
                    (config : x.LoadbalancerConfig) × (pool : Pool W) × (find name (listed b)
                      ≡ some config)
                    × (pools.has_no_backends config ≡ false)
                    × (pools.build config ≡ ok pool)
                    × (client ≡ load_balanced_http_egress urls pool http))))
  unfolding build_registry new_registry service find
  build_registry_services b d = elim (Option-cases (b.egress_http)) [
    | inl missing ↦ inl (missing, rw missing refl)
    | inr (http, given) ↦ inr (
      http,
      add_services urls pools http (listed b) (new_registry http b.egress_grpc),
      given,
      rw given refl,
      (add_services-defaults urls pools http (listed b) (new_registry http b.egress_grpc)).0,
      (add_services-defaults urls pools http (listed b) (new_registry http b.egress_grpc)).1,
      λ name client.
          let start = new_registry http b.egress_grpc in
          let shown = service-add_services urls pools http (listed b) start name d in
          rw (shown ∙ or_else-none (client_opt urls pools http (find name (listed b))))
            (client_opt_iff urls pools http (find name (listed b)) client),
    )
  ]
