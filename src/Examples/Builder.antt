-- ===== src/Examples/Builder.antt =====
-- Routes, registries, JSON bodies, spans and loaded configurations on small data.
use edge_bootstrap.Prelude.{
  ℕ, ◌+◌, ◌-◌, ◌%◌, String, List, [], ◌∷◌, true, false, none, some, ok, err, or_else, ◌≡◌, ◌↔◌, ◌⊎◌,
  refl,
}
use edge_bootstrap.Transport.{HttpEgress}
use edge_bootstrap.Config.Types.{RuntimeConfig, default}
use edge_bootstrap.Dispatch.Interface.{Handler, find}
use edge_bootstrap.Dispatch.HttpJob
use edge_bootstrap.Dispatch.HttpJob.{HttpHandler}
use edge_bootstrap.Dispatch.GrpcJob
use edge_bootstrap.Dispatch.GrpcJob.{GrpcHandler}
use edge_bootstrap.Balancer.{Pool, load_balanced_http_egress}
use edge_bootstrap.Builder.{RuntimeBuilder, builder}
use edge_bootstrap.Builder.Setters
use edge_bootstrap.Builder.Registry.{ServiceRegistry, Pools, build_registry, service, listed}
use edge_bootstrap.Builder.Registry.Services.{build_registry_services}
use edge_bootstrap.Codec.{Serde}
use edge_bootstrap.Observability.{SpanValue, handler_tracer, finish}
use edge_bootstrap.Observability.Spans.{annotate, last_of, own_values, finish_exports}
use edge_bootstrap.Monitor.Floats.{u64_mod}
use edge_bootstrap.Examples.Fixtures.{clock, egress, TestObserver}
use edge_bootstrap.Examples.Config.{foreign}
use edge_bootstrap.Examples.Dispatch.{registry, echo, urls, pool}
use edge_bootstrap.Examples.Serve.{parts, tracer}

abbrev Service : Type 0
Service =
    RuntimeBuilder foreign parts ℕ (List (String × String))
      (List (String × HttpHandler TestObserver ℕ)) (List (String × GrpcHandler TestObserver ℕ))

-- A configuration is the list of its backends.
abbrev pools : Pools (Unit {0}) ℕ
pools = record { build = λ c. ok pool; has_no_backends = λ c. false }

abbrev configured : RuntimeConfig foreign
configured = record default { services = ("users", tt) ∷ [] }

abbrev with_services : Service
with_services = Setters.config configured (Setters.egress_http egress builder)

build_registry_services_example :
    ((with_services.egress_http ≡ none) × (build_registry urls pools with_services ≡ none))
    ⊎ ((http : HttpEgress ℕ) × (r : ServiceRegistry ℕ) × (with_services.egress_http ≡ some http)
        × (build_registry urls pools with_services ≡ some r)
        × (r.http ≡ http)
        × (r.grpc ≡ with_services.egress_grpc)
        × ((name : String) (client : HttpEgress ℕ)
            → (service r name ≡ some client) ↔ (
                (config : Unit {0}) × (used : Pool ℕ) × (find name (listed with_services)
                  ≡ some config)
                × (pools.has_no_backends config ≡ false)
                × (pools.build config ≡ ok used)
                × (client ≡ load_balanced_http_egress urls used http))))
unfolding listed Setters.config Setters.egress_http builder find
build_registry_services_example = build_registry_services urls pools with_services (refl, tt)

abbrev fresh : Service
fresh = builder

abbrev routed : Service
routed = record fresh {
  grpc_job = some (GrpcJob.register_route registry echo ok (λ body. body) (GrpcJob.new registry)).0;
}

-- Texts are written as no bytes but one, which stands for them.
abbrev serde : Serde ℕ
serde = record {
  from_value = λ v. err "value";
  from_slice = λ body. elim body [ [] ↦ err "empty" | n ∷ rest ↦ ok n ];
  to_vec = λ n. ok (n ∷ []);
}

abbrev double : Handler TestObserver ℕ ℕ ℕ
double = record {
  id = ok "double";
  pattern = ok "/double";
  execute = λ ctx n w. (w + 1, ok (n + n));
  health_check = λ w. (w, ok true);
}

abbrev notes : List (String × String)
notes = ("user", "u1") ∷ ("handler_id", "other") ∷ []

finish_exports_example :
    let s = (handler_tracer tracer clock).start_span "ping" "execute" 3 in
    let done = finish tracer clock (annotate notes s) 8 in
    let own = λ (w : ℕ). own_values "ping" "execute" ((w - 3) % u64_mod) in
    ((object : List (String × SpanValue)) × (done.0 ≡ 9)
      × ((key : String) → find key object ≡ or_else (last_of key notes) (find key (own 8))))
    × ((finish tracer clock done.1 20).0 ≡ 21)
finish_exports_example = finish_exports tracer clock "ping" "execute" notes 3 8 20
