-- ===== src/Examples/Overlap.antt =====
-- A registration of a gRPC method and two of an HTTP page, step by step.
use edge_bootstrap.Prelude.{some, ok, ℕ, String, List, [], ◌∷◌, true, ◌≡◌, refl, is_some}
use edge_bootstrap.Dispatch.Stages.{set_stage}
use edge_bootstrap.Dispatch.Interface.{find, put}
use edge_bootstrap.Dispatch.GrpcJob
use edge_bootstrap.Dispatch.GrpcJob.{GrpcHandler}
use edge_bootstrap.Dispatch.GrpcJob.Overlap.{
  Shared, Reach, here, next, check, keep, finish, quiet, idle, checked, stored, store, publish,
  served_checked,
}
use edge_bootstrap.Dispatch.HttpJob
use edge_bootstrap.Dispatch.HttpJob.{HttpHandler}
use edge_bootstrap.Dispatch.HttpJob.Overlap as Http
use edge_bootstrap.Dispatch.HttpJob.Overlap.Sound.{routed_finds}
use edge_bootstrap.Examples.Fixtures.{TestObserver, response}
use edge_bootstrap.Examples.Dispatch.{registry, registry_laws, router, router_laws, echo}

abbrev H : Type 0
H = GrpcHandler TestObserver ℕ

abbrev Job : Type 0
Job = Shared TestObserver ℕ (List (String × H))

-- One registration alone.
abbrev alone : Job
alone = record {
  job = record {
    registry = ("pkg.Echo/Say", echo) ∷ [];
    health_handlers = ("pkg.Echo/Say", echo) ∷ [];
  };
  stages = set_stage 0 idle (
      set_stage 0 (stored "pkg.Echo/Say" echo)
        (set_stage 0 (checked "pkg.Echo/Say" echo) (λ i. idle)));
}

alone-Reach : Reach registry (quiet registry) alone
unfolding GrpcJob.new store publish put find
alone-Reach =
    next
      (next (next here (check 0 "pkg.Echo/Say" echo refl refl)) (keep 0 "pkg.Echo/Say" echo refl))
      (finish 0 "pkg.Echo/Say" echo refl)

served_checked_example : is_some (find "pkg.Echo/Say" alone.job.health_handlers) ≡ true
unfolding find
served_checked_example =
    served_checked registry registry_laws alone "pkg.Echo/Say" echo alone-Reach refl

abbrev page : HttpHandler TestObserver ℕ
page = record {
  id = ok "page";
  pattern = ok "/page";
  execute = λ ctx req w. (w, ok response);
  health_check = λ w. (w, ok true);
}

abbrev Paths : Type 0
Paths = List (String × String)

abbrev Pages : Type 0
Pages = Http.Shared TestObserver ℕ Paths (List (String × HttpHandler TestObserver ℕ))

-- A page that is served.
abbrev one_page : Pages
one_page = record {
  job = record {
    router = ("/page", "page") ∷ [];
    registry = ("page", page) ∷ [];
    health_handlers = ("page", page) ∷ [];
  };
  stages = set_stage 0 Http.idle (
      set_stage 0 (Http.published "page" "/page" page)
        (set_stage 0 (Http.stored "page" "/page" page) (λ i. Http.idle)));
}

one_page-Reach : Http.Reach registry router (Http.quiet registry router) one_page
unfolding HttpJob.new Http.store Http.publish put find
one_page-Reach =
    Http.next
      (Http.next (Http.next Http.here (Http.keep 0 "page" "/page" page refl))
        (Http.accept 0 "page" "/page" page refl refl))
      (Http.finish 0 "page" "/page" page (("/page", "page") ∷ []) refl refl)

-- A second registration of its id has begun.
abbrev replaced : Pages
replaced = record {
  job = record (one_page.job) { health_handlers = ("page", page) ∷ [] };
  stages = set_stage 1 (Http.stored "page" "/other" page) one_page.stages;
}

replaced-Reach : Http.Reach registry router one_page replaced
unfolding Http.store put
replaced-Reach = Http.next Http.here (Http.keep 1 "page" "/other" page refl)

routed_finds_example :
    (h : HttpHandler TestObserver ℕ) × (registry.get replaced.job.registry "page" ≡ ok (some h))
unfolding HttpJob.route find
routed_finds_example =
    routed_finds registry router registry_laws router_laws one_page replaced "/page" "page"
      one_page-Reach refl replaced-Reach
