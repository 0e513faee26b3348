-- ===== src/Examples/Dispatch.antt =====
-- The jobs over registries and a router that are association lists, a guard and a pool.
use edge_bootstrap.Prelude.{
  ℕ, String, List, [], ◌∷◌, true, false, Option, none, some, Result, ok, err, ◌≡◌, ◌≢◌, ◌⊎◌, refl,
  arith, if◌then◌else◌, eq_iff, is_some, ap,
}
use text.Mathlib.Text.{◌==◌ as str_eq}
use edge_bootstrap.Transport.{
  HttpRequest, HttpResponse, HttpBody, InboundRequest, HttpIngressError, HttpIngress,
  HttpEgressError, internal, GrpcRequest,
}
use edge_bootstrap.Dispatch.Interface.{
  Handler, HandlerContext, Registry, RegistryLaws, PathRouter, PathRouterLaws, routing, no_match,
  registration_failed, put, find, find-put,
}
use edge_bootstrap.Dispatch.HttpJob
use edge_bootstrap.Dispatch.HttpJob.{HttpHandler}
use edge_bootstrap.Dispatch.HttpJob.Routing.{
  fresh, registered, find_handler_total, refused_pattern_replaces,
}
use edge_bootstrap.Dispatch.GrpcJob
use edge_bootstrap.Dispatch.GrpcJob.{GrpcHandler}
use edge_bootstrap.Dispatch.GrpcJob.Registration.{now, registration_lasts}
use edge_bootstrap.Guard.{Wired, reject, allow, http_intrusion_guard, blocked, build_http_event}
use edge_bootstrap.Guard.Decisions.{guard_decides}
use edge_bootstrap.Balancer.{
  Backend, Urls, Pool, outcome_of, rewrite_url, load_balanced_http_egress,
}
use edge_bootstrap.Balancer.Outcomes.{reported, sent, recording, noted, send_reports_once}
use edge_bootstrap.Examples.Fixtures.{response, request, egress, TestObserver}

-- A registry that replaces what stands under an id.
abbrev pub registry : {H : Type 0} → Registry (List (String × H)) H
registry = record {
  empty = [];
  get = λ s id. ok (find id s);
  register = λ s id h. (put id h s, ok tt);
  list_ids = λ s. ok [];
  wrap = λ id pattern h. h;
  invalid_request = λ e. e;
  no_match_text = "no match";
}

find-put_same :
    {H : Type 0} (s : List (String × H)) (id : String) (h : H) → find id (put id h s) ≡ some h
find-put_same s id h = ground (arith, find-put s id id h, eq_iff id id)

find-put_other :
    {H : Type 0} (s : List (String × H)) (id j : String) (h : H)
    → j ≢ id
    → find j (put id h s) ≡ find j s
find-put_other s id j h n = ground (arith, find-put s id j h, eq_iff id j)

pub registry_laws : {H : Type 0} → RegistryLaws (registry {H = H})
unfolding find
registry_laws = record {
  get_empty = λ id. refl;
  get_same = λ s id h e. ap ok (find-put_same s id h);
  get_other = λ s id j h n. ap ok (find-put_other s id j h n);
  get_failed = λ s id j h e failed. cc;
}

-- A router of exact paths that refuses a path it has.
abbrev insert_path :
    List (String × String) → String → String → Result String (List (String × String))
insert_path p pattern id =
    if is_some (find pattern p) then err "conflict" else ok (put pattern id p)

abbrev pub router : PathRouter (List (String × String))
router = record { empty = []; insert = insert_path; at = λ p path. find path p }

at-insert_path :
    (p p' : List (String × String)) (pattern id path j : String)
    → insert_path p pattern id ≡ ok p'
    → find path p' ≡ some j
    → (find path p ≡ some j) ⊎ (j ≡ id)
at-insert_path p p' pattern id path j e f = ground (arith, find-put p pattern path id)

pub router_laws : PathRouterLaws router
unfolding find
router_laws = record { at_empty = λ path. refl; at_insert = at-insert_path }

abbrev pub ping : Handler TestObserver ℕ String String
ping = record {
  id = ok "ping";
  pattern = ok "/ping";
  execute = λ ctx req w. (w, ok req);
  health_check = λ w. (w, ok true);
}

abbrev pub decode : HttpRequest → Result String String
decode req = ok req.url

abbrev pub encode : String → HttpResponse
encode s = response

abbrev pub routed :
    HttpJob.HttpJob TestObserver ℕ
      (List (String × String))
      (List (String × HttpHandler TestObserver ℕ))
routed = (HttpJob.register_route registry router ping decode encode (HttpJob.new registry router)).0

find_handler_total_example :
    ((h : HttpHandler TestObserver ℕ) × (HttpJob.find_handler registry router routed "/ping"
        ≡ ok h))
    ⊎ ((router.at routed.router "/ping" ≡ none)
        × (HttpJob.find_handler registry router routed "/ping" ≡ err (routing no_match)))
find_handler_total_example =
    find_handler_total registry router registry_laws router_laws "/ping"
      (registered ping decode encode fresh)

-- A job whose router has the pattern already.
abbrev occupied :
    HttpJob.HttpJob TestObserver ℕ
      (List (String × String))
      (List (String × HttpHandler TestObserver ℕ))
occupied = record { router = ("/ping", "old") ∷ []; registry = []; health_handlers = [] }

refused_pattern_replaces_example :
    let after = HttpJob.register_route registry router ping decode encode occupied in
    let bridged = HttpJob.bridge registry router ping decode encode in
    (after.1 ≡ err (registration_failed "/ping" "conflict"))
    × (after.0.router ≡ ("/ping", "old") ∷ [])
    × (registry.get after.0.registry "ping" ≡ ok (some bridged))
    × (find "ping" after.0.health_handlers ≡ some bridged)
unfolding HttpJob.check_names find
refused_pattern_replaces_example =
    refused_pattern_replaces registry router registry_laws router_laws ping decode encode occupied
      "ping" "/ping" "conflict" refl refl refl

abbrev pub echo : Handler TestObserver ℕ (List ℕ) (List ℕ)
echo = record {
  id = ok "pkg.Echo/Say";
  pattern = ok "/echo";
  execute = λ ctx req w. (w, ok req);
  health_check = λ w. (w, ok true);
}

abbrev grpc_job : GrpcJob.GrpcJob TestObserver ℕ (List (String × GrpcHandler TestObserver ℕ))
grpc_job = GrpcJob.new registry

abbrev served : GrpcJob.GrpcJob TestObserver ℕ (List (String × GrpcHandler TestObserver ℕ))
served = (GrpcJob.register_route registry echo ok (λ body. body) grpc_job).0

registration_lasts_example :
    (id : String) × (GrpcJob.check_names registry echo ≡ ok id)
    × ((ctx : HandlerContext TestObserver) (req : GrpcRequest)
        → req.method ≡ id
        → GrpcJob.run registry served ctx req 4
          ≡ GrpcJob.respond
              ((GrpcJob.bridge registry echo ok (λ body. body)).execute ctx req.body 4))
unfolding GrpcJob.register_route GrpcJob.check_names GrpcJob.new GrpcJob.add_handler find
registration_lasts_example =
    registration_lasts registry registry_laws echo ok (λ body. body) grpc_job served 4 refl now

-- An engine that rejects one target.
abbrev wired : Wired ℕ
wired = record {
  extract_ip = λ peer forwarded. peer;
  guard = λ event w. (w, if str_eq event.target "/etc/passwd" then reject "lfi" "path" else allow);
  header = λ name headers. none;
  method_text = λ m. "GET";
  clock = λ w. w;
}

abbrev inbound : InboundRequest
inbound = record { request = request; security = ""; peer_ip = "10.0.0.1" }

guard_decides_example :
    ((allow ≡ allow)
      × ((inner : HttpIngress ℕ) (body : Option HttpBody)
          → let other = record inbound { request = record request { body = body } } in
            (http_intrusion_guard wired inner).handle other 3 ≡ inner.handle other 3))
    ⊎ ((rule : String) × (reason : String) × (allow ≡ reject rule reason)
        × ((inner : HttpIngress ℕ) (body : Option HttpBody)
            → let other = record inbound { request = record request { body = body } } in
              (http_intrusion_guard wired inner).handle other 3
              ≡ (3, err (HttpIngressError.permission_denied (blocked rule reason)))))
unfolding build_http_event
guard_decides_example = guard_decides wired inbound 3

abbrev pub pool : Pool ℕ
pool = record {
  select = λ w. (w, ok (record { id = "b1"; url = "http://b1" }));
  report_outcome = λ id outcome w. w;
  backend_count = λ w. 1;
  is_server_error = λ resp. false;
  status_text = λ n. "";
  error_text = λ e. "";
}

abbrev pub urls : Urls String
urls = record {
  parse = λ s. ok s;
  path = λ u. u;
  query = λ u. none;
  fragment = λ u. none;
  set_path = λ p u. u;
  set_query = λ q u. u;
  set_fragment = λ f u. u;
  print = λ u. u;
}

send_reports_once_example :
    let after =
      (load_balanced_http_egress urls (recording pool) (noted egress)).send request (3, []) in
    let selected : Result String Backend = ok (record { id = "b1"; url = "http://b1" }) in
    ((e : String) × (selected ≡ err e) × (after ≡ ((3, []), err (internal e))))
    ⊎ (((backend : Backend) × (e : HttpEgressError) × (selected ≡ ok backend)
          × (rewrite_url urls request.url backend.url ≡ err e)
          × (after ≡ ((3, []), err e)))
        ⊎ ((backend : Backend) × (url : String) × (selected ≡ ok backend)
            × (rewrite_url urls request.url backend.url ≡ ok url)
            × (let there = record request { url = url } in
                let outcome = outcome_of urls (recording pool) (ok response) in
                after ≡ ((4, reported backend.id outcome ∷ sent there ∷ []), ok response))))
send_reports_once_example = send_reports_once urls pool egress request 3 []
