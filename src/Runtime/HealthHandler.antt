-- ===== src/Runtime/HealthHandler.antt =====
-- scm/main/adapter/src/core/health/default_health_handler.rs: the health report over HTTP.
pub mod Answer
use edge_bootstrap.Prelude.{
  ℕ, String, List, [], ◌∷◌, Bool, true, false, not, Option, none, some, Result, ok, err, Call,
  if◌then◌else◌,
}
use Prim.Native.String
use edge_bootstrap.Endpoint.{is_get, same_path}
use edge_bootstrap.Transport.{
  HttpRequest, HttpResponse, InboundRequest, HttpIngressError, invalid_input, not_found,
  HealthCheck, healthy, HttpIngress,
}
use edge_bootstrap.Runtime.Status.{RuntimeHealth, is_healthy}
use edge_bootstrap.Runtime.Manager.{Manager, State}
use edge_bootstrap.Runtime.Health.{health}

module _ {W : Type 0} (m : Manager W) (to_json : RuntimeHealth → Result String (List ℕ)) where
  -- `serde_json::to_vec` is `to_json`.
  unfoldable pub respond : RuntimeHealth → Result HttpIngressError HttpResponse
  respond report = elim (to_json report) [
    | err e ↦ err (invalid_input (String.◌++◌ "health serialization failed: " e))
    | ok body ↦ ok (record {
      status = if is_healthy report then 200 else 503;
      headers = ("content-type", "application/json") ∷ [];
      body = body;
    })
  ]

  unfoldable pub handle : String → InboundRequest → Call (State W) HttpIngressError HttpResponse
  handle path req s =
      if not (is_get req.request.method)
      then (s, err (invalid_input "health endpoint only accepts GET"))
      else if not (same_path path req.request.url)
      then (s, err (not_found (String.◌++◌ "not found: " req.request.url)))
      else (let (s', report) = health m s in (s', respond report))

  unfoldable pub default_health_handler : String → HttpIngress (State W)
  unfolding handle
  default_health_handler path = record { handle = handle path; health_check = λ s. (s, ok healthy) }
