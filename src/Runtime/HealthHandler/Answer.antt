-- ===== src/Runtime/HealthHandler/Answer.antt =====
-- What the status of an answer says of the runtime.
use edge_bootstrap.Prelude.{
  ℕ, String, List, Bool, true, false, Result, ok, if◌then◌else◌, ◌≡◌, ◌↔◌, ◌⊎◌, arith, All, is_err,
  ◌&&◌, inl, inr, Bool-cases,
}
use edge_bootstrap.Transport.{HttpResponse, InboundRequest}
use edge_bootstrap.Runtime.Status.{running, RuntimeHealth, is_healthy}
use edge_bootstrap.Runtime.Lifecycle.{healthy}
use edge_bootstrap.Runtime.Manager.{Manager, State}
use edge_bootstrap.Runtime.Health.{health, report_of}
use edge_bootstrap.Runtime.Health.Verdict.{ProbesSucceed, health-is_healthy_iff}
use edge_bootstrap.Runtime.HealthHandler.{respond, handle}
use edge_bootstrap.Endpoint.{is_get, same_path}

module _ {W : Type 0} (m : Manager W) (to_json : RuntimeHealth → Result String (List ℕ)) where
  respond_status :
      (report : RuntimeHealth) (answer : HttpResponse)
      → respond m to_json report ≡ ok answer
      → (answer.status ≡ (if is_healthy report then 200 else 503))
        × (to_json report ≡ ok answer.body)
  unfolding respond
  respond_status report answer e = ground arith

  handle_probed :
      (path : String) (req : InboundRequest) (s : State W) (answer : HttpResponse)
      → (handle m to_json path req s).1 ≡ ok answer
      → (is_get req.request.method ≡ true)
        × (same_path path req.request.url ≡ true)
        × (handle m to_json path req s ≡ ((health m s).0, respond m to_json (health m s).1))
  unfolding handle
  handle_probed path req s answer e = ground arith

  status_iff :
      (b : Bool) (n : ℕ)
      → n ≡ (if b then 200 else 503)
      → ((n ≡ 200) ↔ (b ≡ true)) × ((n ≡ 503) ↔ (b ≡ false))
  status_iff b n e = ground arith

  -- The endpoint answers a request only if it is a GET for its path, with the report's JSON as body and
  -- with status 200 or 503. The status is 200 exactly when the runtime is running, every component
  -- that the lifecycle monitor lists is healthy and no probe of a configured transport fails.
  pub answer_iff :
      (path : String) (req : InboundRequest) (s : State W) (answer : HttpResponse)
      → (handle m to_json path req s).1 ≡ ok answer
      → (is_get req.request.method ≡ true)
        × (same_path path req.request.url ≡ true)
        × (to_json (health m s).1 ≡ ok answer.body)
        × ((answer.status ≡ 200) ⊎ (answer.status ≡ 503))
        × ((answer.status ≡ 200) ↔ (
            (s.status ≡ running)
            × All (λ c. c.status ≡ healthy) (report_of (m.lifecycle.health s.world).1).components
            × ProbesSucceed m (m.lifecycle.health s.world).0))
  answer_iff path req s answer e =
      let (is_a_get, right_path, probed) = handle_probed path req s answer e in
      let report : RuntimeHealth = (health m s).1 in
      let (coded, printed) = respond_status report answer (cc (e, probed)) in
      let (up, down) = status_iff (is_healthy report) answer.status coded in
      let (to, from) = health-is_healthy_iff m s in
      (
        is_a_get,
        right_path,
        printed,
        elim (Bool-cases (is_healthy report)) [ inl h ↦ inl (up.1 h) | inr h ↦ inr (down.1 h) ],
        (λ h. to (up.0 h), λ h. up.1 (from h)),
      )

  -- A request that the endpoint refuses for its method or its path leaves the runtime alone: nothing is
  -- probed and nothing changes.
  pub refusal_probes_nothing :
      (path : String) (req : InboundRequest) (s : State W)
      → (is_get req.request.method && same_path path req.request.url) ≡ false
      → ((handle m to_json path req s).0 ≡ s) × (is_err (handle m to_json path req s).1 ≡ true)
  unfolding handle
  refusal_probes_nothing path req s h = ground arith
