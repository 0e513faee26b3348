-- ===== src/Assembly/Counting.antt =====
-- Which calls the load counters see.
use edge_bootstrap.Prelude.{
  ℕ, ◌+◌, ◌%◌, String, true, none, some, err, is_err, ◌≡◌, ◌⊎◌, inl, inr, refl, arith,
  if◌then◌else◌, starts_with,
}
use edge_bootstrap.Transport.{
  InboundRequest, HttpIngressError, HttpIngress, UnaryRequest, GrpcIngress,
}
use edge_bootstrap.Guard.{Wired, blocked, build_http_event, http_intrusion_guard}
use edge_bootstrap.Guard.Decisions.{guarded-passed, guarded-denied, decision_cases}
use edge_bootstrap.Composite.{composite_grpc_ingress, reflection_prefix, route}
use edge_bootstrap.Monitor.Floats.{Floats, u64_mod}
use edge_bootstrap.Monitor.Provider.{MetricsProvider}
use edge_bootstrap.Monitor.Counters.{TrafficCounters}
use edge_bootstrap.Monitor.Load.{record_load, http_load_monitor, grpc_load_monitor}
use edge_bootstrap.Monitor.Load.Balance.{IsSound, record_load_balance}
use edge_bootstrap.Assembly.{
  wired_uncounted, guard_http, http_stack, reflect, grpc_stack, guard_grpc, grpc_uncounted,
}

module _ {F W : Type 0} (fl : Floats F) (p : MetricsProvider F W) (clock : W → ℕ) where
  -- With a metrics endpoint and the intrusion guard, on sound counters, a request either is denied, and
  -- then the counters keep all their numbers; or it is passed on, and then the answer is that of the
  -- handler, run where the rules engine left the world, as many requests are in flight as before,
  -- one more is counted, and one more error if and only if the answer is an error.
  pub denied_not_counted :
      (wired : Wired W) (handler : HttpIngress W) (req : InboundRequest) (c : TrafficCounters W)
      → IsSound c
      → let after = (http_stack fl clock (some p) (some wired) handler).handle req c in
        let w = (wired.guard (build_http_event wired req c.world) c.world).0 in
        (after.0.requests_in_flight ≡ c.requests_in_flight)
        × (((rule : String) × (reason : String) × (after.1
                ≡ err (HttpIngressError.permission_denied (blocked rule reason)))
              × (after.0 ≡ record c { world = w }))
            ⊎ ((after.1 ≡ (handler.handle req w).1)
                × (after.0.requests_since_tick ≡ (c.requests_since_tick + 1) % u64_mod)
                × (after.0.errors_since_tick ≡ (
                    if is_err (handler.handle req w).1
                    then (c.errors_since_tick + 1) % u64_mod
                    else c.errors_since_tick))))
  unfolding http_stack guard_http http_intrusion_guard http_load_monitor build_http_event
  denied_not_counted wired handler req c sound =
      let counted = wired_uncounted wired in
      let w = (wired.guard (build_http_event wired req c.world) c.world).0 in
      let call = record_load fl p clock (handler.handle req) in
      elim (decision_cases counted (wired.guard (build_http_event wired req c.world) c.world).1) [
        | inr (rule, reason, denied) ↦
            let shown =
              guarded-denied counted HttpIngressError.permission_denied
                (build_http_event counted req) call c rule reason denied in
            rw shown (refl, inl (rule, reason, refl, refl))
        | inl passed ↦
            let shown =
              guarded-passed counted HttpIngressError.permission_denied
                (build_http_event counted req) call c passed in
            let (same, sound', flight, requests, errors) =
              record_load_balance fl p clock (handler.handle req) (record c { world = w })
                (omega arith) in
            rw shown (flight, inr (same, requests, errors))
      ]

  routed_to_reflection :
      (primary reflection : GrpcIngress (TrafficCounters W)) (method : String)
      → starts_with method reflection_prefix ≡ true
      → route primary reflection method ≡ reflection
  unfolding route
  routed_to_reflection primary reflection method starts = rw starts refl

  -- A unary call of a reflection method is answered by the reflection service, whatever the handler is,
  -- and none of the load counters notices it, while a metrics endpoint is configured.
  pub reflection_uncounted :
      (reflection handler : GrpcIngress W) (req : UnaryRequest) (c : TrafficCounters W)
      → starts_with req.request.method reflection_prefix ≡ true
      → let answer = reflection.handle_unary req c.world in
        (grpc_stack fl clock (some p) (some reflection) none handler).handle_unary req c
        ≡ (record c { world = answer.0 }, answer.1)
  unfolding grpc_stack guard_grpc reflect composite_grpc_ingress grpc_uncounted
  reflection_uncounted reflection handler req c starts =
      rw
        (routed_to_reflection (grpc_load_monitor fl p clock handler) (grpc_uncounted reflection)
          req.request.method starts)
        refl
