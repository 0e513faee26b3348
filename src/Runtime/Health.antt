-- ===== src/Runtime/Health.antt =====
-- `health` of scm/main/adapter/src/core/runtime/manager/default_runtime_manager.rs.
pub mod Unread
pub mod Verdict
use edge_bootstrap.Prelude.{
  ℕ, ◌-◌, ◌/◌, String, List, [], ◌∷◌, ◌++◌, map, Bool, Option, none, some, Result, ok, err, Call,
  unwrap_or,
}
use edge_bootstrap.Transport.{Display}
use edge_bootstrap.Runtime.Status.{
  ComponentHealth, healthy_component, unhealthy_component, RuntimeHealth,
}
use edge_bootstrap.Runtime.Lifecycle.{
  HealthStatus, healthy, unhealthy, degraded, Component, HealthResponse, LifecycleMonitor,
}
use edge_bootstrap.Runtime.Manager.{Manager, State, http_health, grpc_health, egress_grpc_health}

unfoldable pub of_component : Component → ComponentHealth
unfolding healthy_component unhealthy_component
of_component c = elim (c.status) [
  | healthy ↦ healthy_component c.id
  | _ ↦ unhealthy_component c.id (unwrap_or c.message "degraded")
]

-- The outcome of one probe, by the result of the call alone: what an `Ok` carries is not read.
unfoldable pub of_probe : {E A : Type 0} → String → (E → String) → Result E A → ComponentHealth
unfolding healthy_component unhealthy_component
of_probe name text (ok a) = healthy_component name
of_probe name text (err e) = unhealthy_component name (text e)

-- What `unwrap_or_else` puts in place of a failed report.
unfoldable pub report_of : Result String HealthResponse → HealthResponse
report_of (ok report) = report
report_of (err e) = record { overall = unhealthy; components = [] }

module _ {W : Type 0} where
  unfoldable pub probe :
      {E A : Type 0} → String → (E → String) → Call W E A → W → W × List ComponentHealth
  unfolding of_probe
  probe name text call w = let (w', r) = call w in (w', of_probe name text r ∷ [])

  unfoldable pub probe_opt :
      {E A : Type 0} → String → (E → String) → Option (Call W E A) → W → W × List ComponentHealth
  unfolding probe
  probe_opt name text none w = (w, [])
  probe_opt name text (some call) w = probe name text call w

  unfoldable pub uptime : Manager W → State W → W → ℕ
  uptime m s w = elim (s.started_at) [ none ↦ 0 | some t ↦ (m.clock w - t) / 1000000 ]

module _ {W : Type 0} (m : Manager W) where
  -- The probes, in order; each may change the world that the next one sees.
  unfoldable pub probes : W → W × List ComponentHealth
  probes w =
      let (w1, c1) =
        probe_opt "ingress.http" m.display.http_ingress_error (http_health m.ingress) w in
      let (w2, c2) =
        probe_opt "ingress.grpc" m.display.grpc_ingress_error (grpc_health m.ingress) w1 in
      let (w3, c3) =
        probe "egress.http" m.display.http_egress_error m.egress.http.health_check w2 in
      let (w4, c4) = probe_opt "egress.grpc" (λ e. e) (egress_grpc_health m.egress) w3 in
      let (w5, c5) = probe_opt "message-broker" (λ e. e) m.message_broker w4 in
      (w5, c1 ++ (c2 ++ (c3 ++ (c4 ++ c5))))

  unfoldable pub health : State W → State W × RuntimeHealth
  health s =
      let (w1, result) = m.lifecycle.health s.world in
      let (w2, probed) = probes w1 in
      (
        record s { world = w2 },
        record {
          status = s.status;
          components = map of_component (report_of result).components ++ probed;
          uptime_secs = uptime m s w1;
        },
      )
