-- ===== src/Runtime/Manager.antt =====
-- scm/main/adapter/src/core/runtime/manager/default_runtime_manager.rs: start and shutdown of the
-- runtime. `world` is the state of all that the manager calls.
pub mod Laws
pub mod Race
pub mod Building
use edge_bootstrap.Prelude.{
  ℕ, ◌-◌, ◌/◌, String, List, [], ◌∷◌, ◌++◌, map, Bool, true, false, Option, none, some, Result, ok,
  err, Call, map_err, unwrap_or, if◌then◌else◌,
}
use edge_bootstrap.Transport.{HttpIngressError, GrpcIngressError, HealthCheck, Display}
use edge_bootstrap.Adapters.{DefaultIngress, DefaultEgress, has_any}
use edge_bootstrap.Runtime.Status.{
  RuntimeStatus, starting, running, stopping, stopped, degraded, is_running, is_terminal,
  ComponentHealth, healthy_component, unhealthy_component, RuntimeHealth, RuntimeError,
  start_failed, shutdown_failed,
}
use edge_bootstrap.Runtime.Lifecycle.{
  HealthStatus, Component, HealthResponse, LifecycleMonitor, healthy, degraded as degraded_status,
  unhealthy,
}

-- What the manager is built with. `clock` is the monotonic time in microseconds.
pub record Manager (W : Type 0) : Type 0 where
  pub systemd_notify : Bool
  pub ingress : DefaultIngress W
  pub egress : DefaultEgress W
  pub lifecycle : LifecycleMonitor W
  pub message_broker : Option (Call W String (Unit {0}))
  pub display : Display
  pub clock : W → ℕ

-- `with_message_broker`, for the health check of a broker.
unfoldable pub with_message_broker : {W : Type 0} → Call W String (Unit {0}) → Manager W → Manager W
with_message_broker broker m = record m { message_broker = some broker }

-- The log lines that `systemd_notify` asks for.
pub data Notice : Type 0 where
  ready stopping_notice : Notice

pub record State (W : Type 0) : Type 0 where
  pub status : RuntimeStatus
  pub started_at : Option ℕ
  pub notices : List Notice
  pub world : W

module _ {W : Type 0} where
  unfoldable pub new : W → State W
  new w = record { status = stopped; started_at = none; notices = []; world = w }

  -- A call whose result is dropped: `let _ = …`.
  abbrev ignore : {E A : Type 0} → Call W E A → W → W
  ignore call w = (call w).0

  abbrev ignore_opt : {E A : Type 0} → Option (Call W E A) → W → W
  ignore_opt none w = w
  ignore_opt (some call) w = ignore call w

  abbrev pub http_health : DefaultIngress W → Option (Call W HttpIngressError HealthCheck)
  http_health i = elim (i.http) [ none ↦ none | some h ↦ some h.health_check ]

  abbrev pub grpc_health : DefaultIngress W → Option (Call W GrpcIngressError HealthCheck)
  grpc_health i = elim (i.grpc) [ none ↦ none | some g ↦ some g.health_check ]

  abbrev pub egress_grpc_health : DefaultEgress W → Option (Call W String (Unit {0}))
  egress_grpc_health e = elim (e.grpc) [ none ↦ none | some g ↦ some g.health_check ]

  -- The first locked section of `start`: whether the call goes on.
  unfoldable pub begin_start : State W → State W × Bool
  begin_start s = if is_running s.status then (s, false) else (record s { status = starting }, true)

module _ {W : Type 0} (m : Manager W) where
  unfoldable pub probe_all : W → W
  probe_all w =
      let w1 = ignore_opt (http_health m.ingress) w in
      let w2 = ignore_opt (grpc_health m.ingress) w1 in
      let w3 = ignore (m.egress.http.health_check) w2 in
      let w4 = ignore_opt (egress_grpc_health m.egress) w3 in ignore_opt m.message_broker w4

  -- What `start` does between its locked sections.
  unfoldable pub start_work : Call W RuntimeError (Unit {0})
  unfolding has_any probe_all
  start_work w =
      if has_any m.ingress
      then (let (w', result) = m.lifecycle.start_background_tasks w in
          elim result [ err e ↦ (w', err (start_failed e)) | ok _ ↦ (probe_all w', ok tt) ])
      else (w, err (start_failed "no ingress transport configured — add http or grpc"))

  -- The last locked section of `start`, and the log line after it.
  unfoldable pub finish_start : State W → State W
  finish_start s = record s {
    status = running;
    started_at = some (m.clock s.world);
    notices = if m.systemd_notify then ready ∷ s.notices else s.notices;
  }

  unfoldable pub run_start :
      State W → W × Result RuntimeError (Unit {0}) → State W × Result RuntimeError (Unit {0})
  run_start s (w, ok _) = (finish_start (record s { world = w }), ok tt)
  run_start s (w, err e) = (record s { world = w }, err e)

  unfoldable pub start : State W → State W × Result RuntimeError (Unit {0})
  unfolding begin_start start_work finish_start run_start is_running
  start s =
      let (s', goes_on) = begin_start s in
      if goes_on then run_start s' (start_work s'.world) else (s', ok tt)

  -- The same for `shutdown`.
  unfoldable pub begin_shutdown : State W → State W × Bool
  begin_shutdown s = if is_terminal s.status then (s, false) else (
    record s {
      status = stopping;
      notices = if m.systemd_notify then stopping_notice ∷ s.notices else s.notices;
    },
    true,
  )

  unfoldable pub run_shutdown :
      State W → W × Result String (Unit {0}) → State W × Result RuntimeError (Unit {0})
  run_shutdown s (w, ok _) = (record s { world = w; status = stopped }, ok tt)
  run_shutdown s (w, err e) = (record s { world = w }, err (shutdown_failed e))

  unfoldable pub shutdown : State W → State W × Result RuntimeError (Unit {0})
  unfolding begin_shutdown run_shutdown is_terminal
  shutdown s =
      let (s', goes_on) = begin_shutdown s in
      if goes_on then run_shutdown s' (m.lifecycle.shutdown s'.world) else (s', ok tt)
