-- ===== src/Monitor/Load.antt =====
-- scm/main/adapter/src/core/monitor/http_load_monitor.rs and grpc_load_monitor.rs: ingress wrappers
-- that record the load of every call in the shared counters.
pub mod Balance
use edge_bootstrap.Prelude.{
  ℕ, ◌-◌, ◌%◌, String, List, Bool, Option, none, some, Result, is_err, Call, unwrap_or,
}
use edge_bootstrap.Transport.{
  InboundRequest, HttpResponse, HttpIngressError, HealthCheck, HttpIngress, UnaryRequest,
  StreamRequest, GrpcResponse, GrpcIngressError, GrpcIngress,
}
use edge_bootstrap.Monitor.Floats.{Floats, u64_mod}
use edge_bootstrap.Monitor.Provider.{MetricsProvider}
use edge_bootstrap.Monitor.Counters.{TrafficCounters, on_start, on_end}

-- `clock` is the monotonic time in microseconds, which `Instant` reads. `elapsed` stops at 0.
module _ {F W : Type 0} (fl : Floats F) (p : MetricsProvider F W) (clock : W → ℕ) where
  -- `on_end` panics only on a ring with no slot, which the counters never have
  -- (`on_end_total` of Monitor/Load/Balance.antt); the default is not reached.
  finish : {E A : Type 0} → ℕ → W × Result E A → TrafficCounters W → TrafficCounters W × Result E A
  finish started (w, result) c =
      let c' = record c { world = w } in
      let elapsed_us = (clock w - started) % u64_mod in
      (unwrap_or (on_end fl p elapsed_us (is_err result) c') c', result)

  -- The wrapped call, from the call to the end of its future.
  unfoldable pub record_load : {E A : Type 0} → Call W E A → Call (TrafficCounters W) E A
  unfolding finish
  record_load call c = let c' = on_start fl p c in finish (clock c'.world) (call c'.world) c'

  -- The wrapped call whose future is dropped before it ends, after the call left the world at `w`.
  unfoldable pub dropped_load : W → TrafficCounters W → TrafficCounters W
  dropped_load w c = record (on_start fl p c) { world = w }

  -- A call that records nothing.
  unfoldable pub pass_through : {E A : Type 0} → Call W E A → Call (TrafficCounters W) E A
  pass_through call c = let (w, result) = call c.world in (record c { world = w }, result)

  unfoldable pub http_load_monitor : HttpIngress W → HttpIngress (TrafficCounters W)
  unfolding record_load pass_through
  http_load_monitor inner = record {
    handle = λ req. record_load (inner.handle req);
    health_check = pass_through inner.health_check;
  }

  unfoldable pub grpc_load_monitor : GrpcIngress W → GrpcIngress (TrafficCounters W)
  unfolding record_load pass_through
  grpc_load_monitor inner = record {
    handle_unary = λ req. record_load (inner.handle_unary req);
    handle_stream = λ req. record_load (inner.handle_stream req);
    health_check = pass_through inner.health_check;
  }
