-- ===== src/Assembly.antt =====
-- scm/main/adapter/src/core/runtime/runtime_builder_serve.rs: how `serve` chooses the ingress and what it
-- puts around it. The jobs are given as the ingresses that bridge them.
pub mod Counting
pub mod Startable
pub mod Backends
use edge_bootstrap.Prelude.{
  ℕ, String, Bool, true, false, Option, none, some, Result, ok, err, or_else, if◌then◌else◌,
}
use edge_bootstrap.Transport.{HttpIngress, GrpcIngress}
use edge_bootstrap.Adapters.{DefaultIngress, empty, with_http, with_grpc, has_any}
use edge_bootstrap.Guard.{RequestEvent, Wired, http_intrusion_guard, grpc_intrusion_guard}
use edge_bootstrap.Composite.{composite_grpc_ingress}
use edge_bootstrap.Monitor.Floats.{Floats}
use edge_bootstrap.Monitor.Provider.{MetricsProvider}
use edge_bootstrap.Monitor.Counters.{TrafficCounters}
use edge_bootstrap.Monitor.Load.{pass_through, http_load_monitor, grpc_load_monitor}
use edge_bootstrap.Runtime.Status.{RuntimeError, start_failed}

module _ {W : Type 0} where
  unfoldable pub add_http : Option (HttpIngress W) → DefaultIngress W → DefaultIngress W
  unfolding with_http
  add_http none i = i
  add_http (some h) i = with_http h i

  unfoldable pub add_grpc : Option (GrpcIngress W) → DefaultIngress W → DefaultIngress W
  unfolding with_grpc
  add_grpc none i = i
  add_grpc (some g) i = with_grpc g i

  -- A job is taken before a handler.
  unfoldable pub choose_ingress :
      Option (HttpIngress W)
      → Option (HttpIngress W)
      → Option (GrpcIngress W)
      → Option (GrpcIngress W)
      → Result RuntimeError (DefaultIngress W)
  unfolding add_http add_grpc empty has_any
  choose_ingress http_job http_handler grpc_job grpc_handler =
      let input =
        add_grpc (or_else grpc_job grpc_handler) (add_http (or_else http_job http_handler) empty) in
      if has_any input
      then ok input
      else err (start_failed "Runtime: no handler registered — call .http_route() or .grpc_route()")

  -- An ingress beside counters that it does not touch.
  unfoldable pub http_uncounted : HttpIngress W → HttpIngress (TrafficCounters W)
  unfolding pass_through
  http_uncounted inner = record {
    handle = λ req c. let (w, r) = inner.handle req c.world in (record c { world = w }, r);
    health_check = λ c. let (w, r) = inner.health_check c.world in (record c { world = w }, r);
  }

  unfoldable pub grpc_uncounted : GrpcIngress W → GrpcIngress (TrafficCounters W)
  grpc_uncounted inner = record {
    handle_unary =
        λ req c. let (w, r) = inner.handle_unary req c.world in (record c { world = w }, r);
    handle_stream =
        λ req c. let (w, r) = inner.handle_stream req c.world in (record c { world = w }, r);
    health_check = λ c. let (w, r) = inner.health_check c.world in (record c { world = w }, r);
  }

  -- The rules engine beside the counters.
  abbrev pub wired_uncounted : Wired W → Wired (TrafficCounters W)
  wired_uncounted wired = record {
    extract_ip = wired.extract_ip;
    guard = λ event c. let (w, d) = wired.guard event c.world in (record c { world = w }, d);
    header = wired.header;
    method_text = wired.method_text;
    clock = λ c. wired.clock c.world;
  }

  unfoldable pub guard_http :
      Option (Wired W) → HttpIngress (TrafficCounters W) → HttpIngress (TrafficCounters W)
  guard_http none h = h
  guard_http (some wired) h = http_intrusion_guard (wired_uncounted wired) h

  unfoldable pub guard_grpc :
      Option (Wired W) → GrpcIngress (TrafficCounters W) → GrpcIngress (TrafficCounters W)
  guard_grpc none g = g
  guard_grpc (some wired) g = grpc_intrusion_guard (wired_uncounted wired) g

  unfoldable pub reflect :
      Option (GrpcIngress W) → GrpcIngress (TrafficCounters W) → GrpcIngress (TrafficCounters W)
  reflect none g = g
  reflect (some reflection) g = composite_grpc_ingress g (grpc_uncounted reflection)

module _ {F W : Type 0} (fl : Floats F) (clock : W → ℕ) where
  unfoldable pub monitor_http :
      Option (MetricsProvider F W) → HttpIngress W → HttpIngress (TrafficCounters W)
  monitor_http none h = http_uncounted h
  monitor_http (some p) h = http_load_monitor fl p clock h

  unfoldable pub monitor_grpc :
      Option (MetricsProvider F W) → GrpcIngress W → GrpcIngress (TrafficCounters W)
  monitor_grpc none g = grpc_uncounted g
  monitor_grpc (some p) g = grpc_load_monitor fl p clock g

  -- There is a metrics provider if a metrics endpoint is configured; the guard is outermost.
  unfoldable pub http_stack :
      Option (MetricsProvider F W)
      → Option (Wired W)
      → HttpIngress W
      → HttpIngress (TrafficCounters W)
  unfolding monitor_http
  http_stack provider wired handler = guard_http wired (monitor_http provider handler)

  -- Reflection stands between the load monitor and the guard.
  unfoldable pub grpc_stack :
      Option (MetricsProvider F W)
      → Option (GrpcIngress W)
      → Option (Wired W)
      → GrpcIngress W
      → GrpcIngress (TrafficCounters W)
  unfolding monitor_grpc
  grpc_stack provider reflection wired handler =
      guard_grpc wired (reflect reflection (monitor_grpc provider handler))
