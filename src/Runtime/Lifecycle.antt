-- ===== src/Runtime/Lifecycle.antt =====
-- The traits of edge_proxy that the runtime calls, and the load monitor's wrapper around one:
-- scm/main/adapter/src/core/monitor/lifecycle_monitor.rs. An error is given by its text.
pub mod Gauges
use edge_bootstrap.Prelude.{String, List, [], ◌∷◌, Option, Result, ok, err, Call}
use edge_bootstrap.Monitor.Floats.{Floats}
use edge_bootstrap.Monitor.Provider.{MetricsProvider}

pub data HealthStatus : Type 0 where
  healthy degraded unhealthy : HealthStatus

pub record Component : Type 0 where
  pub id : String
  pub status : HealthStatus
  pub message : Option String

pub record HealthResponse : Type 0 where
  pub overall : HealthStatus
  pub components : List Component

pub record LifecycleMonitor (W : Type 0) : Type 0 where
  pub health : Call W String HealthResponse
  pub start_background_tasks : Call W String (Unit {0})
  pub shutdown : Call W String (Unit {0})
  pub status : Call W String HealthStatus
  pub component : String → Call W String (Option Component)

module _ {F W : Type 0} (fl : Floats F) (p : MetricsProvider F W) where
  unfoldable pub score : HealthStatus → F
  score healthy = fl.of_u64 1
  score degraded = fl.half
  score unhealthy = fl.of_u64 0

  unfoldable pub gauge : HealthStatus → String → W → W
  unfolding score
  gauge status id = p.record_gauge "edge_component_health" (score status) (("component", id) ∷ [])

  unfoldable pub gauge_all : List Component → W → W
  unfolding gauge
  gauge_all [] w = w
  gauge_all (c ∷ cs) w = gauge_all cs (gauge c.status c.id w)

  unfoldable pub metrics_health : LifecycleMonitor W → Call W String HealthResponse
  unfolding gauge gauge_all
  metrics_health inner w =
      let (w', result) = inner.health w in
      elim result [
        | err e ↦ (w', err e)
        | ok report ↦ (gauge report.overall "overall" (gauge_all report.components w'), ok report)
      ]

  unfoldable pub metrics_lifecycle_monitor : LifecycleMonitor W → LifecycleMonitor W
  unfolding metrics_health
  metrics_lifecycle_monitor inner = record {
    health = metrics_health inner;
    start_background_tasks = inner.start_background_tasks;
    shutdown = inner.shutdown;
    status = inner.status;
    component = inner.component;
  }
