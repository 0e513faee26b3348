-- ===== src/Runtime/Lifecycle/Gauges.antt =====
-- The load monitor's wrapper changes nothing but the gauges.
use edge_bootstrap.Prelude.{String, List, [], ◌∷◌, ok, err, ◌≡◌, ◌⊎◌, inl, inr, refl, Result-cases}
use edge_bootstrap.Monitor.Floats.{Floats}
use edge_bootstrap.Monitor.Provider.{MetricsProvider}
use edge_bootstrap.Runtime.Lifecycle.{
  HealthStatus, Component, HealthResponse, LifecycleMonitor, score, gauge, gauge_all,
  metrics_health,
}

-- What a report asks to be recorded: each component in order, then the whole.
abbrev pub entries : List Component → HealthStatus → List (HealthStatus × String)
entries [] overall = (overall, "overall") ∷ []
entries (c ∷ cs) overall = (c.status, c.id) ∷ entries cs overall

module _ {F W : Type 0} (fl : Floats F) (p : MetricsProvider F W) where
  pub record_entries : List (HealthStatus × String) → W → W
  record_entries [] w = w
  record_entries ((status, id) ∷ es) w =
      record_entries es
        (p.record_gauge "edge_component_health" (score fl p status) (("component", id) ∷ []) w)

  gauges_are_entries :
      (cs : List Component) (overall : HealthStatus) (w : W)
      → gauge fl p overall "overall" (gauge_all fl p cs w) ≡ record_entries (entries cs overall) w
  unfolding gauge gauge_all record_entries
  gauges_are_entries [] overall w = refl
  gauges_are_entries (c ∷ cs) overall w = gauges_are_entries cs overall (gauge fl p c.status c.id w)

  -- The wrapped health check returns exactly what the wrapped monitor returns. If that is an error,
  -- nothing is recorded; if it is a report, exactly one gauge is recorded for each component, in
  -- order, and one last for the whole.
  pub metrics_health_cases :
      (inner : LifecycleMonitor W) (w : W)
      → ((metrics_health fl p inner w).1 ≡ (inner.health w).1)
        × (((e : String) × ((inner.health w).1 ≡ err e)
              × ((metrics_health fl p inner w).0 ≡ (inner.health w).0))
            ⊎ ((report : HealthResponse) × ((inner.health w).1 ≡ ok report)
                × ((metrics_health fl p inner w).0
                    ≡ record_entries
                        (entries report.components report.overall)
                        (inner.health w).0)))
  unfolding metrics_health
  metrics_health_cases inner w = elim (Result-cases (inner.health w).1) [
    | inr (e, failed) ↦
        (rw (failed, metrics_health) refl, inl (e, failed, rw (failed, metrics_health) refl))
    | inl (report, done) ↦ (
      rw (done, metrics_health) refl,
      inr (
        report,
        done,
        rw (done, metrics_health)
            (gauges_are_entries report.components report.overall (inner.health w).0),
      ),
    )
  ]
