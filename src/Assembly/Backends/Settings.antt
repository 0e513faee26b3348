-- ===== src/Assembly/Backends/Settings.antt =====
-- Which backends a configuration leads to.
use edge_bootstrap.Prelude.{List, Bool, true, some, ok, is_ok, is_some, ◌≡◌, ◌↔◌, ◌⊎◌, refl, arith}
use edge_bootstrap.Config.Types.{Foreign, RuntimeConfig, MetricsBackendConfig, MetricsBackendKind}
use edge_bootstrap.Config.Host.{Host, FilePath}
use edge_bootstrap.Config.Loader.{load}
use edge_bootstrap.Config.Loader.Layers.{load_ignores_sections}
use edge_bootstrap.Assembly.Backends.{
  MetricsFactory, TracerFactory, LogFactory, build_metrics_provider, build_tracer_provider,
  build_log_backend,
}

-- The settings that the active kind needs are there.
abbrev pub HasMetricsSettings : MetricsBackendConfig → Type 0
HasMetricsSettings cfg =
    ((cfg.active ≡ MetricsBackendKind.file) × (is_some cfg.file ≡ true))
    ⊎ ((cfg.active ≡ MetricsBackendKind.prometheus) × (is_some cfg.prometheus ≡ true))
    ⊎ ((cfg.active ≡ MetricsBackendKind.otel) × (is_some cfg.otel ≡ true))

-- A metrics backend is built exactly if the memory backend is active, or the observability feature is in
-- and the settings of the active file, Prometheus or OTel backend are there; SQLite never is.
pub build_metrics_provider_iff :
    {B : Type 0} (f : MetricsFactory B) (observability : Bool) (cfg : MetricsBackendConfig)
    → (is_ok (build_metrics_provider f observability (some cfg)) ≡ true) ↔ (
        (cfg.active ≡ MetricsBackendKind.memory)
        ⊎ ((observability ≡ true) × HasMetricsSettings cfg))
unfolding build_metrics_provider
build_metrics_provider_iff f observability cfg = ground arith

-- A configuration that the loader returns always leads to the three in-memory backends, whatever the files
-- and the environment say and whatever features are in.
pub loaded_backends_memory :
    {x : Foreign} {A B C : Type 0} (h : Host x) (dirs : List FilePath) (cfg : RuntimeConfig x)
    (observability : Bool) (metrics : MetricsFactory A) (tracer : TracerFactory B)
    (log : LogFactory C)
    → load h dirs ≡ ok cfg
    → (build_metrics_provider metrics observability cfg.metrics_backend ≡ ok metrics.memory)
      × (build_tracer_provider tracer cfg.tracer_backend ≡ ok tracer.memory)
      × (build_log_backend log cfg.log_backend ≡ ok log.memory)
unfolding build_metrics_provider build_tracer_provider build_log_backend
loaded_backends_memory h dirs cfg observability metrics tracer log e =
    let (services, m, t, l, dir, guard) = load_ignores_sections h dirs cfg e in
    (rw m refl, rw t refl, rw l refl)
