-- ===== src/Assembly/Backends.antt =====
-- The choice of the observability backends in
-- scm/main/adapter/src/core/runtime/runtime_builder_serve.rs. The factories of the three crates are
-- parameters.
pub mod Settings
use edge_bootstrap.Prelude.{
  ℕ, String, Bool, Option, none, some, Result, ok, err, map_err, ok_or, and_then, if◌then◌else◌,
  is_some,
}
use edge_bootstrap.Runtime.Status.{RuntimeError, start_failed}
use edge_bootstrap.Config.Types.{
  MetricsBackendConfig, MetricsBackendKind, TracerBackendConfig, TracerBackendKind,
  LogBackendConfig, LogBackendKind,
}

pub record MetricsFactory (B : Type 0) : Type 0 where
  pub memory : B
  pub file : String → B
  pub prometheus : B
  pub otel : String → B

pub record TracerFactory (B : Type 0) : Type 0 where
  pub memory : B
  pub file : String → B
  pub jaeger : String → String → B
  pub otel : String → B

pub record LogFactory (B : Type 0) : Type 0 where
  pub memory : B
  pub file : String → ℕ → B
  pub elk : String → B
  pub otel : String → B

-- `cfg.x.as_ref().ok_or_else(…)?` and the backend made of it.
abbrev pub with_settings : {A B : Type 0} → Option A → String → (A → B) → Result RuntimeError B
with_settings none missing make = err (start_failed missing)
with_settings (some a) missing make = ok (make a)

module _ {B : Type 0} (f : MetricsFactory B) where
  -- `observability` says whether the feature of that name is compiled in.
  unfoldable pub build_metrics_provider : Bool → Option MetricsBackendConfig → Result RuntimeError B
  build_metrics_provider observability none = ok f.memory
  build_metrics_provider observability (some cfg) = elim (cfg.active) [
    | MetricsBackendKind.memory ↦ ok f.memory
    | MetricsBackendKind.file ↦
        if observability
        then with_settings cfg.file "[metrics_backend.file] path is required when active = \"file\""
            f.file
        else err (start_failed "metrics_backend = \"file\" requires the \"observability\" feature")
    | MetricsBackendKind.prometheus ↦
        if observability
        then with_settings cfg.prometheus
            "[metrics_backend.prometheus] is required when active = \"prometheus\""
            (λ u. f.prometheus)
        else err
            (start_failed "metrics_backend = \"prometheus\" requires the \"observability\" feature")
    | MetricsBackendKind.otel ↦
        if observability
        then with_settings cfg.otel
            "[metrics_backend.otel] service_name is required when active = \"otel\"" f.otel
        else err (start_failed "metrics_backend = \"otel\" requires the \"observability\" feature")
    | MetricsBackendKind.sqlite ↦ err (
        start_failed
          "metrics_backend = \"sqlite\" is not supported yet — requires async pool initialisation this composition root doesn't perform. Use RuntimeBuilder::with_metrics_provider() to supply a pre-initialised backend instead.")
  ]

module _ {B : Type 0} (f : TracerFactory B) where
  unfoldable pub build_tracer_provider : Option TracerBackendConfig → Result RuntimeError B
  build_tracer_provider none = ok f.memory
  build_tracer_provider (some cfg) = elim (cfg.active) [
    | TracerBackendKind.memory ↦ ok f.memory
    | TracerBackendKind.file ↦
        with_settings cfg.file "[tracer_backend.file] path is required when active = \"file\""
          f.file
    | TracerBackendKind.jaeger ↦
        with_settings cfg.jaeger
          "[tracer_backend.jaeger] endpoint is required when active = \"jaeger\""
          (λ s. f.jaeger s.0 s.1)
    | TracerBackendKind.otel ↦
        with_settings cfg.otel
          "[tracer_backend.otel] service_name is required when active = \"otel\"" f.otel
    | TracerBackendKind.sqlite ↦ err (
        start_failed
          "tracer_backend = \"sqlite\" is not supported yet — requires async pool initialisation this composition root doesn't perform. Use RuntimeBuilder::with_tracer_provider() to supply a pre-initialised backend instead.")
  ]

module _ {B : Type 0} (f : LogFactory B) where
  unfoldable pub build_log_backend : Option LogBackendConfig → Result RuntimeError B
  build_log_backend none = ok f.memory
  build_log_backend (some cfg) = elim (cfg.active) [
    | LogBackendKind.memory ↦ ok f.memory
    | LogBackendKind.file ↦
        with_settings cfg.file "[log_backend.file] path is required when active = \"file\""
          (λ s. f.file s.0 s.1)
    | LogBackendKind.elk ↦
        with_settings cfg.elk "[log_backend.elk] endpoint/index is required when active = \"elk\""
          f.elk
    | LogBackendKind.otel ↦
        with_settings cfg.otel "[log_backend.otel] service_name is required when active = \"otel\""
          f.otel
    | LogBackendKind.sqlite ↦ err (
        start_failed
          "log_backend = \"sqlite\" is not supported yet — requires async pool initialisation this composition root doesn't perform. Use RuntimeBuilder::with_log_drain_backend() to supply a pre-initialised backend instead.")
  ]
