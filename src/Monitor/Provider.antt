-- ===== src/Monitor/Provider.antt =====
-- The `MetricsProvider` trait of swe_observ_metrics, as far as the program calls it. Its state is part
-- of a world `W`.
use edge_bootstrap.Prelude.{String, List}

pub data MetricType : Type 0 where
  counter gauge histogram : MetricType

pub record MetricSnapshot (F : Type 0) : Type 0 where
  pub name : String
  pub metric_type : MetricType
  pub labels : List (String × String)
  pub value : F

pub record MetricsProvider (F W : Type 0) : Type 0 where
  pub record_counter : String → F → List (String × String) → W → W
  pub record_gauge : String → F → List (String × String) → W → W
  pub record_histogram : String → F → List (String × String) → W → W
  pub export : W → List (MetricSnapshot F)
