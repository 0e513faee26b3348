-- ===== src/Monitor/Sampler.antt =====
-- scm/main/adapter/src/core/monitor/sampler.rs and the policy of
-- scm/main/port/monitor/src/types/autoscale_policy.rs: one round of the background sampler.
pub mod Quiet
use edge_bootstrap.Prelude.{ℕ, List, [], ◌∷◌, ◌++◌, Bool, Option, none, some, if◌then◌else◌, ltb}
use edge_bootstrap.Monitor.RingBuffer.{RingBuffer, p99_ms}
use edge_bootstrap.Monitor.Floats.{Floats}
use edge_bootstrap.Monitor.Provider.{MetricsProvider}
use edge_bootstrap.Monitor.Counters.{TrafficCounters}

pub record AutoscalePolicy (F : Type 0) : Type 0 where
  pub requests_active_max : ℕ
  pub requests_per_sec_max : ℕ
  pub latency_p99_ms_max : F

pub data ScaleOutSignal : Type 0 where
  requests_active requests_per_second latency_p99_ms : ScaleOutSignal

-- What one round reads.
pub record Reading (F : Type 0) : Type 0 where
  pub active : F
  pub rps : F
  pub eps : F
  pub p99 : F

abbrev pub when : Bool → ScaleOutSignal → List ScaleOutSignal
when b s = if b then s ∷ [] else []

module _ {F W : Type 0} (fl : Floats F) (p : MetricsProvider F W) where
  unfoldable pub default_policy : F → AutoscalePolicy F
  default_policy two_hundred = record {
    requests_active_max = 500;
    requests_per_sec_max = 1000;
    latency_p99_ms_max = two_hundred;
  }

  -- The warnings that the policy gives, in order.
  unfoldable pub signals : Option (AutoscalePolicy F) → Reading F → List ScaleOutSignal
  signals none r = []
  signals (some policy) r =
      when (ltb policy.requests_active_max (fl.to_u64 r.active)) requests_active
      ++ (when (ltb policy.requests_per_sec_max (fl.to_u64 r.rps)) requests_per_second
          ++ when (fl.lt policy.latency_p99_ms_max r.p99) latency_p99_ms)

  pub read : TrafficCounters W → Reading F
  read c = record {
    active = fl.of_i64 c.requests_in_flight;
    rps = fl.of_u64 c.requests_since_tick;
    eps = fl.of_u64 c.errors_since_tick;
    p99 = p99_ms fl c.latency_ring;
  }

  record_gauges : Reading F → W → W
  record_gauges r w =
      let w1 = p.record_gauge "edge_requests_active" r.active [] w in
      let w2 = p.record_gauge "edge_requests_per_second" r.rps [] w1 in
      let w3 = p.record_gauge "edge_errors_per_second" r.eps [] w2 in
      p.record_gauge "edge_request_latency_p99_ms" r.p99 [] w3

  -- One round of the loop in `run`, where no request steps in between.
  unfoldable pub tick :
      Option (AutoscalePolicy F) → TrafficCounters W → TrafficCounters W × List ScaleOutSignal
  unfolding read record_gauges
  tick policy c =
      let r = read c in
      (
        record c {
          requests_since_tick = 0;
          errors_since_tick = 0;
          world = record_gauges r c.world;
        },
        signals policy r,
      )
