-- ===== src/Monitor/Counters.antt =====
-- scm/main/port/monitor/src/types/traffic_counters.rs: the load state that requests and the sampler
-- share. `world` holds the state of the metrics provider and of all else outside the program.
-- An atomic `fetch_add` or `fetch_sub` wraps at 2 ^ 64.
pub mod Interleaving
use edge_bootstrap.Prelude.{
  ℕ, ◌+◌, ◌-◌, ◌%◌, ◌^◌, List, [], Bool, Option, none, some, if◌then◌else◌, true, false,
}
use edge_bootstrap.Monitor.RingBuffer
use edge_bootstrap.Monitor.RingBuffer.{RingBuffer}
use edge_bootstrap.Monitor.Floats.{Floats, u64_mod}
use edge_bootstrap.Monitor.Provider.{MetricsProvider, MetricSnapshot}

abbrev pub ring_capacity : ℕ
ring_capacity = 1024

pub record TrafficCounters (W : Type 0) : Type 0 where
  pub requests_in_flight : ℕ  -- AtomicI64
  pub requests_since_tick : ℕ  -- AtomicU64
  pub errors_since_tick : ℕ  -- AtomicU64
  pub latency_ring : RingBuffer
  pub world : W

-- `TrafficCountersBuilder::build`, for a capacity of the latency window.
unfoldable pub build : {W : Type 0} → ℕ → W → TrafficCounters W
build capacity w = record {
  requests_in_flight = 0;
  requests_since_tick = 0;
  errors_since_tick = 0;
  latency_ring = RingBuffer.new capacity;
  world = w;
}

module _ {F W : Type 0} (fl : Floats F) (p : MetricsProvider F W) where
  unfoldable pub new : W → TrafficCounters W
  new w = record {
    requests_in_flight = 0;
    requests_since_tick = 0;
    errors_since_tick = 0;
    latency_ring = RingBuffer.new ring_capacity;
    world = w;
  }

  unfoldable pub on_start : TrafficCounters W → TrafficCounters W
  on_start c = record c { requests_in_flight = (c.requests_in_flight + 1) % u64_mod }

  unfoldable pub export : TrafficCounters W → List (MetricSnapshot F)
  export c = p.export c.world

  -- The steps of `on_end`, each atomic by itself.
  pub leave : TrafficCounters W → TrafficCounters W
  leave c = record c { requests_in_flight = (c.requests_in_flight + (u64_mod - 1)) % u64_mod }

  pub count_request : TrafficCounters W → TrafficCounters W
  count_request c = record c { requests_since_tick = (c.requests_since_tick + 1) % u64_mod }

  pub record_request : TrafficCounters W → TrafficCounters W
  record_request c = record c {
    world = p.record_counter "edge_requests_total" (fl.of_u64 1) [] c.world;
  }

  pub count_error : TrafficCounters W → TrafficCounters W
  count_error c = record c { errors_since_tick = (c.errors_since_tick + 1) % u64_mod }

  pub record_error : TrafficCounters W → TrafficCounters W
  record_error c = record c {
    world = p.record_counter "edge_errors_total" (fl.of_u64 1) [] c.world;
  }

  -- `none` if the ring has no slot: `push` panics.
  pub push_latency : ℕ → TrafficCounters W → Option (TrafficCounters W)
  push_latency latency_us c = elim (RingBuffer.push c.latency_ring latency_us) [
    | none ↦ none
    | some ring ↦ some (record c { latency_ring = ring })
  ]

  unfoldable pub on_end : ℕ → Bool → TrafficCounters W → Option (TrafficCounters W)
  unfolding leave count_request record_request count_error record_error push_latency
  on_end latency_us is_error c =
      let counted = record_request (count_request (leave c)) in
      push_latency latency_us (if is_error then record_error (count_error counted) else counted)
