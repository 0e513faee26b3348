-- ===== src/Monitor.antt =====
-- scm/main/port/monitor and scm/main/adapter/src/core/monitor: load counters, the latency window, the
-- sampler and the wrappers that record load.
pub mod Floats
pub mod Provider
pub mod Sort
pub mod RingBuffer
pub mod Counters
pub mod Sampler
pub mod Load
pub mod MetricsHandler
