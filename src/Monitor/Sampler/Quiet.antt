-- ===== src/Monitor/Sampler/Quiet.antt =====
-- Rounds of the sampler with no request between them.
use edge_bootstrap.Prelude.{
  ℕ, [], ◌++◌, Bool, true, false, Option, none, some, ltb, keep_if, ◌≡◌, refl, arith,
}
use edge_bootstrap.Monitor.Floats.{Floats}
use edge_bootstrap.Monitor.Provider.{MetricsProvider}
use edge_bootstrap.Monitor.RingBuffer.{p99_ms}
use edge_bootstrap.Monitor.Counters.{TrafficCounters}
use edge_bootstrap.Monitor.Sampler.{
  AutoscalePolicy, ScaleOutSignal, requests_active, requests_per_second, latency_p99_ms, signals,
  when, read, tick,
}

-- The signals that do not come from the requests of the last second.
abbrev pub is_lasting : ScaleOutSignal → Bool
is_lasting requests_per_second = false
is_lasting _ = true

above_none : (n : ℕ) → ltb n 0 ≡ false
above_none n = ground arith

lasting_signals :
    (a r l : Bool)
    → when a requests_active ++ ([] ++ when l latency_p99_ms)
      ≡ keep_if is_lasting
          (when a requests_active ++ (when r requests_per_second ++ when l latency_p99_ms))
lasting_signals true true true = refl
lasting_signals true true false = refl
lasting_signals true false true = refl
lasting_signals true false false = refl
lasting_signals false true true = refl
lasting_signals false true false = refl
lasting_signals false false true = refl
lasting_signals false false false = refl

module _ {F W : Type 0} (fl : Floats F) (p : MetricsProvider F W) where
  -- A sampler round reads the counts of requests and errors and resets them. So in the next round, with no
  -- request in between, no rate signal is given, whatever the policy; but the signals on requests in
  -- flight and on latency are given again exactly if they were given before: without traffic they
  -- do not fade. (The float of 0 is read back as 0.)
  pub quiet_tick :
      (policy : Option (AutoscalePolicy F)) (c : TrafficCounters W)
      → fl.to_u64 (fl.of_u64 0) ≡ 0
      → let first = tick fl p policy c in
        let second = tick fl p policy first.0 in
        (first.0.requests_since_tick ≡ 0)
        × (first.0.errors_since_tick ≡ 0)
        × (first.0.requests_in_flight ≡ c.requests_in_flight)
        × (second.1 ≡ keep_if is_lasting first.1)
  unfolding tick signals read
  quiet_tick none c zero_back = (refl, refl, refl, refl)
  quiet_tick (some policy) c zero_back = (
    refl,
    refl,
    refl,
    rw zero_back (
        rw (above_none policy.requests_per_sec_max) (
          lasting_signals
            (ltb policy.requests_active_max (fl.to_u64 (fl.of_i64 c.requests_in_flight)))
            (ltb policy.requests_per_sec_max (fl.to_u64 (fl.of_u64 c.requests_since_tick)))
            (fl.lt policy.latency_p99_ms_max (p99_ms fl c.latency_ring)))),
  )
