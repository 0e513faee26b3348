-- ===== src/Examples/Monitor.antt =====
-- The latency window, the counters and the load monitors on concrete values.
use edge_bootstrap.Prelude.{
  ℕ, ◌+◌, ◌-◌, ◌*◌, ◌/◌, ◌%◌, ◌≤◌, ◌≡◌, refl, List, [], ◌∷◌, true, some, count_if, length, leb,
  arith,
}
use edge_bootstrap.Monitor.Floats.{u64_mod}
use edge_bootstrap.Monitor.RingBuffer
use edge_bootstrap.Monitor.RingBuffer.{RingBuffer, p99_us, p99_index, samples, push}
use edge_bootstrap.Monitor.RingBuffer.Percentile.{p99_us_rank, pick}
use edge_bootstrap.Monitor.RingBuffer.Recent.{filled, p99_us_recent}
use edge_bootstrap.Monitor.RingBuffer.Window.{IsWindow, new-IsWindow, push-IsWindow}
use edge_bootstrap.Monitor.Counters
use edge_bootstrap.Monitor.Counters.{TrafficCounters, on_end}
use edge_bootstrap.Monitor.Counters.Interleaving.{
  Op, start, leaving, counting, counting_error, latency, swap_requests, swap_errors, Observed, run,
  run_conserves,
}
use edge_bootstrap.Monitor.Load.{record_load}
use edge_bootstrap.Monitor.Load.Balance.{IsSound, new-IsSound, on_end_total, record_load_balance}
use edge_bootstrap.Examples.Fixtures.{floats, provider, clock, failing}

abbrev window : RingBuffer
window = record { buf = 0 ∷ 30 ∷ 10 ∷ 20 ∷ []; head = 4 }

abbrev counters : TrafficCounters ℕ
counters = Counters.new floats provider 7

abbrev observed : Observed ℕ
observed = record {
  counters = record {
    requests_in_flight = 0;
    requests_since_tick = 0;
    errors_since_tick = 0;
    latency_ring = window;
    world = 0;
  };
  requests_taken = 0;
  errors_taken = 0;
}

abbrev steps : List Op
steps =
    start
    ∷ start
    ∷ leaving
    ∷ counting
    ∷ swap_requests
    ∷ counting_error
    ∷ swap_errors
    ∷ latency 9
    ∷ []

push-IsWindow_example :
    (s : RingBuffer) × (push (RingBuffer.new 4) 30 ≡ some s) × IsWindow 4 (30 ∷ []) s
push-IsWindow_example =
    push-IsWindow 4 [] (RingBuffer.new 4) 30 (new-IsWindow 4) (omega arith) (omega arith)

-- Five samples on a buffer of four.
abbrev overfull : List ℕ
overfull = 12 ∷ 30 ∷ 0 ∷ 20 ∷ 900 ∷ []

p99_us_recent_example :
    (r : RingBuffer) × (filled 4 overfull ≡ some r) × (p99_us r ≡ pick (12 ∷ 30 ∷ 20 ∷ []))
p99_us_recent_example = p99_us_recent 4 overfull (omega arith) (omega arith)

p99_us_rank_example :
    let n = length (samples window) in
    (n * 99 / 100 ≤ count_if (λ y. leb y (p99_us window)) (samples window))
    × (1 ≤ count_if (λ y. leb y (p99_us window)) (samples window))
    × (n ≤ n * 99 / 100 - 1 + count_if (λ y. leb (p99_us window) y) (samples window))
unfolding samples
p99_us_rank_example = p99_us_rank window (cc)

run_conserves_example :
    let e = run floats provider steps observed in
    (e.requests_taken + e.counters.requests_since_tick ≡ 1)
    × (e.errors_taken + e.counters.errors_since_tick ≡ 1)
    × ((e.counters.requests_in_flight + 1) % u64_mod ≡ 2 % u64_mod)
run_conserves_example =
    run_conserves floats provider steps observed (refl, refl, refl) (omega arith) (omega arith)

on_end_total_example :
    (d : TrafficCounters ℕ) × (on_end floats provider 12 true counters ≡ some d)
    × IsSound d
    × (d.requests_in_flight ≡ (counters.requests_in_flight + (u64_mod - 1)) % u64_mod)
    × (d.requests_since_tick ≡ (counters.requests_since_tick + 1) % u64_mod)
    × (d.errors_since_tick ≡ (counters.errors_since_tick + 1) % u64_mod)
on_end_total_example = on_end_total floats provider 12 true counters (new-IsSound floats provider 7)

record_load_balance_example :
    let after = record_load floats provider clock failing counters in
    (after.1 ≡ (failing 7).1)
    × IsSound after.0
    × (after.0.requests_in_flight ≡ 0)
    × (after.0.requests_since_tick ≡ 1)
    × (after.0.errors_since_tick ≡ 1)
unfolding Counters.new
record_load_balance_example =
    record_load_balance floats provider clock failing counters (new-IsSound floats provider 7)
