-- ===== src/Monitor/Counters/Interleaving.antt =====
-- The counters under any interleaving of the atomic steps of requests and of the sampler.
use edge_bootstrap.Prelude.{
  ℕ, ◌+◌, ◌%◌, ◌<◌, ◌≡◌, refl, List, [], ◌∷◌, ◌++◌, Bool, true, false, some, arith, count_if,
  count_if-cons, unwrap_or, if◌then◌else◌,
}
use edge_bootstrap.Monitor.Floats.{Floats, u64_mod}
use edge_bootstrap.Monitor.Provider.{MetricsProvider}
use edge_bootstrap.Monitor.Counters.{
  TrafficCounters, on_start, leave, count_request, record_request, count_error, record_error,
  push_latency, on_end,
}

-- One atomic step: those of `on_start` and `on_end`, and the two swaps of the sampler.
pub data Op : Type 0 where
  start leaving counting recording counting_error recording_error : Op
  latency : ℕ → Op
  swap_requests swap_errors : Op

-- The counters, and the values that the sampler has taken from them.
pub record Observed (W : Type 0) : Type 0 where
  pub counters : TrafficCounters W
  pub requests_taken : ℕ
  pub errors_taken : ℕ

abbrev pub is_start : Op → Bool
is_start start = true
is_start _ = false

abbrev pub is_leaving : Op → Bool
is_leaving leaving = true
is_leaving _ = false

abbrev pub is_counting : Op → Bool
is_counting counting = true
is_counting _ = false

abbrev pub is_counting_error : Op → Bool
is_counting_error counting_error = true
is_counting_error _ = false

-- The steps of one `on_end`, in its order.
abbrev pub end_ops : ℕ → Bool → List Op
end_ops us is_error =
    leaving
    ∷ counting
    ∷ recording
    ∷ ((if is_error then counting_error ∷ recording_error ∷ [] else []) ++ latency us ∷ [])

module _ {F W : Type 0} (fl : Floats F) (p : MetricsProvider F W) where
  unfoldable pub apply : Op → Observed W → Observed W
  unfolding on_start leave count_request record_request count_error record_error push_latency
  apply start o = record o { counters = on_start fl p o.counters }
  apply leaving o = record o { counters = leave fl p o.counters }
  apply counting o = record o { counters = count_request fl p o.counters }
  apply recording o = record o { counters = record_request fl p o.counters }
  apply counting_error o = record o { counters = count_error fl p o.counters }
  apply recording_error o = record o { counters = record_error fl p o.counters }
  apply (latency us) o = record o {
    counters = unwrap_or (push_latency fl p us o.counters) o.counters;
  }
  apply swap_requests o = record o {
    counters = record (o.counters) { requests_since_tick = 0 };
    requests_taken = o.requests_taken + o.counters.requests_since_tick;
  }
  apply swap_errors o = record o {
    counters = record (o.counters) { errors_since_tick = 0 };
    errors_taken = o.errors_taken + o.counters.errors_since_tick;
  }

  unfoldable pub run : List Op → Observed W → Observed W
  run [] o = o
  run (op ∷ ops) o = run ops (apply op o)

  -- `on_end` is its steps in a row.
  pub run-end_ops :
      (us : ℕ) (is_error : Bool) (o : Observed W) (c : TrafficCounters W)
      → on_end fl p us is_error o.counters ≡ some c
      → run (end_ops us is_error) o ≡ record o { counters = c }
  unfolding run apply on_end
  run-end_ops us true o c h = ground arith
  run-end_ops us false o c h = ground arith

  push_latency_keeps :
      (us : ℕ) (c : TrafficCounters W)
      → let d = unwrap_or (push_latency fl p us c) c in
        (d.requests_in_flight ≡ c.requests_in_flight)
        × (d.requests_since_tick ≡ c.requests_since_tick)
        × (d.errors_since_tick ≡ c.errors_since_tick)
  unfolding push_latency
  push_latency_keeps us c = ground arith

  abbrev requests : Observed W → ℕ
  requests o = o.requests_taken + o.counters.requests_since_tick

  abbrev errors : Observed W → ℕ
  errors o = o.errors_taken + o.counters.errors_since_tick

  requests-apply :
      (op : Op) (o : Observed W)
      → requests o + count_if is_counting (op ∷ []) < u64_mod
      → requests (apply op o) ≡ requests o + count_if is_counting (op ∷ [])
  unfolding apply
  requests-apply (latency us) o h = omega (arith, push_latency_keeps us o.counters)
  requests-apply start o h = omega arith
  requests-apply counting o h = omega arith
  requests-apply _ o h = omega arith

  errors-apply :
      (op : Op) (o : Observed W)
      → errors o + count_if is_counting_error (op ∷ []) < u64_mod
      → errors (apply op o) ≡ errors o + count_if is_counting_error (op ∷ [])
  unfolding apply
  errors-apply (latency us) o h = omega (arith, push_latency_keeps us o.counters)
  errors-apply start o h = omega arith
  errors-apply _ o h = omega arith

  in_flight-apply :
      (op : Op) (o : Observed W)
      → ((apply op o).counters.requests_in_flight + count_if is_leaving (op ∷ [])) % u64_mod
        ≡ (o.counters.requests_in_flight + count_if is_start (op ∷ [])) % u64_mod
  unfolding apply
  in_flight-apply (latency us) o = omega (arith, push_latency_keeps us o.counters)
  in_flight-apply start o = omega arith
  in_flight-apply _ o = omega arith

  requests-run :
      (ops : List Op) (o : Observed W)
      → requests o + count_if is_counting ops < u64_mod
      → requests (run ops o) ≡ requests o + count_if is_counting ops
  unfolding run
  requests-run [] o h = omega arith
  requests-run (op ∷ ops) o h =
      let split = count_if-cons is_counting op ops in
      let first = requests-apply op o (omega (arith, split)) in
      omega (arith, split, first, requests-run ops (apply op o) (omega (arith, split, first)))

  errors-run :
      (ops : List Op) (o : Observed W)
      → errors o + count_if is_counting_error ops < u64_mod
      → errors (run ops o) ≡ errors o + count_if is_counting_error ops
  unfolding run
  errors-run [] o h = omega arith
  errors-run (op ∷ ops) o h =
      let split = count_if-cons is_counting_error op ops in
      let first = errors-apply op o (omega (arith, split)) in
      omega (arith, split, first, errors-run ops (apply op o) (omega (arith, split, first)))

  in_flight-run :
      (ops : List Op) (o : Observed W)
      → ((run ops o).counters.requests_in_flight + count_if is_leaving ops) % u64_mod
        ≡ (o.counters.requests_in_flight + count_if is_start ops) % u64_mod
  unfolding run
  in_flight-run [] o = refl
  in_flight-run (op ∷ ops) o = omega (
    arith,
    count_if-cons is_start op ops,
    count_if-cons is_leaving op ops,
    in_flight-apply op o,
    in_flight-run ops (apply op o),
  )

-- The state that a fresh set of counters gives the sampler: nothing counted and nothing taken.
abbrev pub IsFresh : {W : Type 0} → Observed W → Type 0
IsFresh o =
    (o.counters.requests_in_flight ≡ 0)
    × (o.counters.requests_since_tick + o.requests_taken ≡ 0)
    × (o.counters.errors_since_tick + o.errors_taken ≡ 0)

-- From fresh counters, in whatever order the atomic steps of requests and sampler rounds interleave,
-- with fewer than 2 ^ 64 steps of each kind: what the sampler has taken and what waits for it is
-- exactly the number of counted requests, and of counted errors; and the number in flight, as a
-- 64-bit word, is the number of starts less the number of endings.
pub run_conserves :
    {F W : Type 0} (fl : Floats F) (p : MetricsProvider F W) (ops : List Op) (o : Observed W)
    → IsFresh o
    → count_if is_counting ops < u64_mod
    → count_if is_counting_error ops < u64_mod
    → let e = run fl p ops o in
      (e.requests_taken + e.counters.requests_since_tick ≡ count_if is_counting ops)
      × (e.errors_taken + e.counters.errors_since_tick ≡ count_if is_counting_error ops)
      × ((e.counters.requests_in_flight + count_if is_leaving ops) % u64_mod
          ≡ count_if is_start ops % u64_mod)
run_conserves fl p ops o fresh h k = (
  omega (arith, requests-run fl p ops o (omega arith)),
  omega (arith, errors-run fl p ops o (omega arith)),
  omega (arith, in_flight-run fl p ops o),
)
