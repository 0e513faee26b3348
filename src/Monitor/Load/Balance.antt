-- ===== src/Monitor/Load/Balance.antt =====
-- What the load monitors leave behind.
use edge_bootstrap.Prelude.{
  ℕ, ◌+◌, ◌-◌, ◌%◌, ◌<◌, ◌≡◌, refl, [], Bool, true, false, some, is_err, Call, length, arith,
  if◌then◌else◌, ◌∙◌, length-set, length-replicate,
}
use edge_bootstrap.Monitor.Floats.{Floats, u64_mod}
use edge_bootstrap.Monitor.Provider.{MetricsProvider}
use edge_bootstrap.Monitor.RingBuffer
use edge_bootstrap.Monitor.RingBuffer.{RingBuffer}
use edge_bootstrap.Monitor.Counters.{TrafficCounters, new, on_start, on_end, ring_capacity}
use edge_bootstrap.Monitor.RingBuffer.Window.{pushed}
use edge_bootstrap.Monitor.Load.{record_load, dropped_load}

-- What holds of the counters between two steps: the words are in range, and the ring has its slots.
pub record IsSound {W : Type 0} (c : TrafficCounters W) : Type 0 where
  pub in_flight_word : c.requests_in_flight < u64_mod
  pub requests_word : c.requests_since_tick < u64_mod
  pub errors_word : c.errors_since_tick < u64_mod
  pub slots : length c.latency_ring.buf ≡ ring_capacity

module _ {F W : Type 0} (fl : Floats F) (p : MetricsProvider F W) where
  pub new-IsSound : (w : W) → IsSound (new fl p w)
  unfolding new RingBuffer.new
  new-IsSound w = record {
    in_flight_word = omega arith;
    requests_word = omega arith;
    errors_word = omega arith;
    slots = length-replicate {A = ℕ} ring_capacity 0;
  }

  counted_world : Bool → W → W
  counted_world is_error w =
      let w' = p.record_counter "edge_requests_total" (fl.of_u64 1) [] w in
      if is_error then p.record_counter "edge_errors_total" (fl.of_u64 1) [] w' else w'

  -- The state after a request has ended.
  ended : ℕ → Bool → TrafficCounters W → TrafficCounters W
  ended us is_error c = record {
    requests_in_flight = (c.requests_in_flight + (u64_mod - 1)) % u64_mod;
    requests_since_tick = (c.requests_since_tick + 1) % u64_mod;
    errors_since_tick =
        if is_error then (c.errors_since_tick + 1) % u64_mod else c.errors_since_tick;
    latency_ring = pushed c.latency_ring us;
    world = counted_world is_error c.world;
  }

  on_end-ended :
      (us : ℕ) (is_error : Bool) (c : TrafficCounters W)
      → IsSound c
      → on_end fl p us is_error c ≡ some (ended us is_error c)
  unfolding on_end RingBuffer.push ended counted_world
  on_end-ended us true c s = ground arith
  on_end-ended us false c s = ground arith

  ended-IsSound :
      (us : ℕ) (is_error : Bool) (c : TrafficCounters W) → IsSound c → IsSound (ended us is_error c)
  unfolding ended
  ended-IsSound us is_error c s = record {
    in_flight_word = omega arith;
    requests_word = omega arith;
    errors_word = ground arith;
    slots = length-set c.latency_ring.buf _ us ∙ s.slots;
  }

  -- On sound counters the end of a request does not panic and leaves sound counters. It takes the
  -- request out of those in flight and counts it, and counts an error if and only if it failed.
  pub on_end_total :
      (us : ℕ) (is_error : Bool) (c : TrafficCounters W)
      → IsSound c
      → (d : TrafficCounters W) × (on_end fl p us is_error c ≡ some d)
        × IsSound d
        × (d.requests_in_flight ≡ (c.requests_in_flight + (u64_mod - 1)) % u64_mod)
        × (d.requests_since_tick ≡ (c.requests_since_tick + 1) % u64_mod)
        × (d.errors_since_tick
            ≡ (if is_error then (c.errors_since_tick + 1) % u64_mod else c.errors_since_tick))
  unfolding ended
  on_end_total us is_error c s = (
    ended us is_error c,
    on_end-ended us is_error c s,
    ended-IsSound us is_error c s,
    refl,
    refl,
    refl,
  )

  module _ (clock : W → ℕ) {E A : Type 0} (call : Call W E A) (c : TrafficCounters W) where
    abbrev started : TrafficCounters W
    started = record c {
      requests_in_flight = (c.requests_in_flight + 1) % u64_mod;
      world = (call c.world).0;
    }

    started-IsSound : IsSound c → IsSound started
    started-IsSound s = omega arith

    record_load-ended :
        IsSound c
        → record_load fl p clock call c ≡ (
          ended
              ((clock (call c.world).0 - clock c.world) % u64_mod)
              (is_err (call c.world).1)
              started,
          (call c.world).1,
        )
    unfolding record_load on_start
    record_load-ended s =
        rw
          (on_end-ended ((clock (call c.world).0 - clock c.world) % u64_mod)
            (is_err (call c.world).1) started (started-IsSound s))
          refl

    -- A monitored call gives the caller exactly the result of the wrapped call. When it ends, sound
    -- counters are sound again, as many requests are in flight as before, one more request is counted,
    -- and one more error if and only if the result is an error.
    pub record_load_balance :
        IsSound c
        → let after = record_load fl p clock call c in
          (after.1 ≡ (call c.world).1)
          × IsSound after.0
          × (after.0.requests_in_flight ≡ c.requests_in_flight)
          × (after.0.requests_since_tick ≡ (c.requests_since_tick + 1) % u64_mod)
          × (after.0.errors_since_tick ≡ (
              if is_err (call c.world).1
              then (c.errors_since_tick + 1) % u64_mod
              else c.errors_since_tick))
    unfolding ended
    record_load_balance s =
        rw (record_load-ended s)
          (refl, ended-IsSound _ _ started (started-IsSound s), omega arith, refl, refl)

  -- On sound counters, with room for one more in flight: a monitored call whose future is dropped is
  -- still in flight afterwards, and again after a further call has ended, and it is not counted as a
  -- request.
  pub dropped_load_stays :
      (clock : W → ℕ) {E A : Type 0} (call : Call W E A) (w : W) (c : TrafficCounters W)
      → IsSound c
      → c.requests_in_flight + 1 < u64_mod
      → let d = dropped_load fl p clock w c in
        IsSound d
        × (d.requests_in_flight ≡ c.requests_in_flight + 1)
        × ((record_load fl p clock call d).0.requests_in_flight ≡ c.requests_in_flight + 1)
        × (d.requests_since_tick ≡ c.requests_since_tick)
  unfolding dropped_load on_start
  dropped_load_stays clock call w c s h =
      let sound : IsSound (dropped_load fl p clock w c) = omega arith in
      let kept = (record_load_balance clock call (dropped_load fl p clock w c) sound).2 in
      (sound, omega arith, omega (arith, kept), refl)
