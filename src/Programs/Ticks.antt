-- ===== src/Programs/Ticks.antt =====
-- scm/examples/scheduler-e2e: a job that counts its ticks, and the handler that reports the count.
-- `ticks` is the shared atomic counter in the world; `tick` waits for the interval.
use edge_bootstrap.Prelude.{
  ℕ, zero, suc, ◌+◌, ◌%◌, ◌<◌, String, Bool, ok, Call, ◌≡◌, refl, arith, ap, ◌∙◌,
}
use edge_bootstrap.Monitor.Floats.{u64_mod}
use edge_bootstrap.Dispatch.Interface.{Handler, HandlerContext}

-- `StatusHandler`; the answer is the count.
unfoldable pub status_handler :
    {O W : Type 0} → (W → ℕ) → Call W String Bool → Handler O W (Unit {0}) ℕ
status_handler ticks default_health = record {
  id = ok "/scheduler/status";
  pattern = ok "/scheduler/status";
  execute = λ ctx query w. (w, ok (ticks w));
  health_check = default_health;
}

module _ {W : Type 0} (ticks : W → ℕ) (set_ticks : ℕ → W → W) (tick : W → W) where
  fetch_add : W → W
  fetch_add w = set_ticks ((ticks w + 1) % u64_mod) w

  -- The loop over `1..=max_ticks`, and the result that it always gives.
  unfoldable pub run_scheduled_job : ℕ → Call W String (Unit {0})
  unfolding fetch_add
  run_scheduled_job zero w = (w, ok tt)
  run_scheduled_job (suc rounds) w = run_scheduled_job rounds (fetch_add (tick w))

  module _ (stored : (n : ℕ) (w : W) → ticks (set_ticks n w) ≡ n)
      (undisturbed : (w : W) → ticks (tick w) ≡ ticks w) where
    run_ends : (rounds : ℕ) (w : W) → (run_scheduled_job rounds w).1 ≡ ok tt
    unfolding run_scheduled_job
    run_ends zero w = refl
    run_ends (suc rounds) w = run_ends rounds (fetch_add (tick w))

    ticks-fetch_add : (w : W) → ticks (fetch_add (tick w)) ≡ (ticks w + 1) % u64_mod
    unfolding fetch_add
    ticks-fetch_add w =
        stored ((ticks (tick w) + 1) % u64_mod) (tick w)
        ∙ ap (λ (n : ℕ). (n + 1) % u64_mod) (undisturbed w)

    ticks-run :
        (rounds : ℕ) (w : W)
        → ticks w < u64_mod
        → ticks (run_scheduled_job rounds w).0 ≡ (ticks w + rounds) % u64_mod
    unfolding run_scheduled_job
    ticks-run zero w small = omega arith
    ticks-run (suc rounds) w small =
        let one = ticks-fetch_add w in
        omega (arith, one, ticks-run rounds (fetch_add (tick w)) (omega (arith, one)))

    -- Where what is stored in the counter is read back, and nobody else changes the counter while the
    -- job waits: a job of any number of ticks ends without an error and leaves a counter below
    -- 2 ^ 64 that much higher, modulo 2 ^ 64, and this is what the handler then reports, in any
    -- context.
    pub job_ticks :
        {O : Type 0} (default_health : Call W String Bool) (ctx : HandlerContext O) (max_ticks : ℕ)
        (w : W)
        → ticks w < u64_mod
        → let done = run_scheduled_job max_ticks w in
          (done.1 ≡ ok tt)
          × ((status_handler ticks default_health).execute ctx tt done.0
              ≡ (done.0, ok ((ticks w + max_ticks) % u64_mod)))
    unfolding status_handler
    job_ticks default_health ctx max_ticks w small = (
      run_ends max_ticks w,
      ap (λ (n : ℕ). ((run_scheduled_job max_ticks w).0, ok n)) (ticks-run max_ticks w small),
    )
