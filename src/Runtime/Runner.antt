-- ===== src/Runtime/Runner.antt =====
-- scm/main/adapter/src/core/runner/runner.rs: start, wait for the signal, shut down in time.
pub mod Outcome
use edge_bootstrap.Prelude.{
  ℕ, Bool, Result, ok, err, Call, if◌then◌else◌, ◌≡◌, ◌↔◌, ◌⊎◌, arith, refl, true, false,
}
use edge_bootstrap.Adapters.{has_any}
use edge_bootstrap.Runtime.Status.{
  RuntimeStatus, running, stopping, stopped, RuntimeError, shutdown_failed, shutdown_timeout,
  is_running, is_terminal,
}
use edge_bootstrap.Runtime.Manager.{
  Manager, State, start, begin_shutdown, run_shutdown, finish_start, start_work, begin_start,
  run_start,
}

-- The signals, whether SIGTERM could be registered, and tokio's `timeout`: whether a future that is
-- started in a world ends within a number of seconds, and the world in which it is dropped if not.
pub record Timing (W : Type 0) : Type 0 where
  pub register_sigterm : W → W × Bool
  pub ctrl_c : W → W
  pub sigterm_or_ctrl_c : W → W
  pub in_time : ℕ → W → Bool
  pub dropped : ℕ → W → W

-- Without SIGTERM the program waits for Ctrl-C alone.
unfoldable pub wait_for_signal : {W : Type 0} → Timing W → W → W
wait_for_signal t w =
    let (w', registered) = t.register_sigterm w in
    if registered then t.sigterm_or_ctrl_c w' else t.ctrl_c w'

module _ {W : Type 0} (m : Manager W) (t : Timing W) where
  -- `timeout(secs, manager.shutdown())`, with the error that the runner puts on a lapse.
  unfoldable pub shutdown_within : ℕ → State W → State W × Result RuntimeError (Unit {0})
  shutdown_within secs s =
      let (s', goes_on) = begin_shutdown m s in
      if goes_on
      then (if t.in_time secs s'.world
          then run_shutdown m s' (m.lifecycle.shutdown s'.world)
          else (record s' { world = t.dropped secs s'.world }, err (shutdown_timeout secs)))
      else (s', ok tt)

  unfoldable pub after_start :
      ℕ → State W × Result RuntimeError (Unit {0}) → State W × Result RuntimeError (Unit {0})
  unfolding shutdown_within
  after_start secs (s, err e) = (s, err e)
  after_start secs (s, ok _) = shutdown_within secs (record s { world = wait_for_signal t s.world })

  unfoldable pub run_until_signal : ℕ → State W → State W × Result RuntimeError (Unit {0})
  unfolding after_start
  run_until_signal secs s = after_start secs (start m s)
