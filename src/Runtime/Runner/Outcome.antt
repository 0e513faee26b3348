-- ===== src/Runtime/Runner/Outcome.antt =====
-- The outcomes of a daemon's run.
use edge_bootstrap.Prelude.{
  ℕ, true, false, Result, ok, err, ◌≡◌, ◌↔◌, ◌⊎◌, inl, inr, refl, ap, ◌∙◌, arith, is_ok,
}
use edge_bootstrap.Runtime.Status.{
  starting, running, stopping, stopped, RuntimeError, shutdown_timeout, is_terminal,
}
use edge_bootstrap.Runtime.Manager.{Manager, State, start, begin_shutdown, run_shutdown}
use edge_bootstrap.Runtime.Manager.Laws.{start_status}
use edge_bootstrap.Runtime.Runner.{
  Timing, run_until_signal, shutdown_within, after_start, wait_for_signal,
}

module _ {W : Type 0} (m : Manager W) (t : Timing W) (secs : ℕ) where
  abbrev StopInTime : W → State W × Result RuntimeError (Unit {0}) → Type 0
  StopInTime w after =
      ((t.in_time secs w ≡ true)
        × (is_ok (m.lifecycle.shutdown w).1 ≡ true)
        × (after.1 ≡ ok tt)
        × (after.0.status ≡ stopped))
      ⊎ ((t.in_time secs w ≡ true)
          × (is_ok (m.lifecycle.shutdown w).1 ≡ false)
          × (is_ok after.1 ≡ false)
          × (after.0.status ≡ stopping))
      ⊎ ((t.in_time secs w ≡ false)
          × (after.1 ≡ err (shutdown_timeout secs))
          × (after.0.status ≡ stopping))

  shutdown_within_running :
      (s : State W) → s.status ≡ running → StopInTime s.world (shutdown_within m t secs s)
  unfolding shutdown_within begin_shutdown run_shutdown is_terminal
  shutdown_within_running s h = ground arith

  -- A run whose start fails ends with that error, in the state that the start left: nothing is shut
  -- down. A run whose start succeeds waits for the signal and then ends in one of three ways: stopped
  -- and without an error if the lifecycle's shutdown succeeds in time; with an error and still
  -- `stopping` if it fails in time; with the timeout error and still `stopping` if time runs out.
  pub run_until_signal_cases :
      (s : State W)
      → ((is_ok (start m s).1 ≡ false) × (run_until_signal m t secs s ≡ start m s))
        ⊎ ((is_ok (start m s).1 ≡ true)
            × StopInTime (wait_for_signal t (start m s).0.world) (run_until_signal m t secs s))
  unfolding run_until_signal
  run_until_signal_cases s = after_cases (start m s) (start_status m s)
    where
      after_cases :
          (r : State W × Result RuntimeError (Unit {0}))
          → ((is_ok r.1 ≡ true) × (r.0.status ≡ running))
            ⊎ ((is_ok r.1 ≡ false)
                × (r.0.status ≡ starting)
                × (r.0.started_at ≡ s.started_at)
                × (r.0.notices ≡ s.notices))
          → ((is_ok r.1 ≡ false) × (after_start m t secs r ≡ r))
            ⊎ ((is_ok r.1 ≡ true)
                × StopInTime (wait_for_signal t r.0.world) (after_start m t secs r))
      after_cases (s', ok tt) (inl h) =
          inr (refl, shutdown_within_running (record s' { world = wait_for_signal t s'.world }) h.1)
      after_cases (s', ok tt) (inr h) = cc
      after_cases (s', err e) h = inl (refl, refl)

  -- A run ends without an error exactly if it ends in the status `stopped`.
  pub run_until_signal_ok_iff :
      (s : State W)
      → ((run_until_signal m t secs s).1 ≡ ok tt)
        ↔ ((run_until_signal m t secs s).0.status ≡ stopped)
  run_until_signal_ok_iff s =
      iff (run_until_signal m t secs s) (start_status m s) (run_until_signal_cases s)
    where
      iff :
          (r : State W × Result RuntimeError (Unit {0}))
          → ((is_ok (start m s).1 ≡ true) × ((start m s).0.status ≡ running))
            ⊎ ((is_ok (start m s).1 ≡ false)
                × ((start m s).0.status ≡ starting)
                × ((start m s).0.started_at ≡ s.started_at)
                × ((start m s).0.notices ≡ s.notices))
          → ((is_ok (start m s).1 ≡ false) × (r ≡ start m s))
            ⊎ ((is_ok (start m s).1 ≡ true) × StopInTime (wait_for_signal t (start m s).0.world) r)
          → (r.1 ≡ ok tt) ↔ (r.0.status ≡ stopped)
      iff (s', ok tt) up (inr (u, inl (a, c, d, e))) = ((λ q. e), (λ q. refl))
      iff (s', ok tt) up (inr (u, inr (inl (a, c, d, e)))) = cc
      iff (s', ok tt) up (inr (u, inr (inr (a, d, e)))) = cc
      iff (s', err x) up (inr (u, inl (a, c, d, e))) = cc
      iff (s', err x) up (inr (u, inr (inl (a, c, d, e)))) = ((λ q. cc), (λ q. cc))
      iff (s', err x) up (inr (u, inr (inr (a, d, e)))) = ((λ q. cc), (λ q. cc))
      iff r (inl (a, c)) (inl (d, e)) = cc
      iff r (inr (a, c, f, g)) (inl (d, e)) =
          let failed : is_ok r.1 ≡ false =
            ap (λ (z : State W × Result RuntimeError (Unit {0})). is_ok z.1) e ∙ a in
          let status : r.0.status ≡ starting =
            ap (λ (z : State W × Result RuntimeError (Unit {0})). z.0.status) e ∙ c in
          ((λ q. let done : is_ok r.1 ≡ true = ap is_ok q in cc), (λ q. cc))
