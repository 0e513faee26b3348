-- ===== src/Serve/Outcome.antt =====
-- How `serve` ends.
use edge_bootstrap.Prelude.{
  [], ◌∷◌, Bool, true, false, ◌||◌, none, some, Result, ok, is_err, Result-cases, inl, inr, ◌⊎◌,
  ◌↔◌, ◌≡◌, refl, arith, ap, sym, ◌∙◌,
}
use mathlib.Core.Option.{some-injective}
use edge_bootstrap.Config.Types.{Foreign}
use edge_bootstrap.Monitor.Counters.{TrafficCounters}
use edge_bootstrap.Runtime.Status.{RuntimeError, stopped}
use edge_bootstrap.Runtime.Manager
use edge_bootstrap.Runtime.Runner.{run_until_signal}
use edge_bootstrap.Runtime.Runner.Outcome.{run_until_signal_ok_iff}
use edge_bootstrap.Builder.{Parts, RuntimeBuilder}
use edge_bootstrap.Serve.{
  Task, http_server, grpc_server, metrics_server, scheduler, Event, ran, Process, Action, ◌>>=◌,
  lift,
}
use edge_bootstrap.Serve.Log.{starts, tells, waits, any, ran_status, next-ok, next-err}
use edge_bootstrap.Serve.Resolve.{Env}
use edge_bootstrap.Serve.Servers.{Prepared, http_events, grpc_events, metrics_events}
use edge_bootstrap.Serve.Teardown.{Spawned, teardown, conduct}
use edge_bootstrap.Serve.Whole.{prepare, launch, spawned, schedule, manager_of, serve}

abbrev pub has : Spawned → Task → Bool
has t http_server = t.http
has t grpc_server = t.grpc
has t metrics_server = t.metrics
has t scheduler = t.scheduled

or_false : (q : Bool) → q || false ≡ q
or_false true = refl
or_false false = refl

module _ {x : Foreign} {y : Parts} {V W P R G : Type 0} (env : Env x y W P R G) (t : Spawned)
    (s : Process (Event x y V) W) where
  pub teardown_ok : (teardown env t s).1 ≡ ok tt
  unfolding teardown
  teardown_ok = ground arith

  teardown_starts : (k : Task) → any (starts k) (teardown env t s).0.log ≡ any (starts k) s.log
  unfolding teardown
  teardown_starts k = ground arith

  teardown-tells : (k : Task) → has t k ≡ true → any (tells k) (teardown env t s).0.log ≡ true
  unfolding teardown
  teardown-tells k e = ground arith

  teardown-waits :
      (k : Task) → any (waits k) (teardown env t s).0.log ≡ has t k || any (waits k) s.log
  unfolding teardown
  teardown-waits k = ground arith

  teardown_ran : ran_status (teardown env t s).0.log ≡ ran_status s.log
  unfolding teardown
  teardown_ran = ground arith

module _ {x : Foreign} {y : Parts} {W P R G : Type 0} (env : Env x y W P R G)
    (b : RuntimeBuilder x y W P R G) where
  prepare_starts :
      (k : Task) (s : Process (Event x y (TrafficCounters W)) W)
      → any (starts k) (prepare env b s).0.log ≡ any (starts k) s.log
  unfolding prepare
  prepare_starts k s = ground arith

  prepare-waits :
      (k : Task) (s : Process (Event x y (TrafficCounters W)) W)
      → any (waits k) (prepare env b s).0.log ≡ any (waits k) s.log
  unfolding prepare
  prepare-waits k s = ground arith

  prepare_ran :
      (s : Process (Event x y (TrafficCounters W)) W)
      → ran_status (prepare env b s).0.log ≡ ran_status s.log
  unfolding prepare
  prepare_ran s = ground arith

  module _ (p : Prepared x y W) (s : Process (Event x y (TrafficCounters W)) W) where
    -- A launch that fails has dropped the sender of every task that it started.
    launch_failed :
        (k : Task)
        → any (starts k) s.log ≡ false
        → is_err (launch env b p s).1 ≡ true
        → any (starts k) (launch env b p s).0.log ≡ true
        → any (tells k) (launch env b p s).0.log ≡ true
    unfolding launch schedule http_events grpc_events metrics_events
    launch_failed k calm e up = ground arith

    launch_started :
        (k : Task)
        → is_err (launch env b p s).1 ≡ false
        → any (starts k) (launch env b p s).0.log ≡ has (spawned env b p) k || any (starts k) s.log
    unfolding launch schedule http_events grpc_events metrics_events
    launch_started k e = ground arith

    launch-waits : (k : Task) → any (waits k) (launch env b p s).0.log ≡ any (waits k) s.log
    unfolding launch schedule http_events grpc_events metrics_events
    launch-waits k = ground arith

    launch_ran : ran_status (launch env b p s).0.log ≡ ran_status s.log
    unfolding launch schedule http_events grpc_events metrics_events
    launch_ran = ground arith

  abbrev Step : Type 0
  Step = Process (Event x y (TrafficCounters W)) W × Result RuntimeError (Unit {0})

  -- What a run of a prepared runtime gives, from the world in which it starts.
  abbrev pub run_of : Prepared x y W → W → Manager.State W × Result RuntimeError (Unit {0})
  run_of p w =
      run_until_signal (manager_of env b p) env.timing p.config.shutdown_timeout_secs
        (Manager.new w)

  -- Every task that was started has been told to stop. Either the runtime ran, and exactly the started
  -- tasks were waited for, or it did not, there is an error, and none was.
  abbrev pub Ended : Step → Type 0
  Ended (s, r) =
      ((k : Task) → any (starts k) s.log ≡ true → any (tells k) s.log ≡ true)
      × (((p : Prepared x y W) × (w : W) × (r ≡ (run_of p w).1)
            × (ran_status s.log ≡ some (run_of p w).0.status)
            × ((k : Task) → any (waits k) s.log ≡ any (starts k) s.log))
          ⊎ ((is_err r ≡ true)
              × (ran_status s.log ≡ none)
              × ((k : Task) → any (waits k) s.log ≡ false)))

  module _ (p : Prepared x y W) where
    abbrev pub finish : Action (Event x y (TrafficCounters W)) W (Unit {0})
    finish = conduct env (manager_of env b p) p.config.shutdown_timeout_secs >>= λ result.
        teardown env (spawned env b p) >>= λ u. lift result

    finish-Ended :
        (s : Process (Event x y (TrafficCounters W)) W)
        → ((k : Task) → any (starts k) s.log ≡ has (spawned env b p) k)
        → ((k : Task) → any (waits k) s.log ≡ false)
        → Ended (finish s)
    unfolding conduct
    finish-Ended s started idle =
        let (state, result) = run_of p s.world in
        let t = spawned env b p in
        let s1 : Process (Event x y (TrafficCounters W)) W = record {
          log = ran state.status ∷ s.log;
          world = state.world;
        } in
        rw (next-ok (λ (u : Unit {0}). lift result) (teardown env t s1) tt (teardown_ok env t s1)) (
          λ k up. teardown-tells env t s1 k (sym (teardown_starts env t s1 k ∙ started k) ∙ up),
          inl (
            p,
            s.world,
            refl,
            teardown_ran env t s1,
            λ k.
                let waited = teardown-waits env t s1 k in
                let kept = teardown_starts env t s1 k ∙ started k in
                waited ∙ ap (λ q. has t k || q) (idle k) ∙ or_false (has t k) ∙ sym kept,
          ),
        )

    launched-Ended :
        (s : Process (Event x y (TrafficCounters W)) W)
        → ((k : Task) → any (starts k) s.log ≡ false)
        → ((k : Task) → any (waits k) s.log ≡ false)
        → ran_status s.log ≡ none
        → Ended ((launch env b p >>= λ u. finish) s)
    launched-Ended s calm idle unrun =
        let s' = (launch env b p s).0 in
        let idle' : (k : Task) → any (waits k) s'.log ≡ false = λ k. launch-waits p s k ∙ idle k in
        elim (Result-cases (launch env b p s).1) [
          | inl (u, done) ↦
              let started : (k : Task) → any (starts k) s'.log ≡ has (spawned env b p) k = λ k.
                launch_started p s k (rw done refl)
                ∙ ap (λ q. has (spawned env b p) k || q) (calm k)
                ∙ or_false (has (spawned env b p) k) in
              rw (next-ok (λ (v : Unit {0}). finish) (launch env b p s) u done)
                (finish-Ended s' started idle')
          | inr (e, failed) ↦ rw (next-err (λ (v : Unit {0}). finish) (launch env b p s) e failed) (
            λ k up. launch_failed p s k (calm k) (rw failed refl) up,
            inr (refl, launch_ran p s ∙ unrun, idle'),
          )
        ]

  -- Of `serve`, from any world: every server and the scheduler that was started has been told to
  -- stop by the time it returns, whether it returns a result or an error. If the runtime ran, then
  -- the result is that of the run, and exactly the started tasks were waited for; if it did not,
  -- then the result is an error, and nothing was waited for.
  pub serve-Ended : (w : W) → Ended (serve env b (record { log = []; world = w }))
  unfolding serve
  serve-Ended w =
      let s0 : Process (Event x y (TrafficCounters W)) W = record { log = []; world = w } in
      elim (Result-cases (prepare env b s0).1) [
        | inl (p, done) ↦
            rw
              (next-ok (λ (q : Prepared x y W). launch env b q >>= λ u. finish q) (prepare env b s0)
                p done)
              (launched-Ended p (prepare env b s0).0 (λ k. prepare_starts k s0)
                (λ k. prepare-waits k s0) (prepare_ran s0))
        | inr (e, failed) ↦
            rw
              (next-err (λ (q : Prepared x y W). launch env b q >>= λ u. finish q)
                (prepare env b s0) e failed)
              (
                λ k up. cc (prepare_starts k s0, up),
                inr (refl, prepare_ran s0, λ k. prepare-waits k s0),
              )
      ]

  -- `serve` returns without an error exactly if the runtime ran and ended in the status `stopped`: a
  -- shutdown that failed or took too long, a failed start and everything that fails before the run
  -- make it return an error.
  pub serve_ok_iff :
      (w : W)
      → let after = serve env b (record { log = []; world = w }) in
        (after.1 ≡ ok tt) ↔ (ran_status after.0.log ≡ some stopped)
  serve_ok_iff w = ended_iff (serve env b (record { log = []; world = w })) (serve-Ended w)
    where
      ended_iff : (r : Step) → Ended r → (r.1 ≡ ok tt) ↔ (ran_status r.0.log ≡ some stopped)
      ended_iff (s, r) (told, inr (failed, unrun, idle)) = ((λ e. cc), (λ e. cc))
      ended_iff (s, r) (told, inl (p, v, result, status, waited)) =
          let (to, from) =
            run_until_signal_ok_iff (manager_of env b p) env.timing p.config.shutdown_timeout_secs
              (Manager.new v) in
          (
            (λ e. status ∙ ap some (to (sym result ∙ e))),
            (λ e. result ∙ from (some-injective (run_of p v).0.status stopped (sym status ∙ e))),
          )
