-- ===== src/Serve/Origin.antt =====
-- What a part of the log of `serve` comes from: a reading of the log that sees only what a launch adds.
use edge_bootstrap.Prelude.{
  List, ◌∷◌, Option, none, or_else, or_else-none, ok, Result-cases, inl, inr, ◌⊎◌, ◌≡◌, ap, ◌∙◌,
}
use edge_bootstrap.Config.Types.{Foreign}
use edge_bootstrap.Monitor.Counters.{TrafficCounters}
use edge_bootstrap.Runtime.Status.{RuntimeStatus}
use edge_bootstrap.Builder.{Parts, RuntimeBuilder}
use edge_bootstrap.Serve.{Event, ran, Process, ◌>>=◌, lift}
use edge_bootstrap.Serve.Log.{next-ok, next-err}
use edge_bootstrap.Serve.Resolve.{Env}
use edge_bootstrap.Serve.Servers.{Prepared}
use edge_bootstrap.Serve.Teardown.{Spawned, teardown, conduct}
use edge_bootstrap.Serve.Whole.{prepare, launch, spawned, serve}
use edge_bootstrap.Serve.Outcome.{finish, run_of, teardown_ok}

module _ {x : Foreign} {y : Parts} {W P R G A : Type 0} (env : Env x y W P R G)
    (b : RuntimeBuilder x y W P R G) (of : List (Event x y (TrafficCounters W)) → Option A)
    (built : Prepared x y W → Option A)
    (ran_of : (status : RuntimeStatus) (log : List (Event x y (TrafficCounters W)))
      → of (ran status ∷ log) ≡ of log)
    (prepare_of : (s : Process (Event x y (TrafficCounters W)) W)
      → of (prepare env b s).0.log ≡ of s.log)
    (launch_of : (p : Prepared x y W) (s : Process (Event x y (TrafficCounters W)) W)
      → of (launch env b p s).0.log ≡ or_else (built p) (of s.log))
    (teardown_of : (t : Spawned) (s : Process (Event x y (TrafficCounters W)) W)
      → of (teardown env t s).0.log ≡ of s.log) where
  launched_of :
      (p : Prepared x y W) (s : Process (Event x y (TrafficCounters W)) W)
      → of s.log ≡ none
      → of ((launch env b p >>= λ u. finish env b p) s).0.log ≡ built p
  unfolding conduct
  launched_of p s before =
      let s' = (launch env b p s).0 in
      let log : of s'.log ≡ built p =
        launch_of p s ∙ ap (or_else (built p)) before ∙ or_else-none (built p) in
      elim (Result-cases (launch env b p s).1) [
        | inr (e, failed) ↦
            rw (next-err (λ (u : Unit {0}). finish env b p) (launch env b p s) e failed) log
        | inl (u, done) ↦
            let (state, result) = run_of env b p s'.world in
            let ended : Process (Event x y (TrafficCounters W)) W = record {
              log = ran state.status ∷ s'.log;
              world = state.world;
            } in
            rw
              (
                next-ok (λ (v : Unit {0}). finish env b p) (launch env b p s) u done,
                next-ok (λ (v : Unit {0}). lift result) (teardown env (spawned env b p) ended) tt
                    (teardown_ok env (spawned env b p) ended),
              )
              (teardown_of (spawned env b p) ended ∙ ran_of state.status s'.log ∙ log)
      ]

  pub serve_of :
      (s : Process (Event x y (TrafficCounters W)) W)
      → of s.log ≡ none
      → (of (serve env b s).0.log ≡ none)
        ⊎ ((p : Prepared x y W) × ((prepare env b s).1 ≡ ok p)
            × (of (serve env b s).0.log ≡ built p))
  unfolding serve
  serve_of s before =
      let rest = λ (q : Prepared x y W). launch env b q >>= λ u. finish env b q in
      elim (Result-cases (prepare env b s).1) [
        | inr (e, failed) ↦
            inl (rw (next-err rest (prepare env b s) e failed) (prepare_of s ∙ before))
        | inl (p, done) ↦ inr (
          p,
          done,
          rw (next-ok rest (prepare env b s) p done)
              (launched_of p (prepare env b s).0 (prepare_of s ∙ before)),
        )
      ]
