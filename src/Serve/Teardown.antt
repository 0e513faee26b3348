-- ===== src/Serve/Teardown.antt =====
-- The run and what follows it, in scm/main/adapter/src/core/runtime/runtime_builder_serve.rs and in `run` of
-- scm/main/adapter/src/saf/bootstrap_svc.rs.
use edge_bootstrap.Prelude.{ℕ, List, [], ◌∷◌, ◌++◌, Bool, Result, ok, err, if◌then◌else◌}
use edge_bootstrap.Config.Types.{Foreign}
use edge_bootstrap.Runtime.Status.{RuntimeError}
use edge_bootstrap.Runtime.Manager
use edge_bootstrap.Runtime.Manager.{Manager}
use edge_bootstrap.Runtime.Runner.{run_until_signal}
use edge_bootstrap.Builder.{Parts}
use edge_bootstrap.Serve.{
  Task, http_server, grpc_server, metrics_server, scheduler, Event, ran, sent, dropped, awaited,
  Action, ◌>>◌, emit,
}
use edge_bootstrap.Serve.Resolve.{Env}

-- Which tasks there are to wait for.
pub record Spawned : Type 0 where
  pub http : Bool
  pub grpc : Bool
  pub metrics : Bool
  pub scheduled : Bool

abbrev pub when : {E W : Type 0} → Bool → Action E W (Unit {0}) → Action E W (Unit {0})
when b m s = if b then m s else (s, ok tt)

abbrev pub drops : {x : Foreign} {y : Parts} {V : Type 0} → List Task → List (Event x y V)
drops [] = []
drops (t ∷ ts) = dropped t ∷ drops ts

-- An early return drops the senders that there are.
abbrev pub or_drop :
    {x : Foreign} {y : Parts} {V W A : Type 0}
    → List Task
    → Action (Event x y V) W A
    → Action (Event x y V) W A
or_drop tasks m s =
    let (s', r) = m s in
    elim r [ ok a ↦ (s', ok a) | err e ↦ (record s' { log = drops tasks ++ s'.log }, err e) ]

module _ {x : Foreign} {y : Parts} {V W P R G : Type 0} (env : Env x y W P R G) where
  abbrev send : Task → Action (Event x y V) W (Unit {0})
  send t = emit (sent t ∷ [])

  -- `let _ = timeout(Duration::from_secs(5), task).await`
  unfoldable pub await : Task → Action (Event x y V) W (Unit {0})
  await t s = (record { log = awaited t ∷ s.log; world = env.wait_five_seconds t s.world }, ok tt)

  unfoldable pub teardown : Spawned → Action (Event x y V) W (Unit {0})
  unfolding await
  teardown t =
      send http_server
      >> send grpc_server
      >> when t.metrics (send metrics_server)
      >> when t.http (await http_server)
      >> when t.grpc (await grpc_server)
      >> when t.metrics (await metrics_server)
      >> when t.scheduled (send scheduler >> await scheduler)

  -- The run of a new manager; its result is kept for later.
  unfoldable pub conduct : Manager W → ℕ → Action (Event x y V) W (Result RuntimeError (Unit {0}))
  conduct m secs s =
      let (state, result) = run_until_signal m env.timing secs (Manager.new s.world) in
      (record { log = ran state.status ∷ s.log; world = state.world }, ok result)
