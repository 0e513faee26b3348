-- ===== src/Runtime/Manager/Laws.antt =====
-- Every branch of `start` and `shutdown`.
use edge_bootstrap.Prelude.{true, false, ok, ◌≡◌, ◌↔◌, ◌⊎◌, arith, if◌then◌else◌, is_ok}
use edge_bootstrap.Adapters.{has_any}
use edge_bootstrap.Runtime.Status.{starting, running, stopping, stopped}
use edge_bootstrap.Runtime.Manager.{Manager, State, start, shutdown}

module _ {W : Type 0} (m : Manager W) (s : State W) where
  -- `start` succeeds exactly when the runtime runs already, or a transport is configured and the
  -- background tasks start.
  pub start_ok_iff : ((start m s).1 ≡ ok tt) ↔ (
      (s.status ≡ running)
      ⊎ ((has_any m.ingress ≡ true)
          × (is_ok (m.lifecycle.start_background_tasks s.world).1 ≡ true)))
  unfolding start
  start_ok_iff = ground arith

  -- After `start` the status is `running` if it succeeded and `starting` if it failed; a failed start
  -- keeps the time of an earlier one, and gives no notice.
  pub start_status :
      ((is_ok (start m s).1 ≡ true) × ((start m s).0.status ≡ running))
      ⊎ ((is_ok (start m s).1 ≡ false)
          × ((start m s).0.status ≡ starting)
          × ((start m s).0.started_at ≡ s.started_at)
          × ((start m s).0.notices ≡ s.notices))
  unfolding start
  start_status = ground arith

  -- On a running runtime `start` does nothing at all: it calls nothing and changes nothing.
  pub start_idempotent : s.status ≡ running → start m s ≡ (s, ok tt)
  unfolding start
  start_idempotent h = ground arith

  -- `shutdown` succeeds exactly when the runtime is stopped already or the lifecycle monitor shuts down.
  -- It then leaves the status `stopped`; a failed shutdown leaves it `stopping`. The start time is
  -- kept in either case.
  pub shutdown_status :
      (((shutdown m s).1 ≡ ok tt)
        ↔ ((s.status ≡ stopped) ⊎ (is_ok (m.lifecycle.shutdown s.world).1 ≡ true)))
      × ((shutdown m s).0.status ≡ (if is_ok (shutdown m s).1 then stopped else stopping))
      × ((shutdown m s).0.started_at ≡ s.started_at)
  unfolding shutdown
  shutdown_status = ground arith
