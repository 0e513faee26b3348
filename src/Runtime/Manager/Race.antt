-- ===== src/Runtime/Manager/Race.antt =====
-- Calls of `start` and `shutdown` that overlap: each is a locked first section, work without a lock,
-- and a locked last section. Between the sections other calls step.
use edge_bootstrap.Prelude.{
  ℕ, suc, Bool, true, String, ok, err, ◌≡◌, ◌≢◌, refl, arith, if◌then◌else◌, is_some,
}
use edge_bootstrap.Runtime.Status.{
  RuntimeStatus, RuntimeError, running, stopped, is_running, is_terminal,
}
use edge_bootstrap.Runtime.Manager.{
  Manager, State, new, begin_start, start_work, finish_start, begin_shutdown,
}

-- A manager with the calls that stand between their locked sections: starts and shutdowns that have
-- not done their work yet, and those that have done it with success.
pub record Shared (W : Type 0) : Type 0 where
  pub state : State W
  pub starts : ℕ
  pub started : ℕ
  pub shutdowns : ℕ
  pub drained : ℕ

-- `went` is what the first section says: whether the call goes on.
abbrev pub enter : Bool → ℕ → ℕ
enter went n = if went then suc n else n

module _ {W : Type 0} (m : Manager W) where
  pub data Step (a : Shared W) : Shared W → Type 0 where
    enter_start : Step a (record a {
      state = (begin_start a.state).0;
      starts = enter (begin_start a.state).1 a.starts;
    })
    enter_shutdown : Step a (record a {
      state = (begin_shutdown m a.state).0;
      shutdowns = enter (begin_shutdown m a.state).1 a.shutdowns;
    })
    -- what anything else does to the world meanwhile
    disturb : (w : W) → Step a (record a { state = record (a.state) { world = w } })
    -- the work of a start, which ends the call if it fails
    work_start :
        (n : ℕ)
        → a.starts ≡ suc n
        → (start_work m a.state.world).1 ≡ ok tt
        → Step a (record a {
          state = record (a.state) { world = (start_work m a.state.world).0 };
          starts = n;
          started = suc a.started;
        })
    fail_start :
        (n : ℕ) (e : RuntimeError)
        → a.starts ≡ suc n
        → (start_work m a.state.world).1 ≡ err e
        → Step a (record a {
          state = record (a.state) { world = (start_work m a.state.world).0 };
          starts = n;
        })
    complete_start :
        (n : ℕ)
        → a.started ≡ suc n
        → Step a (record a { state = finish_start m a.state; started = n })
    -- the work of a shutdown, likewise
    work_shutdown :
        (n : ℕ)
        → a.shutdowns ≡ suc n
        → (m.lifecycle.shutdown a.state.world).1 ≡ ok tt
        → Step a (record a {
          state = record (a.state) { world = (m.lifecycle.shutdown a.state.world).0 };
          shutdowns = n;
          drained = suc a.drained;
        })
    fail_shutdown :
        (n : ℕ) (e : String)
        → a.shutdowns ≡ suc n
        → (m.lifecycle.shutdown a.state.world).1 ≡ err e
        → Step a (record a {
          state = record (a.state) { world = (m.lifecycle.shutdown a.state.world).0 };
          shutdowns = n;
        })
    complete_shutdown :
        (n : ℕ)
        → a.drained ≡ suc n
        → Step a (record a { state = record (a.state) { status = stopped }; drained = n })

  pub data Reach (a : Shared W) : Shared W → Type 0 where
    here : Reach a a
    next : {b c : Shared W} → Reach a b → Step b c → Reach a c

-- What holds whatever calls overlap: the status `running` has a start time, and the status is never
-- `degraded`.
pub record IsConsistent {W : Type 0} (s : State W) : Type 0 where
  pub running_timed : s.status ≡ running → is_some s.started_at ≡ true
  pub never_degraded : s.status ≢ RuntimeStatus.degraded

module _ {W : Type 0} (m : Manager W) where
  Step-IsConsistent : {a b : Shared W} → Step m a b → IsConsistent a.state → IsConsistent b.state
  unfolding begin_start begin_shutdown finish_start is_running is_terminal
  Step-IsConsistent enter_start h = ground arith
  Step-IsConsistent enter_shutdown h = ground arith
  Step-IsConsistent (disturb w) h = ground arith
  Step-IsConsistent (work_start n e done) h = ground arith
  Step-IsConsistent (fail_start n x e bad) h = ground arith
  Step-IsConsistent (complete_start n e) h = ground arith
  Step-IsConsistent (work_shutdown n e done) h = ground arith
  Step-IsConsistent (fail_shutdown n x e bad) h = ground arith
  Step-IsConsistent (complete_shutdown n e) h = ground arith

  abbrev pub fresh : W → Shared W
  fresh w = record { state = new w; starts = 0; started = 0; shutdowns = 0; drained = 0 }

  new-IsConsistent : (w : W) → IsConsistent (new w)
  unfolding new
  new-IsConsistent w = ground arith

  Reach-IsConsistent : {a b : Shared W} → Reach m a b → IsConsistent a.state → IsConsistent b.state
  Reach-IsConsistent here h = h
  Reach-IsConsistent (next r st) h = Step-IsConsistent st (Reach-IsConsistent r h)

  -- However calls of `start` and `shutdown` overlap on a new manager, a `running` status always comes
  -- with a start time, and the status `degraded` is never reached.
  pub fresh-IsConsistent : (w : W) (b : Shared W) → Reach m (fresh w) b → IsConsistent b.state
  fresh-IsConsistent w b r = Reach-IsConsistent r (new-IsConsistent w)

  -- A shutdown does not win over a start in progress: if the work of a start succeeds in the world of a
  -- new manager, and a shutdown of the lifecycle monitor succeeds after it, then a start and a shutdown
  -- can overlap so that the shutdown completes, the status being `stopped`, and one last step, the
  -- end of the start, leaves the status `running` with no call in progress.
  pub late_start_wins :
      (w : W)
      → (start_work m w).1 ≡ ok tt
      → (m.lifecycle.shutdown (start_work m w).0).1 ≡ ok tt
      → (b c : Shared W) × Reach m (fresh w) b
        × (b.state.status ≡ stopped)
        × (b.started ≡ 1)
        × Step m b c
        × (c.state.status ≡ running)
        × (c.starts ≡ 0)
        × (c.started ≡ 0)
        × (c.shutdowns ≡ 0)
        × (c.drained ≡ 0)
  unfolding finish_start begin_start begin_shutdown is_running is_terminal new
  late_start_wins w works stops =
      let w1 = (start_work m w).0 in
      let begun : Shared W = record (fresh w) { state = (begin_start (new w)).0; starts = 1 } in
      let both : Shared W = record begun {
        state = (begin_shutdown m begun.state).0;
        shutdowns = 1;
      } in
      let worked : Shared W = record both {
        state = record (both.state) { world = w1 };
        starts = 0;
        started = 1;
      } in
      let down : Shared W = record worked {
        state = record (worked.state) { world = (m.lifecycle.shutdown w1).0 };
        shutdowns = 0;
        drained = 1;
      } in
      let b : Shared W = record down {
        state = record (down.state) { status = stopped };
        drained = 0;
      } in
      (
        b,
        record b { state = finish_start m b.state; started = 0 },
        next {b = down}
            (next {b = worked}
              (next {b = both}
                (next {b = begun} (next {b = fresh w} here enter_start) enter_shutdown)
                (work_start 0 refl works))
              (work_shutdown 0 refl stops))
            (complete_shutdown 0 refl),
        refl,
        refl,
        complete_start 0 refl,
        refl,
        refl,
        refl,
        refl,
        refl,
      )
