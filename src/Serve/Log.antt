-- ===== src/Serve/Log.antt =====
-- What a log says of a task, and what an action keeps of a log.
use edge_bootstrap.Prelude.{
  List, [], ◌∷◌, ◌++◌, Bool, true, false, ◌||◌, Option, none, some, Result, ok, err, ok-injective,
  ◌≡◌, refl, arith,
}
use edge_bootstrap.Config.Types.{Foreign}
use edge_bootstrap.Runtime.Status.{RuntimeError, RuntimeStatus}
use edge_bootstrap.Builder.{Parts}
use edge_bootstrap.Serve.{
  Task, http_server, grpc_server, metrics_server, scheduler, Event, serving, serving_grpc,
  serving_metrics, scheduling, ran, sent, dropped, awaited, Process, Action, next,
}

abbrev pub same : Task → Task → Bool
same http_server http_server = true
same grpc_server grpc_server = true
same metrics_server metrics_server = true
same scheduler scheduler = true
same _ _ = false

module _ {x : Foreign} {y : Parts} {V : Type 0} where
  -- The task that an event starts, tells to stop, and waits for.
  abbrev pub starts : Task → Event x y V → Bool
  starts k (serving s) = same k http_server
  starts k (serving_grpc s) = same k grpc_server
  starts k (serving_metrics s) = same k metrics_server
  starts k (scheduling c j) = same k scheduler
  starts k _ = false

  abbrev pub tells : Task → Event x y V → Bool
  tells k (sent t) = same k t
  tells k (dropped t) = same k t
  tells k _ = false

  abbrev pub waits : Task → Event x y V → Bool
  waits k (awaited t) = same k t
  waits k _ = false

  abbrev pub is_ran : Event x y V → Bool
  is_ran (ran status) = true
  is_ran _ = false

  abbrev pub any : (Event x y V → Bool) → List (Event x y V) → Bool
  any p [] = false
  any p (e ∷ log) = p e || any p log

  -- The status in which the run of a log ended.
  abbrev pub ran_status : List (Event x y V) → Option RuntimeStatus
  ran_status [] = none
  ran_status (ran status ∷ log) = some status
  ran_status (_ ∷ log) = ran_status log

  pub any-append :
      (p : Event x y V → Bool) (es log : List (Event x y V))
      → any p (es ++ log) ≡ any p es || any p log
  any-append p [] log = refl
  any-append p (e ∷ es) log = ground (arith, any-append p es log)

  -- Nothing has been started, waited for or run.
  abbrev pub Calm : List (Event x y V) → Type 0
  Calm log =
      ((k : Task) → any (starts k) log ≡ false)
      × ((k : Task) → any (waits k) log ≡ false)
      × (any is_ran log ≡ false)

module _ {E W A B : Type 0} (f : A → Action E W B) where
  pub next-ok : (r : Process E W × Result RuntimeError A) (a : A) → r.1 ≡ ok a → next f r ≡ f a r.0
  next-ok (s, ok a) a' e = rw (ok-injective a a' e) refl
  next-ok (s, err e) a' h = cc

  pub next-err :
      (r : Process E W × Result RuntimeError A) (e : RuntimeError)
      → r.1 ≡ err e
      → next f r ≡ (r.0, err e)
  next-err (s, ok a) e h = cc
  next-err (s, err x) e h = cc
