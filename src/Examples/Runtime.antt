-- ===== src/Examples/Runtime.antt =====
-- The runtime manager, its health report and a daemon's run, on a manager with one HTTP ingress.
use edge_bootstrap.Prelude.{
  ℕ, suc, List, [], ◌∷◌, true, false, none, some, Result, ok, err, is_ok, String, All, ◌≡◌, ◌↔◌,
  ◌⊎◌, refl,
}
use edge_bootstrap.Adapters.{has_any}
use edge_bootstrap.Runtime.Status.{
  running, stopping, stopped, shutdown_timeout, is_healthy, status_is_healthy, is_running,
  healthy_component, unhealthy_component, RuntimeHealth,
}
use edge_bootstrap.Runtime.Lifecycle.{healthy}
use edge_bootstrap.Runtime.Manager.{Manager, State, start, start_work}
use edge_bootstrap.Runtime.Manager.Laws.{start_ok_iff}
use edge_bootstrap.Runtime.Manager.Race.{Shared, Step, Reach, fresh, late_start_wins}
use edge_bootstrap.Runtime.Health.{
  health, report_of, probes, probe, probe_opt, of_probe, of_component,
}
use edge_bootstrap.Endpoint.{is_get, same_path}
use edge_bootstrap.Transport.{InboundRequest, HttpResponse}
use edge_bootstrap.Runtime.HealthHandler.{handle, respond}
use edge_bootstrap.Runtime.HealthHandler.Answer.{answer_iff}
use edge_bootstrap.Runtime.Health.Verdict.{ProbesSucceed, health-is_healthy_iff}
use edge_bootstrap.Runtime.Runner.{Timing, run_until_signal}
use edge_bootstrap.Runtime.Runner.Outcome.{run_until_signal_cases}
use edge_bootstrap.Runtime.Health.Unread.{serving, health_unread}
use edge_bootstrap.Dispatch.Interface.{all_healthy}
use edge_bootstrap.Dispatch.HttpJob.{HttpHandler, HttpJob}
use edge_bootstrap.Examples.Dispatch.{registry, router}
use edge_bootstrap.Examples.Fixtures.{manager, component, request, response, TestObserver, observer}

abbrev idle : State ℕ
idle = record { status = stopped; started_at = none; notices = []; world = 5 }

abbrev busy : State ℕ
busy = record { status = running; started_at = some 3; notices = []; world = 5 }

abbrev pub timing : Timing ℕ
timing = record {
  register_sigterm = λ w. (w, false);
  ctrl_c = λ w. suc w;
  sigterm_or_ctrl_c = λ w. w;
  in_time = λ secs w. true;
  dropped = λ secs w. w;
}

start_ok_iff_example : ((start manager idle).1 ≡ ok tt) ↔ (
    (idle.status ≡ running)
    ⊎ ((has_any manager.ingress ≡ true)
        × (is_ok (manager.lifecycle.start_background_tasks 5).1 ≡ true)))
start_ok_iff_example = start_ok_iff manager idle

late_start_wins_example :
    (b c : Shared ℕ) × Reach manager (fresh manager 5) b
    × (b.state.status ≡ stopped)
    × (b.started ≡ 1)
    × Step manager b c
    × (c.state.status ≡ running)
    × (c.starts ≡ 0)
    × (c.started ≡ 0)
    × (c.shutdowns ≡ 0)
    × (c.drained ≡ 0)
unfolding start_work
late_start_wins_example = late_start_wins manager 5 refl refl

health-is_healthy_example : (is_healthy (health manager busy).1 ≡ true) ↔ (
    (busy.status ≡ running)
    × All (λ c. c.status ≡ healthy) (component ∷ [])
    × ProbesSucceed manager 6)
unfolding report_of
health-is_healthy_example = health-is_healthy_iff manager busy

run_until_signal_example :
    ((is_ok (start manager idle).1 ≡ false)
      × (run_until_signal manager timing 30 idle ≡ start manager idle))
    ⊎ ((is_ok (start manager idle).1 ≡ true)
        × (((true ≡ true)
              × (is_ok (manager.lifecycle.shutdown (suc (start manager idle).0.world)).1 ≡ true)
              × ((run_until_signal manager timing 30 idle).1 ≡ ok tt)
              × ((run_until_signal manager timing 30 idle).0.status ≡ stopped))
            ⊎ ((true ≡ true)
                × (is_ok (manager.lifecycle.shutdown (suc (start manager idle).0.world)).1 ≡ false)
                × (is_ok (run_until_signal manager timing 30 idle).1 ≡ false)
                × ((run_until_signal manager timing 30 idle).0.status ≡ stopping))
            ⊎ ((true ≡ false)
                × ((run_until_signal manager timing 30 idle).1 ≡ err (shutdown_timeout 30))
                × ((run_until_signal manager timing 30 idle).0.status ≡ stopping))))
run_until_signal_example = run_until_signal_cases manager timing 30 idle

abbrev to_json : RuntimeHealth → Result String (List ℕ)
to_json report = ok []

abbrev inbound : InboundRequest
inbound = record {
  request = record request { url = "/health/" };
  security = "";
  peer_ip = "10.0.0.1";
}

abbrev answer : HttpResponse
answer = record { status = 200; headers = ("content-type", "application/json") ∷ []; body = [] }

answer_iff_example :
    (is_get inbound.request.method ≡ true)
    × (same_path "/health" inbound.request.url ≡ true)
    × (to_json (health manager busy).1 ≡ ok answer.body)
    × ((answer.status ≡ 200) ⊎ (answer.status ≡ 503))
    × ((answer.status ≡ 200) ↔ (
        (busy.status ≡ running)
        × All (λ c. c.status ≡ healthy) (report_of (manager.lifecycle.health 5).1).components
        × ProbesSucceed manager (manager.lifecycle.health 5).0))
unfolding handle respond health probes probe probe_opt of_probe of_component report_of is_healthy
    status_is_healthy is_running healthy_component unhealthy_component
answer_iff_example = answer_iff manager to_json "/health" inbound busy answer refl

-- A handler that is down, and a job that has it and no other.
abbrev down : HttpHandler TestObserver ℕ
down = record {
  id = ok "down";
  pattern = ok "/down";
  execute = λ ctx req w. (w, ok response);
  health_check = λ w. (w, ok false);
}

abbrev Job : Type 0
Job = HttpJob TestObserver ℕ (List (String × String)) (List (String × HttpHandler TestObserver ℕ))

abbrev sick : Job
sick = record { router = []; registry = []; health_handlers = ("down", down) ∷ [] }

abbrev empty_job : Job
empty_job = record { router = []; registry = []; health_handlers = [] }

abbrev manager_of : Job → Manager ℕ
manager_of = serving registry router (λ url. none) (λ s. s) observer manager

health_unread_example : health (manager_of sick) busy ≡ health (manager_of empty_job) busy
unfolding all_healthy
health_unread_example =
    health_unread registry router (λ url. none) (λ s. s) observer manager sick empty_job busy
      (λ w. refl) (λ w. refl)
