-- ===== src/Runtime/Health/Unread.antt =====
-- What the health report makes of the handlers of an HTTP job.
use edge_bootstrap.Prelude.{String, Option, some, ◌≡◌, refl}
use edge_bootstrap.Dispatch.Interface.{Registry, PathRouter, all_healthy}
use edge_bootstrap.Dispatch.HttpJob.{HttpHandler, HttpJob, job_health, http_ingress_job}
use edge_bootstrap.Runtime.Manager.{Manager, State}
use edge_bootstrap.Runtime.Health.{health, probes, probe, probe_opt, of_probe, uptime}

module _ {O W P R : Type 0} (reg : Registry R (HttpHandler O W)) (rt : PathRouter P)
    (parse : String → Option String) (into_security_context : String → String) (observer : O)
    (m : Manager W) where
  -- The manager with the ingress of this job as its HTTP ingress.
  abbrev pub serving : HttpJob O W P R → Manager W
  serving job = record m {
    ingress = record (m.ingress) {
      http = some (http_ingress_job reg rt parse into_security_context observer job);
    };
  }

  -- Where the health checks of the handlers leave the world as it is: the runtime's health report, with
  -- its status and all its components, is the same over any two HTTP jobs, in every state, so that no
  -- answer of a handler's health check has an effect on it.
  pub health_unread :
      (job other : HttpJob O W P R) (s : State W)
      → ((w : W) → (all_healthy job.health_handlers w).0 ≡ w)
      → ((w : W) → (all_healthy other.health_handlers w).0 ≡ w)
      → health (serving job) s ≡ health (serving other) s
  unfolding health probes probe probe_opt of_probe uptime http_ingress_job job_health
  health_unread job other s quiet still =
      let w = (m.lifecycle.health s.world).0 in rw (quiet w, still w) refl
