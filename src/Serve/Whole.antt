-- ===== src/Serve/Whole.antt =====
-- `RuntimeBuilder::serve` of scm/main/adapter/src/core/runtime/runtime_builder_serve.rs, with all features
-- compiled in.
use edge_bootstrap.Prelude.{
  List, [], ◌∷◌, Option, none, some, is_some, unwrap_or, map_err, if◌then◌else◌,
}
use Prim.Native.String
use edge_bootstrap.Config.Types.{Foreign}
use edge_bootstrap.Transport.{HttpIngress, GrpcIngress}
use edge_bootstrap.Dispatch.HttpJob.{http_ingress_job}
use edge_bootstrap.Dispatch.GrpcJob.{grpc_ingress_job}
use edge_bootstrap.Monitor.Counters.{TrafficCounters}
use edge_bootstrap.Runtime.Manager.{Manager}
use edge_bootstrap.Assembly.{choose_ingress}
use edge_bootstrap.Builder.{Parts, Observer, RuntimeBuilder}
use edge_bootstrap.Serve.{
  Task, http_server, grpc_server, metrics_server, Event, traced, sampling, scheduling, Action,
  ◌>>=◌, ◌>>◌, pure, lift, emit, call,
}
use edge_bootstrap.Serve.Resolve.{
  Env, resolve_config, resolve_tracing, resolve_verifier, resolve_metrics, resolve_tracer,
  resolve_log, resolve_observer_context, resolve_egress_http, resolve_egress_grpc,
  resolve_intrusion, egress_of,
}
use edge_bootstrap.Serve.Servers
use edge_bootstrap.Serve.Servers.{Prepared, http_events, grpc_events, metrics_events}
use edge_bootstrap.Serve.Teardown.{Spawned, or_drop, teardown, conduct}

module _ {x : Foreign} {y : Parts} {W P R G : Type 0} (env : Env x y W P R G)
    (b : RuntimeBuilder x y W P R G) where
  abbrev pub Serving : Type 0 → Type 0
  Serving A = Action (Event x y (TrafficCounters W)) W A

  unfoldable pub http_job_ingress : Observer x W → Option (HttpIngress W)
  http_job_ingress observer = elim (b.http_job) [
    | none ↦ none
    | some job ↦ some (
        http_ingress_job env.http_registry env.router env.parse_uri env.into_security_context
          observer job)
  ]

  unfoldable pub grpc_job_ingress : Observer x W → Option (GrpcIngress W)
  grpc_job_ingress observer = elim (b.grpc_job) [
    | none ↦ none
    | some job ↦ some (grpc_ingress_job env.grpc_registry env.default_stream observer job)
  ]

  unfoldable pub prepare : Serving (Prepared x y W)
  prepare = do
    config ← lift (resolve_config env b)
    _ ← emit (elim (resolve_tracing env b config) [ none ↦ [] | some t ↦ traced t ∷ [] ])
    verifier ← lift (resolve_verifier env b config)
    provider ← lift (resolve_metrics env b config)
    _ ← emit (if is_some provider then sampling ∷ [] else [])
    tracer ← lift (resolve_tracer env b config)
    logger ← lift (resolve_log env b config)
    let observer = resolve_observer_context env b.observer_context_override tracer logger provider
    input ← lift (
        choose_ingress (http_job_ingress observer) b.http_handler (grpc_job_ingress observer)
          b.grpc_handler)
    http ← lift (resolve_egress_http env b config)
    grpc ← lift (resolve_egress_grpc env b config)
    wired ← lift (resolve_intrusion env b config)
    pure (record {
      config = config;
      verifier = verifier;
      provider = provider;
      observer = observer;
      input = input;
      output = egress_of http grpc;
      wired = wired;
    })

  module _ (p : Prepared x y W) where
    abbrev pub spawned : Spawned
    spawned = record {
      http = is_some p.input.http;
      grpc = is_some p.input.grpc;
      metrics = is_some (Servers.metrics_server env b p);
      scheduled = is_some b.scheduler;
    }

    -- The senders that there are when the scheduler's thread is started.
    abbrev pub senders : List Task
    senders = http_server ∷ grpc_server ∷ (if spawned.metrics then metrics_server ∷ [] else [])

    -- The error of a thread that cannot be started is named.
    abbrev spawn : Serving (Unit {0})
    spawn = call (λ w.
        let (w', r) = env.spawn_thread w in
        (w', map_err (λ e. String.◌++◌ "spawn scheduler thread: " e) r))

    unfoldable pub schedule : Serving (Unit {0})
    schedule = elim (b.scheduler) [
      | none ↦ pure tt
      | some (config, job) ↦ spawn >> emit (scheduling config job ∷ [])
    ]

    unfoldable pub launch : Serving (Unit {0})
    launch = do
      _ ← emit (http_events env b p)
      grpc ← or_drop (http_server ∷ grpc_server ∷ []) (lift (grpc_events env b p))
      _ ← emit grpc
      _ ← emit (metrics_events env b p)
      or_drop senders schedule

    unfoldable pub manager_of : Manager W
    manager_of = record {
      systemd_notify = p.config.systemd_notify;
      ingress = p.input;
      egress = p.output;
      lifecycle = unwrap_or b.lifecycle env.null_lifecycle;
      message_broker = b.message_broker;
      display = env.display;
      clock = env.clock;
    }

  unfoldable pub serve : Serving (Unit {0})
  serve = do
    p ← prepare
    _ ← launch p
    result ← conduct env (manager_of p) p.config.shutdown_timeout_secs
    _ ← teardown env (spawned p)
    lift result
