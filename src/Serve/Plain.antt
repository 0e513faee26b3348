-- ===== src/Serve/Plain.antt =====
-- `Runtime::run` of scm/main/adapter/src/saf/bootstrap_svc.rs: servers without monitor, guard or metrics.
pub mod Same
use edge_bootstrap.Prelude.{
  ℕ, String, List, [], ◌∷◌, Bool, true, false, Option, none, some, Result, ok, err, and_then,
  is_some,
}
use edge_bootstrap.Config.Types.{Foreign, RuntimeConfig}
use edge_bootstrap.Transport.{HttpIngress, GrpcIngress}
use edge_bootstrap.Adapters.{DefaultIngress, DefaultEgress}
use edge_bootstrap.Runtime.Status.{RuntimeError}
use edge_bootstrap.Runtime.Lifecycle.{LifecycleMonitor}
use edge_bootstrap.Runtime.Manager.{Manager}
use edge_bootstrap.Builder.{Parts}
use edge_bootstrap.Serve.{
  http_server, grpc_server, HttpServer, GrpcServer, allow_unauthenticated, Event, serving,
  serving_grpc, Action, ◌>>=◌, lift, emit,
}
use edge_bootstrap.Serve.Settings.{ask_tls, ask_if}
use edge_bootstrap.Serve.Resolve.{Env, configured_verifier}
use edge_bootstrap.Serve.Teardown.{Spawned, or_drop, teardown, conduct}

module _ {x : Foreign} {y : Parts} {W P R G : Type 0} (env : Env x y W P R G)
    (config : RuntimeConfig x) where
  unfoldable pub plain_http : Option y.TokenVerifier → Option (HttpIngress W) → List (Event x y W)
  plain_http verifier none = []
  plain_http verifier (some h) =
      let server : HttpServer x y W = record {
        bind = config.http_bind;
        handler = h;
        tls = config.http_tls;
        verifier = verifier;
        stream = none;
      } in
      serving server ∷ []

  unfoldable pub plain_grpc : Option (GrpcIngress W) → Result RuntimeError (List (Event x y W))
  plain_grpc none = ok []
  plain_grpc (some g) =
      let server : GrpcServer x y W = record {
        bind = config.grpc_bind;
        handler = g;
        settings = [];
      } in
      and_then (ask_tls (λ s. env.refuses s) config.grpc_tls server) (λ s1.
        and_then
          (ask_if (λ s. env.refuses s) config.grpc_allow_unauthenticated
            (allow_unauthenticated true) s1)
          (λ s2. ok (serving_grpc s2 ∷ [])))

  module _ (ingress : DefaultIngress W) (egress : DefaultEgress W)
      (lifecycle : LifecycleMonitor W) where
    -- `Runtime::runtime_manager`
    unfoldable pub runtime_manager : Manager W
    runtime_manager = record {
      systemd_notify = config.systemd_notify;
      ingress = ingress;
      egress = egress;
      lifecycle = lifecycle;
      message_broker = none;
      display = env.display;
      clock = env.clock;
    }

    abbrev plain_tasks : Spawned
    plain_tasks = record {
      http = is_some ingress.http;
      grpc = is_some ingress.grpc;
      metrics = false;
      scheduled = false;
    }

    unfoldable pub run : Action (Event x y W) W (Unit {0})
    unfolding plain_http plain_grpc runtime_manager
    run = do
      verifier ← lift (configured_verifier env config.http_auth)
      _ ← emit (plain_http verifier ingress.http)
      grpc ← or_drop (http_server ∷ grpc_server ∷ []) (lift (plain_grpc ingress.grpc))
      _ ← emit grpc
      result ← conduct env runtime_manager config.shutdown_timeout_secs
      _ ← teardown env plain_tasks
      lift result
