-- ===== src/Programs/Hello.antt =====
-- scm/examples/hello_edge.rs: an HTTP ingress over a registry with one echo handler, and a runtime that
-- is started, asked for its health and shut down.
pub mod Stops
use edge_bootstrap.Prelude.{
  ℕ, String, List, [], Bool, true, false, Option, none, some, Result, ok, err, Call, if◌then◌else◌,
}
use edge_bootstrap.Config.Types.{Foreign, RuntimeConfig}
use edge_bootstrap.Transport.{
  HttpBody, json, raw, other_body, InboundRequest, HttpRequest, HttpResponse, HttpIngressError,
  internal, healthy, HttpIngress, HttpEgress, Display,
}
use edge_bootstrap.Codec.{Serde}
use edge_bootstrap.Dispatch.Interface.{Handler, HandlerContext, Registry}
use edge_bootstrap.Facade.{http_ingress, http_egress}
use edge_bootstrap.Runtime.Status.{RuntimeError, is_running}
use edge_bootstrap.Runtime.Lifecycle.{LifecycleMonitor}
use edge_bootstrap.Runtime.Manager.{Manager, State, new, start, shutdown}
use edge_bootstrap.Runtime.Health.{health}
use edge_bootstrap.Programs.Configs

abbrev pub handler_id : String
handler_id = "echo"

-- The text of a body: `lossy` is the reading of bytes as UTF-8.
unfoldable pub payload_of : (List ℕ → String) → Option HttpBody → String
payload_of lossy none = "hello edge"
payload_of lossy (some body) = elim body [
  | raw bytes ↦ lossy bytes
  | json v ↦ v
  | other_body bytes ↦ "hello edge"
]

-- `NoopEgress`
unfoldable pub noop_egress : {W : Type 0} → HttpEgress W
noop_egress = record {
  send = λ req w. (w, ok (record { status = 200; headers = []; body = [] }));
  send_stream = λ req w. (w, ok (record { status = 200; headers = []; body = [] }));
  health_check = λ w. (w, ok tt);
}

-- How `main` ends: with `Ok`, with an error of the runtime or of an earlier step, or by its assertion.
pub data Ending : Type 0 where
  ended : Ending
  runtime_failed : RuntimeError → Ending
  failed : String → Ending
  panicked : Ending

-- The last step of `main`: the assertion stands between the health report and the shutdown.
unfoldable pub lived : {W : Type 0} → Manager W → State W → State W × Ending
lived m s =
    let (s1, started) = start m s in
    let (s2, report) = health m s1 in
    let (s3, stopped) = shutdown m s2 in
    elim started [
      | err e ↦ (s1, runtime_failed e)
      | ok _ ↦
          if is_running report.status
          then (s3, elim stopped [ err e ↦ runtime_failed e | ok _ ↦ ended ])
          else (s2, panicked)
    ]

-- The reply of the handler as an answer.
unfoldable pub answer : Serde String → Result String String → Result HttpIngressError HttpResponse
answer payload (err e) = err (internal e)
answer payload (ok reply) = elim (payload.to_vec reply) [
  | err e ↦ err (internal e)
  | ok body ↦ ok (record { status = 200; headers = []; body = body })
]

-- A payload is its text. `context` has no identity and an observer that does nothing, and `echo` is
-- `Domain::echo_handler`.
module _ {O W R : Type 0} (reg : Registry R (Handler O W String String)) where
  -- The first two steps of `main`: a registry with the handler, under the id that it is made with,
  -- and one call of it.
  unfoldable pub registered :
      (String → String → Handler O W String String) → R × Result String (Unit {0})
  registered echo = reg.register reg.empty handler_id (echo handler_id "/echo")

  module _ (context : HandlerContext O) where
    unfoldable pub smoke_test : R → Call W String String
    smoke_test registry w = elim (reg.get registry handler_id) [
      | err e ↦ (w, err e)
      | ok found ↦ elim found [
        | none ↦ (w, err "echo handler not registered")
        | some h ↦ h.execute context "hello edge" w
      ]
    ]

    module _ (payload : Serde String) (lossy : List ℕ → String) where
      -- `EchoIngress::handle`
      unfoldable pub echo_handle : R → InboundRequest → Call W HttpIngressError HttpResponse
      unfolding payload_of answer
      echo_handle registry req w = elim (reg.get registry handler_id) [
        | err e ↦ (w, err (internal e))
        | ok found ↦ elim found [
          | none ↦ (w, err (internal "echo handler not registered"))
          | some h ↦
              let (w', result) = h.execute context (payload_of lossy req.request.body) w in
              (w', answer payload result)
        ]
      ]

      unfoldable pub echo_ingress : R → HttpIngress W
      echo_ingress registry = record {
        handle = echo_handle registry;
        health_check = λ w. (w, ok healthy);
      }

      module _ (x : Foreign) (display : Display) (clock : W → ℕ)
          (null_lifecycle : LifecycleMonitor W) where
        unfoldable pub hello_manager : R → Manager W
        unfolding http_ingress http_egress noop_egress
        hello_manager registry =
            let config : RuntimeConfig x = Configs.hello in
            record {
              systemd_notify = config.systemd_notify;
              ingress = http_ingress (echo_ingress registry);
              egress = http_egress noop_egress;
              lifecycle = null_lifecycle;
              message_broker = none;
              display = display;
              clock = clock;
            }

        unfoldable pub hello_edge :
            (String → String → Handler O W String String) → W → State W × Ending
        hello_edge echo w =
            let (registry, done) = registered echo in
            let (w', smoke) = smoke_test registry w in
            elim done [
              | err e ↦ (new w, failed e)
              | ok _ ↦ elim smoke [
                | err e ↦ (new w', failed e)
                | ok reply ↦ lived (hello_manager registry) (new w')
              ]
            ]
