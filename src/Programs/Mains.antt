-- ===== src/Programs/Mains.antt =====
-- What `main` of each program under scm/examples builds and serves. A route that panics is `none`.
use edge_bootstrap.Prelude.{String, List, ℕ, Bool, Option, none, some, Call}
use edge_bootstrap.Config.Types.{Foreign, RuntimeConfig}
use edge_bootstrap.Codec.{Serde}
use edge_bootstrap.Dispatch.Interface.{Handler}
use edge_bootstrap.Guard.{Wired}
use edge_bootstrap.Builder.{Parts, Observer, RuntimeBuilder, builder}
use edge_bootstrap.Builder.Setters
use edge_bootstrap.Builder.Routes.{http_route, grpc_route}
use edge_bootstrap.Serve.Resolve.{Env}
use edge_bootstrap.Programs.Configs
use edge_bootstrap.Programs.Handlers.{
  echo_handler, observed_handler, secure_echo_handler, plain_echo_handler,
}
use edge_bootstrap.Programs.Orders.{order_handler}
use edge_bootstrap.Programs.Ticks.{status_handler}

module _ {x : Foreign} {y : Parts} {W P R G : Type 0} (env : Env x y W P R G) where
  abbrev pub Service : Type 0
  Service = RuntimeBuilder x y W P R G

  abbrev then_set : (Service → Service) → Option Service → Option Service
  then_set f none = none
  then_set f (some b) = some (f b)

  module _ {A B : Type 0} (req : Serde A) (resp : Serde B) (h : Handler (Observer x W) W A B) where
    -- `Runtime::builder().config(c).http_route(h)`
    unfoldable pub posted : RuntimeConfig x → Option Service
    posted c =
        http_route env.display env.http_registry env.router env.bytes req resp h
          (Setters.config c builder)

    unfoldable pub called : Option Service → Option Service
    called none = none
    called (some b) = grpc_route env.display env.grpc_registry req resp h b

    -- The chain that the mains with both transports share.
    unfoldable pub both : RuntimeConfig x → Option Service
    unfolding posted called
    both c = then_set Setters.grpc_allow_unauthenticated (called (posted c))

  -- Payloads are texts, and so are orders; the answer of the scheduler's program is a number.
  module _ (payload : Serde String) (health : Call W String Bool) where
    unfoldable pub bootstrap : Wired W → y.TracingConfig → Option Service
    bootstrap wired tracing =
        then_set (λ b. Setters.with_tracing tracing (Setters.with_intrusion wired b))
          (both payload payload (echo_handler health) Configs.bootstrap)

    unfoldable pub observability : String → y.TracingConfig → Option Service
    observability log_file_path tracing =
        then_set (Setters.with_tracing tracing)
          (both payload payload (observed_handler health) (Configs.observability log_file_path))

    unfoldable pub security : x.JwtConfig → Option Service
    security auth = both payload payload (secure_echo_handler health) (Configs.security auth)

    unfoldable pub messaging :
        (String → List ℕ → Call W String (Unit {0}))
        → (String → String)
        → Call W String (Unit {0})
        → Option Service
    messaging publish execution_failed health_check_broker =
        then_set (Setters.with_message_broker health_check_broker) (
          both payload payload (order_handler publish payload execution_failed health)
            Configs.messaging)

    unfoldable pub scheduler : (W → ℕ) → Serde (Unit {0}) → Serde ℕ → Option Service
    scheduler ticks query status = both query status (status_handler ticks health) Configs.scheduler

    -- `material` is the certificate, if the environment asks for one.
    unfoldable pub tls : Option x.PemTlsConfig → Option Service
    tls material = elim material [
      | none ↦ both payload payload (plain_echo_handler health) Configs.tls
      | some m ↦
          then_set (λ b. Setters.grpc_tls m (Setters.http_tls m b))
            (both payload payload (plain_echo_handler health) Configs.tls)
    ]

    unfoldable pub websocket : y.HttpStream → Option Service
    websocket stream =
        then_set (Setters.stream_handler stream)
          (posted payload payload (plain_echo_handler health) Configs.websocket)
