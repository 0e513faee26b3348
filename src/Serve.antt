-- ===== src/Serve.antt =====
-- scm/main/adapter/src/core/runtime/runtime_builder_serve.rs and `run` of
-- scm/main/adapter/src/saf/bootstrap_svc.rs: the servers around a run of the runtime. Here stand what the
-- two have in common: a log of what is spawned, signalled and awaited, and actions that may fail.
pub mod Settings
pub mod Resolve
pub mod Servers
pub mod Teardown
pub mod Log
pub mod Outcome
pub mod Origin
pub mod Secured
pub mod Guarded
pub mod Answers
pub mod Unary
pub mod Reflected
pub mod Routed
pub mod Whole
pub mod Plain
use edge_bootstrap.Prelude.{
  ℕ, String, List, [], ◌∷◌, ◌++◌, Bool, true, false, Option, none, some, Result, ok, err, Call,
  map_err,
}
use edge_bootstrap.Config.Types.{Foreign}
use edge_bootstrap.Transport.{HttpIngress, GrpcIngress}
use edge_bootstrap.Runtime.Status.{RuntimeStatus, RuntimeError, start_failed}
use edge_bootstrap.Builder.{Parts}

-- The servers and the scheduler, each with a channel to tell it to stop.
pub data Task : Type 0 where
  http_server grpc_server metrics_server scheduler : Task

-- `AxumHttpServer`, by what it is built with.
pub record HttpServer (x : Foreign) (y : Parts) (V : Type 0) : Type 0 where
  pub bind : String
  pub handler : HttpIngress V
  pub tls : Option x.PemTlsConfig
  pub verifier : Option y.TokenVerifier
  pub stream : Option y.HttpStream

pub data StreamingKind : Type 0 where
  unary bidi_stream : StreamingKind

-- What `TonicGrpcServer` is asked for, and the server by what it was asked for, in turn.
pub data Setting (x : Foreign) (y : Parts) : Type 0 where
  streaming_kind : String → StreamingKind → Setting x y
  tls : x.PemTlsConfig → Setting x y
  interceptors : y.Chain → Setting x y
  allow_unauthenticated : Bool → Setting x y

pub record GrpcServer (x : Foreign) (y : Parts) (V : Type 0) : Type 0 where
  pub bind : String
  pub handler : GrpcIngress V
  pub settings : List (Setting x y)

-- The program's steps that matter outside. A sender is sent to or dropped; either way the server that
-- waits at the other end is told to stop.
pub data Event (x : Foreign) (y : Parts) (V : Type 0) : Type 0 where
  traced : y.TracingConfig → Event x y V
  sampling : Event x y V
  serving : HttpServer x y V → Event x y V
  serving_grpc : GrpcServer x y V → Event x y V
  serving_metrics : HttpServer x y V → Event x y V
  scheduling : y.SchedulerConfig → y.SchedulerJob → Event x y V
  ran : RuntimeStatus → Event x y V
  sent dropped awaited : Task → Event x y V

-- The log has the last event first.
pub record Process (E W : Type 0) : Type 0 where
  pub log : List E
  pub world : W

abbrev pub Action : Type 0 → Type 0 → Type 0 → Type 0
Action E W A = Process E W → Process E W × Result RuntimeError A

module _ {E W : Type 0} where
  infixl 5 ◌>>=◌ ◌>>◌
  -- The `?` operator: what follows a call that returned.
  abbrev pub next :
      {A B : Type 0}
      → (A → Action E W B)
      → Process E W × Result RuntimeError A
      → Process E W × Result RuntimeError B
  next f (s, ok a) = f a s
  next f (s, err e) = (s, err e)

  abbrev pub ◌>>=◌ : {A B : Type 0} → Action E W A → (A → Action E W B) → Action E W B
  m >>= f = λ s. next f (m s)

  abbrev pub ◌>>◌ : {A B : Type 0} → Action E W A → Action E W B → Action E W B
  m >> k = m >>= λ _. k

  abbrev pub pure : {A : Type 0} → A → Action E W A
  pure a s = (s, ok a)

  abbrev pub lift : {A : Type 0} → Result RuntimeError A → Action E W A
  lift r s = (s, r)

  abbrev pub emit : List E → Action E W (Unit {0})
  emit es s = (record s { log = es ++ s.log }, ok tt)

  -- A call whose error becomes `StartFailed`.
  abbrev pub call : {A : Type 0} → Call W String A → Action E W A
  call c s = let (w, r) = c s.world in (record s { world = w }, map_err start_failed r)

-- `.map_err(|e| RuntimeError::StartFailed(e.to_string()))`
abbrev pub or_failed : {A : Type 0} → Result String A → Result RuntimeError A
or_failed r = map_err start_failed r
