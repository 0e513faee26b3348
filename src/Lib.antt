-- ===== src/Lib.antt =====
-- Verification of edge-bootstrap, the process composition root of an edge service: it loads a layered
-- configuration, puts HTTP and gRPC ingress and egress together, starts and stops the runtime, reports
-- health and load, and dispatches requests to registered handlers.
--
-- Paths are from the repository's root. `adapter` is scm/main/adapter/src/core, `port` is scm/main/port.
--
--   Prelude (Tests, Lists, Results, Texts)  library names, Boolean tests, lists over the native numbers,
--     Rust's Result and the calls of foreign code, scanning of text
--   Transport        the types of the transport crates, with the fields that the program names
--   Endpoint         GET for a path: the test that the health and metrics endpoints share
--   Adapters         adapter/ingress/default_ingress.rs, adapter/egress/default_egress.rs
--   Config           port/runtime/src/types/runtime_config.rs, port/config and adapter/config
--     Types            RuntimeConfig, its defaults, ConfigError
--     Override         ConfigOverride and apply_to; Merge: overlays compose
--     Host             environment, files and the TOML parser, as parameters
--     Loader           ApplicationConfigLoader; Layers, Tenant, Timeout: its theorems;
--                      Numbers: the text of a u64
--     Section          load_section; Merging: its theorem
--     Building         the fluent builders: of RuntimeConfig (Full), of ConfigOverride (Overlay);
--                      Agreement: their theorem
--     Validator        adapter/validator/config_validator.rs
--   Dispatch         adapter/dispatch
--     Interface        handlers, handler registry and path router, with what is relied on as laws
--     HttpJob          DefaultHttpJob and HttpIngressJob; Routing, Running: its theorems; Overlap:
--                      registrations that overlap (Sound, Alone: its theorems)
--     Stages           how far overlapping calls are
--     GrpcJob          DefaultGrpcJob and GrpcIngressJob; Registration: its theorem; Overlap:
--                      registrations that overlap
--   Guard            adapter/intrusion, both guards; Decisions: the theorem
--   Balancer         adapter/egress/load_balanced_http_egress.rs; Outcomes: the theorem
--   Composite        adapter/composite/composite_grpc_ingress.rs
--   Monitor          port/monitor and adapter/monitor
--     RingBuffer       the latency window; Window, Recent, Percentile: its theorems; Sort: sorting;
--                      Unique: what it makes equal
--     Counters         TrafficCounters; Interleaving: its atomic steps in any order
--     Sampler          one round of BackgroundSampler; Quiet: rounds without traffic
--     Load             HttpLoadMonitor and GrpcLoadMonitor; Balance: their theorems
--     MetricsHandler   adapter/metrics/handler/metrics_handler.rs; Scrape: its theorem
--     Floats, Provider  f64 and the metrics provider, as parameters
--   Runtime          port/runtime and adapter/runtime, adapter/runner, adapter/health
--     Status           RuntimeStatus, ComponentHealth, RuntimeHealth, RuntimeError
--     Lifecycle        MetricsLifecycleMonitor; Gauges: its theorem
--     Manager          start and shutdown of DefaultRuntimeManager; Laws: every branch; Race: overlaps;
--                      Building: its builder
--     Health           its health report; Verdict, Unread: its theorems
--     HealthHandler    DefaultHealthHandler; Answer: its theorems
--     Runner           DaemonRunner; Outcome: its theorem
--   Assembly         adapter/runtime/runtime_builder_serve.rs: the ingress of `serve`
--     Counting         which calls the load counters see; Startable: the choice of the ingress
--     Backends         the choice of the observability backends; Settings: its theorems
--   Observability    adapter/observability: tracer, log drain and metrics of handlers; Spans: its theorem
--   Codec            adapter/json/codec/codec.rs; Calls: its theorems
--   Builder          adapter/runtime/types/runtime_builder.rs
--     Setters          its setters; Routes: its routes; Served: what they promise
--     Registry         port/runtime/src/types/service_registry.rs and build_registry; Services: its theorem
--   Serve            `serve` of adapter/runtime/runtime_builder_serve.rs and `run` of
--                    scm/main/adapter/src/saf/bootstrap_svc.rs, as actions that write a log
--     Resolve          what is resolved first; Settings: those of the gRPC server; Servers: the servers
--     Teardown         the run and what follows it; Whole: `serve`; Plain: `run`
--     Log              what a log says of a task; Origin: what a server in a log comes from
--     Outcome, Secured (HTTP), Guarded (gRPC), Answers, Routed (HTTP), Unary (gRPC), Reflected (gRPC),
--     Settings/Exact, Plain/Same: the theorems
--   Facade           the other entry functions of scm/main/adapter/src/saf/bootstrap_svc.rs; Entries: a theorem
--   Programs         the programs under scm/examples, which use all of this
--     Handlers         their handlers; Configs: their configurations; Mains: what they serve
--     Ticks            the job and handler of scheduler-e2e; Orders: messaging-e2e; Frames: websocket-e2e
--     Hello            hello_edge.rs: its ingress and its whole run (Stops: its theorem)
--     Certificates     the certificate of tls-e2e, made if the environment asks for it
--   Examples         concrete runs
--
-- How state is modelled. Code outside the repository (transports, registries, the lifecycle monitor, the
-- metrics provider, the rules engine, the backend pool) acts on a world `W`: a call takes a world and
-- gives a world and a `Result`. A wrapper around an ingress is an ingress over a larger world. The
-- methods of an object take its state and give it back. A section parameter stands for each foreign
-- crate; its laws are hypotheses (RegistryLaws, PathRouterLaws), which Examples shows to hold of
-- association lists. An asynchronous method is modelled as one call, except where its steps matter:
-- the locked sections of start and shutdown (Runtime/Manager/Race), the atomic steps of the counters
-- (Monitor/Counters/Interleaving), a dropped future (`dropped_load` of Monitor/Load), a lapsed timeout
-- (Runtime/Runner). A panic is `none`. `serve` and `run` write a log, the last event first: what is
-- spawned, the run, and what is told to stop and waited for; an early return drops the senders of the
-- channels that there are, which tells a waiting server to stop as a message does. What servers do while
-- the runtime runs is part of the signal's effect on the world. `serve` is modelled with the features
-- observability, intrusion, scheduler and message-broker compiled in.
--
-- Bounds. A u64, usize or i64 is a number with its arithmetic modulo 2 ^ 64 written out; an i64 is read
-- as negative from 2 ^ 63 on. No definition runs on fuel: every loop goes over a list or a text.
--
-- Not modelled: servers, TLS and token verification themselves, which are other crates', the
-- WASM port, which only declares traits, log lines other than those
-- of systemd_notify, and the parsers of TOML and of URIs, which are parameters.
pub mod Prelude
pub mod Transport
pub mod Endpoint
pub mod Composite
pub mod Adapters
pub mod Config
pub mod Dispatch
pub mod Runtime
pub mod Monitor
pub mod Guard
pub mod Balancer
pub mod Assembly
pub mod Builder
pub mod Observability
pub mod Serve
pub mod Programs
pub mod Codec
pub mod Facade
mod Examples
