-- ===== src/Examples/Reflected.antt =====
-- `serve` of a gRPC job with reflection.
use edge_bootstrap.Prelude.{ℕ, String, List, [], ◌∷◌, true, none, some}
use edge_bootstrap.Adapters
use edge_bootstrap.Adapters.{empty, with_grpc}
use edge_bootstrap.Config.Types.{RuntimeConfig, default}
use edge_bootstrap.Dispatch.GrpcJob
use edge_bootstrap.Dispatch.GrpcJob.{GrpcHandler}
use edge_bootstrap.Transport.{GrpcIngress, StreamRequest}
use edge_bootstrap.Monitor.Counters
use edge_bootstrap.Monitor.Counters.{TrafficCounters}
use edge_bootstrap.Assembly.{grpc_stack}
use edge_bootstrap.Builder.{builder}
use edge_bootstrap.Serve.{GrpcServer, streaming_kind, bidi_stream, allow_unauthenticated}
use edge_bootstrap.Serve.Resolve.{egress_of, resolve_observer_context}
use edge_bootstrap.Serve.Servers.{Prepared}
use edge_bootstrap.Examples.Fixtures.{floats, clock, egress, TestObserver}
use edge_bootstrap.Examples.Config.{foreign}
use edge_bootstrap.Examples.Dispatch.{registry}
use edge_bootstrap.Examples.Serve.{parts, env, tracer, logger, Service, reflection}

abbrev config : RuntimeConfig foreign
config = record default { grpc_reflection = true }

abbrev job : GrpcJob.GrpcJob TestObserver ℕ (List (String × GrpcHandler TestObserver ℕ))
job = GrpcJob.new registry

abbrev reflective : Service
reflective = record builder {
  config = some config;
  grpc_job = some job;
  grpc_allow_unauthenticated = true;
}

abbrev observer : TestObserver
observer = resolve_observer_context env none tracer logger none

abbrev ingress : GrpcIngress ℕ
ingress = GrpcJob.grpc_ingress_job registry env.default_stream observer job

abbrev prepared : Prepared foreign parts ℕ
prepared = record {
  config = config;
  verifier = none;
  provider = none;
  observer = observer;
  input = with_grpc ingress empty;
  output = egress_of egress none;
  wired = none;
}

abbrev server : GrpcServer foreign parts (TrafficCounters ℕ)
server = record {
  bind = "0.0.0.0:50051";
  handler = grpc_stack floats clock none (some reflection) none ingress;
  settings =
      streaming_kind env.reflection_info_method bidi_stream ∷ allow_unauthenticated true ∷ [];
}

abbrev opening : StreamRequest
opening = record {
  method = "/grpc.reflection.v1.ServerReflection/ServerReflectionInfo";
  metadata = [];
  peer_ip = "10.0.0.1";
}
