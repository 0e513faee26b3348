-- ===== src/Examples/Assembly.antt =====
-- The ingress that `serve` puts together.
use edge_bootstrap.Prelude.{ℕ, ◌+◌, [], none, ok}
use edge_bootstrap.Transport.{GrpcIngress, UnaryRequest, GrpcResponse, InboundRequest, healthy}
use edge_bootstrap.Guard.{Wired, reject}
use edge_bootstrap.Monitor.Counters
use edge_bootstrap.Monitor.Counters.{TrafficCounters}
use edge_bootstrap.Runtime.Status.{stopped}
use edge_bootstrap.Runtime.Manager.{State}
use edge_bootstrap.Examples.Fixtures.{floats, provider, request}

abbrev idle : State ℕ
idle = record { status = stopped; started_at = none; notices = []; world = 5 }

abbrev wired : Wired ℕ
wired = record {
  extract_ip = λ peer forwarded. peer;
  guard = λ event w. (w + 1, reject "lfi" "path");
  header = λ name headers. none;
  method_text = λ m. "GET";
  clock = λ w. w;
}

abbrev inbound : InboundRequest
inbound = record { request = request; security = ""; peer_ip = "10.0.0.1" }

abbrev counters : TrafficCounters ℕ
counters = Counters.new floats provider 7

abbrev grpc_answer : GrpcResponse
grpc_answer = record { body = []; metadata = [] }

abbrev grpc : GrpcIngress ℕ
grpc = record {
  handle_unary = λ req w. (w + 2, ok grpc_answer);
  handle_stream = λ req w. (w + 2, ok grpc_answer);
  health_check = λ w. (w, ok healthy);
}

abbrev reflection_call : UnaryRequest
reflection_call = record {
  request = record { method = "/grpc.reflection.v1.Info"; body = []; metadata = [] };
  security = "";
  peer_ip = "10.0.0.1";
}
