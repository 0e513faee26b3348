-- ===== src/Transport.antt =====
-- The transport types that the program passes on and builds: those of swe_edge_ingress_http and
-- swe_edge_ingress_grpc, with the fields and constructors that the program names. An ingress is a
-- trait object: its methods may change the world `W` and may fail.
use edge_bootstrap.Prelude.{ℕ, String, List, Option, Call}

pub data HttpMethod : Type 0 where
  get : HttpMethod
  other_method : String → HttpMethod

-- A parsed JSON value is given by its text, and a body of another kind by its bytes.
pub data HttpBody : Type 0 where
  json : String → HttpBody
  raw other_body : List ℕ → HttpBody

pub record HttpRequest : Type 0 where
  pub method : HttpMethod
  pub url : String
  pub headers : List (String × String)
  pub body : Option HttpBody

-- `security` stands for the request context, which only passes through.
pub record InboundRequest : Type 0 where
  pub request : HttpRequest
  pub security : String
  pub peer_ip : String

pub record HttpResponse : Type 0 where
  pub status : ℕ
  pub headers : List (String × String)
  pub body : List ℕ

pub data HttpIngressError : Type 0 where
  invalid_input not_found internal unavailable permission_denied method_not_allowed :
      String → HttpIngressError

pub data HealthCheck : Type 0 where
  healthy : HealthCheck
  unhealthy : String → HealthCheck

pub record HttpIngress (W : Type 0) : Type 0 where
  pub handle : InboundRequest → Call W HttpIngressError HttpResponse
  pub health_check : Call W HttpIngressError HealthCheck

pub record GrpcRequest : Type 0 where
  pub method : String
  pub body : List ℕ
  pub metadata : List (String × String)

pub record UnaryRequest : Type 0 where
  pub request : GrpcRequest
  pub security : String
  pub peer_ip : String

pub record StreamRequest : Type 0 where
  pub method : String
  pub metadata : List (String × String)
  pub peer_ip : String

pub record GrpcResponse : Type 0 where
  pub body : List ℕ
  pub metadata : List (String × String)

pub data GrpcIngressError : Type 0 where
  unimplemented invalid_argument internal unavailable permission_denied : String → GrpcIngressError

-- What a stream yields is not looked at by the program.
pub record GrpcIngress (W : Type 0) : Type 0 where
  pub handle_unary : UnaryRequest → Call W GrpcIngressError GrpcResponse
  pub handle_stream : StreamRequest → Call W GrpcIngressError GrpcResponse
  pub health_check : Call W GrpcIngressError HealthCheck

pub data HttpEgressError : Type 0 where
  internal other_egress_error : String → HttpEgressError

pub record HttpEgress (W : Type 0) : Type 0 where
  pub send : HttpRequest → Call W HttpEgressError HttpResponse
  pub send_stream : HttpRequest → Call W HttpEgressError HttpResponse
  pub health_check : Call W HttpEgressError (Unit {0})

-- Of a gRPC egress client the program calls the health check alone. An error is given by its text.
pub record GrpcEgress (W : Type 0) : Type 0 where
  pub health_check : Call W String (Unit {0})

-- `to_string` of the errors of the transport crates.
pub record Display : Type 0 where
  pub http_ingress_error : HttpIngressError → String
  pub grpc_ingress_error : GrpcIngressError → String
  pub http_egress_error : HttpEgressError → String
