-- ===== src/Guard.antt =====
-- scm/main/adapter/src/core/intrusion: the ingress wrappers that ask the rules engine first.
pub mod Decisions
use edge_bootstrap.Prelude.{
  ℕ, String, List, Option, none, some, Result, ok, err, Call, ◌==◌, if◌then◌else◌,
}
use Prim.Native.String
use Prim.Native.Char.{code}
use edge_bootstrap.Transport.{
  HttpMethod, HttpRequest, HttpResponse, InboundRequest, HttpIngressError, HealthCheck, HttpIngress,
  GrpcRequest, UnaryRequest, StreamRequest, GrpcResponse, GrpcIngressError, permission_denied,
  GrpcIngress,
}
use edge_bootstrap.Transport

-- `RequestEvent` of edge_intrusion, by what its builder is given.
pub record RequestEvent : Type 0 where
  pub ip : String
  pub method : String
  pub target : String
  pub at : ℕ
  pub query : Option String
  pub headers : List (String × String)

-- A rejection names a rule and a reason.
pub data Decision : Type 0 where
  allow : Decision
  reject : String → String → Decision

-- `Wired` of edge_intrusion with its engine, the header lookup of the transport crates, the text of a
-- method and the clock.
pub record Wired (W : Type 0) : Type 0 where
  pub extract_ip : String → Option String → String
  pub guard : RequestEvent → W → W × Decision
  pub header : String → List (String × String) → Option String
  pub method_text : HttpMethod → String
  pub clock : W → ℕ

-- `url.split_once('?').map(|(_, q)| q)`, for the separator `sep`
unfoldable pub after_first : ℕ → String → Option String
after_first sep String.[] = none
after_first sep (String.◌∷◌ c s) = if code c == sep then some s else after_first sep s

unfoldable pub blocked : String → String → String
blocked rule reason =
    String.◌++◌ "blocked by edge-intrusion rule '" (String.◌++◌ rule (String.◌++◌ "': " reason))

module _ {W : Type 0} (wired : Wired W) where
  unfoldable pub build_http_event : InboundRequest → W → RequestEvent
  build_http_event req w = record {
    ip = wired.extract_ip req.peer_ip (wired.header "x-forwarded-for" req.request.headers);
    method = wired.method_text req.request.method;
    target = req.request.url;
    at = wired.clock w;
    query = after_first b'?' req.request.url;
    headers = req.request.headers;
  }

  unfoldable pub build_grpc_event : String → String → List (String × String) → W → RequestEvent
  build_grpc_event method peer_ip headers w = record {
    ip = wired.extract_ip peer_ip (wired.header "x-forwarded-for" headers);
    method = method;
    target = method;
    at = wired.clock w;
    query = none;
    headers = headers;
  }

  -- The decision, and the inner call if it is allowed.
  unfoldable pub guarded :
      {E A : Type 0} → (String → E) → (W → RequestEvent) → Call W E A → Call W E A
  guarded denied event call w =
      let (w', decision) = wired.guard (event w) w in
      elim decision [
        | allow ↦ call w'
        | reject rule reason ↦ (w', err (denied (blocked rule reason)))
      ]

  unfoldable pub http_intrusion_guard : HttpIngress W → HttpIngress W
  unfolding guarded build_http_event
  http_intrusion_guard inner = record {
    handle =
        λ req. guarded HttpIngressError.permission_denied (build_http_event req) (inner.handle req);
    health_check = inner.health_check;
  }

  unfoldable pub grpc_intrusion_guard : GrpcIngress W → GrpcIngress W
  unfolding guarded build_grpc_event
  grpc_intrusion_guard inner = record {
    handle_unary = λ req.
        guarded GrpcIngressError.permission_denied
          (build_grpc_event req.request.method req.peer_ip req.request.metadata)
          (inner.handle_unary req);
    handle_stream = λ req.
        guarded GrpcIngressError.permission_denied
          (build_grpc_event req.method req.peer_ip req.metadata) (inner.handle_stream req);
    health_check = inner.health_check;
  }
