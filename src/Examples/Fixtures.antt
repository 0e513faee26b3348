-- ===== src/Examples/Fixtures.antt =====
-- The parameters of the model, instantiated: a world that is a clock, and small ports.
use edge_bootstrap.Prelude.{ℕ, ◌+◌, ◌/◌, [], ◌∷◌, true, none, some, ok, err, Call, ltb}
use edge_bootstrap.Transport.{
  HttpRequest, HttpResponse, get, HttpIngressError, internal, healthy, HttpIngress, HttpEgress,
  Display,
}
use edge_bootstrap.Monitor.Floats.{Floats}
use edge_bootstrap.Monitor.Provider.{MetricsProvider}
use edge_bootstrap.Runtime.Lifecycle
use edge_bootstrap.Runtime.Lifecycle.{HealthStatus, Component, HealthResponse, LifecycleMonitor}
use edge_bootstrap.Runtime.Manager.{Manager}
use edge_bootstrap.Dispatch.Interface.{HandlerContext}
use edge_bootstrap.Observability.{ObserverContext}

abbrev pub floats : Floats ℕ
floats = record {
  of_u64 = λ n. n;
  of_i64 = λ n. n;
  div = λ a b. a / b;
  to_u64 = λ n. n;
  lt = ltb;
  half = 0;
}

abbrev pub provider : MetricsProvider ℕ ℕ
provider = record {
  record_counter = λ name value labels w. w + 1;
  record_gauge = λ name value labels w. w + 1;
  record_histogram = λ name value labels w. w + 1;
  export = λ w. [];
}

abbrev pub clock : ℕ → ℕ
clock w = w

abbrev pub response : HttpResponse
response = record { status = 200; headers = []; body = [] }

abbrev pub request : HttpRequest
request = record { method = get; url = "/ping"; headers = []; body = none }

abbrev pub failing : Call ℕ HttpIngressError HttpResponse
failing w = (w + 5, err (internal "down"))

abbrev pub http : HttpIngress ℕ
http = record { handle = λ req w. (w + 5, ok response); health_check = λ w. (w + 1, ok healthy) }

abbrev pub egress : HttpEgress ℕ
egress = record {
  send = λ req w. (w + 1, ok response);
  send_stream = λ req w. (w + 1, ok response);
  health_check = λ w. (w + 1, ok tt);
}

abbrev pub component : Component
component = record { id = "db"; status = Lifecycle.healthy; message = none }

abbrev pub lifecycle : LifecycleMonitor ℕ
lifecycle = record {
  health = λ w. (w + 1, ok (record { overall = Lifecycle.healthy; components = component ∷ [] }));
  start_background_tasks = λ w. (w + 1, ok tt);
  shutdown = λ w. (w + 1, ok tt);
  status = λ w. (w, ok Lifecycle.healthy);
  component = λ id w. (w, ok (some component));
}

abbrev pub display : Display
display = record {
  http_ingress_error = λ e. "http";
  grpc_ingress_error = λ e. "grpc";
  http_egress_error = λ e. "egress";
}

abbrev pub manager : Manager ℕ
manager = record {
  systemd_notify = true;
  ingress = record { http = some http; grpc = none };
  egress = record { http = egress; grpc = none };
  lifecycle = lifecycle;
  message_broker = none;
  display = display;
  clock = clock;
}

-- Handlers are observed by a context that does nothing.
abbrev pub TestObserver : Type 0
TestObserver = ObserverContext ℕ ℕ

abbrev pub observer : TestObserver
observer = record {
  tracer = record {
    start_span = λ id operation w. record {
      handler_id = id;
      operation = operation;
      started_at = w;
      fields = [];
    };
    finish = λ span w. (w, span);
  };
  drain = record { emit = λ level id message w. w };
  metrics = record { counter = λ n d w. w; gauge = λ n v w. w; histogram = λ n v w. w };
}

abbrev pub context : HandlerContext TestObserver
context = record { security = ""; observer = observer }
