-- ===== src/Programs/Configs.antt =====
-- `build_runtime_config` of the programs under scm/examples, and hello_edge.rs.
use edge_bootstrap.Prelude.{String, true, false, none, some}
use edge_bootstrap.Config.Types.{
  Foreign, RuntimeConfig, default, MetricsBackendConfig, MetricsBackendKind, LogBackendConfig,
  LogBackendKind,
}
use edge_bootstrap.Config.Setters.{
  with_service_name, with_http_bind, with_grpc_bind, with_systemd_notify, with_shutdown_timeout,
}

module _ {x : Foreign} where
  unfoldable pub bootstrap : RuntimeConfig x
  unfolding with_service_name with_http_bind with_grpc_bind with_systemd_notify default
  bootstrap =
      let config = with_systemd_notify false (
        with_grpc_bind "127.0.0.1:19090"
          (with_http_bind "127.0.0.1:18090" (with_service_name "full-landscape-demo" default))) in
      record config {
        metrics = some (record { bind = "127.0.0.1:18091"; path = "/metrics" });
        grpc_reflection = true;
      }

  -- `log_file_path`, under the directory for temporary files, is a parameter.
  unfoldable pub observability : String → RuntimeConfig x
  unfolding with_service_name with_http_bind with_grpc_bind with_systemd_notify default
  observability log_file_path =
      let config = with_systemd_notify false (
        with_grpc_bind "127.0.0.1:19190" (
          with_http_bind "127.0.0.1:18190" (with_service_name "observability-e2e-demo" default))) in
      let prometheus : MetricsBackendConfig = record {
        active = MetricsBackendKind.prometheus;
        file = none;
        prometheus = some tt;
        otel = none;
      } in
      let file : LogBackendConfig = record {
        active = LogBackendKind.file;
        file = some (log_file_path, 10);
        elk = none;
        otel = none;
      } in
      record config {
        metrics = some (record { bind = "127.0.0.1:18191"; path = "/metrics" });
        metrics_backend = some prometheus;
        log_backend = some file;
      }

  -- The JWT settings, an HS256 secret and a leeway of five seconds, are a parameter.
  unfoldable pub security : x.JwtConfig → RuntimeConfig x
  unfolding with_service_name with_http_bind with_grpc_bind with_systemd_notify default
  security auth =
      let config = with_systemd_notify false (
        with_grpc_bind "127.0.0.1:19290"
          (with_http_bind "127.0.0.1:18290" (with_service_name "security-e2e-demo" default))) in
      record config { http_auth = some auth }

  unfoldable pub messaging : RuntimeConfig x
  unfolding with_service_name with_http_bind with_grpc_bind with_systemd_notify default
  messaging = with_systemd_notify false (
      with_grpc_bind "127.0.0.1:19390"
        (with_http_bind "127.0.0.1:18390" (with_service_name "messaging-e2e-demo" default)))

  unfoldable pub scheduler : RuntimeConfig x
  unfolding with_service_name with_http_bind with_grpc_bind with_systemd_notify default
  scheduler = with_systemd_notify false (
      with_grpc_bind "127.0.0.1:19490"
        (with_http_bind "127.0.0.1:18490" (with_service_name "scheduler-e2e-demo" default)))

  unfoldable pub tls : RuntimeConfig x
  unfolding with_service_name with_http_bind with_grpc_bind with_systemd_notify default
  tls = with_systemd_notify false (
      with_grpc_bind "127.0.0.1:19590"
        (with_http_bind "127.0.0.1:18590" (with_service_name "tls-e2e-demo" default)))

  unfoldable pub websocket : RuntimeConfig x
  unfolding with_service_name with_http_bind with_systemd_notify default
  websocket =
      with_systemd_notify false
        (with_http_bind "127.0.0.1:18690" (with_service_name "websocket-e2e-demo" default))

  unfoldable pub hello : RuntimeConfig x
  unfolding with_service_name with_http_bind with_shutdown_timeout default
  hello =
      with_shutdown_timeout 5
        (with_http_bind "127.0.0.1:0" (with_service_name "hello-edge" default))
