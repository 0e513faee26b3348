-- ===== src/Endpoint.antt =====
-- The test that the health and the metrics endpoint share: a GET for the configured path.
-- scm/main/adapter/src/core/health/default_health_handler.rs and core/metrics/handler/metrics_handler.rs.
use edge_bootstrap.Prelude.{Bool, true, false, String, before, trim_end}
use text.Mathlib.Text.{◌==◌ as str_eq}
use edge_bootstrap.Transport.{HttpMethod, get, other_method}

abbrev pub is_get : HttpMethod → Bool
is_get get = true
is_get (other_method m) = false

-- Both paths without the slashes at their ends, that of the request without its query.
abbrev pub same_path : String → String → Bool
same_path path url = str_eq (trim_end b'/' (before b'?' url)) (trim_end b'/' path)
