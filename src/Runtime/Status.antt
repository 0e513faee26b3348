-- ===== src/Runtime/Status.antt =====
-- scm/main/port/runtime/src/types/runtime_status.rs, types/health and error/runtime_error.rs.
use edge_bootstrap.Prelude.{ℕ, String, List, Bool, true, false, Option, none, some, ◌&&◌, all}

pub data RuntimeStatus : Type 0 where
  starting running stopping stopped degraded : RuntimeStatus

unfoldable pub is_running : RuntimeStatus → Bool
is_running running = true
is_running _ = false

unfoldable pub status_is_healthy : RuntimeStatus → Bool
unfolding is_running
status_is_healthy s = is_running s

unfoldable pub is_terminal : RuntimeStatus → Bool
is_terminal stopped = true
is_terminal _ = false

unfoldable pub status_text : RuntimeStatus → String
status_text starting = "starting"
status_text running = "running"
status_text stopping = "stopping"
status_text stopped = "stopped"
status_text degraded = "degraded"

pub record ComponentHealth : Type 0 where
  pub name : String
  pub healthy : Bool
  pub detail : Option String

unfoldable pub healthy_component : String → ComponentHealth
healthy_component name = record { name = name; healthy = true; detail = none }

unfoldable pub unhealthy_component : String → String → ComponentHealth
unhealthy_component name detail = record { name = name; healthy = false; detail = some detail }

pub record RuntimeHealth : Type 0 where
  pub status : RuntimeStatus
  pub components : List ComponentHealth
  pub uptime_secs : ℕ

unfoldable pub is_healthy : RuntimeHealth → Bool
unfolding status_is_healthy
is_healthy h = status_is_healthy h.status && all (λ c. c.healthy) h.components

pub data RuntimeError : Type 0 where
  start_failed shutdown_failed bind_failed internal broker scheduler : String → RuntimeError
  shutdown_timeout : ℕ → RuntimeError
