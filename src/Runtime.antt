-- ===== src/Runtime.antt =====
-- scm/main/port/runtime, and the runtime manager and runner of scm/main/adapter/src/core.
pub mod Status
pub mod Lifecycle
pub mod Manager
pub mod Health
pub mod Runner
pub mod HealthHandler
