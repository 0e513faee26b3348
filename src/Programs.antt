-- ===== src/Programs.antt =====
-- The programs under scm/examples, which use the library: their handlers, configurations and services.
pub mod Handlers
pub mod Configs
pub mod Ticks
pub mod Mains
pub mod Frames
pub mod Orders
pub mod Hello
pub mod Certificates
