-- ===== src/Config/Building.antt =====
-- The fluent builders of a configuration and of an overlay.
pub mod Full
pub mod Overlay
pub mod Agreement
