-- ===== src/Config.antt =====
-- scm/main/port/config, scm/main/adapter/src/core/config and core/validator: the configuration, its
-- overlays, the layered loader and the check before the start.
pub mod Types
pub mod Override
pub mod Host
pub mod Loader
pub mod Section
pub mod Validator
pub mod Feature
pub mod Setters
pub mod Building
