-- ===== src/Config.antt =====
-- The package config: the options of the proxy, their defaults and checks.
pub mod Types
pub mod Defaults
pub mod Fixup
pub mod Env
pub mod Load
pub mod Validate
mod Tests
