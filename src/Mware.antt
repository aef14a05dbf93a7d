-- ===== src/Mware.antt =====
-- web/mware: the wrappers around the HTTP handlers.
pub mod Cors
pub mod Auth
mod Tests
