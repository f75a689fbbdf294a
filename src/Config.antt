-- ===== src/Config.antt =====
-- The modules for src/config.rs.
pub mod Types
pub mod Load
pub mod Valid
