-- ===== src/Server.antt =====
-- The package `server`.
pub mod Session
