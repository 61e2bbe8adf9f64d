-- ===== src/Result.antt =====
-- The package `result`.
pub mod Multiplexer
pub mod Batches
mod Tests
