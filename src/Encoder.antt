-- ===== src/Encoder.antt =====
-- The package `encoder`: the path aliases (path-cache.go) and the encoder of results (encoder.go).
-- The LRU cache is the parameter `l`; contexts are those of `Resolver.Context`.
pub mod PathCache
pub mod Encode
mod Aliased
mod Tests
