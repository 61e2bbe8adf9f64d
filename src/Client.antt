-- ===== src/Client.antt =====
-- The package `client`: the tree of the queries that are attached, with the mutations that it sends,
-- and the tree of results that is built from the values it receives.
pub mod QueryNode
pub mod PathCursor
pub mod ResultTree
pub mod Aliases
pub mod ArgsMap
pub mod Arguments
pub mod QueryTree
mod Tests
