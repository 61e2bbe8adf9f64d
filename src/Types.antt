-- ===== src/Types.antt =====
-- The packages `types` and `types/gqlast`: primitive values, their comparison and construction,
-- and the wrappers of GraphQL types.
pub mod Ast
pub mod Primitive
pub mod PrimEquiv
pub mod PrimPack
mod Tests
