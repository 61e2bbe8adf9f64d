-- ===== src/Resolver.antt =====
-- The package `resolver`: contexts (context.go), the values that they write (value.go,
-- resolve-value.go, resolve-error.go), observables (observable.go) and objects (resolve-object.go).
pub mod Value
pub mod Context
pub mod Observable
pub mod Object
mod Tests
