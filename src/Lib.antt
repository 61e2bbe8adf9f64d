-- ===== src/Lib.antt =====
-- Verification of rgraphql.
--
-- rgraphql answers GraphQL queries as streams: the client keeps a tree of query nodes and sends its
-- changes to the server, the server keeps a copy of that tree, resolves the nodes, and sends the values
-- as paths whose prefixes can be aliases. The parts that are modelled, and where:
--
--   - `Types` models types/ and types/gqlast/: primitive values (`RGQLPrimitive`), `IsPrimEquiv`,
--     `NewASTPrimitive`, `UnpackPrimitive`, and the unwrapping and classification of AST types.
--   - `Varstore` models varstore/varstore.go: the store of query variables, which shares equivalent
--     values and collects the ones with no reference. A `*Variable` is an index into a heap.
--   - `Qtree` models qtree/: the server's tree of query nodes. `Qtree.Select` is the part of `AddChild`
--     that finds the field and its type, `Qtree.AddChild` the rest of it and `SetError`,
--     `Qtree.Subscribe` the subscriptions, `Qtree.Dispose` `Dispose` and `removeChild`, and
--     `Qtree.Mutation` `ApplyTreeMutation`. A `*QueryTreeNode` is an address into a heap; a call
--     returns, blocks on the error channel or on a disposal that is running, panics, or has too little fuel. The tree holds the store.
--   - `Resolver` models resolver/: `Resolver.Context` is context.go with the small resolvers on top of
--     it, `Resolver.Value` value.go, `Resolver.Observable` observable.go, and `Resolver.Object`
--     resolve-object.go over the updates of a query node.
--   - `Encoder` models encoder/: the path aliases (`Encoder.PathCache`) and the messages that `Run` gives
--     for values (`Encoder.Encode`), over the contexts of `Resolver`.
--   - `Result` models result/multiplexer.go: batches of encoded values of several executions.
--   - `Schema` models schema/ast.go: how `DocumentToParts` classifies a document, `LookupType`, and
--     `Apply`. The query trees of both sides look types up in it.
--   - `Server.Session` models server/session.go with execution.go and `BuildQueryTree` of
--     schema/schema.go: the messages of a client, over the query trees of `Qtree`. A `*queryExecution` is
--     an address into a heap.
--   - `Client` models client/. `Client.QueryTree` is query-tree.go and query-tree-node.go: its root has the
--     state and `gcSweep`, `Client.QueryTree.Resolve` has `resolveChild`, and `Client.QueryTree.Attach` has
--     `Attach` and `Detach`. `Client.QueryNode` is `qtNode` with the lookups on it, and
--     `Client.Arguments` and `Client.ArgsMap` are query-tree-args.go over `Varstore`. A `*qtNode` is an
--     address into a heap, and a child has a larger address than its parent; a `*Query` is a number.
--     An operation returns, reads through nil, or has too little fuel. The visitor of graphql-go is the
--     sequence of the callbacks that it makes. `Client.PathCursor`, `Client.ResultTree` and
--     `Client.Aliases` are path-cursor.go, result-tree-node.go, path-cache.go and `HandleValue` of
--     result-tree.go, the results that the client builds from the messages.
--     The other modules below `Client.QueryTree` have the proofs: `Rules` for the operations, `Shape`,
--     `After`, `Linked` and `Valid` for what holds of the tree, and one for each operation.
--   - `Analysis` models analysis/ with util/case.go: how `BuildModel` binds the objects of a schema to Go
--     types. `Analysis.Args` reads the signature of a method, and `Analysis.Build` and
--     `Analysis.Primitives` have the builders; `Analysis.Params` has the arguments of the call that is
--     generated for a method. The nodes of the schema, the types of go/types and the resolvers are
--     addresses; go/types, the lookup of the schema, `unicode.ToUpper` and the sort of the resolvers
--     are the parameters of `Program`. The other modules below it have the proofs: `Total` on the
--     recursion, `Model` on what `BuildModel` returns, `Scanned` on the generated call.
--   - `Introspect` models introspect/introspect.go: the resolvers of a schema, its types, fields and
--     arguments, over the lookup of the schema as a parameter. `Introspect.Reached` has the proofs.
--   - `Lru` is the interface of the cache of hashicorp/golang-lru, a parameter of both path caches,
--     with the documented behaviour as `IsLru`.
--   - `Prelude` has tests, lists, and Go maps as association lists.
--
-- Machine integers are natural numbers with the wrap-around at 2^32 written out; a double is its bit
-- pattern. Each method that holds a lock is one step. A Go map that is ranged over is visited in the
-- order of its list, and the theorems hold for every list; where two calls range over one map, the
-- second may have the list in another order.
--
-- Fuel: `dispose` counts down at each nested call, and the number of nodes plus one is enough;
-- `write_value` needs two calls on a valid chain; `set_loop` needs as many rounds as there are
-- subscriptions; the sweeps of the client's tree, `flag_gc_next` and `build_node` need no more than
-- the number of addresses; `build_resolver` needs `enough`, which the pairs of objects and types, the
-- depth of the schema's wrappers and that of the Go types give; `rewind` and `mark_final` go up the
-- chain of parents.
--
-- Not modelled: the generated code of rgraphql.pb.go, the rest of the Go code that analysis/ generates
-- from a model, `ApplyIntrospection`, the result handlers and the JSON decoder of the client, the
-- transport in server/rpc/, the goroutines that a session starts, the command line and the examples.
pub mod Prelude
pub mod Schema
pub mod Types
pub mod Varstore
pub mod Qtree
pub mod Lru
pub mod Resolver
pub mod Encoder
pub mod Result
pub mod Server
pub mod Analysis
pub mod Introspect
pub mod Client
