-- ===== src/Server/Session.antt =====
-- server/session.go with execution.go, and `BuildQueryTree` of schema/schema.go. The mutex of a session
-- makes each message one step. A query execution is an address into a heap; the goroutines that a
-- query starts are the list of the executions in the order of the `go` statements.
pub mod Live
pub mod Valid
pub mod Others
pub mod Restart
mod Tests
use rgraphql.Prelude.{
  ℕ, ◌+◌, Bool, true, false, Option, none, some, List, [], ◌∷◌, ◌++◌, Map, lookup, insert, delete,
  nat_eq,
}
use rgraphql.Types.Ast.{AstType, TypeDefinition}
use rgraphql.Schema.{AstParts, lookup_type}
use rgraphql.Qtree
use rgraphql.Qtree.{Tree, Out, new_query_tree}
use rgraphql.Qtree.Mutation.{TreeMutation, apply_tree_mutation}

pub data SessionError : Type 0 where
  duplicate_query_id schema_not_parsed root_query_not_found : SessionError
  of_tree : Qtree.Error → SessionError

-- `BuildQueryTree` returns a tree or an error.
pub data BuiltTree : Type 0 where
  built : Tree → BuiltTree
  failed : SessionError → BuiltTree

unfoldable pub build_query_tree : Option AstParts → ℕ → BuiltTree
build_query_tree none cap = failed schema_not_parsed
build_query_tree (some definitions) cap = elim definitions.root_query [
  | none ↦ failed root_query_not_found
  | some root ↦ built (new_query_tree root cap)
]

-- `queryExecution`: `cancel_called` is set by `ctxCancel`. Its context is done when that was called or
-- when the context of the client is, which is `client_done` of the server.
pub record QueryExecution : Type 0 where
  pub qid : ℕ
  pub tree : Tree
  pub cancel_called : Bool

-- `RGQLServerMessage` with a query error.
pub record ErrorMessage : Type 0 where
  pub query_id : ℕ
  pub error : SessionError

-- `Session`: `definitions` are those of the schema, `sent` is what the channel of the transport was
-- given, and `client_done` is set when the context of the client is cancelled. `late` is what a
-- select does that could then send as well.
pub record Session : Type 0 where
  pub definitions : Option AstParts
  pub queries : Map ℕ ℕ
  pub executions : Map ℕ QueryExecution
  pub next : ℕ
  pub started : List ℕ
  pub sent : List ErrorMessage
  pub client_done : Bool
  pub late : Bool

-- `send`
unfoldable pub send : ErrorMessage → Session → Session
send msg s = elim s.client_done [
  | false ↦ record s { sent = s.sent ++ msg ∷ [] }
  | true ↦ elim s.late [ false ↦ s | true ↦ record s { sent = s.sent ++ msg ∷ [] } ]
]

-- A message is handled; or the call never returns, with the session locked; or it panics.
pub data Handled : Type 0 where
  returned : Option SessionError → Session → Handled
  blocked : Session → Handled
  panicked : Session → Handled
  spent : Handled

abbrev pub refuse : ℕ → SessionError → Session → Handled
refuse id e s = returned (some e) (send (record { query_id = id; error = e }) s)

-- `handleInitQuery`; the error channel of a query has room for 10 errors.
unfoldable pub handle_init_query : ℕ → Session → Handled
handle_init_query id s = elim (lookup id s.queries) [
  | some a ↦ refuse id duplicate_query_id s
  | none ↦ elim (build_query_tree s.definitions 10) [
    | failed e ↦ refuse id e s
    | built qt ↦ returned none (record s {
      executions =
          insert s.next (record { qid = id; tree = qt; cancel_called = false }) s.executions;
      queries = insert id s.next s.queries;
      next = s.next + 1;
      started = s.started ++ s.next ∷ [];
    })
  ]
]

-- `q.ctxCancel()`
abbrev pub cancel_at : ℕ → Session → Session
cancel_at a s = elim (lookup a s.executions) [
  | none ↦ s
  | some e ↦ record s { executions = insert a (record e { cancel_called = true }) s.executions }
]

-- `handleFinishQuery`
unfoldable pub handle_finish_query : ℕ → Session → Session
handle_finish_query id s = elim (lookup id s.queries) [
  | none ↦ s
  | some a ↦ let s1 = cancel_at a s in record s1 { queries = delete id s1.queries }
]

-- `RGQLClientMessage`
pub record ClientMessage : Type 0 where
  pub init_query : Option ℕ
  pub mutate_tree : Option TreeMutation
  pub finish_query : Option ℕ

-- The schema's lookup of types.
abbrev pub look_in : Option AstParts → AstType → Option TypeDefinition
look_in none ty = none
look_in (some definitions) ty = lookup_type definitions ty

abbrev pub with_tree : ℕ → QueryExecution → Tree → Session → Session
with_tree a e t s = record s { executions = insert a (record e { tree = t }) s.executions }

-- What the outcome of `ApplyTreeMutation` leaves of the session.
abbrev pub mutated : ℕ → QueryExecution → Out (Option Qtree.Error) → Session → Handled
mutated a e (Out.done none t) s = returned none (with_tree a e t s)
mutated a e (Out.done (some err) t) s = returned (some (of_tree err)) (with_tree a e t s)
mutated a e (Out.blocked t) s = blocked (with_tree a e t s)
mutated a e (Out.panicked t) s = panicked (with_tree a e t s)
mutated a e Out.spent s = spent

-- The part of `HandleMessage` for a mutation.
unfoldable pub handle_mutation : TreeMutation → Session → Handled
handle_mutation m s = elim (lookup m.query_id s.queries) [
  | none ↦ returned none s
  | some a ↦ elim (lookup a s.executions) [
    | none ↦ panicked s
    | some e ↦ mutated a e (apply_tree_mutation (look_in s.definitions) 0 m e.tree) s
  ]
]

abbrev pub finish_with : Option ℕ → Session → Session
finish_with none s = s
finish_with (some id) s = handle_finish_query id s

abbrev pub mutate_with : Option TreeMutation → Session → Handled
mutate_with none s = returned none s
mutate_with (some m) s = handle_mutation m s

abbrev pub then_finish : Option ℕ → Handled → Handled
then_finish id (returned none s) = returned none (finish_with id s)
then_finish id h = h

-- `HandleMessage`
unfoldable pub handle_message : ClientMessage → Session → Handled
handle_message msg s = elim msg.init_query [
  | some id ↦ handle_init_query id s
  | none ↦ then_finish msg.finish_query (mutate_with msg.mutate_tree s)
]

-- `Cancel`
abbrev pub cancel : Session → Session
cancel s = record s { client_done = true }
