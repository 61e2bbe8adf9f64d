-- ===== src/Server/Session/Restart.antt =====
-- A query id that is finished and begun again.

use rgraphql.Prelude.{
  ℕ, ◌+◌, true, false, none, some, [], ◌∷◌, ◌++◌, ◌≡◌, refl, ap, arith, lookup, insert, delete,
  lookup-insert, lookup-delete, nat_eq, nat_beq_iff, ◌==◌,
}
use rgraphql.Types.Ast.{TypeDefinition}
use rgraphql.Schema.{AstParts}
use rgraphql.Qtree.{new_query_tree}
use rgraphql.Server.Session.{
  built, build_query_tree, QueryExecution, Session, returned, handle_init_query, cancel_at,
  handle_finish_query, ClientMessage, handle_message,
}
use rgraphql.Server.Session.Live.{IsValid}
use rgraphql.Server.Session.Others.{Runs}

-- The messages that begin and finish a query.
abbrev pub init_message : ℕ → ClientMessage
init_message id = record { init_query = some id; mutate_tree = none; finish_query = none }

abbrev pub finish_message : ℕ → ClientMessage
finish_message id = record { init_query = none; mutate_tree = none; finish_query = some id }

-- An execution as a query begins.
abbrev pub beginning : ℕ → TypeDefinition → QueryExecution
beginning id root = record { qid = id; tree = new_query_tree root 10; cancel_called = false }

module _ (id a : ℕ) (e : QueryExecution) (root : TypeDefinition) (s : Session) where
  -- The session without the query, and with it again.
  abbrev pub stopped : Session
  stopped = record s {
    executions = insert a (record e { cancel_called = true }) s.executions;
    queries = delete id s.queries;
  }

  abbrev pub restarted : Session
  restarted = record stopped {
    executions = insert s.next (beginning id root) stopped.executions;
    queries = insert id s.next stopped.queries;
    next = s.next + 1;
    started = s.started ++ s.next ∷ [];
  }

  stops :
      lookup id s.queries ≡ some a
      → lookup a s.executions ≡ some e
      → handle_finish_query id s ≡ stopped
  unfolding handle_finish_query
  stops here at = rw (here, at, handle_finish_query, cancel_at) refl

  finish_stops :
      lookup id s.queries ≡ some a
      → lookup a s.executions ≡ some e
      → handle_message (finish_message id) s ≡ returned none stopped
  unfolding handle_message
  finish_stops here at = ap (returned none) (stops here at)

  builds :
      (ps : AstParts)
      → s.definitions ≡ some ps
      → ps.root_query ≡ some root
      → build_query_tree s.definitions 10 ≡ built (new_query_tree root 10)
  unfolding build_query_tree
  builds ps known top = rw (known, build_query_tree) (rw (top, build_query_tree) refl)

  init_restarts :
      build_query_tree s.definitions 10 ≡ built (new_query_tree root 10)
      → handle_message (init_message id) stopped ≡ returned none restarted
  unfolding handle_message handle_init_query
  init_restarts tree =
      let gone : lookup id (delete id s.queries) ≡ none =
        ground (arith, lookup-delete id id s.queries, nat_beq_iff id id) in
      rw (gone, handle_init_query) (rw (tree, handle_init_query) refl)

-- A query of a valid session is finished and its id begun again, over a schema with a root query: both
-- messages return without an error, the execution that is started last runs under the id with an
-- empty tree, and the one before stays cancelled.
pub handle_message-again :
    (id a : ℕ) (root : TypeDefinition) (ps : AstParts) (s : Session)
    → IsValid s
    → s.definitions ≡ some ps
    → ps.root_query ≡ some root
    → lookup id s.queries ≡ some a
    → (s1 : Session) × (s2 : Session) × (handle_message (finish_message id) s ≡ returned none s1)
      × (handle_message (init_message id) s1 ≡ returned none s2)
      × Runs id s.next (beginning id root) s2
      × (s2.started ≡ s.started ++ s.next ∷ [])
      × ((old : QueryExecution) × (lookup a s2.executions ≡ some old) × (old.cancel_called ≡ true))
handle_message-again id a root ps s v known top here =
    let (e, at, _, _) = v.live id a here in
    let lt = v.used a e at in
    let off : (s.next == a) ≡ false = ground (arith, lt, nat_beq_iff s.next a) in
    (
      stopped id a e root s,
      restarted id a e root s,
      finish_stops id a e root s here at,
      init_restarts id a e root s (builds id a e root s ps known top),
      (
        ground (arith, lookup-insert id id s.next (delete id s.queries), nat_beq_iff id id),
        ground (
          arith,
          lookup-insert s.next s.next (beginning id root) (stopped id a e root s).executions,
          nat_beq_iff s.next s.next,
        ),
      ),
      refl,
      (
        record e { cancel_called = true },
        ground (
          arith,
          off,
          lookup-insert s.next a (beginning id root) (stopped id a e root s).executions,
          lookup-insert a a (record e { cancel_called = true }) s.executions,
          nat_beq_iff a a,
        ),
        refl,
      ),
    )
