-- ===== src/Server/Session/Tests.antt =====
-- A session that begins two queries, and its theorems at a message for one of them.
use rgraphql.Prelude.{
  ℕ, true, false, none, some, [], ◌∷◌, ◌≡◌, refl, subst, arith, lookup, insert, nat_eq,
}
use rgraphql.Types.Ast.{TypeDefinition, Fields}
use rgraphql.Schema.{no_parts}
use rgraphql.Qtree.{new_query_tree}
use rgraphql.Server.Session.{
  QueryExecution, Session, returned, ClientMessage, build_query_tree, handle_init_query,
  handle_message,
}
use rgraphql.Server.Session.Valid.{handle_message-IsValid}
use rgraphql.Server.Session.Live.{IsValid, Keeps}
use rgraphql.Server.Session.Restart.{beginning, finish_message, init_message, handle_message-again}
use rgraphql.Server.Session.Others.{Runs, Spares, handle_message-Runs}

abbrev root_query : TypeDefinition
root_query = TypeDefinition.object (some "RootQuery") Fields.end

abbrev fresh : Session
fresh = record {
  definitions = some (record no_parts { root_query = some root_query });
  queries = [];
  executions = [];
  next = 0;
  started = [];
  sent = [];
  client_done = false;
  late = false;
}

abbrev begin : ℕ → ClientMessage
begin id = record { init_query = some id; mutate_tree = none; finish_query = none }

abbrev execution : ℕ → QueryExecution
execution id = record { qid = id; tree = new_query_tree root_query 10; cancel_called = false }

abbrev one : Session
one = record fresh {
  queries = (7, 0) ∷ [];
  executions = (0, execution 7) ∷ [];
  next = 1;
  started = 0 ∷ [];
}

abbrev two : Session
two = record fresh {
  queries = (7, 0) ∷ (9, 1) ∷ [];
  executions = (0, execution 7) ∷ (1, execution 9) ∷ [];
  next = 2;
  started = 0 ∷ 1 ∷ [];
}

begin_7 : handle_message (begin 7) fresh ≡ returned none one
unfolding handle_message handle_init_query build_query_tree lookup insert
begin_7 = refl

begin_9 : handle_message (begin 9) one ≡ returned none two
unfolding handle_message handle_init_query build_query_tree lookup insert
begin_9 = refl

fresh-IsValid : IsValid fresh
unfolding lookup
fresh-IsValid = record {
  used = λ a e p. absurd (ground (arith));
  live = λ id a p. absurd (ground (arith));
  listed = λ a e p. absurd (ground (arith));
}

one-IsValid : IsValid one
one-IsValid = subst (Keeps IsValid) begin_7 (handle_message-IsValid (begin 7) fresh fresh-IsValid)

two-IsValid : IsValid two
two-IsValid = subst (Keeps IsValid) begin_9 (handle_message-IsValid (begin 9) one one-IsValid)

-- A mutation of the query 9, which is then finished.
abbrev last_of_9 : ClientMessage
last_of_9 = record {
  init_query = none;
  mutate_tree = some (record { query_id = 9; node_mutation = []; variables = [] });
  finish_query = some 9;
}

two-Runs : Runs 7 0 (execution 7) two
unfolding lookup
two-Runs = (refl, refl)

last-Spares : Spares 7 last_of_9
last-Spares = (λ m e same. ground (arith), λ id e same. ground (arith))

handle_message-IsValid_example : Keeps IsValid (handle_message last_of_9 two)
handle_message-IsValid_example = handle_message-IsValid last_of_9 two two-IsValid

handle_message-Runs_example : Keeps (Runs 7 0 (execution 7)) (handle_message last_of_9 two)
handle_message-Runs_example =
    handle_message-Runs 7 0 (execution 7) last_of_9 two two-IsValid last-Spares two-Runs

one_has_7 : lookup 7 one.queries ≡ some 0
unfolding lookup
one_has_7 = refl

handle_message-again_example :
    (s1 : Session) × (s2 : Session) × (handle_message (finish_message 7) one ≡ returned none s1)
    × (handle_message (init_message 7) s1 ≡ returned none s2)
    × Runs 7 1 (beginning 7 root_query) s2
    × (s2.started ≡ 0 ∷ 1 ∷ [])
    × ((old : QueryExecution) × (lookup 0 s2.executions ≡ some old) × (old.cancel_called ≡ true))
handle_message-again_example =
    handle_message-again 7 0 root_query (record no_parts { root_query = some root_query }) one
      one-IsValid refl refl one_has_7
