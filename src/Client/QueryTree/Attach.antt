-- ===== src/Client/QueryTree/Attach.antt =====
-- `Attach`, `Detach` and `StartQuery` of client/query-tree.go, with query.go and query-attached.go. The
-- visitor of graphql-go is not modelled: `calls` is the sequence of the callbacks that it makes for
-- the fields of a query, up to the first one that stops it.
use mathlib.Core.Option
use rgraphql.Prelude.{
  ℕ, zero, suc, ◌+◌, ◌-◌, ◌%◌, ◌&&◌, Bool, true, false, String, Option, none, some, List, [], ◌∷◌,
  ◌++◌, lookup, insert, delete, nat_eq, string_eq, ◌==◌, if◌then◌else◌,
}
use rgraphql.Types.Ast.{AstType, TypeDefinition}
use rgraphql.Qtree.{FieldArgument, QueryNode, QueryNodes}
use rgraphql.Qtree.Mutation.{SubtreeOperation, NodeMutation}
use rgraphql.Client.Arguments.{Args, build_proto}
use rgraphql.Client.QueryTree.{
  QueryTree, done, spent, M, ◌>>=◌, ◌>>◌, pure, load, save, deref, pending_variables, clear_pending,
  send, flag_gc_next, gc_sweep,
}
use rgraphql.Client.QueryTree.Resolve.{Field, ClientError, found, invalid, resolve_child}

-- `NewQuery`: only an operation of the kind "query" is accepted.
unfoldable pub new_query : String → Bool
new_query operation = operation == "query"

-- The errors of `StartQuery`.
pub data StartError : Type 0 where
  not_a_query : StartError
  refused : ClientError → StartError

pub data Call : Type 0 where
  enter : Field → Call
  leave : Field → Call

-- The variables that the callbacks share.
pub record Visit : Type 0 where
  pub qnode : Option ℕ
  pub new_nodes : List ℕ
  pub new_node_depth : ℕ
  pub qt_nodes : List ℕ
  pub validate_err : Option ClientError

-- The name of a field that is not skipped.
abbrev pub named : Field → Option String
named field = elim field.name [ none ↦ none | some name ↦ if name == "" then none else some name ]

abbrev new_top : Bool → ℕ → List ℕ → List ℕ
new_top true c nodes = nodes ++ c ∷ []
new_top false c nodes = nodes

-- A child that was resolved: its reference is counted, and it is the current node.
unfoldable pub enter_child : ℕ → Visit → M Visit
enter_child c v t =
    (do
      n ← load c
      save c (record n { ref_count = (n.ref_count + 1) % 4294967296 })
      pure (record v {
        qnode = some c;
        new_nodes = new_top (n.ref_count == 0 && v.new_node_depth == 0) c v.new_nodes;
        new_node_depth = v.new_node_depth + 1;
        qt_nodes = v.qt_nodes ++ c ∷ [];
      }))
      t

-- The callback on leaving a field.
unfoldable pub leave_field : Visit → M Visit
leave_field v t =
    if v.new_node_depth == 0
    then done v t
    else (do
      q ← deref v.qnode
      n ← load q
      pure (record v { qnode = n.parent; new_node_depth = v.new_node_depth - 1 }))
        t

-- The loop of `buildProto` over the children, with the recursive call.
unfoldable pub build_nodes : (ℕ → M QueryNode) → List ℕ → M QueryNodes
build_nodes rec [] t = done QueryNodes.end t
build_nodes rec (c ∷ more) t =
    (do k ← rec c; rest ← build_nodes rec more; pure (QueryNodes.child k rest)) t

abbrev pub args_proto : Option Args → QueryTree → Option (List FieldArgument)
args_proto none t = some []
args_proto (some m) t = build_proto t.store m

-- `buildProto`, on fuel for the depth.
unfoldable pub build_node : ℕ → ℕ → M QueryNode
build_node zero a t = spent
build_node (suc f) a t =
    (do
      n ← load a
      kids ← build_nodes (λ c. build_node f c) n.children
      args ← (λ t1. deref (args_proto n.args t1) t1)
      pure (QueryNode.node n.id n.name args kids))
      t

-- The loop over the new nodes: each is marked as transmitted and built.
unfoldable pub add_mutations : ℕ → List ℕ → M (List NodeMutation)
add_mutations f [] t = done [] t
add_mutations f (a ∷ more) t =
    (do
      n ← load a
      save a (record n { xmitted = true })
      p ← deref n.parent
      parent ← load p
      node ← build_node f a
      rest ← add_mutations f more
      pure (
          record {
            node_id = parent.id;
            operation = SubtreeOperation.subtree_add_child;
            node = some node;
          }
          ∷ rest))
      t

-- The mutation that `Attach` sends, if there are new nodes.
unfoldable pub transmit : ℕ → List ℕ → M (Unit {0})
transmit f [] t = done tt t
transmit f (a ∷ more) t =
    (do
      muts ← add_mutations f (a ∷ more)
      send (record { query_id = 0; node_mutation = muts; variables = pending_variables t }))
      t

-- One node of a query that is given up: its count goes down, and at 0 it is flagged.
unfoldable pub release : ℕ → ℕ → M Bool
release f a t =
    (load a >>= λ n.
    let left = (n.ref_count + 4294967295) % 4294967296 in
    save a (record n { ref_count = left }) >> λ t1. elim (left == 0) [
      | false ↦ done false t1
      | true ↦ (flag_gc_next f a >> pure true) t1
    ])
      t

abbrev pub or_else : Bool → Bool → Bool
or_else true b = true
or_else false b = b

-- The loops over the nodes of a query: whether any of them was flagged.
unfoldable pub release_all : ℕ → List ℕ → M Bool
release_all f [] t = done false t
release_all f (a ∷ more) t =
    (do one ← release f a; rest ← release_all f more; pure (or_else one rest)) t

module _ (look : AstType → Option TypeDefinition) (parse_float : String → Option ℕ) where
  -- The callback on entering a field.
  unfoldable pub enter_field : Field → Visit → M Visit
  enter_field field v t = elim (named field) [
    | none ↦ done v t
    | some name ↦
        (do
          q ← deref v.qnode
          r ← resolve_child look parse_float q name field.arguments
          λ t1. elim r [
            | found c ↦ enter_child c v t1
            | invalid e ↦ done (record v { validate_err = some e }) t1
          ])
          t
  ]

  unfoldable pub call : Call → Visit → M Visit
  call (enter field) v t = enter_field field v t
  call (leave field) v t = elim (named field) [ none ↦ done v t | some name ↦ leave_field v t ]

  -- The visit, which an error breaks off.
  unfoldable pub visit : List Call → Visit → M Visit
  visit [] v t = done v t
  visit (c ∷ calls) v t =
      (call c v >>= λ v1.
      λ t1. elim v1.validate_err [ some e ↦ done v1 t1 | none ↦ visit calls v1 t1 ])
        t

  abbrev pub start : QueryTree → Visit
  start t = record {
    qnode = some t.root;
    new_nodes = [];
    new_node_depth = 0;
    qt_nodes = [];
    validate_err = none;
  }

  -- After the visit: the nodes are purged on an error, and transmitted and attached if there is none.
  unfoldable pub finish : ℕ → ℕ → Visit → M (Option ClientError)
  finish f query v t = elim v.validate_err [
    | some e ↦
        (do
          flagged ← release_all f v.qt_nodes
          gc_sweep f
          clear_pending
          gc_sweep f
          pure (some e))
          t
    | none ↦
        (do
          transmit f v.new_nodes
          clear_pending
          (λ t1.
              done tt
                (record t1 { attached_queries = insert query v.qt_nodes t1.attached_queries }))
          gc_sweep f
          gc_sweep f
          pure none)
          t
  ]

  -- `Attach`; the deferred sweep is the second one. The fuel is for the depth of the tree.
  unfoldable pub attach : ℕ → ℕ → List Call → M (Option ClientError)
  attach f query calls t = elim (lookup query t.attached_queries) [
    | some nodes ↦ done none t
    | none ↦ (visit calls (start t) >>= λ v. finish f query v) t
  ]

  -- `StartQuery`: `NewQuery`, and `Attach`.
  unfoldable pub start_query : ℕ → ℕ → String → List Call → M (Option StartError)
  unfolding new_query
  start_query f query operation calls t = elim (new_query operation) [
    | false ↦ done (some not_a_query) t
    | true ↦ (do r ← attach f query calls; pure (Option.map refused r)) t
  ]

-- `Detach`
unfoldable pub detach : ℕ → ℕ → M (Unit {0})
detach f query t = elim (lookup query t.attached_queries) [
  | none ↦ done tt t
  | some nodes ↦
      (release_all f nodes >>= λ flagged. λ t1.
          let t2 : QueryTree = record t1 { attached_queries = delete query t1.attached_queries } in
          elim flagged [ false ↦ done tt t2 | true ↦ gc_sweep f t2 ])
        t
]
