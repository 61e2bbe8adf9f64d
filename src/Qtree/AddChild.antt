-- ===== src/Qtree/AddChild.antt =====
-- `AddChild` and `SetError` of qtree/qtree.go.
pub mod Failing
use rgraphql.Prelude.{
  ℕ, ◌+◌, Bool, true, false, String, Option, none, some, List, [], ◌∷◌, ◌++◌, ◌⊎◌, inl, inr, Map,
  lookup, insert, nat_eq, string_eq, length, take, get_elem?, set, ltb, if◌then◌else◌,
}
use rgraphql.Types.Ast.{AstType, TypeDefinition}
use rgraphql.Varstore
use rgraphql.Varstore.{VariableReference, VariableStore}
use rgraphql.Qtree.{
  FieldArgument, QueryNode, QueryNodes, QtNodeOperation, Error, QueryError, QueryTreeNode, Tree,
  Out, done, blocked, panicked, ◌>>=◌, with_node, write_node,
}
use rgraphql.Qtree.Select.{Checked, Selection, select_child}
use rgraphql.Qtree.Subscribe.{next_update}

-- `marg.Unsubscribe()` for every argument
unfoldable pub unsubscribe_all : Map String VariableReference → VariableStore → VariableStore
unsubscribe_all [] vs = vs
unsubscribe_all ((name, r) ∷ m) vs = unsubscribe_all m (Varstore.unsubscribe r vs).0

-- The loop over `data.Args`: the map, or the error, with the references that it took given back.
unfoldable pub bind_args :
    List FieldArgument
    → Map String VariableReference
    → VariableStore
    → VariableStore × (Map String VariableReference ⊎ Error)
bind_args [] m vs = (vs, inl m)
bind_args (arg ∷ args) m vs =
    let (vs', found) = Varstore.get arg.variable_id vs in
    elim found [
      | none ↦ (unsubscribe_all m vs', inr (Error.variable_not_found arg.variable_id arg.name))
      | some r ↦ bind_args args (insert arg.name r m) vs'
    ]

-- `qt.nextUpdate(&QTNodeUpdate{Operation: Operation_Error})`
unfoldable pub tell_error : ℕ → Tree → Out (Unit {0})
tell_error a t = with_node a t λ n.
    done tt
      (write_node a (next_update (record { operation = QtNodeOperation.error; child = none }) n) t)

-- `SetError`. The first argument says whether the node already holds that very error. The error is
-- sent before the update; a send blocks where the buffer is full.
unfoldable pub set_error : Bool → Error → ℕ → Tree → Out (Unit {0})
set_error same e a t = with_node a t λ n.
    let t' : Tree = write_node a (record n { err = some e }) t in
    let report : QueryError = record { error = e; query_node_id = n.id } in
    let sent : Tree = record t' { errors = t.errors ++ report ∷ [] } in
    if same
    then done tt t
    else if ltb (length t.errors) t.error_cap
    then tell_error a sent
    else blocked t'

-- The part of a new node that does not come from the schema.
abbrev pub minted : ℕ → QueryTreeNode → ℕ → String → QueryTreeNode
minted qt n id name = record {
  id = id;
  root = n.root;
  parent = some qt;
  children = [];
  child_len = 0;
  root_node_map = none;
  field_name = name;
  ast = none;
  is_primitive = false;
  primitive_name = "";
  arguments = none;
  sub_ctr = 0;
  subscribers = [];
  err = none;
  disposed = false;
  dispose_ended = false;
}

-- `append(qt.Children, nnod)`
abbrev pub append_child : ℕ → QueryTreeNode → QueryTreeNode
append_child a n = record n {
  children = take n.child_len n.children ++ some a ∷ [];
  child_len = n.child_len + 1;
}

-- `qt.Root.RootNodeMap[nnod.Id] = nnod`; a write into a nil map panics.
unfoldable pub register : ℕ → ℕ → ℕ → Tree → Out (Unit {0})
register root id a t = with_node root t λ r. elim r.root_node_map [
  | none ↦ panicked t
  | some m ↦ done tt (write_node root (record r { root_node_map = some (insert id a m) }) t)
]

-- The new node, in the map of the root and among the children; the result is its address.
unfoldable pub mint : ℕ → QueryTreeNode → ℕ → String → Tree → Out ℕ
mint qt n id name t =
    let fresh : Tree = record t {
      nodes = insert t.next (minted qt n id name) t.nodes;
      next = t.next + 1;
    } in
    register n.root id t.next fresh >>= λ _ t'.
    with_node qt t' λ q. done t.next (write_node qt (append_child t.next q) t')

-- From the schema and the arguments to the fields of the new node, or the error of `AddChild`.
abbrev fill :
    ℕ
    → Selection
    → VariableStore × (Map String VariableReference ⊎ Error)
    → Tree
    → Out (Option Error)
fill a s (vs, inr e) t = done (some e) (record t { store = vs })
fill a s (vs, inl m) t = with_node a t λ n. done none (
    write_node a
      (record n {
        ast = s.ast;
        is_primitive = s.is_primitive;
        primitive_name = s.primitive_name;
        arguments = some m;
      })
      (record t { store = vs }))

abbrev fill_checked : ℕ → Checked Selection → List FieldArgument → Tree → Out (Option Error)
fill_checked a (Checked.err e) args t = done (some e) t
fill_checked a Checked.fault args t = panicked t
fill_checked a (Checked.ok s) args t = fill a s (bind_args args [] t.store) t

unfoldable pub prepare :
    (AstType → Option TypeDefinition)
    → Option TypeDefinition
    → ℕ
    → String
    → List FieldArgument
    → ℕ
    → Tree
    → Out (Option Error)
prepare look ast id name args a t = fill_checked a (select_child look id name ast) args t

-- `qt.nextUpdate` with the new child
unfoldable pub announce : ℕ → ℕ → Tree → Out (Option Error)
announce qt a t = with_node qt t λ q. done none (
    write_node qt (next_update (record { operation = QtNodeOperation.add_child; child = some a }) q)
      t)

-- The deferred call: an error is set on the new node, then returned.
unfoldable pub report_error : ℕ → Option Error → Tree → Out (Option Error)
report_error a none t = done none t
report_error a (some e) t = set_error false e a t >>= λ _ t'. done (some e) t'

-- `qt.RootNodeMap[id]`; a nil map has no entry.
unfoldable pub knows : QueryTreeNode → ℕ → Bool
unfolding lookup
knows n id = elim n.root_node_map [
  | none ↦ false
  | some m ↦ elim (lookup id m) [ none ↦ false | some a ↦ true ]
]

-- `AddChild`, and the loop over the children, whose errors are dropped.
unfoldable mutual
  pub add_child : (AstType → Option TypeDefinition) → ℕ → QueryNode → Tree → Out (Option Error)
  add_child look qt (QueryNode.node id name args kids) t = with_node qt t λ n. elim (knows n id) [
    | true ↦ done (some (Error.already_exists id)) t
    | false ↦ mint qt n id name t >>= λ a t1.
        (prepare look n.ast id name args a t1 >>= λ r t2. elim r [
          | some e ↦ done (some e) t2
          | none ↦ add_children look a kids t2 >>= λ _ t3. announce qt a t3
        ])
        >>= λ r t4. report_error a r t4
  ]

  pub add_children : (AstType → Option TypeDefinition) → ℕ → QueryNodes → Tree → Out (Unit {0})
  add_children look a QueryNodes.end t = done tt t
  add_children look a (QueryNodes.child k kids) t =
      add_child look a k t >>= λ _ t'. add_children look a kids t'
