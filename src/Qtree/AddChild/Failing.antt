-- ===== src/Qtree/AddChild/Failing.antt =====
-- `AddChild` of a child that the schema refuses.
use rgraphql.Prelude.{
  ◌==◌, ℕ, ◌+◌, Bool, true, false, String, Option, some, List, [], ◌∷◌, ◌++◌, ◌≡◌, ◌≢◌, refl, arith,
  Map, lookup, insert, nat_eq, nat_beq_iff, lookup-insert, length, ltb, if◌then◌else◌,
}
use rgraphql.Types.Ast.{AstType, TypeDefinition}
use rgraphql.Qtree.{
  FieldArgument, QueryNode, QueryNodes, Error, QueryTreeNode, Tree, done, blocked, ◌>>=◌, with_node,
  write_node,
}
use rgraphql.Qtree.Select.{Checked, select_child}
use rgraphql.Qtree.Subscribe.{next_update, update_all}
use rgraphql.Qtree.AddChild.{
  set_error, minted, append_child, register, mint, prepare, report_error, tell_error, knows,
  add_child,
}

-- The node at `a`, which is `n`, holds the error.
abbrev pub failed : Error → QueryTreeNode → ℕ → Tree → Tree
failed e n a t = write_node a (record n { err = some e }) t

-- The error waits in the channel as well, and the subscribers have been told.
abbrev pub queued : Error → QueryTreeNode → ℕ → Tree → Tree
queued e n a t =
    write_node a (record n { err = some e })
      (record (failed e n a t) {
        errors = t.errors ++ record { error = e; query_node_id = n.id } ∷ [];
      })

found :
    (e : Error) (a : ℕ) (t : Tree) (n : QueryTreeNode)
    → lookup a (insert a (record n { err = some e }) t.nodes) ≡ some (record n { err = some e })
found e a t n =
    ground (arith, lookup-insert a a (record n { err = some e }) t.nodes, nat_beq_iff a a)

tell_error-fresh :
    (e : Error) (a : ℕ) (t : Tree) (n : QueryTreeNode)
    → n.subscribers ≡ []
    → tell_error a (record (failed e n a t) {
      errors = t.errors ++ record { error = e; query_node_id = n.id } ∷ [];
    })
      ≡ done tt (queued e n a t)
unfolding tell_error next_update update_all
tell_error-fresh e a t n no_subs = rw (found e a t n, with_node) (rw no_subs refl)

set_error-fresh :
    (e : Error) (a : ℕ) (t : Tree) (n : QueryTreeNode)
    → lookup a t.nodes ≡ some n
    → n.subscribers ≡ []
    → set_error false e a t ≡ (
        if ltb (length t.errors) t.error_cap
        then done tt (queued e n a t)
        else blocked (failed e n a t))
unfolding set_error
set_error-fresh e a t n at no_subs = rw (at, with_node) (rw (tell_error-fresh e a t n no_subs) refl)

through_if :
    (b : Bool) (t u : Tree) (e : Error)
    → ((if b then done tt t else blocked u) >>= λ _ t'. done (some e) t')
      ≡ (if b then done (some e) t else blocked u)
through_if true t u e = refl
through_if false t u e = refl

-- The state after the new node is minted, registered at the root and listed among the children. The
-- parent `qt`, which may be the root itself, does not know the id.
module _ (look : AstType → Option TypeDefinition) (qt : ℕ) (n r : QueryTreeNode) (m : Map ℕ ℕ)
    (id : ℕ) (name : String) (t : Tree) (at : lookup qt t.nodes ≡ some n)
    (root : lookup n.root t.nodes ≡ some r) (mapped : r.root_node_map ≡ some m)
    (unknown : knows n id ≡ false) (fresh-qt : t.next ≢ qt) (fresh-root : t.next ≢ n.root) where
  -- The root with the id in its map.
  abbrev registered : QueryTreeNode
  registered = record r { root_node_map = some (insert id t.next m) }

  -- The parent after that.
  abbrev parent : QueryTreeNode
  parent = if n.root == qt then registered else n

  abbrev pub grown : Tree
  grown = record t {
    nodes =
        insert qt (append_child t.next parent)
          (insert n.root registered (insert t.next (minted qt n id name) t.nodes));
    next = t.next + 1;
  }

  abbrev with_minted : Map ℕ QueryTreeNode
  with_minted = insert t.next (minted qt n id name) t.nodes

  root_minted : lookup n.root with_minted ≡ some r
  root_minted =
      ground (
        arith,
        lookup-insert t.next n.root (minted qt n id name) t.nodes,
        nat_beq_iff t.next n.root,
      )

  qt_minted : lookup qt (insert n.root registered with_minted) ≡ some parent
  qt_minted = ground (
    arith,
    at,
    lookup-insert n.root qt registered with_minted,
    lookup-insert t.next qt (minted qt n id name) t.nodes,
    nat_beq_iff n.root qt,
    nat_beq_iff t.next qt,
  )

  mint-grown : mint qt n id name t ≡ done t.next grown
  unfolding mint register
  mint-grown = rw (root_minted, with_node) (rw mapped (rw (qt_minted, with_node) refl))

  -- The new node in the grown tree.
  lookup-grown : lookup t.next grown.nodes ≡ some (minted qt n id name)
  lookup-grown =
      let q : QueryTreeNode = append_child t.next parent in
      let s : QueryTreeNode = record r { root_node_map = some (insert id t.next m) } in
      ground (
        arith,
        lookup-insert qt t.next q (insert n.root s with_minted),
        lookup-insert n.root t.next s with_minted,
        lookup-insert t.next t.next (minted qt n id name) t.nodes,
        nat_beq_iff qt t.next,
        nat_beq_iff n.root t.next,
        nat_beq_iff t.next t.next,
      )

  -- A child whose field or type the schema refuses, of a parent that does not know its id (below the
  -- root no id is known), where the root has its map and the address of the new node is not that of
  -- the parent or the root: the child is in the map of the root and among the children of its parent
  -- all the same, holding the error; the error is queued for the client and returned if the channel
  -- has room, and else `AddChild` never returns.
  pub add_child-refused :
      (args : List FieldArgument) (kids : QueryNodes) (e : Error)
      → select_child look id name n.ast ≡ Checked.err e
      → add_child look qt (QueryNode.node id name args kids) t ≡ (
          if ltb (length t.errors) t.error_cap
          then done (some e) (queued e (minted qt n id name) t.next grown)
          else blocked (failed e (minted qt n id name) t.next grown))
  unfolding add_child prepare report_error
  add_child-refused args kids e refused =
      rw (at, with_node)
        (rw unknown (
          rw mint-grown (
            rw refused (
              rw (set_error-fresh e t.next grown (minted qt n id name) lookup-grown refl)
                (through_if (ltb (length t.errors) t.error_cap) _ _ _)))))
