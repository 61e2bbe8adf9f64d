-- ===== src/Client/PathCursor.antt =====
-- client/path-cursor.go and result-tree-node.go. A `*qtNode` and a `*rtNode` are addresses into two
-- heaps; a cursor is a value, since every cursor that is kept is a clone. What a result handler does
-- is the argument `handle`: it may give a handler for what follows.
use rgraphql.Prelude.{
  ℕ, ◌+◌, Bool, true, Option, none, some, List, [], ◌∷◌, ◌++◌, Map, lookup, insert, nat_eq, ◌==◌,
  if◌then◌else◌,
}
use rgraphql.Resolver.Value.{RgqlValue}
use rgraphql.Client.QueryNode.{QtNode, lookup_child_by_id}

-- `rtNode`
pub record RtNode : Type 0 where
  pub value : RgqlValue
  pub children : List ℕ

pub record Nodes : Type 0 where
  pub qt_nodes : Map ℕ QtNode
  pub rt_nodes : Map ℕ RtNode
  pub next : ℕ

-- `PathCursor`
pub record PathCursor : Type 0 where
  pub qnode : ℕ
  pub rnode : ℕ
  pub result_handlers : List ℕ
  pub out_of_bounds : Bool

-- The two loops over the children of the result node: the first one whose value passes.
unfoldable pub find_child : (RgqlValue → Bool) → Map ℕ RtNode → List ℕ → Option ℕ
find_child test heap [] = none
find_child test heap (a ∷ more) =
    let rest = find_child test heap more in
    elim (lookup a heap) [ none ↦ rest | some r ↦ if test r.value then some a else rest ]

module _ (handle : ℕ → RgqlValue → Option ℕ) (val : RgqlValue) where
  -- The loop over the handlers of the cursor.
  unfoldable pub next_handlers : List ℕ → List ℕ
  next_handlers [] = []
  next_handlers (h ∷ more) =
      let rest = next_handlers more in elim (handle h val) [ none ↦ rest | some h' ↦ h' ∷ rest ]

  abbrev stored : Option ℕ → ℕ → RtNode → Nodes → Nodes
  stored none at r n = record n {
    rt_nodes =
        insert at (record r { children = r.children ++ n.next ∷ [] })
          (insert n.next (record { value = val; children = [] }) n.rt_nodes);
    next = n.next + 1;
  }
  stored (some a) at r n = elim val.value [
    | none ↦ n
    | some v ↦ elim (lookup a n.rt_nodes) [
      | none ↦ n
      | some t ↦ record n { rt_nodes = insert a (record t { value = val }) n.rt_nodes }
    ]
  ]

  abbrev landed : Option ℕ → ℕ → ℕ
  landed none fresh = fresh
  landed (some a) fresh = a

  -- The end of `Apply`: the node that was found, or a new one, gets the value.
  unfoldable pub land : Option ℕ → RtNode → Nodes → PathCursor → Nodes × PathCursor
  land found r n c = (
    stored found c.rnode r n,
    record c { rnode = landed found n.next; result_handlers = next_handlers c.result_handlers },
  )

  -- `Apply`; a pointer that is nil gives `none`.
  unfoldable pub apply : Nodes → PathCursor → Option (Nodes × PathCursor)
  apply n c = if c.out_of_bounds then some (n, c) else elim (lookup c.rnode n.rt_nodes) [
    | none ↦ none
    | some r ↦
        if val.query_node_id == 0
        then (if val.array_index == 0
            then some (land (some c.rnode) r n c)
            else some (
                land (find_child (λ v. v.array_index == val.array_index) n.rt_nodes r.children) r n
                  c))
        else elim (lookup c.qnode n.qt_nodes) [
          | none ↦ none
          | some q ↦ elim (lookup_child_by_id val.query_node_id n.qt_nodes q.children) [
            | none ↦ some (n, record c { out_of_bounds = true })
            | some nqn ↦ some (
                land (find_child (λ v. v.query_node_id == val.query_node_id) n.rt_nodes r.children)
                  r n (record c { qnode = nqn }))
          ]
        ]
  ]
