-- ===== src/Qtree/Mutation.antt =====
-- `ApplyTreeMutation` of qtree/qtree.go.
use rgraphql.Prelude.{
  ℕ, suc, not, ◌&&◌, Option, none, some, List, [], ◌∷◌, Map, lookup, nat_eq, length, ◌==◌,
  if◌then◌else◌,
}
use rgraphql.Types.Ast.{AstType, TypeDefinition}
use rgraphql.Varstore
use rgraphql.Varstore.{AstVariable, VariableStore}
use rgraphql.Qtree.{QueryNode, Error, Tree, Out, done, panicked, ◌>>=◌, with_node}
use rgraphql.Qtree.AddChild.{add_child}
use rgraphql.Qtree.Dispose.{dispose}

-- `RGQLQueryTreeMutation_SubtreeOperation`; a number that is neither is skipped by the switch.
pub data SubtreeOperation : Type 0 where
  subtree_add_child subtree_delete unknown : SubtreeOperation

-- `RGQLQueryTreeMutation_NodeMutation`
pub record NodeMutation : Type 0 where
  pub node_id : ℕ
  pub operation : SubtreeOperation
  pub node : Option QueryNode

-- `RGQLQueryTreeMutation`
pub record TreeMutation : Type 0 where
  pub query_id : ℕ
  pub node_mutation : List NodeMutation
  pub variables : List AstVariable

-- The loop over `mutation.Variables`.
unfoldable pub put_all : List AstVariable → VariableStore → VariableStore
put_all [] vs = vs
put_all (v ∷ rest) vs = put_all rest (Varstore.put v vs)

-- `qt.Root.RootNodeMap[id]`; a nil map has no entry.
abbrev in_map : ℕ → Option (Map ℕ ℕ) → Option ℕ
in_map id none = none
in_map id (some m) = lookup id m

-- `AddChild` of a nil message reads its id and panics.
abbrev add_message :
    (AstType → Option TypeDefinition) → ℕ → Option QueryNode → Tree → Out (Option Error)
add_message look a none t = panicked t
add_message look a (some q) t = add_child look a q t

-- A node is disposed with fuel for all the nodes that there are.
unfoldable pub apply_operation :
    (AstType → Option TypeDefinition) → ℕ → NodeMutation → ℕ → Tree → Out (Option Error)
apply_operation look root m a t = elim m.operation [
  | subtree_add_child ↦ add_message look a m.node t
  | subtree_delete ↦
      if not (m.node_id == 0) && not (a == root)
      then (dispose (suc (length t.nodes)) (some a) t >>= λ _ t'. done none t')
      else done none t
  | unknown ↦ done none t
]

-- One round of the loop over `mutation.NodeMutation`; an id that is not in the map is skipped.
unfoldable pub apply_one :
    (AstType → Option TypeDefinition) → ℕ → NodeMutation → Tree → Out (Option Error)
unfolding apply_operation
apply_one look root m t = with_node root t λ r. elim (in_map m.node_id r.root_node_map) [
  | none ↦ done none t
  | some a ↦ apply_operation look root m a t
]

-- The loop, which ends at the first error.
unfoldable pub apply_all :
    (AstType → Option TypeDefinition) → ℕ → List NodeMutation → Tree → Out (Option Error)
apply_all look root [] t = done none t
apply_all look root (m ∷ ms) t = apply_one look root m t >>= λ r t'. elim r [
  | some e ↦ done (some e) t'
  | none ↦ apply_all look root ms t'
]

-- The variables are collected only where no error was returned.
abbrev collect : Option Error → Tree → Out (Option Error)
collect (some e) t = done (some e) t
collect none t = done none (record t { store = Varstore.garbage_collect t.store })

-- `ApplyTreeMutation`, called on the node at `qt`.
unfoldable pub apply_tree_mutation :
    (AstType → Option TypeDefinition) → ℕ → TreeMutation → Tree → Out (Option Error)
apply_tree_mutation look qt mutation t =
    with_node qt (record t { store = put_all mutation.variables t.store })
      λ n.
        apply_all look n.root mutation.node_mutation
          (record t { store = put_all mutation.variables t.store })
        >>= collect
