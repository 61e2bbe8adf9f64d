-- ===== src/Qtree/Tests.antt =====
-- Runs of the server's query tree, and its theorems at a concrete schema and tree.
use rgraphql.Prelude.{
  inl, ◌==◌, ℕ, suc, true, false, String, Option, none, some, List, [], ◌∷◌, ◌≡◌, refl, arith,
  lookup, insert, delete, nat_eq, string_eq, length, ltb, if◌then◌else◌, ◌⊎◌, get_elem?,
}
use rgraphql.Types.Ast.{AstType, TypeDefinition, Fields, is_primitive}
use rgraphql.Varstore
use rgraphql.Qtree.{
  QueryNode, QueryNodes, Error, QueryTreeNode, QtNodeUpdate, QtNodeOperation, Tree, Out, done,
  blocked, new_query_tree,
}
use rgraphql.Qtree.Select
use rgraphql.Qtree.Select.{Selection, find_field, select_field, resolve_type, select_child}
use rgraphql.Qtree.Select.Sound
use rgraphql.Qtree.Subscribe
use rgraphql.Qtree.Subscribe.{
  send_update, next_change, update_all, next_update, subscribe_changes, changes,
  remove_subscription, Channel,
}
use rgraphql.Qtree.AddChild.{
  add_child, mint, register, prepare, announce, report_error, set_error, tell_error, knows,
  bind_args, unsubscribe_all, minted,
}
use rgraphql.Qtree.AddChild.Failing
use rgraphql.Qtree.Dispose.{
  dispose, dispose_body, dispose_range, clear_children, unregister, leave_parent, remove_child,
  remove_slot, shift_left, release_arguments, end_once,
}
use rgraphql.Qtree.Dispose.Closed.{Nodes, Has, IsClosed, NodeIsClosed, Entries-closed}
use rgraphql.Qtree.Dispose.Second
use rgraphql.Qtree.Dispose.Acyclic.{IsCalm, CalmEntries-IsCalm}
use rgraphql.Qtree.Dispose.Cleared
use rgraphql.Qtree.Mutation.{
  NodeMutation, SubtreeOperation, apply_tree_mutation, apply_all, apply_one, put_all,
}

program : Unit {0}
unfolding lookup insert delete is_primitive find_field select_field resolve_type select_child
    send_update next_change update_all next_update subscribe_changes changes remove_subscription
    add_child mint register prepare announce report_error set_error tell_error knows bind_args
    unsubscribe_all dispose dispose_body dispose_range clear_children unregister leave_parent
    remove_child remove_slot shift_left release_arguments end_once apply_tree_mutation apply_all
    apply_one put_all new_query_tree Varstore.put Varstore.get Varstore.garbage_collect
    Varstore.sweep
program = tt

abbrev person : TypeDefinition
person =
    TypeDefinition.object (some "Person")
      (Fields.field (some "name") (AstType.named (some "String")) Fields.end)

abbrev root_query : TypeDefinition
root_query =
    TypeDefinition.object (some "RootQuery")
      (Fields.field (some "allPeople") (AstType.list (AstType.named (some "Person"))) Fields.end)

abbrev look : AstType → Option TypeDefinition
look t = some person

abbrev field_of : ℕ → String → QueryNode
field_of id name = QueryNode.node id name [] QueryNodes.end

abbrev mutate : List NodeMutation → Tree → Out (Option Error)
mutate ms t =
    apply_tree_mutation look 0 (record { query_id = 0; node_mutation = ms; variables = [] }) t

abbrev add_of : ℕ → QueryNode → NodeMutation
add_of parent q = record {
  node_id = parent;
  operation = SubtreeOperation.subtree_add_child;
  node = some q;
}

abbrev delete_of : ℕ → NodeMutation
delete_of id = record { node_id = id; operation = SubtreeOperation.subtree_delete; node = none }

abbrev result_of : Out (Option Error) → Option (Option Error × List (ℕ × ℕ))
result_of (done r t) = elim (lookup 0 t.nodes) [
  | none ↦ none
  | some n ↦ elim n.root_node_map [ none ↦ none | some m ↦ some (r, m) ]
]
result_of _ = none

-- People with a name, a field that is not there, and a deletion that empties the map but for the
-- root.
mutations_run :
    (result_of (
        mutate
          (add_of 0 (
              QueryNode.node 1 "allPeople" [] (QueryNodes.child (field_of 2 "name") QueryNodes.end))
            ∷ [])
          (new_query_tree root_query 10))
      ≡ some (none, (0, 0) ∷ (1, 1) ∷ (2, 2) ∷ []))
    × (result_of (mutate (add_of 0 (field_of 1 "nope") ∷ []) (new_query_tree root_query 10))
        ≡ some (some (Error.invalid_field "nope" "RootQuery"), (0, 0) ∷ (1, 1) ∷ []))
    × (result_of (
          mutate
            (add_of 0 (field_of 1 "allPeople") ∷ delete_of 1 ∷ [])
            (new_query_tree root_query 10))
        ≡ some (none, (0, 0) ∷ []))
unfolding program
mutations_run = (refl, refl, refl)

-- Two aliases of one field under a node: deleting the node leaves the second in the map.
second_stays :
    result_of (
      mutate
        (add_of 0 (
            QueryNode.node 1 "allPeople" [] (
              QueryNodes.child
                (field_of 2 "name")
                (QueryNodes.child (field_of 3 "name") QueryNodes.end)))
          ∷ delete_of 1
          ∷ [])
        (new_query_tree root_query 10))
    ≡ some (none, (0, 0) ∷ (3, 3) ∷ [])
unfolding program
second_stays = refl

abbrev root_node : List (Option ℕ) → QueryTreeNode
root_node kids = record {
  id = 0;
  root = 0;
  parent = none;
  children = kids;
  child_len = 0;
  root_node_map = some ((0, 0) ∷ (1, 1) ∷ (2, 2) ∷ []);
  field_name = "";
  ast = some root_query;
  is_primitive = false;
  primitive_name = "";
  arguments = none;
  sub_ctr = 0;
  subscribers = [];
  err = none;
  disposed = false;
  dispose_ended = false;
}

abbrev child_node : ℕ → QueryTreeNode
child_node id = record (minted 0 (root_node []) id "name") { arguments = none }

abbrev two_children : Tree
two_children = record {
  nodes =
      (0, record (root_node (some 1 ∷ some 2 ∷ [])) { child_len = 2 })
      ∷ (1, child_node 1)
      ∷ (2, child_node 2)
      ∷ [];
  next = 3;
  store = Varstore.new_variable_store none;
  errors = [];
  error_cap = 0;
}

two_children-IsClosed : IsClosed two_children.nodes
unfolding lookup
two_children-IsClosed =
    let nodes : Nodes = two_children.nodes in
    let zero_in : Has nodes 0 = (_, refl) in
    let kid : (id : ℕ) → NodeIsClosed nodes (child_node id) =
      λ id. record { root = zero_in; parent = zero_in; children = tt } in
    Entries-closed nodes nodes (
      record { root = zero_in; parent = tt; children = ((_, refl), ((_, refl), tt)) },
      (kid 1, (kid 2, tt)),
    )

-- The root is above its children.
abbrev root_above : ℕ → ℕ
root_above b = if b == 0 then 1 else 0

two_children-IsCalm : IsCalm root_above Cleared.none_running two_children.nodes
two_children-IsCalm =
    CalmEntries-IsCalm root_above Cleared.none_running two_children.nodes
      (((omega arith, (omega arith, tt)), inl refl), ((tt, inl refl), ((tt, inl refl), tt)))

dispose-done_example :
    (t' : Tree) × (n' r' : QueryTreeNode) × (dispose
        (suc (length two_children.nodes))
        (some 0)
        two_children
      ≡ done tt t')
    × (lookup 0 t'.nodes ≡ some n')
    × (n'.children ≡ [])
    × (n'.child_len ≡ 0)
    × (n'.arguments ≡ none)
    × (n'.dispose_ended ≡ true)
    × (lookup 0 t'.nodes ≡ some r')
    × (lookup 0 (Cleared.entries r'.root_node_map) ≡ none)
    × IsCalm root_above Cleared.none_running t'.nodes
unfolding lookup
dispose-done_example =
    Cleared.dispose-done root_above 0 two_children
      (record (root_node (some 1 ∷ some 2 ∷ [])) { child_len = 2 }) two_children-IsClosed
      two_children-IsCalm refl refl

dispose_skips_second_example :
    (t' : Tree) × (nb' : QueryTreeNode) × (dispose
        (suc (length two_children.nodes))
        (some 0)
        two_children
      ≡ done tt t')
    × (lookup 2 t'.nodes ≡ some nb')
    × (nb'.disposed ≡ false)
unfolding lookup
dispose_skips_second_example =
    Second.dispose_skips_second 0 1 2 two_children
      (record (root_node (some 1 ∷ some 2 ∷ [])) { child_len = 2 }) (child_node 1) (child_node 2)
      two_children-IsClosed refl refl refl refl refl refl refl refl refl refl (omega arith)
      (omega arith) (omega arith)

select_child_sound_example :
    (obj : Option String) × (fs : Fields) × (ty : AstType) × (some person
      ≡ some (TypeDefinition.object obj fs))
    × (((◌≡◌ {A = String} "name" "__typename") × (ty ≡ Select.type_name_type))
        ⊎ Sound.Declares "name" ty fs)
    × Sound.Resolved look
        (Select.strip_non_null (Select.strip_list ty))
        (record { ast = none; is_primitive = true; primitive_name = "String" })
unfolding program
select_child_sound_example = Sound.select_child_sound look 2 "name" (some person) _ refl

abbrev sub_node : QueryTreeNode
sub_node = record (root_node []) { subscribers = (4, ([] ∷ [])) ∷ (5, []) ∷ [] }

abbrev told : QtNodeUpdate
told = record { operation = QtNodeOperation.delete; child = none }

lookup-next_update_example :
    (after : List Channel) × (lookup 4 (next_update told sub_node).subscribers ≡ some after)
    × (length after ≡ 1)
    × Subscribe.Delivered told [] (get_elem? after 0)
    × Subscribe.Fits after
    × (lookup 5 (next_update told (remove_subscription 5 sub_node)).subscribers ≡ none)
unfolding lookup
lookup-next_update_example =
    Subscribe.lookup-next_update told 4 5 0 sub_node ([] ∷ []) [] refl (omega arith, tt) refl

-- A primitive field has no children: the refused child of node 1, under the full channel of
-- `two_children`.
lookup_one : lookup 1 two_children.nodes ≡ some (child_node 1)
unfolding lookup
lookup_one = refl

lookup_zero :
    lookup 0 two_children.nodes ≡ some (record (root_node (some 1 ∷ some 2 ∷ [])) { child_len = 2 })
unfolding lookup
lookup_zero = refl

unknown_nine : knows (child_node 1) 9 ≡ false
unfolding knows
unknown_nine = refl

abbrev grown_two : Tree
grown_two =
    Failing.grown look 1 (child_node 1)
      (record (root_node (some 1 ∷ some 2 ∷ [])) { child_len = 2 }) ((0, 0) ∷ (1, 1) ∷ (2, 2) ∷ [])
      9 "x" two_children lookup_one lookup_zero refl unknown_nine (omega arith) (omega arith)

add_child-refused_example :
    add_child look 1 (QueryNode.node 9 "x" [] QueryNodes.end) two_children ≡ (
      if ltb (length two_children.errors) two_children.error_cap
      then done
          (some (Error.not_selectable 9))
          (Failing.queued (Error.not_selectable 9) (minted 1 (child_node 1) 9 "x") 3 grown_two)
      else blocked
          (Failing.failed (Error.not_selectable 9) (minted 1 (child_node 1) 9 "x") 3 grown_two))
unfolding lookup select_child
add_child-refused_example =
    Failing.add_child-refused look 1 (child_node 1)
      (record (root_node (some 1 ∷ some 2 ∷ [])) { child_len = 2 }) ((0, 0) ∷ (1, 1) ∷ (2, 2) ∷ [])
      9 "x" two_children lookup_one lookup_zero refl unknown_nine (omega arith) (omega arith) []
      QueryNodes.end (Error.not_selectable 9) refl
