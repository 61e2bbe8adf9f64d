-- ===== src/Client/QueryTree/Tests.antt =====
-- Runs of the client's query tree, and the theorems about it at concrete inputs. The schema has a root
-- with a field `a` of an object with the fields `b` and `c`.

use rgraphql.Prelude.{
  ℕ, Bool, true, false, String, Option, none, some, List, [], ◌∷◌, ◌≡◌, ◌≢◌, ◌⊎◌, ◌↔◌, refl, arith,
  lookup, insert, delete, nat_eq, string_eq,
}
use rgraphql.Types.Ast.{AstType, TypeDefinition, Fields, unwrap_ast_type, is_ast_primitive}
use rgraphql.Varstore.{new_variable_store}
use rgraphql.Resolver.Observable.{last_first, count}
use rgraphql.Qtree.{QueryNode, QueryNodes}
use rgraphql.Qtree.Mutation.{SubtreeOperation, TreeMutation}
use rgraphql.Client.Arguments.{args_equal, new_args_map, build_proto}
use rgraphql.Client.ArgsMap.{equals}
use rgraphql.Client.QueryNode.{ObjectDef, QtNode, new_qt_node, find_schema_field}
use rgraphql.Client.QueryTree.{
  QueryTree, Out, done, nil_read, spent, pending_variables, flag_gc_next, sweep_children, sweep,
  deletions, gc_sweep, new_query_tree,
}
use rgraphql.Client.QueryTree.Resolve.{
  ClientError, Field, field_type, matches_field, find_match, alloc_child, match_or_alloc,
  bind_and_match, resolve_child,
}
use rgraphql.Client.QueryTree.Attach.{
  Call, enter, leave, build_node, build_nodes, add_mutations, transmit, release, release_all,
  enter_child, leave_field, enter_field, call, visit, finish, attach, detach,
}
use rgraphql.Client.QueryTree.Collect.{Reach}
use rgraphql.Client.QueryTree.Detach.{Detached, detach-Detached}
use rgraphql.Client.QueryTree.Attached.{Attached, attach-Attached}
use rgraphql.Client.QueryTree.Reached.{Step, Reached, Reached-IsValid, Reach-iff_held}

abbrev leaf_type : AstType
leaf_type = AstType.named (some "String")

abbrev object_a : TypeDefinition
object_a =
    TypeDefinition.object (some "A")
      (Fields.field (some "b") leaf_type (Fields.field (some "c") leaf_type Fields.end))

abbrev look : AstType → Option TypeDefinition
look t = some object_a

abbrev root_def : ObjectDef
root_def = record {
  name = some "Root";
  fields = Fields.field (some "a") (AstType.named (some "A")) Fields.end;
}

abbrev no_floats : String → Option ℕ
no_floats s = none

abbrev fresh : QueryTree
fresh = record {
  nodes =
      (
        0,
        record {
          id = 0;
          name = "Root";
          obj_def = some root_def;
          children = [];
          args = none;
          parent = none;
          ref_count = 0;
          gc_next = false;
          xmitted = false;
        },
      )
      ∷ [];
  next = 1;
  root = 0;
  store = record { next_id = 1; variables = []; heap = []; handler = some [] };
  attached_queries = [];
  handler = some [];
  next_id = 1;
}

abbrev plain : String → Field
plain name = record { name = some name; arguments = [] }

-- The callbacks for `{ a { name } }`.
abbrev below_a : String → List Call
below_a name = enter (plain "a") ∷ enter (plain name) ∷ leave (plain name) ∷ leave (plain "a") ∷ []

abbrev handler_of : {A : Type 0} → Out A → Option (List TreeMutation)
handler_of (done a t) = t.handler
handler_of nil_read = none
handler_of spent = none

abbrev and_then : {A B : Type 0} → Out A → (QueryTree → Out B) → Out B
and_then (done a t) f = f t
and_then nil_read f = nil_read
and_then spent f = spent

abbrev first_added : List TreeMutation
first_added =
    record {
      query_id = 0;
      node_mutation =
          record {
            node_id = 0;
            operation = SubtreeOperation.subtree_add_child;
            node = some (
                QueryNode.node 1 "a" []
                  (QueryNodes.child (QueryNode.node 2 "b" [] QueryNodes.end) QueryNodes.end));
          }
          ∷ [];
      variables = [];
    }
    ∷ []

-- `{ a { b } }`, and then `{ a { c } }`: the second query sends nothing.
first_run : handler_of (attach look no_floats 9 0 (below_a "b") fresh) ≡ some first_added
unfolding attach visit call enter_field enter_child leave_field finish transmit add_mutations
    build_node build_nodes build_proto release release_all resolve_child bind_and_match
    match_or_alloc alloc_child find_match matches_field field_type find_schema_field new_args_map
    args_equal equals unwrap_ast_type is_ast_primitive gc_sweep sweep sweep_children deletions
    flag_gc_next pending_variables lookup insert delete last_first
first_run = refl

second_run :
    handler_of (
      and_then
        (attach look no_floats 9 0 (below_a "b") fresh)
        (attach look no_floats 9 1 (below_a "c")))
    ≡ some first_added
unfolding attach visit call enter_field enter_child leave_field finish transmit add_mutations
    build_node build_nodes build_proto release release_all resolve_child bind_and_match
    match_or_alloc alloc_child find_match matches_field field_type find_schema_field new_args_map
    args_equal equals unwrap_ast_type is_ast_primitive gc_sweep sweep sweep_children deletions
    flag_gc_next pending_variables lookup insert delete last_first
second_run = refl

abbrev node_of : ℕ → String → Option ObjectDef → List ℕ → Option ℕ → ℕ → Bool → QtNode
node_of id name def children parent ref_count xmitted = record {
  id = id;
  name = name;
  obj_def = def;
  children = children;
  args = none;
  parent = parent;
  ref_count = ref_count;
  gc_next = false;
  xmitted = xmitted;
}

-- The tree that has `{ a { b } }` attached as query 0.
abbrev with_b : QueryTree
with_b = record {
  nodes =
      (0, node_of 0 "Root" (some root_def) (1 ∷ []) none 0 false)
      ∷ (
        1,
        node_of 1 "a"
            (some (record {
              name = some "A";
              fields =
                  Fields.field (some "b") leaf_type (Fields.field (some "c") leaf_type Fields.end);
            }))
            (2 ∷ []) (some 0) 1 true,
      )
      ∷ (2, node_of 2 "b" none [] (some 1) 1 false)
      ∷ [];
  next = 3;
  root = 0;
  store = record { next_id = 1; variables = []; heap = []; handler = some [] };
  attached_queries = (0, 1 ∷ 2 ∷ []) ∷ [];
  handler = some first_added;
  next_id = 3;
}

attach_b : attach look no_floats 9 0 (below_a "b") fresh ≡ done none with_b
unfolding attach visit call enter_field enter_child leave_field finish transmit add_mutations
    build_node build_nodes build_proto release release_all resolve_child bind_and_match
    match_or_alloc alloc_child find_match matches_field field_type find_schema_field new_args_map
    args_equal equals unwrap_ast_type is_ast_primitive gc_sweep sweep sweep_children deletions
    flag_gc_next pending_variables lookup insert delete last_first
attach_b = refl

fresh-Reached : Reached look no_floats 9 fresh
unfolding new_query_tree new_qt_node new_variable_store
fresh-Reached = Reached.first (some root_def) (some []) fresh refl

with_b-Reached : Reached look no_floats 9 with_b
with_b-Reached =
    Reached.next fresh with_b fresh-Reached
      (Step.attach_step 0 (below_a "b") fresh none with_b (omega arith) (λ b. omega arith) attach_b)

b_below : Reach with_b.nodes 0 2
unfolding lookup
b_below = Reach.step 1 2 (Reach.step 0 1 Reach.here (omega arith)) (omega arith)

attach-Attached_example :
    (attach look no_floats 9 0 (below_a "b") fresh ≡ nil_read)
    ⊎ ((r : Option ClientError) × (t' : QueryTree) × (attach look no_floats 9 0 (below_a "b") fresh
          ≡ done r t')
        × Attached 0 r fresh t')
attach-Attached_example =
    attach-Attached look no_floats 9 0 (below_a "b") fresh
      (Reached-IsValid look no_floats 9 fresh fresh-Reached) (omega arith) (λ b. omega arith)

detach-Detached_example : (t' : QueryTree) × (detach 9 0 with_b ≡ done tt t') × Detached 0 with_b t'
detach-Detached_example =
    detach-Detached 9 0 with_b (Reached-IsValid look no_floats 9 with_b with_b-Reached)
      (omega arith)

Reach-iff_held_example : Reach with_b.nodes with_b.root 2 ↔ (
    (2 ≡ with_b.root)
    ⊎ ((q : ℕ) × (xs : List ℕ) × (lookup q with_b.attached_queries ≡ some xs) × (count 2 xs ≢ 0)))
Reach-iff_held_example = Reach-iff_held look no_floats 9 with_b 2 with_b-Reached
