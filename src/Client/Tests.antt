-- ===== src/Client/Tests.antt =====
-- Runs of the result tree, and the theorems about it at concrete inputs. The cache is a map that evicts
-- nothing, and there are no handlers.
use rgraphql.Prelude.{
  ℕ, false, true, Option, none, some, List, [], ◌∷◌, ◌≡◌, ◌≢◌, ◌↔◌, refl, arith, Map, lookup,
  insert, nat_eq, string_eq,
}
use rgraphql.Lru.{Lru}
use rgraphql.Types.Primitive.{Kind, Primitive, zero_primitive, pos}
use rgraphql.Resolver.Value.{RgqlValue, zero_value}
use rgraphql.Client.PathCursor.{PathCursor, apply, land, find_child, next_handlers}
use rgraphql.Client.QueryNode.{QtNode, lookup_child_by_id}
use rgraphql.Client.ResultTree.{ResultTree, done, handle_value, handle_segment}
use rgraphql.Types.PrimEquiv.{is_prim_equiv}
use rgraphql.Client.ArgsMap.{ArgsMap, equals, values_match, agrees, equals-agrees}
use rgraphql.Client.Aliases.{
  handle_value_alias_alone, handle_value_alias_forgets, handle_value_ends,
}

abbrev map_cache : Lru PathCursor
map_cache = record {
  Cache = Map ℕ PathCursor;
  new = λ size. [];
  add = λ k v c. (insert k v c, []);
  get = λ k c. (c, lookup k c);
}

abbrev ignore : ℕ → RgqlValue → Option ℕ
ignore h val = none

abbrev five : Primitive
five = record (zero_primitive Kind.int) { int_value = pos 5 }

abbrev at_root : PathCursor
at_root = record { qnode = 0; rnode = 0; result_handlers = []; out_of_bounds = false }

abbrev node_7 : RgqlValue
node_7 = record zero_value { query_node_id = 7; pos_identifier = 1 }

-- A node with that id and those children.
abbrev plain_node : ℕ → List ℕ → QtNode
plain_node id children = record {
  id = id;
  name = "";
  obj_def = none;
  children = children;
  args = none;
  parent = none;
  ref_count = 1;
  gc_next = false;
  xmitted = true;
}

-- A query node 7 below the root.
abbrev empty_tree : ResultTree map_cache
empty_tree = record {
  nodes = record {
    qt_nodes = (0, plain_node 0 (1 ∷ [])) ∷ (1, plain_node 7 []) ∷ [];
    rt_nodes = (0, record { value = zero_value; children = [] }) ∷ [];
    next = 1;
  };
  cursor = none;
  path_cache = [];
  root_cursor = at_root;
}

abbrev at_7 : PathCursor
at_7 = record at_root { qnode = 1; rnode = 1 }

-- The node 7 is there under the alias 1, with no value yet.
abbrev aliased_tree : ResultTree map_cache
aliased_tree = record empty_tree {
  nodes = record empty_tree.nodes {
    rt_nodes =
        (0, record { value = zero_value; children = 1 ∷ [] })
        ∷ (1, record { value = node_7; children = [] })
        ∷ [];
    next = 2;
  };
  path_cache = (1, at_7) ∷ [];
}

abbrev five_at_alias : RgqlValue
five_at_alias = record zero_value { pos_identifier = 1; value = some five }

-- The alias is defined by a message that goes on with a path.
define_run :
    handle_value map_cache ignore node_7 (record empty_tree { cursor = some at_root })
    ≡ done (record aliased_tree { cursor = some at_7 })
unfolding handle_value handle_segment apply land lookup_child_by_id find_child next_handlers lookup
    insert
define_run = refl

handle_value_alias_alone_example :
    handle_value map_cache ignore five_at_alias aliased_tree
    ≡ handle_value map_cache ignore
        (record five_at_alias { query_node_id = 8; array_index = 0; error = "" })
        aliased_tree
handle_value_alias_alone_example =
    handle_value_alias_alone map_cache ignore five_at_alias aliased_tree 8 0 "" refl (omega arith)

handle_value_alias_forgets_example :
    (t' : ResultTree map_cache) × (handle_value map_cache ignore five_at_alias aliased_tree
      ≡ done t')
    × (lookup 1 t'.nodes.rt_nodes
        ≡ some (record { value = record zero_value { value = some five }; children = [] }))
    × (t'.cursor ≡ none)
unfolding lookup
handle_value_alias_forgets_example =
    handle_value_alias_forgets map_cache ignore five_at_alias aliased_tree at_7
      (record { value = node_7; children = [] }) five refl (omega arith) refl refl refl refl

handle_value_ends_example :
    ((record aliased_tree { cursor = some at_7 }).cursor ≡ none) ↔ (node_7.value ≢ none)
handle_value_ends_example =
    handle_value_ends map_cache ignore node_7 (record empty_tree { cursor = some at_root })
      (record aliased_tree { cursor = some at_7 }) define_run

abbrev one_arg : ArgsMap
one_arg = ("limit", some five) ∷ []

equals-agrees_example : agrees false (lookup "limit" one_arg) (lookup "limit" one_arg) ≡ true
unfolding equals values_match is_prim_equiv lookup
equals-agrees_example =
    equals-agrees (λ k. false) one_arg one_arg (refl, tt) (refl, tt) refl "limit"
