-- ===== src/Client/QueryNode.antt =====
-- client/query-tree-node.go: the nodes of the client's query tree. A `*qtNode` is an address into a
-- heap. The arguments of a node are handles on variables of the store.
use rgraphql.Prelude.{
  ℕ, Bool, false, String, Option, none, some, List, [], ◌∷◌, Map, lookup, nat_eq, string_eq, ◌==◌,
  if◌then◌else◌,
}
use rgraphql.Types.Ast.{AstType, Fields}
use rgraphql.Varstore.{VariableReference}

-- `ast.ObjectDefinition`
pub record ObjectDef : Type 0 where
  pub name : Option String
  pub fields : Fields

-- `qtNode`; the pointer to the store, which all nodes share, is left out.
pub record QtNode : Type 0 where
  pub id : ℕ
  pub name : String
  pub obj_def : Option ObjectDef
  pub children : List ℕ
  pub args : Option (Map String VariableReference)
  pub parent : Option ℕ
  pub ref_count : ℕ
  pub gc_next : Bool
  pub xmitted : Bool

-- `newQtNode`, on the name of the root object.
unfoldable pub new_qt_node : String → ObjectDef → QtNode
new_qt_node name def = record {
  id = 0;
  name = name;
  obj_def = some def;
  children = [];
  args = none;
  parent = none;
  ref_count = 0;
  gc_next = false;
  xmitted = false;
}

-- `lookupChildByID`, over the addresses of the children.
unfoldable pub lookup_child_by_id : ℕ → Map ℕ QtNode → List ℕ → Option ℕ
lookup_child_by_id id heap [] = none
lookup_child_by_id id heap (a ∷ more) =
    let rest = lookup_child_by_id id heap more in
    elim (lookup a heap) [ none ↦ rest | some q ↦ if q.id == id then some a else rest ]

-- The loop of `findSchemaField`: a field with no name is passed over.
unfoldable pub find_in_fields : String → Fields → Option AstType
find_in_fields name Fields.end = none
find_in_fields name (Fields.field none ty more) = find_in_fields name more
find_in_fields name (Fields.field (some f) ty more) =
    let rest = find_in_fields name more in if name == f then some ty else rest

-- `findSchemaField`: the type of the field.
unfoldable pub find_schema_field : String → QtNode → Option AstType
unfolding find_in_fields
find_schema_field name q = elim q.obj_def [
  | none ↦ none
  | some def ↦ find_in_fields name def.fields
]
