-- ===== src/Client/QueryTree/Resolve.antt =====
-- `resolveChild` and `matchesField` of client/query-tree-node.go, and the errors of client/errors.go.
-- The schema's lookup and `strconv.ParseFloat` are the arguments `look` and `parse_float`.
use rgraphql.Prelude.{
  ℕ, ◌+◌, ◌%◌, Bool, true, false, String, Option, none, some, List, [], ◌∷◌, ◌++◌, lookup, insert,
  nat_eq, string_eq, ◌==◌, if◌then◌else◌,
}
use rgraphql.Types.Ast.{AstType, TypeDefinition, unwrap_ast_type, is_ast_primitive}
use rgraphql.Types.PrimPack.{PackError}
use rgraphql.Varstore.{VariableStore}
use rgraphql.Client.Arguments.{Args, Argument, Bound, new_args_map, args_equal}
use rgraphql.Client.QueryNode.{ObjectDef, QtNode, find_schema_field}
use rgraphql.Client.QueryTree.{done, nil_read, M, ◌>>=◌, pure, load}

-- `ast.Field`, without the fields below it.
pub record Field : Type 0 where
  pub name : Option String
  pub arguments : List Argument

-- `fieldNotFoundErr`, `typeNotFoundErr`, and the errors of the arguments.
pub data ClientError : Type 0 where
  field_not_found : String → String → ClientError
  type_not_found : String → ClientError
  bad_argument : PackError → ClientError

pub data Resolved : Type 0 where
  found : ℕ → Resolved
  invalid : ClientError → Resolved

-- What the type of a field gives: an object, no object for a built-in scalar, or an error.
pub data FieldType : Type 0 where
  object : Option ObjectDef → FieldType
  unknown : ClientError → FieldType
  fault : FieldType

abbrev not_found : AstType → FieldType
not_found (AstType.named none) = FieldType.fault
not_found (AstType.named (some name)) = unknown (ClientError.type_not_found name)
not_found _ = unknown (ClientError.type_not_found "[unknown reference type]")

-- `atd.(*ast.ObjectDefinition)`
abbrev as_object : AstType → Option TypeDefinition → FieldType
as_object ty (some (TypeDefinition.object name fs)) =
    FieldType.object (some (record { name = name; fields = fs }))
as_object ty _ = not_found ty

unfoldable pub field_type : (AstType → Option TypeDefinition) → AstType → FieldType
field_type look ty =
    if is_ast_primitive (unwrap_ast_type ty)
    then FieldType.object none
    else as_object (unwrap_ast_type ty) (look (unwrap_ast_type ty))

-- `matchesField`
unfoldable pub matches_field : VariableStore → QtNode → String → Option Args → Bool
matches_field vs n name args = if name == n.name then args_equal vs n.args args else false

-- The loop over the children: the first that matches.
unfoldable pub find_match : String → Option Args → List ℕ → M (Option ℕ)
find_match name args [] t = done none t
find_match name args (c ∷ more) t = elim (lookup c t.nodes) [
  | none ↦ nil_read
  | some n ↦ elim (matches_field t.store n name args) [
    | true ↦ done (some c) t
    | false ↦ find_match name args more t
  ]
]

-- The new child, with the next id.
abbrev pub new_child : ℕ → ℕ → String → Option ObjectDef → Option Args → QtNode
new_child id parent name def args = record {
  id = id;
  name = name;
  obj_def = def;
  children = [];
  args = args;
  parent = some parent;
  ref_count = 0;
  gc_next = false;
  xmitted = false;
}

-- `allocNode`, with the fields that are then set, and the child appended to those of its parent.
unfoldable pub alloc_child : ℕ → String → Option ObjectDef → Option Args → M ℕ
alloc_child q name def args t = elim (lookup q t.nodes) [
  | none ↦ nil_read
  | some n ↦ done t.next (record t {
    nodes =
        insert q (record n { children = n.children ++ t.next ∷ [] })
          (insert t.next (new_child t.next_id q name def args) t.nodes);
    next = t.next + 1;
    next_id = (t.next_id + 1) % 4294967296;
  })
]

-- The end of `resolveChild`, once the arguments are bound.
unfoldable pub match_or_alloc : ℕ → List ℕ → String → Option ObjectDef → Option Args → M Resolved
match_or_alloc q children name def args t =
    (find_match name args children >>= λ r. λ t1. elim r [
      | some c ↦ done (found c) t1
      | none ↦ (do c ← alloc_child q name def args; pure (found c)) t1
    ])
      t

module _ (look : AstType → Option TypeDefinition) (parse_float : String → Option ℕ) where
  -- The arguments of the field, bound in the store.
  unfoldable pub bind_and_match :
      ℕ → List ℕ → String → Option ObjectDef → List Argument → M Resolved
  bind_and_match q children name def arguments t =
      elim (new_args_map parse_float arguments t.store) [
        | Bound.fault ↦ nil_read
        | Bound.refused e vs ↦ done (invalid (ClientError.bad_argument e)) (record t { store = vs })
        | Bound.bound args vs ↦ match_or_alloc q children name def args (record t { store = vs })
      ]

  -- `resolveChild` of the node `q` and a field of that name.
  unfoldable pub resolve_child : ℕ → String → List Argument → M Resolved
  resolve_child q name arguments t =
      (load q >>= λ n. λ t1. elim (find_schema_field name n) [
        | none ↦ done (invalid (ClientError.field_not_found name n.name)) t1
        | some ty ↦ elim (field_type look ty) [
          | FieldType.fault ↦ nil_read
          | unknown e ↦ done (invalid e) t1
          | FieldType.object def ↦ bind_and_match q n.children name def arguments t1
        ]
      ])
        t
