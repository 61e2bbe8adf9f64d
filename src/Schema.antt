-- ===== src/Schema.antt =====
-- `DocumentToParts`, `LookupType` and `Apply` of schema/ast.go, for documents that hold definitions of
-- schemas and types. A definition is a value here: what shares a pointer to it reads the same value.
pub mod Lookup
pub mod Stored
pub mod Kept
mod Tests
use rgraphql.Prelude.{
  Bool, true, false, String, Option, none, some, List, [], ◌∷◌, ◌++◌, Map, lookup, insert,
  string_eq, ◌==◌, if◌then◌else◌,
}
use rgraphql.Types.Ast.{AstType, TypeDefinition, Fields}

-- `ast.OperationTypeDefinition`
pub record OperationType : Type 0 where
  pub operation : String
  pub ty : AstType

-- `ast.SchemaDefinition` and the definitions of types.
pub data Definition : Type 0 where
  schema : List OperationType → Definition
  type_definition : TypeDefinition → Definition

-- `ASTParts`
pub record AstParts : Type 0 where
  pub types : Map String TypeDefinition
  pub objects : Map String TypeDefinition
  pub enums : Map String TypeDefinition
  pub unions : Map String TypeDefinition
  pub schema_operations : Map String AstType
  pub all_named : Map String TypeDefinition
  pub schemas : List (List OperationType)
  pub root_query : Option TypeDefinition

abbrev pub no_parts : AstParts
no_parts = record {
  types = [];
  objects = [];
  enums = [];
  unions = [];
  schema_operations = [];
  all_named = [];
  schemas = [];
  root_query = none;
}

abbrev pub name_of : TypeDefinition → Option String
name_of (TypeDefinition.object n fs) = n
name_of (TypeDefinition.enum n) = n
name_of (TypeDefinition.union n) = n
name_of (TypeDefinition.scalar n) = n
name_of (TypeDefinition.interface n) = n
name_of (TypeDefinition.input_object n) = n

-- `LookupType`
unfoldable pub lookup_type : AstParts → AstType → Option TypeDefinition
lookup_type ap AstType.nil = none
lookup_type ap (AstType.non_null t) = lookup_type ap t
lookup_type ap (AstType.list t) = lookup_type ap t
lookup_type ap (AstType.definition d) = some d
lookup_type ap (AstType.named none) = none
lookup_type ap (AstType.named (some name)) = if name == "" then none else lookup name ap.types

-- The inner loop over `OperationTypes`.
unfoldable pub put_operations : List OperationType → Map String AstType → Map String AstType
put_operations [] m = m
put_operations (op ∷ ops) m = put_operations ops (insert op.operation op.ty m)

-- The switch on the kind of a definition of a type, for a name that is not empty.
abbrev pub put_type : String → TypeDefinition → AstParts → AstParts
put_type name (TypeDefinition.union n) ap = record ap {
  types = insert name (TypeDefinition.union n) ap.types;
  unions = insert name (TypeDefinition.union n) ap.unions;
}
put_type name (TypeDefinition.object n fs) ap = record ap {
  types = insert name (TypeDefinition.object n fs) ap.types;
  objects = insert name (TypeDefinition.object n fs) ap.objects;
}
put_type name (TypeDefinition.enum n) ap = record ap {
  types = insert name (TypeDefinition.enum n) ap.types;
  enums = insert name (TypeDefinition.enum n) ap.enums;
}
put_type name d ap = ap

-- A definition of a type: the switch, and then `AllNamed`.
unfoldable pub add_type : TypeDefinition → AstParts → AstParts
add_type d ap = elim (name_of d) [
  | none ↦ ap
  | some name ↦
      let switched = if name == "" then ap else put_type name d ap in
      record switched { all_named = insert name d switched.all_named }
]

-- One round of the loop over the definitions.
unfoldable pub add_definition : Definition → AstParts → AstParts
add_definition (schema ops) ap = record ap {
  schemas = ap.schemas ++ ops ∷ [];
  schema_operations = put_operations ops ap.schema_operations;
}
add_definition (type_definition d) ap = add_type d ap

unfoldable pub add_definitions : List Definition → AstParts → AstParts
add_definitions [] ap = ap
add_definitions (d ∷ ds) ap = add_definitions ds (add_definition d ap)

-- The document is classified, or the assertion on the type of the root query panics.
pub data Classified : Type 0 where
  parts : AstParts → Classified
  panicked : Classified

abbrev pub set_root : Option TypeDefinition → AstParts → Classified
set_root none ap = parts ap
set_root (some (TypeDefinition.object n fs)) ap =
    parts (record ap { root_query = some (TypeDefinition.object n fs) })
set_root (some d) ap = panicked

-- `DocumentToParts`
unfoldable pub document_to_parts : List Definition → Classified
document_to_parts doc =
    let ap = add_definitions doc no_parts in
    elim (lookup "query" ap.schema_operations) [
      | none ↦ parts ap
      | some ty ↦ set_root (lookup_type ap ty) ap
    ]

-- One round of `Apply`.
abbrev apply_type : String → TypeDefinition → AstParts → AstParts
apply_type name (TypeDefinition.enum n) ap = record ap {
  enums = insert name (TypeDefinition.enum n) ap.enums;
}
apply_type name (TypeDefinition.object n fs) ap = record ap {
  objects = insert name (TypeDefinition.object n fs) ap.objects;
}
apply_type name (TypeDefinition.union n) ap = record ap {
  unions = insert name (TypeDefinition.union n) ap.unions;
}
apply_type name d ap = ap

unfoldable pub apply_loop : Map String TypeDefinition → AstParts → AstParts
apply_loop [] ap = ap
apply_loop ((name, d) ∷ more) ap =
    let applied = apply_type name d ap in
    apply_loop more (record applied {
      all_named = insert name d applied.all_named;
      types = insert name d applied.types;
    })

-- `Apply`
unfoldable pub apply : AstParts → AstParts → AstParts
apply other ap = apply_loop other.all_named ap
