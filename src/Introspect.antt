-- ===== src/Introspect.antt =====
-- introspect/introspect.go: the resolvers of the fields with two underscores. A node of the schema's
-- syntax is a number, which stands for the pointer to it; a resolver that is `none` is nil.
pub mod Reached
mod Tests
use Prim.Native.Char.{Char}
use rgraphql.Prelude.{
  ℕ, Bool, true, false, String, Option, none, some, List, [], ◌∷◌, Map, map, string_eq, ◌==◌,
  if◌then◌else◌,
}

-- `ast.InputValueDefinition`; a name is `none` where the pointer to it is nil. The value of a default
-- is `none` where it is no string.
pub record InputValueDefinition : Type 0 where
  pub name : Option String
  pub ty : ℕ
  pub default_value : Option (Option String)

-- `ast.FieldDefinition`
pub record FieldDefinition : Type 0 where
  pub name : Option String
  pub arguments : List InputValueDefinition
  pub ty : ℕ

-- `ast.EnumValueDefinition`
pub record EnumValueDefinition : Type 0 where
  pub name : Option String

-- `ast.Node`, as far as this code distinguishes nodes.
pub data Node : Type 0 where
  object : List FieldDefinition → Node
  enum : List EnumValueDefinition → Node
  list : ℕ → Node
  other : Node

-- The syntax of the schema with `GetKind` and `GetName`, the `ASTLookup`, and `unicode.ToUpper`. A node
-- without a method `GetName` has `none`, and one whose name is nil has `some none`.
pub record Ast : Type 0 where
  pub node : ℕ → Node
  pub get_kind : ℕ → String
  pub get_name : ℕ → Option (Option String)
  pub look : ℕ → Option ℕ
  pub to_upper : Char → Char

-- `TypeResolver`; the node is `none` where the interface has no value.
pub record TypeResolver : Type 0 where
  pub name_cache : String
  pub ast : Option ℕ

-- `SchemaResolver`
pub record SchemaResolver : Type 0 where
  pub root_query : Option ℕ
  pub named_types : Map String ℕ

-- `ObjectResolver`
pub record ObjectResolver : Type 0 where
  pub ast : ℕ
  pub schema_resolver : Option SchemaResolver

abbrev pub type_at : Option ℕ → TypeResolver
type_at a = record { name_cache = ""; ast = a }

-- `Schema` and `Type` of an object
unfoldable pub object_schema : ObjectResolver → Option SchemaResolver
object_schema r = r.schema_resolver

unfoldable pub object_type : ObjectResolver → TypeResolver
object_type r = type_at (some r.ast)

-- `QueryType`
unfoldable pub query_type : SchemaResolver → Option TypeResolver
query_type r = elim r.root_query [ none ↦ none | some a ↦ some (type_at (some a)) ]

-- `Types`
unfoldable pub types : SchemaResolver → List TypeResolver
types r = map (λ e. type_at (some e.1)) r.named_types

-- `strings.TrimSuffix`
unfoldable pub trim_suffix : String → String → String
trim_suffix suffix String.[] = String.[]
trim_suffix suffix (String.◌∷◌ c s) =
    let rest = trim_suffix suffix s in
    if String.◌∷◌ c s == suffix then String.[] else String.◌∷◌ c rest

-- `strings.ToUpper`
unfoldable pub upper : (Char → Char) → String → String
upper f String.[] = String.[]
upper f (String.◌∷◌ c s) = String.◌∷◌ (f c) (upper f s)

-- `strings.HasPrefix` for two underscores.
abbrev pub has_underscores : String → Bool
has_underscores (String.◌∷◌ a (String.◌∷◌ b s)) = String.◌∷◌ a (String.◌∷◌ b String.[]) == "__"
has_underscores s = false

module _ (p : Ast) where
  -- `Kind`, which is `none` where it panics.
  unfoldable pub kind : TypeResolver → Option String
  kind r = elim r.ast [
    | none ↦ none
    | some a ↦ some (upper p.to_upper (trim_suffix "Definition" (p.get_kind a)))
  ]

  -- `resolveNamedType`
  unfoldable pub resolve_named_type : Option ℕ → Option String
  resolve_named_type none = none
  resolve_named_type (some a) = elim (p.get_name a) [
    | some (some name) ↦ if name == "" then none else some name
    | _ ↦ none
  ]

  -- `Name` returns a name, and keeps it.
  unfoldable pub type_name : TypeResolver → Option String × TypeResolver
  type_name r =
      if r.name_cache == ""
      then (elim (resolve_named_type r.ast) [
        | none ↦ (none, r)
        | some name ↦ (some name, record r { name_cache = name })
      ])
      else (some r.name_cache, r)

  -- The loop of `Fields`.
  unfoldable pub kept_fields : List FieldDefinition → List FieldDefinition
  kept_fields [] = []
  kept_fields (field ∷ more) =
      let rest = kept_fields more in
      elim field.name [
        | none ↦ rest
        | some name ↦ if has_underscores name then rest else field ∷ rest
      ]

  -- `Fields`; the resolver of a field is its definition.
  unfoldable pub fields : TypeResolver → List FieldDefinition
  fields r = elim r.ast [
    | none ↦ []
    | some a ↦ elim (p.node a) [ Node.object all ↦ kept_fields all | _ ↦ [] ]
  ]

  -- `EnumValues`
  unfoldable pub enum_values : TypeResolver → List EnumValueDefinition
  enum_values r = elim r.ast [
    | none ↦ []
    | some a ↦ elim (p.node a) [ Node.enum values ↦ values | _ ↦ [] ]
  ]

  -- `OfType`
  unfoldable pub of_type : TypeResolver → Option TypeResolver
  of_type r = elim r.ast [
    | none ↦ none
    | some a ↦ elim (p.node a) [ Node.list inner ↦ some (type_at (p.look inner)) | _ ↦ none ]
  ]

  -- `Type` of a field
  unfoldable pub field_type : FieldDefinition → Option TypeResolver
  field_type field = elim (p.look field.ty) [ none ↦ none | some a ↦ some (type_at (some a)) ]

  -- `Name` of a field, which is `none` where it panics.
  unfoldable pub field_name : FieldDefinition → Option String
  field_name field = field.name

  -- `Args`; the resolver of an argument is its definition.
  unfoldable pub args : FieldDefinition → List InputValueDefinition
  args field = field.arguments

  -- `Type`, `Name` and `DefaultValue` of an argument
  unfoldable pub input_type : InputValueDefinition → TypeResolver
  input_type arg = type_at (p.look arg.ty)

  unfoldable pub input_name : InputValueDefinition → Option String
  input_name arg = arg.name

  unfoldable pub default_value : InputValueDefinition → String
  default_value arg = elim arg.default_value [ some (some text) ↦ text | _ ↦ "" ]

  -- `Name` of a value of an enum, which is `none` where it panics.
  unfoldable pub enum_value_name : EnumValueDefinition → Option String
  enum_value_name value = value.name
