-- ===== src/Types/Ast.antt =====
-- types/gqlast/unwrap.go and types/primitive.go, over the GraphQL syntax that they match on.
use rgraphql.Prelude.{
  string_eq, Bool, true, false, String, Option, none, some, ◌≡◌, refl, arith, lookup, Map, [], ◌∷◌,
}
use rgraphql.Types.Primitive.{Kind}

-- `ast.Type` and `ast.TypeDefinition` of graphql-go, as far as this code distinguishes them. A name
-- is `none` where the pointer to it is nil.
mutual
  pub data AstType : Type 0 where
    nil : AstType
    named : Option String → AstType
    list : AstType → AstType
    non_null : AstType → AstType
    definition : TypeDefinition → AstType

  pub data TypeDefinition : Type 0 where
    object : Option String → Fields → TypeDefinition
    enum : Option String → TypeDefinition
    union : Option String → TypeDefinition
    scalar : Option String → TypeDefinition
    interface : Option String → TypeDefinition
    input_object : Option String → TypeDefinition

  pub data Fields : Type 0 where
    end : Fields
    field : Option String → AstType → Fields → Fields

-- `UnwrapASTType`
unfoldable pub unwrap_ast_type : AstType → AstType
unwrap_ast_type (list t) = unwrap_ast_type t
unwrap_ast_type (non_null t) = unwrap_ast_type t
unwrap_ast_type t = t

-- `GraphQLPrimitivesProtoKinds`
abbrev pub primitives_proto_kinds : Map String Kind
primitives_proto_kinds =
    ("Int", Kind.int)
    ∷ ("String", Kind.string)
    ∷ ("Float", Kind.float)
    ∷ ("Boolean", Kind.bool)
    ∷ ("Object", Kind.object)
    ∷ ("ID", Kind.string)
    ∷ []

abbrev is_some {ℓ} : {A : Type ℓ} → Option A → Bool
is_some none = false
is_some (some a) = true

-- `IsPrimitive`
unfoldable pub is_primitive : String → Bool
unfolding lookup
is_primitive name = is_some (lookup name primitives_proto_kinds)

-- `IsAstPrimitive`
unfoldable pub is_ast_primitive : AstType → Bool
unfolding is_primitive
is_ast_primitive (named (some name)) = is_primitive name
is_ast_primitive t = false

-- `AstPrimitiveProtoKind`; the Go function pairs the kind, 0 where there is none, with a flag.
unfoldable pub ast_primitive_proto_kind : AstType → Kind × Bool
unfolding lookup
ast_primitive_proto_kind (named (some name)) = elim (lookup name primitives_proto_kinds) [
  | none ↦ (Kind.null, false)
  | some k ↦ (k, true)
]
ast_primitive_proto_kind t = (Kind.null, false)

-- A type with no list or non-null wrapper around it.
abbrev pub is_bare : AstType → Bool
is_bare (list t) = false
is_bare (non_null t) = false
is_bare t = true

-- The flag of `AstPrimitiveProtoKind` is `IsAstPrimitive`, for every type.
ast_primitive_proto_kind-is_ast_primitive :
    (t : AstType) → (ast_primitive_proto_kind t).1 ≡ is_ast_primitive t
unfolding ast_primitive_proto_kind is_ast_primitive
ast_primitive_proto_kind-is_ast_primitive (named (some name)) = ground arith
ast_primitive_proto_kind-is_ast_primitive (named none) = refl
ast_primitive_proto_kind-is_ast_primitive _ = refl

-- Unwrapping ends at a type with no list or non-null wrapper, and unwrapping that again changes
-- nothing.
unwrap_ast_type-bare :
    (t : AstType)
    → (is_bare (unwrap_ast_type t) ≡ true)
      × (unwrap_ast_type (unwrap_ast_type t) ≡ unwrap_ast_type t)
unfolding unwrap_ast_type
unwrap_ast_type-bare (list t) = unwrap_ast_type-bare t
unwrap_ast_type-bare (non_null t) = unwrap_ast_type-bare t
unwrap_ast_type-bare _ = (refl, refl)
