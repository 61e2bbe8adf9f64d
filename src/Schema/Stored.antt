-- ===== src/Schema/Stored.antt =====
-- What each definition of a document adds to the parts, against the last definition of a name.
use rgraphql.Prelude.{
  Bool, true, false, not, ◌&&◌, String, Option, none, some, List, [], ◌∷◌, ◌≡◌, refl, sym, ap, ◌∙◌,
  arith, Map, lookup, insert, lookup-insert, string_eq, Bool-cases, inl, inr, ◌==◌, if◌then◌else◌,
}
use rgraphql.Types.Ast.{AstType, TypeDefinition, unwrap_ast_type}
use rgraphql.Schema.{
  OperationType, Definition, schema, type_definition, AstParts, no_parts, name_of, put_operations,
  add_type, add_definition, add_definitions, lookup_type,
}

-- The kinds of types that have a map of their own.
abbrev pub is_classified : TypeDefinition → Bool
is_classified (TypeDefinition.object n fs) = true
is_classified (TypeDefinition.enum n) = true
is_classified (TypeDefinition.union n) = true
is_classified d = false

-- Whether the definition is an object, an enum or a union under that name.
abbrev pub defines : String → TypeDefinition → Bool
defines name d = elim (name_of d) [
  | none ↦ false
  | some n ↦ not (n == "") && (is_classified d && (n == name))
]

-- The last definition of the name in the document, or else `d`.
abbrev pub last_defined : String → List Definition → Option TypeDefinition → Option TypeDefinition
last_defined name [] d = d
last_defined name (schema ops ∷ doc) d = last_defined name doc d
last_defined name (type_definition t ∷ doc) d =
    last_defined name doc (if defines name t then some t else d)

-- The type of the last operation of that name in the document, or else `ty`.
abbrev pub last_operation_in : String → List OperationType → Option AstType → Option AstType
last_operation_in name [] ty = ty
last_operation_in name (op ∷ ops) ty =
    last_operation_in name ops (if op.operation == name then some op.ty else ty)

abbrev pub last_operation : String → List Definition → Option AstType → Option AstType
last_operation name [] ty = ty
last_operation name (schema ops ∷ doc) ty = last_operation name doc (last_operation_in name ops ty)
last_operation name (type_definition t ∷ doc) ty = last_operation name doc ty

-- What a type without wrappers stands for in the document.
abbrev pub resolve_bare : List Definition → AstType → Option TypeDefinition
resolve_bare doc (AstType.named (some name)) = last_defined name doc none
resolve_bare doc (AstType.definition d) = some d
resolve_bare doc _ = none

abbrev pub is_object : TypeDefinition → Bool
is_object (TypeDefinition.object n fs) = true
is_object d = false

-- The definition that the document names as the type of its queries.
abbrev pub root_of : List Definition → Option TypeDefinition
root_of doc = elim (last_operation "query" doc none) [
  | none ↦ none
  | some ty ↦ resolve_bare doc (unwrap_ast_type ty)
]

lookup-add_type :
    (name : String) (d : TypeDefinition) (ps : AstParts)
    → lookup name (add_type d ps).types ≡ (if defines name d then some d else lookup name ps.types)
unfolding add_type
lookup-add_type name (TypeDefinition.object none fs) ps = refl
lookup-add_type name (TypeDefinition.object (some n) fs) ps =
    ground (arith, lookup-insert n name (TypeDefinition.object (some n) fs) ps.types)
lookup-add_type name (TypeDefinition.enum none) ps = refl
lookup-add_type name (TypeDefinition.enum (some n)) ps =
    ground (arith, lookup-insert n name (TypeDefinition.enum (some n)) ps.types)
lookup-add_type name (TypeDefinition.union none) ps = refl
lookup-add_type name (TypeDefinition.union (some n)) ps =
    ground (arith, lookup-insert n name (TypeDefinition.union (some n)) ps.types)
lookup-add_type name (TypeDefinition.scalar none) ps = refl
lookup-add_type name (TypeDefinition.scalar (some n)) ps = ground (arith)
lookup-add_type name (TypeDefinition.interface none) ps = refl
lookup-add_type name (TypeDefinition.interface (some n)) ps = ground (arith)
lookup-add_type name (TypeDefinition.input_object none) ps = refl
lookup-add_type name (TypeDefinition.input_object (some n)) ps = ground (arith)

add_type_keeps :
    (d : TypeDefinition) (ps : AstParts)
    → ((add_type d ps).schema_operations ≡ ps.schema_operations)
      × ((add_type d ps).root_query ≡ ps.root_query)
unfolding add_type
add_type_keeps (TypeDefinition.object none fs) ps = (refl, refl)
add_type_keeps (TypeDefinition.object (some n) fs) ps = (ground (arith), ground (arith))
add_type_keeps (TypeDefinition.enum none) ps = (refl, refl)
add_type_keeps (TypeDefinition.enum (some n)) ps = (ground (arith), ground (arith))
add_type_keeps (TypeDefinition.union none) ps = (refl, refl)
add_type_keeps (TypeDefinition.union (some n)) ps = (ground (arith), ground (arith))
add_type_keeps (TypeDefinition.scalar none) ps = (refl, refl)
add_type_keeps (TypeDefinition.scalar (some n)) ps = (ground (arith), ground (arith))
add_type_keeps (TypeDefinition.interface none) ps = (refl, refl)
add_type_keeps (TypeDefinition.interface (some n)) ps = (ground (arith), ground (arith))
add_type_keeps (TypeDefinition.input_object none) ps = (refl, refl)
add_type_keeps (TypeDefinition.input_object (some n)) ps = (ground (arith), ground (arith))

lookup-put_operations :
    (name : String) (ops : List OperationType) (m : Map String AstType)
    → lookup name (put_operations ops m) ≡ last_operation_in name ops (lookup name m)
unfolding put_operations
lookup-put_operations name [] m = refl
lookup-put_operations name (op ∷ ops) m =
    lookup-put_operations name ops (insert op.operation op.ty m)
    ∙ ap (last_operation_in name ops) (lookup-insert op.operation name op.ty m)

lookup-add_definitions :
    (name : String) (doc : List Definition) (ps : AstParts)
    → lookup name (add_definitions doc ps).types ≡ last_defined name doc (lookup name ps.types)
unfolding add_definitions add_definition
lookup-add_definitions name [] ps = refl
lookup-add_definitions name (schema ops ∷ doc) ps = lookup-add_definitions name doc _
lookup-add_definitions name (type_definition t ∷ doc) ps =
    lookup-add_definitions name doc (add_type t ps)
    ∙ ap (last_defined name doc) (lookup-add_type name t ps)

pub operation-add_definitions :
    (name : String) (doc : List Definition) (ps : AstParts)
    → lookup name (add_definitions doc ps).schema_operations
      ≡ last_operation name doc (lookup name ps.schema_operations)
unfolding add_definitions add_definition
operation-add_definitions name [] ps = refl
operation-add_definitions name (schema ops ∷ doc) ps =
    operation-add_definitions name doc _
    ∙ ap (last_operation name doc) (lookup-put_operations name ops ps.schema_operations)
operation-add_definitions name (type_definition t ∷ doc) ps =
    operation-add_definitions name doc (add_type t ps)
    ∙ ap (λ m. last_operation name doc (lookup name m)) (add_type_keeps t ps).0

pub root-add_definitions :
    (doc : List Definition) (ps : AstParts) → (add_definitions doc ps).root_query ≡ ps.root_query
unfolding add_definitions add_definition
root-add_definitions [] ps = refl
root-add_definitions (schema ops ∷ doc) ps = root-add_definitions doc _
root-add_definitions (type_definition t ∷ doc) ps =
    root-add_definitions doc (add_type t ps) ∙ (add_type_keeps t ps).1

defines_empty : (d : TypeDefinition) → defines "" d ≡ false
defines_empty d = by_name (name_of d)
  where
    by_name :
        (o : Option String)
        → elim o [ none ↦ false | some n ↦ not (n == "") && (is_classified d && (n == "")) ] ≡ false
    by_name none = refl
    by_name (some n) = elim (Bool-cases (n == "")) [ inl g ↦ rw g refl | inr g ↦ ground (arith) ]

last_defined_empty : (doc : List Definition) (d : Option TypeDefinition) → last_defined "" doc d ≡ d
last_defined_empty [] d = refl
last_defined_empty (schema ops ∷ doc) d = last_defined_empty doc d
last_defined_empty (type_definition t ∷ doc) d = rw (defines_empty t) (last_defined_empty doc d)

pub lookup_type-parts :
    (doc : List Definition) (name : String)
    → lookup_type (add_definitions doc no_parts) (AstType.named (some name))
      ≡ last_defined name doc none
unfolding lookup_type lookup
lookup_type-parts doc name = elim (Bool-cases (name == "")) [
  | inl e ↦
      let same : name ≡ "" = (string_eq.same_iff name "").0 e in
      rw e (sym (ap (λ s. last_defined s doc none) same ∙ last_defined_empty doc none))
  | inr e ↦ rw e (lookup-add_definitions name doc no_parts)
]

pub bare_resolves :
    (doc : List Definition) (t : AstType)
    → lookup_type (add_definitions doc no_parts) t ≡ resolve_bare doc (unwrap_ast_type t)
unfolding unwrap_ast_type lookup_type
bare_resolves doc AstType.nil = refl
bare_resolves doc (AstType.named none) = refl
bare_resolves doc (AstType.named (some name)) = lookup_type-parts doc name
bare_resolves doc (AstType.list t) = bare_resolves doc t
bare_resolves doc (AstType.non_null t) = bare_resolves doc t
bare_resolves doc (AstType.definition d) = refl

-- The parts that a document has, with the root query that they have.
