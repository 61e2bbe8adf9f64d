-- ===== src/Schema/Tests.antt =====
-- A document with an object, a scalar and a type for its queries.
use rgraphql.Prelude.{none, some, List, [], ◌∷◌, ◌≡◌, refl, lookup, insert, string_eq}
use rgraphql.Types.Ast.{AstType, TypeDefinition, Fields}
use rgraphql.Schema.{
  Definition, schema, type_definition, AstParts, no_parts, parts, lookup_type, add_type,
  add_definition, add_definitions, put_operations, document_to_parts, apply, apply_loop,
}
use rgraphql.Schema.Kept.{Outcome, document_to_parts-Outcome}
use rgraphql.Schema.Stored.{root_of}

abbrev query_type : AstType
query_type = AstType.named (some "RootQuery")

abbrev root_query : TypeDefinition
root_query =
    TypeDefinition.object (some "RootQuery")
      (Fields.field (some "today") (AstType.named (some "Date")) Fields.end)

abbrev document : List Definition
document =
    type_definition root_query
    ∷ type_definition (TypeDefinition.scalar (some "Date"))
    ∷ schema (record { operation = "query"; ty = query_type } ∷ [])
    ∷ []

abbrev document_parts : AstParts
document_parts = record {
  types = ("RootQuery", root_query) ∷ [];
  objects = ("RootQuery", root_query) ∷ [];
  enums = [];
  unions = [];
  schema_operations = ("query", query_type) ∷ [];
  all_named = ("RootQuery", root_query) ∷ ("Date", TypeDefinition.scalar (some "Date")) ∷ [];
  schemas = (record { operation = "query"; ty = query_type } ∷ []) ∷ [];
  root_query = some root_query;
}

document_run : document_to_parts document ≡ parts document_parts
unfolding document_to_parts add_definitions add_definition add_type put_operations lookup_type
    lookup insert
document_run = refl

-- The scalar is not found in the parts of the document, and is found once they are applied.
scalar_missing : lookup_type document_parts (AstType.named (some "Date")) ≡ none
unfolding lookup_type lookup
scalar_missing = refl

scalar_applied :
    lookup_type (apply document_parts no_parts) (AstType.named (some "Date"))
    ≡ some (TypeDefinition.scalar (some "Date"))
unfolding lookup_type lookup insert apply apply_loop
scalar_applied = refl

document_to_parts-Outcome_example : Outcome document (document_to_parts document) (root_of document)
document_to_parts-Outcome_example = document_to_parts-Outcome document
