-- ===== src/Schema/Kept.antt =====
-- Which definition of a document `DocumentToParts` of schema/ast.go keeps for a name.
use rgraphql.Prelude.{
  true, false, String, Option, none, some, List, ◌≡◌, ◌⊎◌, subst, refl, sym, ◌∙◌, lookup, string_eq,
  inl, inr,
}
use rgraphql.Types.Ast.{AstType, TypeDefinition, unwrap_ast_type}
use rgraphql.Schema.{
  Definition, AstParts, no_parts, add_definitions, Classified, parts, panicked, set_root,
  lookup_type, document_to_parts,
}
use rgraphql.Schema.Stored.{
  bare_resolves, is_object, last_defined, last_operation, lookup_type-parts,
  operation-add_definitions, resolve_bare, root-add_definitions, root_of,
}

abbrev pub Returns : List Definition → Classified → Option TypeDefinition → Type 0
Returns doc c root =
    (ps : AstParts) × (c ≡ parts ps)
    × (ps.root_query ≡ root)
    × ((name : String) → lookup_type ps (AstType.named (some name)) ≡ last_defined name doc none)

-- What becomes of a document, by the definition that is named for its queries.
abbrev pub Outcome : List Definition → Classified → Option TypeDefinition → Type 0
Outcome doc c none = Returns doc c none
Outcome doc c (some d) =
    ((is_object d ≡ true) × Returns doc c (some d)) ⊎ ((is_object d ≡ false) × (c ≡ panicked))

lookup_type_root :
    (ps : AstParts) (d : Option TypeDefinition) (name : String)
    → lookup_type (record ps { root_query = d }) (AstType.named (some name))
      ≡ lookup_type ps (AstType.named (some name))
unfolding lookup_type
lookup_type_root ps d name = refl

set_root-Outcome :
    (doc : List Definition) (r : Option TypeDefinition)
    → Outcome doc (set_root r (add_definitions doc no_parts)) r
set_root-Outcome doc none = (
  add_definitions doc no_parts,
  refl,
  root-add_definitions doc no_parts,
  λ name. lookup_type-parts doc name,
)
set_root-Outcome doc (some (TypeDefinition.object n fs)) =
    let d : Option TypeDefinition = some (TypeDefinition.object n fs) in
    inl (
      refl,
      (
        record (add_definitions doc no_parts) { root_query = d },
        refl,
        refl,
        λ name. lookup_type_root (add_definitions doc no_parts) d name ∙ lookup_type-parts doc name,
      ),
    )
set_root-Outcome doc (some (TypeDefinition.enum n)) = inr (refl, refl)
set_root-Outcome doc (some (TypeDefinition.union n)) = inr (refl, refl)
set_root-Outcome doc (some (TypeDefinition.scalar n)) = inr (refl, refl)
set_root-Outcome doc (some (TypeDefinition.interface n)) = inr (refl, refl)
set_root-Outcome doc (some (TypeDefinition.input_object n)) = inr (refl, refl)

-- `DocumentToParts` of any document: the root query is what the type of the last operation "query"
-- stands for. If that is a type but no object, it panics. Otherwise it returns, and each name is then
-- looked up as the last object, enum or union of that name in the document, and no other type.
pub document_to_parts-Outcome :
    (doc : List Definition) → Outcome doc (document_to_parts doc) (root_of doc)
unfolding document_to_parts lookup
document_to_parts-Outcome doc =
    subst
      (λ o.
        Outcome doc
          (elim o [
            | none ↦ parts (add_definitions doc no_parts)
            | some ty ↦
                set_root (lookup_type (add_definitions doc no_parts) ty)
                  (add_definitions doc no_parts)
          ])
          (root_of doc))
      (sym (operation-add_definitions "query" doc no_parts))
      (by_type (last_operation "query" doc none))
  where
    by_type :
        (o : Option AstType)
        → Outcome doc
            (elim o [
              | none ↦ parts (add_definitions doc no_parts)
              | some ty ↦
                  set_root
                    (lookup_type (add_definitions doc no_parts) ty)
                    (add_definitions doc no_parts)
            ])
            (elim o [ none ↦ none | some ty ↦ resolve_bare doc (unwrap_ast_type ty) ])
    by_type none = set_root-Outcome doc none
    by_type (some ty) =
        subst
          (Outcome doc (
            set_root (lookup_type (add_definitions doc no_parts) ty)
              (add_definitions doc no_parts)))
          (bare_resolves doc ty)
          (set_root-Outcome doc (lookup_type (add_definitions doc no_parts) ty))
