-- ===== src/Introspect/Tests.antt =====
-- Runs of the resolvers of introspection, and the theorem about them at a concrete input. Node 0 is an
-- object with the fields `all`, a list of node 0, and `__schema`; node 1 is the list, and 2 the name of
-- the object.
use rgraphql.Prelude.{
  ℕ, zero, suc, false, String, Option, none, some, [], ◌∷◌, ◌≡◌, refl, arith, string_eq, inl, inr,
  subst, sym, ap,
}
use rgraphql.Introspect.{
  FieldDefinition, Node, Ast, SchemaResolver, ObjectResolver, type_at, object_schema, query_type,
  has_underscores, kept_fields, fields, of_type, field_type, field_name, input_type, kind,
  trim_suffix, upper, type_name, resolve_named_type,
}
use rgraphql.Introspect.Reached.{Among, IsBare, Reached, Definitions, Reached-shown}

abbrev all_field : FieldDefinition
all_field = record { name = some "all"; arguments = []; ty = 1 }

abbrev node : ℕ → Node
node zero = Node.object (all_field ∷ record { name = some "__schema"; arguments = []; ty = 2 } ∷ [])
node (suc zero) = Node.list 2
node _ = Node.other

-- The lookup strips the list.
abbrev look : ℕ → Option ℕ
look (suc zero) = some 0
look (suc (suc zero)) = some 0
look _ = none

abbrev syntax : Ast
syntax = record {
  node = node;
  get_kind = λ a. "InputObjectDefinition";
  get_name = λ a. some (some "Root");
  look = look;
  to_upper = λ c. c;
}

abbrev schema : SchemaResolver
schema = record { root_query = some 0; named_types = ("Root", 0) ∷ [] }

abbrev root : ObjectResolver
root = record { ast = 0; schema_resolver = some schema }

-- The word that is left of the kind has no underscore in it.
input_kind : kind syntax (type_at (some 0)) ≡ some "InputObject"
unfolding kind trim_suffix upper
input_kind = refl

nil_kind :
    kind syntax (input_type syntax (record { name = none; ty = 7; default_value = none })) ≡ none
unfolding kind input_type
nil_kind = refl

cached : (type_name syntax (type_name syntax (type_at (some 0))).1).0 ≡ some "Root"
unfolding type_name resolve_named_type
cached = refl

-- The field `all` is shown as the object itself.
list_lost : field_type syntax all_field ≡ some (type_at (some 0))
unfolding field_type
list_lost = refl

has_schema : object_schema root ≡ some schema
unfolding object_schema
has_schema = refl

root_query_type : query_type schema ≡ some (type_at (some 0))
unfolding query_type
root_query_type = refl

all_shown : Among all_field (fields syntax (type_at (some 0)))
unfolding fields kept_fields
all_shown = inl refl

root_bare : IsBare syntax (some 0)
root_bare b e = absurd (ground (arith))

only_root :
    (name : String) (a : ℕ)
    → Among {A = String × ℕ} (name, a) (("Root", 0) ∷ [])
    → IsBare syntax (some a)
only_root name a (inl e) =
    let at : 0 ≡ a = sym (ap (λ (x : String × ℕ). x.1) e) in
    subst (λ x. IsBare syntax (some x)) at root_bare
only_root name a (inr k) = absurd k

found_bare : (t : ℕ) → IsBare syntax (look t)
found_bare zero = tt
found_bare (suc zero) = root_bare
found_bare (suc (suc zero)) = root_bare
found_bare (suc (suc (suc t))) = tt

root-Definitions : Definitions syntax root
root-Definitions = record {
  object = root_bare;
  query = λ s e.
      let same : schema ≡ s = ground (arith, e) in
      subst (λ (x : SchemaResolver). IsBare syntax x.root_query) same root_bare;
  named = λ s name a e k.
      let same : s ≡ schema = ground (arith, e) in
      only_root name a
        (subst (λ (x : SchemaResolver). Among {A = String × ℕ} (name, a) x.named_types) same k);
  found = found_bare;
}

-- The type of the field `all` of the root query.
Reached-shown_example :
    (of_type syntax (type_at (some 0)) ≡ none)
    × ((f : FieldDefinition)
        → Among f (fields syntax (type_at (some 0)))
        → (name : String) × (field_name syntax f ≡ some name) × (has_underscores name ≡ false))
Reached-shown_example = Reached-shown syntax root (type_at (some 0)) root-Definitions (
    Reached.of_field (type_at (some 0)) (type_at (some 0)) all_field
      (Reached.root schema (type_at (some 0)) has_schema root_query_type) all_shown list_lost)
