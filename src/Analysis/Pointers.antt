-- ===== src/Analysis/Pointers.antt =====
-- What `buildResolver` does with an object that is bound to a pointer.
use rgraphql.Prelude.{
  ℕ, suc, Bool, true, false, String, none, some, List, [], ◌∷◌, ◌≡◌, refl, arith, lookup, nat_eq,
  string_eq, Option-cases, inl, inr,
}
use rgraphql.Analysis.{
  FieldDefinition, AstNode, Func, GoType, Program, Pair, pair_eq, ObjectResolver, BuildError,
  Builder, done, failed, remember, M, ◌>>=◌,
}
use rgraphql.Analysis.Args.{find_resolver_func}
use rgraphql.Analysis.Build.{
  build_field, build_fields, resolved_name, build_object, build_object_at, build_node,
  build_resolver,
}

-- Whether a field is not skipped.
abbrev any_resolved : Program → List FieldDefinition → Bool
any_resolved p [] = false
any_resolved p (field ∷ more) = elim (resolved_name p field) [
  | none ↦ any_resolved p more
  | some name ↦ true
]

pointer_refused :
    (p : Program) (rec : Pair → M ℕ) (ty elem a : ℕ) (fields : List FieldDefinition)
    (o : ObjectResolver) (s : Builder)
    → p.go ty ≡ GoType.pointer elem
    → any_resolved p fields ≡ true
    → build_fields p rec ty a fields o s ≡ failed BuildError.expected_named
unfolding build_fields build_field find_resolver_func
pointer_refused p rec ty elem a [] o s e h = absurd (ground (arith))
pointer_refused p rec ty elem a (field ∷ more) o s e h =
    elim (Option-cases (resolved_name p field)) [
      | inl g ↦ rw (g, build_fields) (pointer_refused p rec ty elem a more o s e (ground (arith)))
      | inr (name, g) ↦ rw (g, build_fields, e, build_field, find_resolver_func) refl
    ]

bind_failed :
    {A B : Type 0} (m : M A) (k : A → M B) (s : Builder) (e : BuildError)
    → m s ≡ failed e
    → (m >>= k) s ≡ failed e
bind_failed m k s e h = rw (h, ◌>>=◌) refl

object_refused :
    (p : Program) (rec : Pair → M ℕ) (pair : Pair) (elem : ℕ) (name path type : String)
    (methods : List Func) (fields : List FieldDefinition) (s : Builder)
    → any_resolved p fields ≡ true
    → p.go pair.resolver_type ≡ GoType.pointer elem
    → p.go elem ≡ GoType.named (some path) type methods
    → build_object p rec pair (some name) fields s ≡ failed BuildError.expected_named
unfolding build_object build_object_at
object_refused p rec pair elem name path type methods fields s has is_pointer is_named =
    rw (is_pointer, is_named, build_object)
      (pointer_refused p rec pair.resolver_type elem s.next fields _ _ is_pointer has)

-- An object with a field to resolve, that is bound to a pointer to a named type and has no resolver yet,
-- is refused, in any state of the builder: `buildObjectResolver` does find the named type behind the
-- pointer, and `findResolverFunc` then looks for the methods on the pointer itself and finds that it is
-- not a named type.
pub build_resolver-pointer :
    (p : Program) (f : ℕ) (pair : Pair) (elem : ℕ) (name path type : String) (methods : List Func)
    (fields : List FieldDefinition) (s : Builder)
    → lookup pair s.resolvers ≡ none
    → p.ast pair.ast_type ≡ AstNode.object (some name) fields
    → any_resolved p fields ≡ true
    → p.go pair.resolver_type ≡ GoType.pointer elem
    → p.go elem ≡ GoType.named (some path) type methods
    → build_resolver p (suc f) pair s ≡ failed BuildError.expected_named
unfolding build_resolver build_node
build_resolver-pointer p f pair elem name path type methods fields s new view has is_pointer
      is_named =
    rw (new, build_resolver, view, build_node)
      (bind_failed (build_object p (build_resolver p f) pair (some name) fields)
        (λ a s1. done a (remember pair a s1)) s BuildError.expected_named
        (object_refused p (build_resolver p f) pair elem name path type methods fields s has
          is_pointer is_named))
