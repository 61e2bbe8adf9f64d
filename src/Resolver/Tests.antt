-- ===== src/Resolver/Tests.antt =====
-- Runs of the resolver contexts and of the observable, and the theorems about them at concrete inputs.
use rgraphql.Prelude.{
  ℕ, String, Bool, true, false, none, some, List, [], ◌∷◌, ◌++◌, map, ◌≡◌, refl, arith, lookup,
  nat_eq, nat_beq_iff, ◌==◌, if◌then◌else◌,
}
use rgraphql.Resolver.Value.{RgqlValue, zero_value, build_bool_value}
use rgraphql.Resolver.Context.{Context, Contexts, done, nil_read, child_of, base_child, write_value}
use rgraphql.Resolver.Context.Shape.{IsValid, base_child-IsValid, write_value-nearest}
use rgraphql.Resolver.Context.Final.{first_of_two, first_child_finishes_parent}
use rgraphql.Resolver.Object.{Update, resolve_object}
use rgraphql.Resolver.Object.Active.{Ends, IsOff, Resolves, resolve_object-Resolves}
use rgraphql.Resolver.Object.Process.{with_updates, with_children}
use rgraphql.Resolver.Observable.{Observable, set_value, set_loop, last_first, count, set_value_lem}

abbrev top : Context
top = record {
  qnode = 0;
  path_parent = none;
  path_component = none;
  is_final = false;
  active_children = 0;
  canceled = false;
}

abbrev one : Contexts
one = record { contexts = (0, top) ∷ []; next = 1; written = [] }

abbrev component : ℕ → RgqlValue
component id = record zero_value { query_node_id = id }

abbrev field : Context
field = child_of 0 top (some (component 7))

abbrev just_field : Contexts
just_field = record { contexts = (0, field) ∷ []; next = 1; written = [] }

one-IsValid : IsValid one
unfolding lookup
one-IsValid = record {
  parents = λ c x at. ground (arith, nat_beq_iff 0 c);
  used = λ c x at. ground (arith, nat_beq_iff 0 c);
}

base_child-IsValid_example : IsValid (base_child 0 top (some (component 7)) one).0
unfolding lookup
base_child-IsValid_example = base_child-IsValid one 0 top (some (component 7)) one-IsValid refl

write_value-nearest_example :
    write_value 2 (some 0) (build_bool_value true) false one ≡ nil_read one
unfolding lookup
write_value-nearest_example = write_value-nearest one 0 top (build_bool_value true) one-IsValid refl

first_child_finishes_parent_example :
    (s' : Contexts) × (parent : Context) × (second : Context) × (first_of_two 2 0 field
        (some (component 8))
        (some (component 9))
        just_field
      ≡ done s')
    × (lookup 0 s'.contexts ≡ some parent)
    × (parent.is_final ≡ true)
    × (lookup 2 s'.contexts ≡ some second)
    × (second.is_final ≡ false)
unfolding lookup
first_child_finishes_parent_example =
    first_child_finishes_parent 0 field (component 8) (component 9) just_field (component 7) refl
      refl refl refl (omega arith)

-- Three subscriptions, of which the first two are canceled.
abbrev three : Observable Bool
three = record { val = none; subs = 1 ∷ 2 ∷ 3 ∷ []; emitted = [] }

abbrev first_two : ℕ → Bool
first_two s = elim (s == 3) [ true ↦ false | false ↦ true ]

set_run :
    set_value first_two (some true) three
    ≡ some (record { val = some true; subs = 3 ∷ []; emitted = (3, some true) ∷ [] })
unfolding set_value set_loop last_first
set_run = refl

set_value_lem_example :
    (kept : List ℕ) × (set_value first_two (some true) three
      ≡ some
          (record { val = some true; subs = kept; emitted = [] ++ map (λ s. (s, some true)) kept }))
    × ((k : ℕ) → count k kept ≡ (if first_two k then 0 else count k (1 ∷ 2 ∷ 3 ∷ [])))
set_value_lem_example = set_value_lem first_two (some true) three

abbrev all_fields : String → Bool
all_fields name = true

abbrev some_updates : List Update
some_updates =
    Update.add_child (record { id = 8; field_name = "b" })
    ∷ Update.del_child 7
    ∷ Update.error
    ∷ Update.deleted
    ∷ []

top_at : lookup 0 one.contexts ≡ some top
unfolding lookup
top_at = refl

resolve_object-Resolves_example :
    Ends
      (Resolves 0 (λ id.
        with_updates all_fields id some_updates
          (with_children all_fields id (record { id = 7; field_name = "a" } ∷ []) false)))
      (IsOff 0)
      (resolve_object all_fields 0 top (record { id = 7; field_name = "a" } ∷ []) some_updates one)
resolve_object-Resolves_example =
    resolve_object-Resolves all_fields 0 top (record { id = 7; field_name = "a" } ∷ []) some_updates
      one one-IsValid.used top_at
