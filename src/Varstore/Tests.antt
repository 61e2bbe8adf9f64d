-- ===== src/Varstore/Tests.antt =====
-- Runs of the variable store, and its theorems at concrete stores.
use rgraphql.Prelude.{
  Map, IsMap, nat_beq_iff, ◌⊎◌, ℕ, Bool, true, false, Option, none, some, [], ◌∷◌, ◌≡◌, ◌≢◌, refl,
  arith, lookup, insert, delete, nat_eq, ◌&&◌, not, ◌==◌, if◌then◌else◌,
}
use rgraphql.Types.Primitive.{ℤ, Primitive, new_int_primitive, new_float_primitive}
use rgraphql.Types.PrimEquiv.{is_prim_equiv}
use rgraphql.Varstore.{
  AstVariable, VariableReference, VariableStore, HandlerCall, new_variable_store, put, get,
  get_or_put_with_value, garbage_collect, unsubscribe, add_variable, add_reference, find_equiv,
  sweep, has_references, get_value, get_var_id, value_at,
}
use rgraphql.Varstore.Valid
use rgraphql.Varstore.References
use rgraphql.Varstore.Sharing
use rgraphql.Varstore.Collect
use rgraphql.Varstore.Allocation

program : Unit {0}
unfolding new_variable_store put get get_or_put_with_value garbage_collect unsubscribe add_variable
    add_reference find_equiv sweep has_references get_value get_var_id value_at is_prim_equiv
    new_int_primitive new_float_primitive lookup insert delete
program = tt

abbrev int_prim : ℕ → Option Primitive
int_prim n = some (new_int_primitive (ℤ.pos n))

abbrev differ : ℕ → Bool
differ a = false

-- A client store whose handler has been told of one variable.
abbrev one : VariableStore
one = put (record { id = 7; value = int_prim 5 }) (new_variable_store (some []))

one_runs :
    (one.next_id ≡ 8)
    × (lookup 7 one.variables ≡ some 0)
    × (one.handler ≡ some (HandlerCall.added 0 ∷ []))
unfolding program
one_runs = (refl, refl, refl)

one-IsValid : Valid.IsValid one
one-IsValid =
    Valid.put-IsValid (record { id = 7; value = int_prim 5 })
      (Valid.new_variable_store-IsValid (some []))

-- A second handle on an equal value, and a collection after both are closed.
shared_runs :
    (let first = get_or_put_with_value differ (int_prim 5) one in
      (first.1 ≡ some (record { ref_id = 1; vb = 0; closed = false }))
      × ((garbage_collect first.0).variables ≡ (7, 0) ∷ [])
      × ((garbage_collect
            (unsubscribe (record { ref_id = 1; vb = 0; closed = false }) first.0).0).variables
          ≡ []))
unfolding program
shared_runs = (refl, refl, refl)

put-IsValid_example : Valid.IsValid (put (record { id = 7; value = none }) one)
put-IsValid_example = Valid.put-IsValid (record { id = 7; value = none }) one-IsValid

get_or_put_with_value-IsValid_example :
    Valid.IsValid (get_or_put_with_value differ (int_prim 6) one).0
get_or_put_with_value-IsValid_example =
    Valid.get_or_put_with_value-IsValid differ (int_prim 6) one-IsValid

lookup-garbage_collect_example :
    ((k : ℕ)
      → lookup k (garbage_collect one).variables
        ≡ Collect.survives (has_references one.heap) (lookup k one.variables))
    × ((garbage_collect one).heap ≡ one.heap)
    × ((garbage_collect one).next_id ≡ one.next_id)
lookup-garbage_collect_example = Collect.lookup-garbage_collect one one-IsValid

lookup_one : lookup 7 one.variables ≡ some 0
unfolding program
lookup_one = refl

get-garbage_collect_example :
    (r : VariableReference) × ((get 7 one).1 ≡ some r)
    × (r.vb ≡ 0)
    × (lookup 7 (garbage_collect (get 7 one).0).variables ≡ some 0)
get-garbage_collect_example = References.get-garbage_collect one 7 0 one-IsValid lookup_one

abbrev handle : VariableReference
handle = record { ref_id = 1; vb = 0; closed = false }

unsubscribe_lem_example :
    (lookup 1 (References.references_at (unsubscribe handle one).0.heap 0) ≡ (
      if not handle.closed && (handle.vb == 0 && handle.ref_id == 1)
      then none
      else lookup 1 (References.references_at one.heap 0)))
    × ((unsubscribe handle one).1.closed ≡ true)
    × ((unsubscribe handle one).0.variables ≡ one.variables)
unsubscribe_lem_example = References.unsubscribe_lem handle one 0 1

int_equiv : is_prim_equiv false (int_prim 5) (int_prim 5) ≡ true
unfolding program
int_equiv = refl

abbrev two : VariableStore
two = put (record { id = 9; value = int_prim 6 }) one

two-IsValid : Valid.IsValid two
two-IsValid = Valid.put-IsValid (record { id = 9; value = int_prim 6 }) one-IsValid

-- The map of `two` in another order.
abbrev reordered : Map ℕ ℕ
reordered = (9, 1) ∷ (7, 0) ∷ []

reordered-IsMap : IsMap reordered
unfolding program
reordered-IsMap = (refl, (refl, tt))

reordered-agrees :
    (k : ℕ)
    → lookup k reordered ≡ lookup k (get_or_put_with_value differ (int_prim 5) two).0.variables
unfolding program
reordered-agrees k = ground (arith, nat_beq_iff 9 k, nat_beq_iff 7 k)

get_or_put_with_value_twice_example :
    let first = get_or_put_with_value differ (int_prim 5) two in
    let again =
      get_or_put_with_value differ (int_prim 5) (record first.0 { variables = reordered }) in
    (r s : VariableReference) × (j k : ℕ) × (first.1 ≡ some r)
    × (again.1 ≡ some s)
    × (again.0.variables ≡ reordered)
    × (lookup j first.0.variables ≡ some r.vb)
    × (lookup k first.0.variables ≡ some s.vb)
    × (is_prim_equiv (differ r.vb) (int_prim 5) (get_value r first.0) ≡ true)
    × (is_prim_equiv (differ s.vb) (int_prim 5) (get_value s first.0) ≡ true)
    × ((s.vb ≡ r.vb)
        ⊎ ((i a : ℕ) × (lookup i two.variables ≡ some a)
            × (is_prim_equiv (differ a) (int_prim 5) (value_at two.heap a) ≡ true)))
get_or_put_with_value_twice_example =
    Sharing.get_or_put_with_value_twice differ (int_prim 5) two reordered two-IsValid int_equiv
      reordered-IsMap reordered-agrees

new-IsBelow : Allocation.IsBelow (new_variable_store none)
unfolding program
new-IsBelow = record { below = λ k a p. ground arith; room = omega arith }

get_or_put_with_value-IsBelow_example :
    ((k a : ℕ)
      → lookup k (new_variable_store none).variables ≡ some a
      → lookup k (get_or_put_with_value differ (int_prim 5) (new_variable_store none)).0.variables
        ≡ some a)
    × Allocation.IsBelow (get_or_put_with_value differ (int_prim 5) (new_variable_store none)).0
unfolding program
get_or_put_with_value-IsBelow_example =
    Allocation.get_or_put_with_value-IsBelow differ (int_prim 5) (new_variable_store none)
      new-IsBelow (omega arith)

-- Variable 1 of a fresh store is replaced by the first new value.
abbrev first_id : AstVariable
first_id = record { id = 1; value = int_prim 5 }

fresh_value :
    find_equiv differ
      (int_prim 6)
      (put first_id (new_variable_store none)).heap
      (put first_id (new_variable_store none)).variables
    ≡ none
unfolding program
fresh_value = refl

put_next_id_replaced_example :
    ((put first_id (new_variable_store none)).next_id ≡ first_id.id)
    × (lookup first_id.id
          (get_or_put_with_value differ
            (int_prim 6)
            (put first_id (new_variable_store none))).0.variables
        ≢ lookup first_id.id (put first_id (new_variable_store none)).variables)
unfolding program
put_next_id_replaced_example =
    Allocation.put_next_id_replaced differ (int_prim 6) first_id (new_variable_store none)
      (Valid.new_variable_store-IsValid none) refl fresh_value
