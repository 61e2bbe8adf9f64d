-- ===== src/Varstore/Valid.antt =====
-- The invariant of the variable store, and that every method keeps it.
use rgraphql.Prelude.{
  ℕ, Bool, Option, some, List, [], ◌∷◌, ◌≡◌, refl, ◌∙◌, arith, nat_eq, Map, IsMap, lookup, delete,
  length, get_elem?, set, lookup-insert, lookup-delete, insert-IsMap, delete-IsMap,
  get_elem?-append_left, get_elem?-append_end, get_elem?-set_self, get_elem?-set_ne,
  lt_of_get_elem?, Option-cases, inl, inr, Bool-cases, dec_eq,
}
use rgraphql.Types.Primitive.{Primitive}
use rgraphql.Varstore.{
  AstVariable, Variable, VariableStore, HandlerCall, new_variable, new_variable_store, add_variable,
  put, add_reference, get, find_equiv, get_or_put_with_value, sweep, garbage_collect,
  has_references,
}

-- The map has no key twice, and the variable that it holds for an id is on the heap and has that id.
pub record IsValid (vs : VariableStore) : Type 0 where
  pub distinct : IsMap vs.variables
  pub stored :
      (k a : ℕ)
      → lookup k vs.variables ≡ some a
      → (v : Variable) × (get_elem? vs.heap a ≡ some v) × (v.ast.id ≡ k)

-- The new store is valid and empty.
pub new_variable_store-IsValid : (h : Option (List HandlerCall)) → IsValid (new_variable_store h)
unfolding new_variable_store lookup
new_variable_store-IsValid h = record { distinct = tt; stored = λ k a e. absurd (ground arith) }

-- Writing a variable back with its id unchanged keeps what the map says.
set-IsValid :
    {vs : VariableStore} (a : ℕ) (v w : Variable)
    → IsValid vs
    → get_elem? vs.heap a ≡ some v
    → w.ast.id ≡ v.ast.id
    → IsValid (record vs { heap = set vs.heap a w })
set-IsValid {vs} a v w h e same = record {
  distinct = h.distinct;
  stored = λ k b p.
      let (x, at, key) = h.stored k b p in
      elim (dec_eq a b) [
        | yes q ↦ (
          w,
          rw (← q) (get_elem?-set_self vs.heap a w (lt_of_get_elem? vs.heap a e)),
          ground arith,
        )
        | no q ↦ (x, rw (get_elem?-set_ne vs.heap w q) at, key)
      ];
}

pub add_variable-IsValid :
    {vs : VariableStore} (varb : AstVariable) → IsValid vs → IsValid (add_variable varb vs)
unfolding add_variable
add_variable-IsValid {vs} varb h = record {
  distinct = insert-IsMap varb.id (length vs.heap) vs.variables h.distinct;
  stored = λ k a p. elim (dec_eq varb.id k) [
    | yes q ↦ (
      new_variable varb,
      ground (
        arith,
        lookup-insert varb.id k (length vs.heap) vs.variables,
        get_elem?-append_end vs.heap (new_variable varb),
      ),
      q,
    )
    | no q ↦
        let (v, at, key) =
          h.stored k a (ground (arith, lookup-insert varb.id k (length vs.heap) vs.variables)) in
        (
          v,
          get_elem?-append_left vs.heap (new_variable varb ∷ []) a (lt_of_get_elem? vs.heap a at)
              ∙ at,
          key,
        )
  ];
}

-- `Put` keeps the store valid: no id twice in the map, and each id leads to the variable on the
-- heap that has it.
pub put-IsValid : {vs : VariableStore} (varb : AstVariable) → IsValid vs → IsValid (put varb vs)
unfolding put
put-IsValid {vs} varb h = elim (Option-cases (lookup varb.id vs.variables)) [
  | inl e ↦
      rw (e, put)
        (record {
          distinct = (add_variable-IsValid varb h).distinct;
          stored = (add_variable-IsValid varb h).stored;
        })
  | inr (a, e) ↦ rw (e, put) (record { distinct = h.distinct; stored = h.stored })
]

-- `AddReference` keeps the invariant.
pub add_reference-IsValid :
    {vs : VariableStore} (a : ℕ) → IsValid vs → IsValid (add_reference a vs).0
unfolding add_reference
add_reference-IsValid {vs} a h = elim (Option-cases (get_elem? vs.heap a)) [
  | inl e ↦ rw (e, add_reference) h
  | inr (v, e) ↦ rw (e, add_reference) (set-IsValid a v _ h e refl)
]

-- `Get` keeps the invariant.
pub get-IsValid : {vs : VariableStore} (id : ℕ) → IsValid vs → IsValid (get id vs).0
unfolding get
get-IsValid {vs} id h = elim (Option-cases (lookup id vs.variables)) [
  | inl e ↦ rw (e, get) h
  | inr (a, e) ↦ rw (e, get) (add_reference-IsValid a h)
]

-- `GetOrPutWithValue` keeps the store valid.
pub get_or_put_with_value-IsValid :
    {vs : VariableStore} (same : ℕ → Bool) (val : Option Primitive)
    → IsValid vs
    → IsValid (get_or_put_with_value same val vs).0
unfolding get_or_put_with_value
get_or_put_with_value-IsValid {vs} same val h =
    elim (Option-cases (find_equiv same val vs.heap vs.variables)) [
      | inl e ↦
          rw (e, get_or_put_with_value)
            (add_reference-IsValid (length vs.heap) (
              add_variable-IsValid (record { id = vs.next_id; value = val })
                (record { distinct = h.distinct; stored = h.stored })))
      | inr (a, e) ↦ rw (e, get_or_put_with_value) (add_reference-IsValid a h)
    ]

remove-IsValid :
    {vs : VariableStore} (id : ℕ) (calls : Option (List HandlerCall))
    → IsValid vs
    → IsValid (record vs { variables = delete id vs.variables; handler = calls })
remove-IsValid {vs} id calls h = record {
  distinct = delete-IsMap id vs.variables h.distinct;
  stored = λ k a p. h.stored k a (ground (arith, lookup-delete id k vs.variables));
}

sweep-IsValid : (m : Map ℕ ℕ) {vs : VariableStore} → IsValid vs → IsValid (sweep m vs)
unfolding sweep
sweep-IsValid [] h = h
sweep-IsValid ((id, a) ∷ m) {vs} h = elim (Bool-cases (has_references vs.heap a)) [
  | inl e ↦ rw e (sweep-IsValid m h)
  | inr e ↦ rw e (sweep-IsValid m (remove-IsValid id _ h))
]

-- `GarbageCollect` keeps the invariant.
pub garbage_collect-IsValid : {vs : VariableStore} → IsValid vs → IsValid (garbage_collect vs)
unfolding garbage_collect
garbage_collect-IsValid {vs} h = sweep-IsValid vs.variables h
