-- ===== src/Varstore/References.antt =====
-- References: a handle keeps its variable in the store, and handles do not disturb one another.
use rgraphql.Prelude.{
  ℕ, ◌+◌, true, false, none, some, List, [], ◌∷◌, ◌≡◌, refl, arith, ◌==◌, nat_eq, nat_beq_iff,
  if◌then◌else◌, Map, lookup, insert, delete, length, get_elem?, set, lookup-nil, lookup-delete,
  get_elem?-set_self, get_elem?-set_ne, lt_of_get_elem?, Option-cases, inl, inr, ltb, not, ◌&&◌,
  Bool-cases, dec_eq,
}
use rgraphql.Varstore.{
  Variable, VariableReference, VariableStore, add_reference, get, garbage_collect, unsubscribe,
  has_references, u32,
}
use rgraphql.Varstore.Valid.{IsValid, get-IsValid}
use rgraphql.Varstore.Collect.{lookup-garbage_collect}

length-insert-pos : (k : ℕ) (m : Map ℕ (Unit {0})) → ltb 0 (length (insert k tt m)) ≡ true
unfolding insert
length-insert-pos k [] = refl
length-insert-pos k ((j, _) ∷ m) = ground arith

-- What `Get` does where the id is known.
get_hit :
    (vs : VariableStore) (id a : ℕ) (v : Variable)
    → lookup id vs.variables ≡ some a
    → get_elem? vs.heap a ≡ some v
    → (get id vs).1 ≡ some (record { ref_id = u32 (v.reference_ctr + 1); vb = a; closed = false })
unfolding get add_reference
get_hit vs id a v p q = ground arith

has_references-add_reference :
    (vs : VariableStore) (a : ℕ) (v : Variable)
    → get_elem? vs.heap a ≡ some v
    → has_references (add_reference a vs).0.heap a ≡ true
unfolding add_reference has_references
has_references-add_reference vs a v e =
    rw (e, add_reference, has_references)
      (rw (get_elem?-set_self vs.heap a _ (lt_of_get_elem? vs.heap a e))
        (length-insert-pos _ v.references))

variables-add_reference :
    (vs : VariableStore) (a : ℕ) → (add_reference a vs).0.variables ≡ vs.variables
unfolding add_reference
variables-add_reference vs a = ground arith

has_references-get :
    (vs : VariableStore) (id a : ℕ) (v : Variable)
    → lookup id vs.variables ≡ some a
    → get_elem? vs.heap a ≡ some v
    → has_references (get id vs).0.heap a ≡ true
unfolding get
has_references-get vs id a v p q = rw (p, get) (has_references-add_reference vs a v q)

variables-get : (vs : VariableStore) (id : ℕ) → (get id vs).0.variables ≡ vs.variables
unfolding get
variables-get vs id = elim (Option-cases (lookup id vs.variables)) [
  | inl e ↦ rw (e, get)
  | inr (a, e) ↦ rw (e, get) (variables-add_reference vs a)
]

lookup-kept :
    (vs : VariableStore) (id a : ℕ)
    → IsValid vs
    → lookup id vs.variables ≡ some a
    → has_references (get id vs).0.heap a ≡ true
    → lookup id (garbage_collect (get id vs).0).variables ≡ some a
lookup-kept vs id a h p q =
    ground
      (arith, (lookup-garbage_collect (get id vs).0 (get-IsValid id h)).0 id, variables-get vs id)

-- `Get` of a known id gives a handle on the variable of that id, and the variable is still in the
-- store after a collection.
pub get-garbage_collect :
    (vs : VariableStore) (id a : ℕ)
    → IsValid vs
    → lookup id vs.variables ≡ some a
    → (r : VariableReference) × ((get id vs).1 ≡ some r)
      × (r.vb ≡ a)
      × (lookup id (garbage_collect (get id vs).0).variables ≡ some a)
get-garbage_collect vs id a h p =
    let (v, at, key) = h.stored id a p in
    (
      record { ref_id = u32 (v.reference_ctr + 1); vb = a; closed = false },
      get_hit vs id a v p at,
      refl,
      lookup-kept vs id a h p (has_references-get vs id a v p at),
    )

-- The references of the variable at an address, none off the heap.
abbrev pub references_at : List Variable → ℕ → Map ℕ (Unit {0})
references_at heap a = elim (get_elem? heap a) [ none ↦ [] | some v ↦ v.references ]

references_at-set :
    (heap : List Variable) (a b : ℕ) (v w : Variable)
    → get_elem? heap a ≡ some v
    → references_at (set heap a w) b ≡ (if a == b then w.references else references_at heap b)
references_at-set heap a b v w e = elim (dec_eq a b) [
  | yes q ↦ ground (arith, nat_beq_iff a b, get_elem?-set_self heap a w (lt_of_get_elem? heap a e))
  | no q ↦ ground (arith, nat_beq_iff a b, get_elem?-set_ne heap w q)
]

-- The variable at `r.vb` with the reference of `r` deleted.
abbrev dropped : VariableReference → Variable → Variable
dropped r v = record v { references = delete r.ref_id v.references }

module _ (r : VariableReference) (vs : VariableStore) (b k : ℕ) where
  unsubscribe_dangling :
      get_elem? vs.heap r.vb ≡ none
      → lookup k (references_at (unsubscribe r vs).0.heap b) ≡ (
          if not r.closed && (r.vb == b && r.ref_id == k)
          then none
          else lookup k (references_at vs.heap b))
  unfolding unsubscribe
  unsubscribe_dangling e = ground (arith, nat_beq_iff r.vb b, lookup-nil {V = Unit {0}} k)

  unsubscribe_live :
      (v : Variable)
      → get_elem? vs.heap r.vb ≡ some v
      → lookup k (references_at (unsubscribe r vs).0.heap b) ≡ (
          if not r.closed && (r.vb == b && r.ref_id == k)
          then none
          else lookup k (references_at vs.heap b))
  unfolding unsubscribe
  unsubscribe_live v e = elim (Bool-cases r.closed) [
    | inl c ↦ rw (c, unsubscribe)
    | inr c ↦
        rw (c, e, unsubscribe)
          (rw (references_at-set vs.heap r.vb b v (dropped r v) e)
            (ground (arith, nat_beq_iff r.vb b, lookup-delete r.ref_id k v.references)))
  ]

  -- `Unsubscribe` on an open handle takes away the reference of that handle, and no other reference
  -- of any variable; on a closed handle it changes no reference. The handle is closed afterwards,
  -- and the map of variables stays as it was.
  pub unsubscribe_lem :
      (lookup k (references_at (unsubscribe r vs).0.heap b) ≡ (
        if not r.closed && (r.vb == b && r.ref_id == k)
        then none
        else lookup k (references_at vs.heap b)))
      × ((unsubscribe r vs).1.closed ≡ true)
      × ((unsubscribe r vs).0.variables ≡ vs.variables)
  unfolding unsubscribe
  unsubscribe_lem = (
    elim (Option-cases (get_elem? vs.heap r.vb)) [
      | inl e ↦ unsubscribe_dangling e
      | inr (v, e) ↦ unsubscribe_live v e
    ],
    ground arith,
    ground arith,
  )
