-- ===== src/Varstore/Allocation.antt =====
-- Which ids the store gives to new variables.
use rgraphql.Prelude.{
  ℕ, ◌+◌, ◌<◌, Bool, Option, none, some, ◌≡◌, ◌≢◌, refl, arith, ◌==◌, nat_eq, nat_beq_iff,
  if◌then◌else◌, lookup, length, lookup-insert, lt_of_get_elem?, Option-cases, inl, inr,
}
use rgraphql.Types.Primitive.{Primitive}
use rgraphql.Varstore.{
  AstVariable, VariableStore, add_variable, add_reference, put, find_equiv, get_or_put_with_value,
  u32,
}
use rgraphql.Varstore.Valid.{IsValid, put-IsValid}
use rgraphql.Varstore.Sharing.{variables-add_reference}

-- A value for when the search finds nothing, and one for when it finds a variable.
abbrev by_search {ℓ} : {A : Type ℓ} → Option ℕ → A → A → A
by_search none new old = new
by_search (some a) new old = old

next_id-add_reference : (vs : VariableStore) (a : ℕ) → (add_reference a vs).0.next_id ≡ vs.next_id
unfolding add_reference
next_id-add_reference vs a = ground arith

module _ (same : ℕ → Bool) (val : Option Primitive) (vs : VariableStore) where
  lookup-get_or_put_with_value :
      (k : ℕ)
      → lookup k (get_or_put_with_value same val vs).0.variables
        ≡ by_search
            (find_equiv same val vs.heap vs.variables)
            (if vs.next_id == k then some (length vs.heap) else lookup k vs.variables)
            (lookup k vs.variables)
  unfolding get_or_put_with_value add_variable
  lookup-get_or_put_with_value k = elim (Option-cases (find_equiv same val vs.heap vs.variables)) [
    | inl e ↦
        rw (e, get_or_put_with_value)
          (rw variables-add_reference (lookup-insert vs.next_id k (length vs.heap) vs.variables))
    | inr (a, e) ↦ rw (e, get_or_put_with_value) (rw variables-add_reference refl)
  ]

  next_id-get_or_put_with_value :
      (get_or_put_with_value same val vs).0.next_id
      ≡ by_search (find_equiv same val vs.heap vs.variables) (u32 (vs.next_id + 1)) vs.next_id
  unfolding get_or_put_with_value add_variable
  next_id-get_or_put_with_value = elim (Option-cases (find_equiv same val vs.heap vs.variables)) [
    | inl e ↦ rw (e, get_or_put_with_value) (next_id-add_reference _ _)
    | inr (a, e) ↦ rw (e, get_or_put_with_value) (next_id-add_reference _ _)
  ]

-- Every id in the map is below the next one, and the next one has not wrapped.
pub record IsBelow (vs : VariableStore) : Type 0 where
  pub below : (k a : ℕ) → lookup k vs.variables ≡ some a → k < vs.next_id
  pub room : vs.next_id < 4294967296

-- While every id is below the next one, `GetOrPutWithValue` keeps every variable that is in the
-- map, and, with an id to spare, the ids stay below the next one.
pub get_or_put_with_value-IsBelow :
    (same : ℕ → Bool) (val : Option Primitive) (vs : VariableStore)
    → IsBelow vs
    → vs.next_id + 1 < 4294967296
    → ((k a : ℕ)
        → lookup k vs.variables ≡ some a
        → lookup k (get_or_put_with_value same val vs).0.variables ≡ some a)
      × IsBelow (get_or_put_with_value same val vs).0
get_or_put_with_value-IsBelow same val vs h spare = (
  λ k a p.
      ground
        (arith, lookup-get_or_put_with_value same val vs k, h.below k a, nat_beq_iff vs.next_id k),
  record {
    below = λ k a p. ground (
      arith,
      lookup-get_or_put_with_value same val vs k,
      next_id-get_or_put_with_value same val vs,
      h.below k a,
      nat_beq_iff vs.next_id k,
    );
    room = ground (arith, next_id-get_or_put_with_value same val vs, h.room);
  },
)

-- `Put` keeps every variable that is in the map, and keeps the ids below the next one, but for an
-- id that is the next one itself or the largest there is.
put-IsBelow :
    (varb : AstVariable) (vs : VariableStore)
    → IsBelow vs
    → varb.id ≢ vs.next_id
    → varb.id + 1 < 4294967296
    → ((k a : ℕ) → lookup k vs.variables ≡ some a → lookup k (put varb vs).variables ≡ some a)
      × IsBelow (put varb vs)
unfolding put add_variable
put-IsBelow varb vs h other small = (
  λ k a p.
      ground (arith, lookup-insert varb.id k (length vs.heap) vs.variables, nat_beq_iff varb.id k),
  record {
    below = λ k a p. ground (
      arith,
      lookup-insert varb.id k (length vs.heap) vs.variables,
      h.below k a,
      h.below varb.id a,
      nat_beq_iff varb.id k,
    );
    room = ground (arith, h.room);
  },
)

next_id-put :
    (varb : AstVariable) (vs : VariableStore)
    → varb.id ≡ vs.next_id
    → (put varb vs).next_id ≡ varb.id
unfolding put add_variable
next_id-put varb vs e = ground arith

lookup-put :
    (varb : AstVariable) (vs : VariableStore)
    → (a : ℕ) × (lookup varb.id (put varb vs).variables ≡ some a)
unfolding put add_variable
lookup-put varb vs = elim (Option-cases (lookup varb.id vs.variables)) [
  | inl e ↦ (
    length vs.heap,
    ground (
      arith,
      lookup-insert varb.id varb.id (length vs.heap) vs.variables,
      nat_beq_iff varb.id varb.id,
    ),
  )
  | inr (a, e) ↦ (a, ground arith)
]

-- A variable that is put under the next id itself leaves the next id where it is, so the next new
-- value takes the same id and replaces the variable in the map.
pub put_next_id_replaced :
    (same : ℕ → Bool) (val : Option Primitive) (varb : AstVariable) (vs : VariableStore)
    → IsValid vs
    → varb.id ≡ vs.next_id
    → find_equiv same val (put varb vs).heap (put varb vs).variables ≡ none
    → ((put varb vs).next_id ≡ varb.id)
      × (lookup varb.id (get_or_put_with_value same val (put varb vs)).0.variables
          ≢ lookup varb.id (put varb vs).variables)
put_next_id_replaced same val varb vs h here fresh =
    let (a, p) = lookup-put varb vs in
    let (v, at, _) = (put-IsValid varb h).stored varb.id a p in
    (
      next_id-put varb vs here,
      λ e. ground (
        arith,
        lookup-get_or_put_with_value same val (put varb vs) varb.id,
        next_id-put varb vs here,
        nat_beq_iff varb.id varb.id,
        lt_of_get_elem? (put varb vs).heap a at,
      ),
    )
