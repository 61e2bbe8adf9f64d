-- ===== src/Varstore/Sharing.antt =====
-- De-duplication: equivalent values share one variable.
use rgraphql.Prelude.{
  ◌==◌, sym, ap, ◌⊎◌, lookup-insert, ℕ, ◌+◌, ◌<◌, Bool, true, false, Option, none, some, List, [],
  ◌∷◌, ◌++◌, ◌≡◌, refl, arith, ◌∙◌, nat_eq, nat_beq_iff, Map, IsMap, lookup, insert, length,
  get_elem?, set, get_elem?-append_left, get_elem?-append_end, get_elem?-set_self, get_elem?-set_ne,
  lt_of_get_elem?, Option-cases, inl, inr, Bool-cases, dec_eq,
}
use rgraphql.Types.Primitive.{Primitive}
use rgraphql.Types.PrimEquiv.{is_prim_equiv}
use rgraphql.Varstore.{
  Variable, VariableReference, VariableStore, new_variable, add_variable, add_reference, value_at,
  find_equiv, get_or_put_with_value, u32, get_value,
}
use rgraphql.Varstore.Valid.{IsValid, add_variable-IsValid, get_or_put_with_value-IsValid}

-- A variable that the search finds is in the map, and holds an equivalent value.
find_equiv_sound :
    (same : ℕ → Bool) (val : Option Primitive) (heap : List Variable) (m : Map ℕ ℕ) (a : ℕ)
    → IsMap m
    → find_equiv same val heap m ≡ some a
    → (k : ℕ) × (lookup k m ≡ some a) × (is_prim_equiv (same a) val (value_at heap a) ≡ true)
unfolding find_equiv lookup
find_equiv_sound same val heap [] a d h = cc
find_equiv_sound same val heap ((id, b) ∷ m) a d h =
    elim (Bool-cases (is_prim_equiv (same b) val (value_at heap b))) [
      | inl e ↦ (id, ground (arith, nat_beq_iff id id), ground arith)
      | inr e ↦
          let (k, p, q) = find_equiv_sound same val heap m a d.1 (ground arith) in
          (k, ground (arith, nat_beq_iff id k), q)
    ]

-- A search over heaps that hold the same values for the entries has one result.
find_equiv_congr :
    (same : ℕ → Bool) (val : Option Primitive) (heap heap' : List Variable) (m : Map ℕ ℕ)
    → ((k a : ℕ) → lookup k m ≡ some a → value_at heap' a ≡ value_at heap a)
    → IsMap m
    → find_equiv same val heap' m ≡ find_equiv same val heap m
unfolding find_equiv lookup
find_equiv_congr same val heap heap' [] h d = refl
find_equiv_congr same val heap heap' ((id, a) ∷ m) h d =
    let rest =
      find_equiv_congr same val heap heap' m (λ k b p. h k b (ground (arith, nat_beq_iff id k)))
        d.1 in
    ground (arith, h id a (ground (arith, nat_beq_iff id id)), rest)

-- If no old entry is equivalent, a new entry that is gets found.
find_equiv-insert :
    (same : ℕ → Bool) (val : Option Primitive) (heap : List Variable) (m : Map ℕ ℕ) (id a : ℕ)
    → find_equiv same val heap m ≡ none
    → is_prim_equiv (same a) val (value_at heap a) ≡ true
    → find_equiv same val heap (insert id a m) ≡ some a
unfolding find_equiv insert
find_equiv-insert same val heap [] id a h e = ground arith
find_equiv-insert same val heap ((k, b) ∷ m) id a h e =
    ground (arith, find_equiv-insert same val heap m id a)

value_at-set :
    (heap : List Variable) (a b : ℕ) (v w : Variable)
    → get_elem? heap a ≡ some v
    → w.ast.value ≡ v.ast.value
    → value_at (set heap a w) b ≡ value_at heap b
unfolding value_at
value_at-set heap a b v w e same = elim (dec_eq a b) [
  | yes q ↦ ground (arith, get_elem?-set_self heap a w (lt_of_get_elem? heap a e))
  | no q ↦ ground (arith, get_elem?-set_ne heap w q)
]

value_at-add_reference :
    (vs : VariableStore) (a b : ℕ) → value_at (add_reference a vs).0.heap b ≡ value_at vs.heap b
unfolding add_reference
value_at-add_reference vs a b = elim (Option-cases (get_elem? vs.heap a)) [
  | inl e ↦ rw (e, add_reference)
  | inr (v, e) ↦ rw (e, add_reference) (value_at-set vs.heap a b v _ e refl)
]

pub variables-add_reference :
    (vs : VariableStore) (a : ℕ) → (add_reference a vs).0.variables ≡ vs.variables
unfolding add_reference
variables-add_reference vs a = ground arith

-- A reference to a variable on the heap, and the variable is still there.
add_reference_hit :
    (vs : VariableStore) (a : ℕ) (v : Variable)
    → get_elem? vs.heap a ≡ some v
    → (r : VariableReference) × ((add_reference a vs).1 ≡ some r)
      × (r.vb ≡ a)
      × ((w : Variable) × (get_elem? (add_reference a vs).0.heap a ≡ some w))
unfolding add_reference
add_reference_hit vs a v e = (
  record { ref_id = u32 (v.reference_ctr + 1); vb = a; closed = false },
  rw (e, add_reference),
  refl,
  (
    record v {
      reference_ctr = u32 (v.reference_ctr + 1);
      references = insert (u32 (v.reference_ctr + 1)) tt v.references;
    },
    rw (e, add_reference) (get_elem?-set_self vs.heap a _ (lt_of_get_elem? vs.heap a e)),
  ),
)

-- The store and the search after a reference is added to the variable that the search finds.
find_equiv-add_reference :
    (same : ℕ → Bool) (val : Option Primitive) (vs : VariableStore) (a : ℕ)
    → IsMap vs.variables
    → find_equiv same val (add_reference a vs).0.heap (add_reference a vs).0.variables
      ≡ find_equiv same val vs.heap vs.variables
find_equiv-add_reference same val vs a d = rw (variables-add_reference vs a) (
    find_equiv_congr same val vs.heap (add_reference a vs).0.heap vs.variables
      (λ k b p. value_at-add_reference vs a b) d)

-- What a successful `GetOrPutWithValue` promises of the store `vs` that it leaves.
pub record Shares (same : ℕ → Bool) (val : Option Primitive) (vs : VariableStore)
    (o : Option VariableReference) : Type 0 where
  pub handle : VariableReference
  pub returned : o ≡ some handle
  pub equivalent : is_prim_equiv (same handle.vb) val (get_value handle vs) ≡ true
  pub found : find_equiv same val vs.heap vs.variables ≡ some handle.vb
  pub live : (v : Variable) × (get_elem? vs.heap handle.vb ≡ some v)

Shares-found :
    (same : ℕ → Bool) (val : Option Primitive) (vs : VariableStore) (a : ℕ) (v : Variable)
    → IsMap vs.variables
    → find_equiv same val vs.heap vs.variables ≡ some a
    → get_elem? vs.heap a ≡ some v
    → Shares same val (add_reference a vs).0 (add_reference a vs).1
unfolding get_value
Shares-found same val vs a v d p e =
    let (r, got, at, live) = add_reference_hit vs a v e in
    let (k, _, eqv) = find_equiv_sound same val vs.heap vs.variables a d p in
    record {
      handle = r;
      returned = got;
      equivalent = rw (at, value_at-add_reference vs a a) eqv;
      found = rw (at, find_equiv-add_reference same val vs a d) p;
      live = rw at live;
    }

-- The store with the new variable in it, before the reference is added.
abbrev minted : Option Primitive → VariableStore → VariableStore
minted val vs =
    add_variable (record { id = vs.next_id; value = val })
      (record vs { next_id = u32 (vs.next_id + 1) })

get_elem?-minted :
    (val : Option Primitive) (vs : VariableStore)
    → get_elem? (minted val vs).heap (length vs.heap)
      ≡ some (new_variable (record { id = vs.next_id; value = val }))
unfolding add_variable
get_elem?-minted val vs = get_elem?-append_end vs.heap _

value_at-append :
    (xs ys : List Variable) (a : ℕ) → a < length xs → value_at (xs ++ ys) a ≡ value_at xs a
unfolding value_at
value_at-append xs ys a h = ground (arith, get_elem?-append_left xs ys a h)

find_equiv-minted :
    (same : ℕ → Bool) (val : Option Primitive) (vs : VariableStore)
    → IsValid vs
    → is_prim_equiv (same (length vs.heap)) val val ≡ true
    → find_equiv same val vs.heap vs.variables ≡ none
    → find_equiv same val (minted val vs).heap (minted val vs).variables ≡ some (length vs.heap)
unfolding add_variable value_at
find_equiv-minted same val vs h e p =
    let v : Variable = new_variable (record { id = vs.next_id; value = val }) in
    let heap : List Variable = vs.heap ++ v ∷ [] in
    find_equiv-insert same val heap vs.variables vs.next_id (length vs.heap)
      (find_equiv_congr same val vs.heap heap vs.variables
          (λ k a q.
            let (w, at, _) = h.stored k a q in
            value_at-append vs.heap (v ∷ []) a (lt_of_get_elem? vs.heap a at))
          h.distinct
        ∙ p)
      (ground (arith, get_elem?-append_end vs.heap v))

-- One call gives a handle on a variable that holds an equivalent value.
get_or_put_with_value-Shares :
    (same : ℕ → Bool) (val : Option Primitive) (vs : VariableStore)
    → IsValid vs
    → is_prim_equiv (same (length vs.heap)) val val ≡ true
    → Shares same val (get_or_put_with_value same val vs).0 (get_or_put_with_value same val vs).1
unfolding get_or_put_with_value
get_or_put_with_value-Shares same val vs h e =
    elim (Option-cases (find_equiv same val vs.heap vs.variables)) [
      | inl miss ↦
          rw (miss, get_or_put_with_value)
            (Shares-found same val (minted val vs) (length vs.heap)
              (new_variable (record { id = vs.next_id; value = val }))
              (add_variable-IsValid (record { id = vs.next_id; value = val })
                (record { distinct = h.distinct; stored = h.stored })).distinct
              (find_equiv-minted same val vs h e miss) (get_elem?-minted val vs))
      | inr (a, hit) ↦
          let (k, p, _) = find_equiv_sound same val vs.heap vs.variables a h.distinct hit in
          let (v, at, _) = h.stored k a p in
          rw (hit, get_or_put_with_value) (Shares-found same val vs a v h.distinct hit at)
    ]

-- Where an entry is equivalent, the search finds one.
find_equiv_complete :
    (same : ℕ → Bool) (val : Option Primitive) (heap : List Variable) (m : Map ℕ ℕ) (k a : ℕ)
    → lookup k m ≡ some a
    → is_prim_equiv (same a) val (value_at heap a) ≡ true
    → (b : ℕ) × (find_equiv same val heap m ≡ some b)
unfolding find_equiv lookup
find_equiv_complete same val heap [] k a h e = absurd (ground arith)
find_equiv_complete same val heap ((id, b) ∷ m) k a h e =
    elim (Bool-cases (is_prim_equiv (same b) val (value_at heap b))) [
      | inl here ↦ (b, ground (arith, here))
      | inr not_here ↦ elim (Bool-cases (id == k)) [
        | inl at ↦
            absurd
              (ground (arith, ap (λ x. is_prim_equiv (same x) val (value_at heap x)) (first at)))
        | inr other ↦
            let (c, found) = find_equiv_complete same val heap m k a (ground (arith, other)) e in
            (c, ground (arith, not_here, found))
      ]
    ]
  where
    first : (id == k) ≡ true → b ≡ a
    first at = ground (arith, at, h)

-- The store after a miss.
abbrev after_miss : Option Primitive → VariableStore → VariableStore
after_miss val vs = (add_reference (length vs.heap) (minted val vs)).0

only_minted :
    (same : ℕ → Bool) (val : Option Primitive) (vs : VariableStore) (k b : ℕ)
    → IsValid vs
    → find_equiv same val vs.heap vs.variables ≡ none
    → lookup k (after_miss val vs).variables ≡ some b
    → is_prim_equiv (same b) val (value_at (after_miss val vs).heap b) ≡ true
    → b ≡ length vs.heap
unfolding add_variable
only_minted same val vs k b h miss at eqv =
    let a : ℕ = length vs.heap in
    let v : Variable = new_variable (record { id = vs.next_id; value = val }) in
    let entry : lookup k (insert vs.next_id a vs.variables) ≡ some b =
      sym (ap (lookup k) (variables-add_reference (minted val vs) a)) ∙ at in
    elim (Bool-cases (vs.next_id == k)) [
      | inl new ↦ ground (arith, entry, new, lookup-insert vs.next_id k a vs.variables)
      | inr old ↦
          let was : lookup k vs.variables ≡ some b =
            ground (arith, entry, old, lookup-insert vs.next_id k a vs.variables) in
          let (w, on, _) = h.stored k b was in
          let value : value_at (after_miss val vs).heap b ≡ value_at vs.heap b =
            value_at-add_reference (minted val vs) a b
            ∙ value_at-append vs.heap (v ∷ []) b (lt_of_get_elem? vs.heap b on) in
          let (c, found) =
            find_equiv_complete same val vs.heap vs.variables k b was
              (sym (ap (is_prim_equiv (same b) val) value) ∙ eqv) in
          absurd (ground (arith, miss, found))
    ]

-- An entry that is found equivalent after a miss is the one of the new variable.
equivalent_is_new :
    (same : ℕ → Bool) (val : Option Primitive) (vs : VariableStore) (k b : ℕ)
    → IsValid vs
    → find_equiv same val vs.heap vs.variables ≡ none
    → lookup k (get_or_put_with_value same val vs).0.variables ≡ some b
    → is_prim_equiv (same b) val (value_at (get_or_put_with_value same val vs).0.heap b) ≡ true
    → b ≡ length vs.heap
unfolding get_or_put_with_value
equivalent_is_new same val vs k b h miss =
    rw (miss, get_or_put_with_value) (only_minted same val vs k b h miss)

-- Asked for a value that is equivalent to itself, and asked again when the range over the map may take
-- another order: both calls return a handle on a variable of the store that holds an equivalent value,
-- and the second adds no variable. The two handles are on the same variable, unless the store had an
-- equivalent variable before the first call.
pub get_or_put_with_value_twice :
    (same : ℕ → Bool) (val : Option Primitive) (vs : VariableStore) (reordered : Map ℕ ℕ)
    → IsValid vs
    → is_prim_equiv (same (length vs.heap)) val val ≡ true
    → IsMap reordered
    → ((k : ℕ) → lookup k reordered ≡ lookup k (get_or_put_with_value same val vs).0.variables)
    → let first = get_or_put_with_value same val vs in
      let again = get_or_put_with_value same val (record first.0 { variables = reordered }) in
      (r s : VariableReference) × (j k : ℕ) × (first.1 ≡ some r)
      × (again.1 ≡ some s)
      × (again.0.variables ≡ reordered)
      × (lookup j first.0.variables ≡ some r.vb)
      × (lookup k first.0.variables ≡ some s.vb)
      × (is_prim_equiv (same r.vb) val (get_value r first.0) ≡ true)
      × (is_prim_equiv (same s.vb) val (get_value s first.0) ≡ true)
      × ((s.vb ≡ r.vb)
          ⊎ ((i a : ℕ) × (lookup i vs.variables ≡ some a)
              × (is_prim_equiv (same a) val (value_at vs.heap a) ≡ true)))
unfolding get_or_put_with_value get_value
get_or_put_with_value_twice same val vs reordered h e distinct agree =
    let first = get_or_put_with_value same val vs in
    let second : VariableStore = record first.0 { variables = reordered } in
    let valid = get_or_put_with_value-IsValid same val h in
    let sh = get_or_put_with_value-Shares same val vs h e in
    let (j, at_r, eqv_r) =
      find_equiv_sound same val first.0.heap first.0.variables sh.handle.vb valid.distinct
        sh.found in
    let (b, hit) =
      find_equiv_complete same val first.0.heap reordered j sh.handle.vb (agree j ∙ at_r) eqv_r in
    let (k, at, eqv) = find_equiv_sound same val first.0.heap reordered b distinct hit in
    let there = sym (agree k) ∙ at in
    let (v, on_heap, _) = valid.stored k b there in
    let (s, got, here, _) = add_reference_hit second b v on_heap in
    (
      sh.handle,
      s,
      j,
      k,
      sh.returned,
      rw (hit, get_or_put_with_value) got,
      rw (hit, get_or_put_with_value) (variables-add_reference second b),
      at_r,
      rw here there,
      sh.equivalent,
      rw here eqv,
      elim (Option-cases (find_equiv same val vs.heap vs.variables)) [
        | inl miss ↦ inl (
            here
            ∙ equivalent_is_new same val vs k b h miss there eqv
            ∙ sym (equivalent_is_new same val vs j sh.handle.vb h miss at_r eqv_r))
        | inr (a, found) ↦
            let (i, was, equal) =
              find_equiv_sound same val vs.heap vs.variables a h.distinct found in
            inr (i, a, was, equal)
      ],
    )
