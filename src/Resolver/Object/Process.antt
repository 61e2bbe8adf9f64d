-- ===== src/Resolver/Object/Process.antt =====
-- The fields that `ResolveObject` keeps, and what `processChild` adds to them.

use rgraphql.Prelude.{
  ℕ, ◌<◌, Bool, true, false, String, Option, none, some, List, [], ◌∷◌, ◌≡◌, ◌≢◌, refl, arith,
  lookup, lookup-insert, nat_eq, nat_beq_iff, Bool-cases, inl, inr, ◌==◌, if◌then◌else◌,
}
use rgraphql.Resolver.Value.{zero_value}
use rgraphql.Resolver.Context.{Context, field_child, child_of}
use rgraphql.Resolver.Object.{
  Child, Update, add_child, del_child, error, deleted, Fields, begin_field, process_child,
}

-- Every field that is kept has a context of its own that is not cancelled; the context at `c` is on
-- the heap, and is none of them.
pub record IsActive (c : ℕ) (s : Fields) : Type 0 where
  pub used : (k : ℕ) (y : Context) → lookup k s.contexts.contexts ≡ some y → k < s.contexts.next
  pub own : (y : Context) × (lookup c s.contexts.contexts ≡ some y)
  pub live :
      (id k : ℕ)
      → lookup id s.field_cancels ≡ some k
      → (y : Context) × (lookup k s.contexts.contexts ≡ some y)
        × (y.qnode ≡ id)
        × (y.canceled ≡ false)
        × (k ≢ c)

abbrev pub is_some : {A : Type 0} → Option A → Bool
is_some none = false
is_some (some a) = true

module _ (has : String → Bool) where
  -- Whether a context is kept for the field `id` after one more child, and after the updates: up to the
  -- deletion of the node, an addition with a resolver turns it on, one without leaves it as it was, and
  -- the deletion of the child turns it off.
  abbrev pub with_child : ℕ → Child → Bool → Bool
  with_child id child on =
      if has child.field_name then (if child.id == id then true else on) else on

  abbrev pub with_children : ℕ → List Child → Bool → Bool
  with_children id [] on = on
  with_children id (child ∷ more) on = with_children id more (with_child id child on)

  abbrev pub with_updates : ℕ → List Update → Bool → Bool
  with_updates id [] on = on
  with_updates id (add_child child ∷ us) on = with_updates id us (with_child id child on)
  with_updates id (del_child i ∷ us) on = with_updates id us (if i == id then false else on)
  with_updates id (error ∷ us) on = with_updates id us on
  with_updates id (deleted ∷ us) on = on

module _ (has : String → Bool) (c : ℕ) (x : Context) where
  begin-IsActive :
      (child : Child) (s : Fields)
      → IsActive c s
      → IsActive c (begin_field child (field_child c x child.id s.contexts) s)
  unfolding field_child
  begin-IsActive child s v =
      let made : Context =
        record (child_of c x (some (record zero_value { query_node_id = child.id }))) {
          qnode = child.id;
        } in
      let read = λ (k : ℕ). lookup-insert s.contexts.next k made s.contexts.contexts in
      let (y, at) = v.own in
      let lt = v.used c y at in
      record {
        used = λ k z p. elim (Bool-cases (s.contexts.next == k)) [
          | inl e ↦ ground (arith, nat_beq_iff s.contexts.next k)
          | inr e ↦ let old = v.used k z (ground (arith, read k)) in omega (arith, old)
        ];
        own = (y, ground (arith, at, lt, read c, nat_beq_iff s.contexts.next c));
        live = λ id k p. elim (Bool-cases (child.id == id)) [
          | inl e ↦
              let here : s.contexts.next ≡ k =
                ground (arith, lookup-insert child.id id s.contexts.next s.field_cancels) in
              (
                made,
                ground (arith, here, read k, nat_beq_iff s.contexts.next k),
                (nat_beq_iff child.id id).0 e,
                refl,
                λ same. ground (arith, here, lt, same),
              )
          | inr e ↦
              let (z, there, same, on, off) =
                v.live id k
                  (ground (arith, lookup-insert child.id id s.contexts.next s.field_cancels)) in
              let less = v.used k z there in
              (z, ground (arith, there, less, read k, nat_beq_iff s.contexts.next k), same, on, off)
        ];
      }

  pub process_child_lem :
      (child : Child) (s : Fields)
      → IsActive c s
      → IsActive c (process_child has c x child s)
        × ((id : ℕ)
            → is_some (lookup id (process_child has c x child s).field_cancels)
              ≡ with_child has id child (is_some (lookup id s.field_cancels)))
  unfolding process_child
  process_child_lem child s v = elim (Bool-cases (has child.field_name)) [
    | inr e ↦ rw (e, process_child) (v, λ id. refl)
    | inl e ↦
        rw (e, process_child)
          (
            begin-IsActive child s v,
            λ id. ground (arith, lookup-insert child.id id s.contexts.next s.field_cancels),
          )
  ]
