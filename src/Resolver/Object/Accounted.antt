-- ===== src/Resolver/Object/Accounted.antt =====
-- Which of the contexts that `ResolveObject` started are cancelled.
use rgraphql.Prelude.{
  ℕ, ◌<◌, ◌⊎◌, Bool, true, false, String, some, List, [], ◌∷◌, ◌++◌, ◌||◌, ◌≡◌, refl, arith, lookup,
  insert, delete, lookup-insert, lookup-delete, nat_eq, nat_beq_iff, Bool-cases, inl, inr, ◌==◌,
}
use rgraphql.Resolver.Value.{zero_value}
use rgraphql.Resolver.Context.{Context, Contexts, field_child, child_of}
use rgraphql.Resolver.Object.{Child, Fields, begin_field, process_child}
use rgraphql.Resolver.Object.Process.{IsActive}

-- Whether a context was given to a field resolver.
abbrev pub was_started : ℕ → List ℕ → Bool
was_started k [] = false
was_started k (j ∷ more) = (j == k) || was_started k more

was_started-append :
    (k j : ℕ) (xs : List ℕ) → was_started k (xs ++ j ∷ []) ≡ (was_started k xs || (j == k))
was_started-append k j [] = ground arith
was_started-append k j (x ∷ xs) = ground (arith, was_started-append k j xs)

-- A later context was started for the same field.
abbrev pub IsReplaced : ℕ → Context → Fields → Type 0
IsReplaced k y s =
    (j : ℕ) × (z : Context) × (k < j)
    × (was_started j s.started ≡ true)
    × (lookup j s.contexts.contexts ≡ some z)
    × (z.qnode ≡ y.qnode)

-- A context that was started is cancelled, unless it is the one that is kept for its field or a
-- later one was started for that field.
abbrev pub IsAccounted : Fields → Type 0
IsAccounted s =
    (k : ℕ)
    → was_started k s.started ≡ true
    → (y : Context) × (lookup k s.contexts.contexts ≡ some y)
      × ((y.canceled ≡ true) ⊎ ((lookup y.qnode s.field_cancels ≡ some k) ⊎ IsReplaced k y s))

module _ (c : ℕ) (x : Context) where
  begin-IsAccounted :
      (child : Child) (s : Fields)
      → IsActive c s
      → IsAccounted s
      → IsAccounted (begin_field child (field_child c x child.id s.contexts) s)
  unfolding field_child
  begin-IsAccounted child s v h k e =
      let made : Context =
        record (child_of c x (some (record zero_value { query_node_id = child.id }))) {
          qnode = child.id;
        } in
      let read = λ (j : ℕ). lookup-insert s.contexts.next j made s.contexts.contexts in
      let known = λ (j : ℕ). was_started-append j s.contexts.next s.started in
      elim (Bool-cases (s.contexts.next == k)) [
        | inl new ↦ (
          made,
          ground (arith, new, read k),
          inr (
              inl (
                ground (
                  arith,
                  new,
                  nat_beq_iff s.contexts.next k,
                  nat_beq_iff child.id child.id,
                  lookup-insert child.id child.id s.contexts.next s.field_cancels,
                ))),
        )
        | inr old ↦
            let (y, at, why) = h k (ground (arith, e, old, known k)) in
            let lt = v.used k y at in
            (
              y,
              ground (arith, at, old, read k),
              elim why [
                | inl off ↦ inl off
                | inr (inl here) ↦ elim (Bool-cases (child.id == y.qnode)) [
                  | inl same ↦ inr (
                      inr (
                        s.contexts.next,
                        made,
                        lt,
                        ground (
                          arith,
                          known s.contexts.next,
                          nat_beq_iff s.contexts.next s.contexts.next,
                        ),
                        ground (
                          arith,
                          read s.contexts.next,
                          nat_beq_iff s.contexts.next s.contexts.next,
                        ),
                        (nat_beq_iff child.id y.qnode).0 same,
                      ))
                  | inr other ↦ inr (
                      inl (
                        ground (
                          arith,
                          here,
                          other,
                          lookup-insert child.id y.qnode s.contexts.next s.field_cancels,
                        )))
                ]
                | inr (inr (j, z, later, on, there, same)) ↦
                    let less = v.used j z there in
                    inr (
                      inr (
                        j,
                        z,
                        later,
                        ground (arith, on, known j),
                        ground (arith, there, less, read j, nat_beq_iff s.contexts.next j),
                        same,
                      ))
              ],
            )
      ]

  pub process_child-IsAccounted :
      (has : String → Bool) (child : Child) (s : Fields)
      → IsActive c s
      → IsAccounted s
      → IsAccounted (process_child has c x child s)
  unfolding process_child
  process_child-IsAccounted has child s v h = elim (Bool-cases (has child.field_name)) [
    | inr e ↦ rw (e, process_child) h
    | inl e ↦ rw (e, process_child) (begin-IsAccounted child s v h)
  ]

-- The context `k`, which is `y`, is cancelled.
module _ (k : ℕ) (y : Context) (s : Fields) (at : lookup k s.contexts.contexts ≡ some y) where
  abbrev off : Context
  off = record y { canceled = true }

  abbrev with_off : Contexts
  with_off = record s.contexts { contexts = insert k off s.contexts.contexts }

  read_off : (j : ℕ) → lookup j with_off.contexts ≡ lookup j (insert k off s.contexts.contexts)
  read_off j = refl

  IsReplaced-off :
      (j : ℕ) (z : Context) → IsReplaced j z s → IsReplaced j z (record s { contexts = with_off })
  IsReplaced-off j z (i, w, later, on, there, same) = elim (Bool-cases (k == i)) [
    | inl e ↦ (
      i,
      off,
      later,
      on,
      ground (arith, e, lookup-insert k i off s.contexts.contexts),
      ground (arith, e, at, there, same, nat_beq_iff k i),
    )
    | inr e ↦
        (i, w, later, on, ground (arith, e, there, lookup-insert k i off s.contexts.contexts), same)
  ]

  pub ended-IsAccounted : IsAccounted s → IsAccounted (record s { contexts = with_off })
  ended-IsAccounted h j e = elim (Bool-cases (k == j)) [
    | inl same ↦ (off, ground (arith, same, lookup-insert k j off s.contexts.contexts), inl refl)
    | inr other ↦
        let (z, there, why) = h j e in
        (
          z,
          ground (arith, there, other, lookup-insert k j off s.contexts.contexts),
          elim why [
            | inl gone ↦ inl gone
            | inr (inl here) ↦ inr (inl here)
            | inr (inr replaced) ↦ inr (inr (IsReplaced-off j z replaced))
          ],
        )
  ]

  pub dropped-IsAccounted :
      (id : ℕ)
      → lookup id s.field_cancels ≡ some k
      → IsAccounted s
      → IsAccounted (record s { contexts = with_off; field_cancels = delete id s.field_cancels })
  dropped-IsAccounted id kept h j e = elim (Bool-cases (k == j)) [
    | inl same ↦ (off, ground (arith, same, lookup-insert k j off s.contexts.contexts), inl refl)
    | inr other ↦
        let (z, there, why) = h j e in
        (
          z,
          ground (arith, there, other, lookup-insert k j off s.contexts.contexts),
          elim why [
            | inl gone ↦ inl gone
            | inr (inl here) ↦ inr (
                inl (
                  ground (
                    arith,
                    here,
                    kept,
                    other,
                    nat_beq_iff k j,
                    nat_beq_iff id z.qnode,
                    lookup-delete id z.qnode s.field_cancels,
                  )))
            | inr (inr replaced) ↦ inr (inr (IsReplaced-off j z replaced))
          ],
        )
  ]
