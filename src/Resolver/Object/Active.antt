-- ===== src/Resolver/Object/Active.antt =====
-- The fields of an object that are resolved, and the contexts that run.

use rgraphql.Prelude.{
  ℕ, ◌<◌, Bool, true, false, String, some, List, [], ◌∷◌, ◌≡◌, refl, subst, sym, ap, ◌∙◌, arith,
  lookup, insert, delete, lookup-insert, lookup-delete, nat_eq, nat_beq_iff, Bool-cases,
  Option-cases, inl, inr, ◌==◌, if◌then◌else◌,
}
use rgraphql.Resolver.Context.{Context, Contexts, purge}
use rgraphql.Resolver.Object.{
  Child, Update, add_child, del_child, error, deleted, Fields, Loop, running, ended, fault,
  after_purge, process_child, process_children, handle_update, handle_updates, resolve_object,
}
use rgraphql.Resolver.Object.Accounted.{
  IsAccounted, process_child-IsAccounted, dropped-IsAccounted, ended-IsAccounted,
}
use rgraphql.Resolver.Object.Process.{
  IsActive, is_some, process_child_lem, with_child, with_children, with_updates,
}

-- The loop reads no nil context, and P holds of what it leaves; where it has returned, Q does too.
abbrev pub Ends : (Fields → Type 0) → (Fields → Type 0) → Loop → Type 0
Ends P Q (running s) = P s
Ends P Q (ended s) = P s × Q s
Ends P Q fault = ⊥

-- The context of the object is cancelled.
abbrev pub IsOff : ℕ → Fields → Type 0
IsOff c s = (y : Context) × (lookup c s.contexts.contexts ≡ some y) × (y.canceled ≡ true)

-- What is left is as it should be, with the fields that `on` tells.
abbrev pub Resolves : ℕ → (ℕ → Bool) → Fields → Type 0
Resolves c on s =
    IsActive c s × ((id : ℕ) → is_some (lookup id s.field_cancels) ≡ on id) × IsAccounted s

module _ (c k : ℕ) (y : Context) (s : Fields) where
  abbrev off : Context
  off = record y { canceled = true }

  abbrev cancelled : Contexts
  cancelled = record s.contexts { contexts = insert k off s.contexts.contexts }

  purged :
      (f : Contexts → Loop)
      → lookup k s.contexts.contexts ≡ some y
      → after_purge (purge k s.contexts) f ≡ f cancelled
  unfolding purge
  purged f at = rw (at, after_purge) refl

  -- The context of the field `id` is cancelled, and the field is given up.
  dropped-IsActive :
      (id : ℕ)
      → IsActive c s
      → lookup id s.field_cancels ≡ some k
      → lookup k s.contexts.contexts ≡ some y
      → IsActive c (record s { contexts = cancelled; field_cancels = delete id s.field_cancels })
  dropped-IsActive id v here at =
      let (z, zat, zsame, _, apart) = v.live id k here in
      let read = λ (j : ℕ). lookup-insert k j off s.contexts.contexts in
      record {
        used = λ j w p. elim (Bool-cases (k == j)) [
          | inl e ↦ let lt = v.used k y at in ground (arith, lt, nat_beq_iff k j)
          | inr e ↦ v.used j w (ground (arith, read j))
        ];
        own = let (t, top) = v.own in (t, ground (arith, top, apart, read c, nat_beq_iff k c));
        live = λ i j p.
            let (w, there, same, on, far) =
              v.live i j (ground (arith, lookup-delete id i s.field_cancels)) in
            (
              w,
              ground (
                arith,
                there,
                zat,
                zsame,
                same,
                read j,
                nat_beq_iff k j,
                nat_beq_iff id i,
                lookup-delete id i s.field_cancels,
              ),
              same,
              on,
              far,
            );
      }

-- The context of the object itself is cancelled.
ended-IsActive :
    (c : ℕ) (y : Context) (s : Fields)
    → IsActive c s
    → lookup c s.contexts.contexts ≡ some y
    → IsActive c (record s { contexts = cancelled c c y s })
ended-IsActive c y s v at =
    let read = λ (j : ℕ). lookup-insert c j (off c c y s) s.contexts.contexts in
    record {
      used = λ j w p. elim (Bool-cases (c == j)) [
        | inl e ↦ let lt = v.used c y at in ground (arith, lt, nat_beq_iff c j)
        | inr e ↦ v.used j w (ground (arith, read j))
      ];
      own = (off c c y s, ground (arith, read c, nat_beq_iff c c));
      live = λ i j p.
          let (w, there, same, on, far) = v.live i j p in
          (w, ground (arith, there, far, read j, nat_beq_iff c j), same, on, far);
    }

module _ (has : String → Bool) (c : ℕ) (x : Context) where
  updates_lem :
      (us : List Update) (on : ℕ → Bool) (s : Fields)
      → Resolves c on s
      → Ends
          (Resolves c (λ id. with_updates has id us (on id)))
          (IsOff c)
          (handle_updates has c x us s)
  unfolding handle_updates handle_update
  updates_lem [] on s r = r
  updates_lem (error ∷ us) on s r = updates_lem us on s r
  updates_lem (add_child child ∷ us) on s (v, known, told) =
      let (w, now) = process_child_lem has c x child s v in
      updates_lem us (λ id. with_child has id child (on id)) (process_child has c x child s)
        (
          w,
          λ id. now id ∙ ap (with_child has id child) (known id),
          process_child-IsAccounted c x has child s v told,
        )
  updates_lem (del_child i ∷ us) on s (v, known, told) =
      elim (Option-cases (lookup i s.field_cancels)) [
        | inl e ↦
            rw (e, Ends)
              (updates_lem us (λ id. if i == id then false else on id) s
                (v, λ id. ground (arith, e, known id, nat_beq_iff i id), told))
        | inr (k, e) ↦
            let (y, at, _, _, _) = v.live i k e in
            let t : Fields = record s {
              contexts = cancelled c k y s;
              field_cancels = delete i s.field_cancels;
            } in
            rw (e, Ends)
              (rw
                (purged c k y s
                  (λ u.
                    running (record s { contexts = u; field_cancels = delete i s.field_cancels }))
                  at)
                (updates_lem us (λ id. if i == id then false else on id) t
                  (
                    dropped-IsActive c k y s i v e at,
                    λ id. ground (arith, known id, lookup-delete i id s.field_cancels),
                    dropped-IsAccounted k y s at i e told,
                  )))
      ]
  updates_lem (deleted ∷ us) on s (v, known, told) =
      let (y, at) = v.own in
      subst (Ends (Resolves c on) (IsOff c))
        (sym (ap after_update (purged c c y s (λ u. ended (record s { contexts = u })) at)))
        (
          (ended-IsActive c y s v at, known, ended-IsAccounted c y s at told),
          (
            off c c y s,
            ground (arith, lookup-insert c c (off c c y s) s.contexts.contexts, nat_beq_iff c c),
            refl,
          ),
        )
    where
      after_update : Loop → Loop
      after_update (running t) = handle_updates has c x us t
      after_update (ended t) = ended t
      after_update fault = fault

  process_children_lem :
      (children : List Child) (on : ℕ → Bool) (s : Fields)
      → Resolves c on s
      → Resolves c
          (λ id. with_children has id children (on id))
          (process_children has c x children s)
  unfolding process_children
  process_children_lem [] on s r = r
  process_children_lem (child ∷ more) on s (v, known, told) =
      let (w, now) = process_child_lem has c x child s v in
      process_children_lem more (λ id. with_child has id child (on id))
        (process_child has c x child s)
        (
          w,
          λ id. now id ∙ ap (with_child has id child) (known id),
          process_child-IsAccounted c x has child s v told,
        )

  -- `ResolveObject` for a context on the heap, over any children and any updates: no nil context is
  -- read. A context is kept for a field if and only if, before the node is deleted, a child of that id
  -- was added that has a resolver, and the id was not deleted after that. Each context that is kept is
  -- one of its own for its field, and its cancellation was not called. Each context that a field
  -- resolver was started with is cancelled, unless it is the one that is kept for its field or a later
  -- one was started for the same id. Where the loop has returned, the context of the object is
  -- cancelled.
  pub resolve_object-Resolves :
      (children : List Child) (updates : List Update) (contexts : Contexts)
      → ((k : ℕ) (y : Context) → lookup k contexts.contexts ≡ some y → k < contexts.next)
      → lookup c contexts.contexts ≡ some x
      → Ends
          (Resolves c (λ id. with_updates has id updates (with_children has id children false)))
          (IsOff c)
          (resolve_object has c x children updates contexts)
  unfolding resolve_object lookup
  resolve_object-Resolves children updates contexts used at =
      let s : Fields = record { contexts = contexts; field_cancels = []; started = [] } in
      let first : IsActive c s = record {
        used = used;
        own = (x, at);
        live = λ id k p. absurd (ground (arith));
      } in
      updates_lem updates (λ id. with_children has id children false)
        (process_children has c x children s)
        (process_children_lem children (λ id. false) s
          (first, λ id. refl, λ k e. absurd (ground (arith, e))))
