-- ===== src/Resolver/Context/Final.antt =====
-- When contexts become final.
use rgraphql.Prelude.{
  ◌∙◌, ℕ, suc, ◌+◌, ◌<◌, true, false, Option, none, some, ◌≡◌, refl, arith, lookup, insert, nat_eq,
  nat_beq_iff, lookup-insert,
}
use rgraphql.Resolver.Value.{RgqlValue}
use rgraphql.Resolver.Context.{
  Context, Contexts, Out, done, write_context, child_of, base_child, mark_final, mark_child_final,
}

-- Two children of one parent, and the first made final.
abbrev pub first_of_two : ℕ → ℕ → Context → Option RgqlValue → Option RgqlValue → Contexts → Out
first_of_two f c x pc qc s =
    let (s1, a) = base_child c x pc s in let (s2, b) = base_child c x qc s1 in mark_final f a s2

mark_child_final-last :
    (f c : ℕ) (s : Contexts) (x : Context)
    → lookup c s.contexts ≡ some x
    → x.active_children ≡ 1
    → x.path_parent ≡ none
    → mark_child_final (suc f) c s
      ≡ done (write_context c (record x { active_children = 0; is_final = true }) s)
unfolding mark_child_final
mark_child_final-last f c s x at one top = ground arith

mark_final-child :
    (f a p : ℕ) (s : Contexts) (y : Context)
    → lookup a s.contexts ≡ some y
    → y.is_final ≡ false
    → y.path_parent ≡ some p
    → mark_final f a s ≡ mark_child_final f p (write_context a (record y { is_final = true }) s)
unfolding mark_final
mark_final-child f a p s y at open_yet up = ground arith

module _ (c : ℕ) (x : Context) (pc qc : RgqlValue) (s : Contexts) where
  abbrev first_child : Context
  first_child = child_of c x (some pc)

  abbrev second_child : Context
  second_child = child_of c x (some qc)

  -- The two children in the heap.
  abbrev with_two : Contexts
  with_two = record s {
    contexts = insert (s.next + 1) second_child (insert s.next first_child s.contexts);
    next = s.next + 1 + 1;
  }

  -- The first of them final.
  abbrev with_final : Contexts
  with_final = write_context s.next (record first_child { is_final = true }) with_two

  lookup_first : lookup s.next with_two.contexts ≡ some first_child
  lookup_first = ground (
    arith,
    lookup-insert (s.next + 1) s.next second_child (insert s.next first_child s.contexts),
    lookup-insert s.next s.next first_child s.contexts,
    nat_beq_iff (s.next + 1) s.next,
    nat_beq_iff s.next s.next,
  )

  lookup_parent : lookup c s.contexts ≡ some x → c < s.next → lookup c with_final.contexts ≡ some x
  lookup_parent at below = ground (
    arith,
    lookup-insert s.next c (record first_child { is_final = true }) with_two.contexts,
    lookup-insert (s.next + 1) c second_child (insert s.next first_child s.contexts),
    lookup-insert s.next c first_child s.contexts,
    nat_beq_iff (s.next + 1) c,
    nat_beq_iff s.next c,
  )

  abbrev parent_final : Context
  parent_final = record x { active_children = 0; is_final = true }

  lookup_both :
      c < s.next
      → (lookup c (write_context c parent_final with_final).contexts ≡ some parent_final)
        × (lookup (s.next + 1) (write_context c parent_final with_final).contexts
            ≡ some second_child)
  lookup_both below = (
    ground (arith, lookup-insert c c parent_final with_final.contexts, nat_beq_iff c c),
    ground (
      arith,
      lookup-insert c (s.next + 1) parent_final with_final.contexts,
      lookup-insert s.next (s.next + 1) (record first_child { is_final = true }) with_two.contexts,
      lookup-insert (s.next + 1) (s.next + 1) second_child (insert s.next first_child s.contexts),
      nat_beq_iff c (s.next + 1),
      nat_beq_iff s.next (s.next + 1),
      nat_beq_iff (s.next + 1) (s.next + 1),
    ),
  )

  -- A context with a path component, no parent and one active child: when two children of it are
  -- made and the first becomes final, the context becomes final too, while the second child is
  -- not.
  pub first_child_finishes_parent :
      (p : RgqlValue)
      → lookup c s.contexts ≡ some x
      → x.path_component ≡ some p
      → x.path_parent ≡ none
      → x.active_children ≡ 1
      → c < s.next
      → (s' : Contexts) × (parent : Context) × (second : Context) × (first_of_two 2 c x
            (some pc)
            (some qc)
            s
          ≡ done s')
        × (lookup c s'.contexts ≡ some parent)
        × (parent.is_final ≡ true)
        × (lookup (s.next + 1) s'.contexts ≡ some second)
        × (second.is_final ≡ false)
  unfolding base_child
  first_child_finishes_parent p at has top one below = (
    write_context c parent_final with_final,
    parent_final,
    second_child,
    mark_final-child 2 s.next c with_two first_child lookup_first refl (rw has)
        ∙ mark_child_final-last 1 c with_final x (lookup_parent at below) one top,
    (lookup_both below).0,
    refl,
    (lookup_both below).1,
    refl,
  )
