-- ===== src/Analysis/Whole.antt =====
-- What the builders of objects and lists leave of the builder.
use rgraphql.Prelude.{
  ℕ, ◌+◌, ◌<◌, ◌≤◌, Bool, String, Option, none, some, List, ◌≡◌, refl, sym, ◌∙◌, arith, insert,
  lookup-insert, nat_eq, string_eq, nat_beq_iff, Option-cases, Bool-cases, inl, inr, ◌==◌, subst,
}
use rgraphql.Analysis.{
  FieldDefinition, AstNode, ChanDir, Program, Pair, pair_eq, BuildError, Builder, done, failed,
  panicked, M, remember, write, of_object, of_list, Resolver,
}
use rgraphql.Analysis.Args.{output_elem}
use rgraphql.Analysis.Build.{
  list_elem, list_behind, build_slice, build_list, build_fields, object_type, build_object_at,
  build_object, new_object_resolver,
}
use rgraphql.Analysis.Extends.{
  Complete, IsObject, Allocated, Allocated-remember, Extends, Extends-trans, Extends-weaken,
  alloc-Extends, write-Extends, remember-Extends, Gives, Gives-bind, Gives-map,
}
use rgraphql.Analysis.Closed.{Any, But, Built, Builds, build_fields-FieldsBuilt}

-- A resolver is allocated and kept for the pair before what it refers to is built.
kept_first :
    (p : Program) (pair : Pair) (r : Resolver) (s now s' : Builder)
    → now.resolvers ≡ insert pair s.next s.resolvers
    → now.heap ≡ insert s.next r s.heap
    → now.next ≡ s.next + 1
    → (IsObject p pair → Complete p s' pair s.next)
    → Extends p (But s.next) now s'
    → Extends p Any s s'
kept_first p pair r s now s' resolvers heap next whole grown = record {
  longer = let le = grown.longer in omega (arith, le, next);
  same = λ c lt any.
      grown.same c (omega (arith, lt, next)) (λ e. omega (arith, lt, e))
      ∙ ground (arith, lt, heap, lookup-insert s.next c r s.heap, nat_beq_iff s.next c);
  fresh = λ q c is_object e. elim (grown.fresh q c is_object e) [
    | inr (high, k) ↦ inr (omega (arith, high, next), k)
    | inl before ↦ elim (Bool-cases (pair == q)) [
      | inr g ↦ inl (ground (arith, resolvers, lookup-insert pair q s.next s.resolvers))
      | inl g ↦
          let same : pair ≡ q = (pair_eq.same_iff pair q).0 g in
          let here : s.next ≡ c =
            ground (arith, resolvers, lookup-insert pair q s.next s.resolvers) in
          inr (
            omega (arith, here),
            subst (λ x. Complete p s' q x) here
                (subst (λ x. Complete p s' x s.next) same
                  (whole (subst (IsObject p) (sym same) is_object))),
          )
    ]
  ];
  allocated = grown.allocated;
}

module _ (p : Program) (rec : Pair → M ℕ) (h : Builds p rec) where
  abbrev pub ObjectBuilt : Pair → Builder → ℕ → Builder → Type 0
  ObjectBuilt pair s a s' = Extends p Any s s' × (a < s'.next) × (s.next ≤ a) × Complete p s' pair a

  object_at :
      (pair : Pair) (name path : String) (ty : ℕ) (fields : List FieldDefinition) (s : Builder)
      → p.ast pair.ast_type ≡ AstNode.object (some name) fields
      → Allocated s
      → Gives (ObjectBuilt pair s) (build_object_at p rec pair name ty (some path) fields s)
  unfolding build_object_at
  object_at pair name path ty fields s view good =
      let o = new_object_resolver p name ty in
      let now : Builder = record s {
        resolvers = insert pair s.next s.resolvers;
        heap = insert s.next (of_object o) s.heap;
        next = s.next + 1;
        imports = insert path tt s.imports;
      } in
      let one = alloc-Extends p Any (of_object o) s good in
      let two =
        Allocated-remember pair s.next
          (record s { heap = insert s.next (of_object o) s.heap; next = s.next + 1 }) (omega arith)
          one.allocated in
      Gives-map _ (ObjectBuilt pair s) (build_fields p rec pair.resolver_type s.next fields o now)
        (build_fields-FieldsBuilt p rec h pair.resolver_type s.next fields o now
          (record { kept = two.kept; dense = two.dense }) (omega arith)
          (ground
            (arith, lookup-insert s.next s.next (of_object o) s.heap, nat_beq_iff s.next s.next)))
        (λ b s' (at, grown, (o', there, type, all, old)).
          let whole : Complete p s' pair s.next = (name, fields, o', view, there, type, all) in
          let le = grown.longer in
          subst (λ x. ObjectBuilt pair s x s') (sym at)
            (
              kept_first p pair (of_object o) s now s' refl refl refl (λ k. whole) grown,
              omega (arith, le),
              omega arith,
              whole,
            ))

  pub build_object-ObjectBuilt :
      (pair : Pair) (name : Option String) (fields : List FieldDefinition) (s : Builder)
      → p.ast pair.ast_type ≡ AstNode.object name fields
      → Allocated s
      → Gives (ObjectBuilt pair s) (build_object p rec pair name fields s)
  unfolding build_object build_object_at
  build_object-ObjectBuilt pair name fields s view good =
      elim (Option-cases (object_type p pair.resolver_type)) [
        | inl e ↦ rw (e, build_object) tt
        | inr ((ty, pkg), e) ↦ rw (e, build_object) (by_name ty name pkg view)
      ]
    where
      by_name :
          (ty : ℕ) (o pkg : Option String)
          → p.ast pair.ast_type ≡ AstNode.object o fields
          → Gives
              (ObjectBuilt pair s)
              (elim o [ none ↦ panicked | some n ↦ build_object_at p rec pair n ty pkg fields s ])
      by_name ty none pkg e = tt
      by_name ty (some n) none e = tt
      by_name ty (some n) (some path) e = object_at pair n path ty fields s e good

  build_slice-Built :
      (pair : Pair) (is_ptr : Bool) (inner elem : ℕ) (s : Builder)
      → (IsObject p pair → ⊥)
      → Allocated s
      → Gives (Built p s) (build_slice p rec pair is_ptr inner elem s)
  unfolding build_slice
  build_slice-Built pair is_ptr inner elem s not_object good =
      let one = alloc-Extends p Any (of_list is_ptr none) s good in
      let s1 : Builder = record s {
        heap = insert s.next (of_list is_ptr none) s.heap;
        next = s.next + 1;
      } in
      let two =
        remember-Extends p Any pair s.next s s1 (omega arith) (λ k. absurd (not_object k)) one in
      Gives-bind (Built p (remember pair s.next s1)) (Built p s)
        (rec (record { ast_type = inner; resolver_type = output_elem p elem }))
        (λ e s2. done s.next (write s.next (of_list is_ptr (some e)) s2)) (remember pair s.next s1)
        (h (record { ast_type = inner; resolver_type = output_elem p elem })
          (remember pair s.next s1) two.allocated)
        (λ e s2 (grown, lt).
          let le = grown.longer in
          let more =
            Extends-trans p (But s.next) (remember pair s.next s1) s2
              (write s.next (of_list is_ptr (some e)) s2) (λ b high g. omega (arith, high, g))
              (Extends-weaken p (But s.next) Any (remember pair s.next s1) s2 (λ c lt ok. tt) grown)
              (write-Extends p (But s.next) s.next (of_list is_ptr (some e)) s2 (λ c ok. ok)
                grown.allocated) in
          (
            kept_first p pair (of_list is_ptr none) s (remember pair s.next s1)
                (write s.next (of_list is_ptr (some e)) s2) refl refl refl
                (λ k. absurd (not_object k)) more,
            omega (arith, le),
          ))

  pub build_list-Built :
      (pair : Pair) (inner : ℕ) (s : Builder)
      → (IsObject p pair → ⊥)
      → Allocated s
      → Gives (Built p s) (build_list p rec pair inner s)
  unfolding build_list
  build_list-Built pair inner s not_object good =
      by_elem (list_behind p pair.resolver_type).0
        (list_elem p (list_behind p pair.resolver_type).1)
    where
      by_elem :
          (is_ptr : Bool) (o : Option (Option ChanDir × ℕ))
          → Gives {A = ℕ} (Built p s) (elim o [
            | none ↦ failed BuildError.expected_array
            | some (none, elem) ↦ build_slice p rec pair is_ptr inner elem s
            | some (some ChanDir.recv_only, elem) ↦ failed BuildError.list_chan_unimplemented
            | some (some _, elem) ↦ failed BuildError.invalid_list_chan
          ])
      by_elem is_ptr none = tt
      by_elem is_ptr (some (some ChanDir.recv_only, elem)) = tt
      by_elem is_ptr (some (some ChanDir.send_only, elem)) = tt
      by_elem is_ptr (some (some ChanDir.send_recv, elem)) = tt
      by_elem is_ptr (some (none, elem)) =
          build_slice-Built pair is_ptr inner elem s not_object good
