-- ===== src/Analysis/Total.antt =====
-- The fuel of `buildResolver`.
use rgraphql.Prelude.{
  ℕ, zero, suc, ◌+◌, ◌<◌, ◌≤◌, Bool, String, Option, none, some, List, [], ◌∷◌, ◌≡◌, ◌≢◌, refl,
  arith, lookup, insert, Option-cases, Bool-cases, nat_eq, string_eq, inl, inr, length,
}
use rgraphql.Types.Ast.{is_primitive}
use rgraphql.Analysis.{
  FieldDefinition, AstNode, Program, Pair, pair_eq, BuildError, Builder, Out, done, failed,
  panicked, spent, M, remember, of_object,
}
use rgraphql.Analysis.Build.{
  object_type, build_object_at, build_object, build_node, build_list, build_fields,
  new_object_resolver, build_resolver, build_model, keep, new_model_builder,
}
use rgraphql.Analysis.Primitives.{
  Leaf, basic_at, chan_at, no_leaf, too_deep, leaf_loop, build_primitive, build_chan_value,
  convert_primitive, build_follow,
}
use rgraphql.Analysis.Rules.{
  Adds, Adds-bind, Adds-later, Grows-remember, among, unkept, unkept_le, unkept_lt,
}
use rgraphql.Analysis.Members.{
  CallsAt, Calls, build_fields-Adds, build_list-Adds, build_chan_value-Adds, convert_primitive-Adds,
  follow_type-Adds,
}
use rgraphql.Analysis.Sized.{
  Sized, calls_left, fewer_pairs, lower_level, lower_rank, calls_left_le, LeafBelow,
  leaf_loop-LeafBelow,
}

module _ (p : Program) (pairs : List Pair) (level rank : ℕ → ℕ) (l_max r_max : ℕ)
    (z : Sized p pairs level rank l_max r_max) where
  abbrev pub left : Pair → Builder → ℕ
  left pair s =
      calls_left l_max r_max (unkept pairs s) (level pair.ast_type) (rank pair.resolver_type)

  -- The recursive calls end where fewer calls than `n` are left.
  abbrev Answers : (Pair → M ℕ) → ℕ → Type 0
  Answers rec n = (pair : Pair) (s : Builder) → left pair s < n → Adds s (rec pair s)

  module _ (f : ℕ) (rec : Pair → M ℕ) (pair : Pair) (s : Builder) (ask : Answers rec (left pair s))
      (fuel : left pair s < f) where
    -- A node on a lower level.
    deeper : (node : ℕ) → level node < level pair.ast_type → CallsAt rec s node
    deeper node less ty s1 g =
        ask (record { ast_type = node; resolver_type = ty }) s1
          (lower_level l_max r_max (unkept pairs s) (unkept pairs s1) (level pair.ast_type)
            (level node) (rank pair.resolver_type) (rank ty) (unkept_le pairs s s1 g) less
            (z.rank_le ty))

    -- Any node, once the pair is kept.
    anywhere :
        (a : ℕ)
        → among pair pairs ≡ Bool.true
        → lookup pair s.resolvers ≡ none
        → Calls rec (remember pair a s)
    anywhere a member new node ty s1 g =
        let now = unkept_le pairs (remember pair a s) s1 g in
        let less = unkept_lt pairs pair a s member new in
        ask (record { ast_type = node; resolver_type = ty }) s1
          (fewer_pairs l_max r_max (unkept pairs s) (unkept pairs s1) (level pair.ast_type)
            (level node) (rank pair.resolver_type) (rank ty) (omega (arith, now, less))
            (z.level_le node) (z.rank_le ty))

    keep-Adds : (m : M ℕ) → Adds s (m s) → Adds s (keep p pair m s)
    keep-Adds m h = Adds-bind s m _ h (λ a s1 g. Grows-remember pair a s1)

    primitive-Adds :
        (name : String) → Adds s (build_primitive p f rec pair.ast_type name pair.resolver_type s)
    unfolding build_primitive
    primitive-Adds name = by_leaf (leaf_loop p f 0 (p.underlying pair.resolver_type)) (
        leaf_loop-LeafBelow p pairs level rank l_max r_max f 0 (p.underlying pair.resolver_type) z
          (omega (arith, fuel, z.rank_underlying pair.resolver_type)))
      where
        by_leaf :
            (o : Leaf)
            → LeafBelow rank (rank (p.underlying pair.resolver_type)) o
            → Adds s (elim o [
              | basic_at depth at ↦ convert_primitive p name depth at s
              | chan_at dir elem ↦ build_chan_value p rec dir elem pair.ast_type s
              | no_leaf ↦ failed BuildError.unexpected_non_primitive
              | too_deep ↦ spent
            ])
        by_leaf (basic_at depth at) h = convert_primitive-Adds p rec name depth at s
        by_leaf no_leaf h = tt
        by_leaf too_deep h = h
        by_leaf (chan_at dir elem) h = build_chan_value-Adds p rec dir elem pair.ast_type s (
            ask (record { ast_type = pair.ast_type; resolver_type = elem }) s
              (lower_rank l_max r_max (unkept pairs s) (unkept pairs s) (level pair.ast_type)
                (rank pair.resolver_type) (rank elem) (omega arith)
                (omega (arith, h, z.rank_underlying pair.resolver_type))))

    follow-Adds :
        (name : Option String)
        → p.ast pair.ast_type ≡ AstNode.named name
        → Adds s (build_follow p f rec pair.ast_type name pair.resolver_type s)
    unfolding build_follow
    follow-Adds none e =
        follow_type-Adds p rec pair.ast_type none pair.resolver_type s
          (λ next found. deeper next (z.below_named pair.ast_type next none e found))
    follow-Adds (some name) e = elim (Bool-cases (is_primitive name)) [
      | inl g ↦ rw (g, build_follow) (primitive-Adds name)
      | inr g ↦
          rw (g, build_follow)
            (follow_type-Adds p rec pair.ast_type (some name) pair.resolver_type s
              (λ next found. deeper next (z.below_named pair.ast_type next (some name) e found)))
    ]

    object-Adds :
        (name : Option String) (fields : List FieldDefinition)
        → p.ast pair.ast_type ≡ AstNode.object name fields
        → lookup pair s.resolvers ≡ none
        → Adds s (build_object p rec pair name fields s)
    unfolding build_object build_object_at
    object-Adds name fields e new = elim (Option-cases (object_type p pair.resolver_type)) [
      | inl g ↦ rw (g, build_object) tt
      | inr ((ty, pkg), g) ↦
          rw (g, build_object)
            (by_name ty name pkg (anywhere s.next (z.listed pair ty pkg name fields e g) new))
    ]
      where
        by_name :
            (ty : ℕ) (o pkg : Option String)
            → Calls rec (remember pair s.next s)
            → Adds s
                (elim o [ none ↦ panicked | some n ↦ build_object_at p rec pair n ty pkg fields s ])
        by_name ty none pkg h = tt
        by_name ty (some n) none h = tt
        by_name ty (some n) (some path) h =
            let o = new_object_resolver p n ty in
            let now : Builder = record s {
              resolvers = insert pair s.next s.resolvers;
              heap = insert s.next (of_object o) s.heap;
              next = s.next + 1;
              imports = insert path tt s.imports;
            } in
            Adds-later {A = ℕ} s now (build_fields p rec pair.resolver_type s.next fields o now)
              (Grows-remember pair s.next s)
              (build_fields-Adds p rec pair.resolver_type s.next fields o now h)

  build_node-Adds :
      (f : ℕ) (rec : Pair → M ℕ) (pair : Pair) (s : Builder)
      → Answers rec (left pair s)
      → left pair s < f
      → lookup pair s.resolvers ≡ none
      → Adds s (build_node p f rec pair s)
  unfolding build_node
  build_node-Adds f rec pair s ask fuel new = by_view (p.ast pair.ast_type) refl
    where
      by_view :
          (v : AstNode)
          → p.ast pair.ast_type ≡ v
          → Adds s (elim v [
            | AstNode.named name ↦ build_follow p f rec pair.ast_type name pair.resolver_type s
            | AstNode.non_null inner ↦
                keep p pair
                  (rec (record { ast_type = inner; resolver_type = pair.resolver_type }))
                  s
            | AstNode.object name fields ↦ keep p pair (build_object p rec pair name fields) s
            | AstNode.list inner ↦ keep p pair (build_list p rec pair inner) s
            | AstNode.nil ↦ panicked
            | AstNode.other ↦ failed BuildError.unsupported_kind
          ])
      by_view AstNode.nil e = tt
      by_view AstNode.other e = tt
      by_view (AstNode.named name) e = follow-Adds f rec pair s ask fuel name e
      by_view (AstNode.non_null inner) e =
          keep-Adds f rec pair s ask fuel
            (rec (record { ast_type = inner; resolver_type = pair.resolver_type }))
            (deeper f rec pair s ask fuel inner (z.below_non_null pair.ast_type inner e)
              pair.resolver_type s (λ q none_left. none_left))
      by_view (AstNode.list inner) e =
          keep-Adds f rec pair s ask fuel (build_list p rec pair inner) (
            build_list-Adds p rec pair inner s
              (deeper f rec pair s ask fuel inner (z.below_list pair.ast_type inner e)))
      by_view (AstNode.object name fields) e =
          keep-Adds f rec pair s ask fuel (build_object p rec pair name fields)
            (object-Adds f rec pair s ask fuel name fields e new)

  build_resolver-Adds :
      (f : ℕ) (pair : Pair) (s : Builder) → left pair s + 1 < f → Adds s (build_resolver p f pair s)
  unfolding build_resolver
  build_resolver-Adds zero pair s h = absurd (omega (arith, h))
  build_resolver-Adds (suc f) pair s h = elim (Option-cases (lookup pair s.resolvers)) [
    | inr (a, e) ↦ rw (e, build_resolver) (λ q none_left. none_left)
    | inl e ↦
        rw (e, build_resolver)
          (build_node-Adds f (build_resolver p f) pair s
            (λ q s1 less. build_resolver-Adds f q s1 (omega (arith, less, h))) (omega (arith, h)) e)
  ]

-- The fuel that is enough for a program of that size.
abbrev pub enough : ℕ → ℕ → ℕ → ℕ
enough n l_max r_max = calls_left l_max r_max n l_max r_max + 2

unkept_all : (qs : List Pair) (p : Program) → unkept qs (new_model_builder p) ≤ length qs
unfolding lookup
unkept_all [] p = omega arith
unkept_all (q ∷ qs) p = let le = unkept_all qs p in omega (arith, le)

-- `BuildModel` ends for every schema and every Go type, recursive types included: for a program of
-- finitely many pairs of objects and types, whose nodes and types are well founded apart from the
-- fields and methods, fuel that the size of the program gives is enough.
pub build_model-ends :
    (p : Program) (pairs : List Pair) (level rank : ℕ → ℕ) (l_max r_max f : ℕ)
    (schema ty : Option ℕ)
    → Sized p pairs level rank l_max r_max
    → enough (length pairs) l_max r_max ≤ f
    → build_model p f schema ty ≢ spent
unfolding build_model
build_model-ends p pairs level rank l_max r_max f schema none z le e = absurd (ground (arith))
build_model-ends p pairs level rank l_max r_max f none (some ty) z le e = absurd (ground (arith))
build_model-ends p pairs level rank l_max r_max f (some root) (some ty) z le e =
    let first : Pair = record { ast_type = root; resolver_type = ty } in
    let fits =
      calls_left_le l_max r_max (length pairs) (unkept pairs (new_model_builder p)) l_max
        (level root) r_max (rank ty) (unkept_all pairs p) (z.level_le root) (z.rank_le ty) in
    not_spent (new_model_builder p) (build_model p f (some root) (some ty))
      (Adds-bind (new_model_builder p) (build_resolver p f first) _
        (build_resolver-Adds p pairs level rank l_max r_max z f first (new_model_builder p)
          (omega (arith, fits, le)))
        (λ a s1 g. λ q none_left. none_left))
      e
  where
    not_spent : {A : Type 0} (s : Builder) (o : Out A) → Adds s o → o ≢ spent
    not_spent s (done a s1) h e = absurd (ground (arith))
    not_spent s (failed err) h e = absurd (ground (arith))
    not_spent s panicked h e = absurd (ground (arith))
    not_spent s spent h e = h
