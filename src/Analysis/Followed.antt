-- ===== src/Analysis/Followed.antt =====
-- What the builders of primitives return, and what `buildFollowResolver` does.
use rgraphql.Prelude.{
  ℕ, ◌+◌, String, Option, none, some, arith, lookup, insert, nat_eq, string_eq, Option-cases,
  Bool-cases, inl, inr,
}
use rgraphql.Types.Ast.{is_primitive, primitives_proto_kinds}
use rgraphql.Analysis.{
  ChanDir, Program, Pair, pair_eq, BuildError, Builder, failed, panicked, spent, M, of_primitive,
  Resolver,
}
use rgraphql.Analysis.Args.{primitives_types}
use rgraphql.Analysis.Primitives.{
  Leaf, basic_at, chan_at, no_leaf, too_deep, leaf_loop, convert_primitive, build_chan_value,
  build_primitive, follow_type, build_follow,
}
use rgraphql.Analysis.Extends.{Allocated, alloc-Extends, Gives, Gives-bind}
use rgraphql.Analysis.Closed.{Any, Built, Builds}

module _ (p : Program) (rec : Pair → M ℕ) (h : Builds p rec) where
  follow_type-Built :
      (node ty : ℕ) (name : Option String) (s : Builder)
      → Allocated s
      → Gives (Built p s) (follow_type p rec node name ty s)
  unfolding follow_type
  follow_type-Built node ty name s good = elim (Option-cases (p.look node)) [
    | inr (next, e) ↦
        rw (e, follow_type) (h (record { ast_type = next; resolver_type = ty }) s good)
    | inl e ↦ rw (e, follow_type) (by_name name)
  ]
    where
      by_name :
          (o : Option String)
          → Gives {A = ℕ}
              (Built p s)
              (elim o [ none ↦ panicked | some n ↦ failed BuildError.type_not_found ])
      by_name none = tt
      by_name (some n) = tt

  alloc-Built :
      (r : Resolver) (s : Builder)
      → Allocated s
      → Built p s s.next (record s { heap = insert s.next r s.heap; next = s.next + 1 })
  alloc-Built r s good = (alloc-Extends p Any r s good, omega arith)

  convert_primitive-Built :
      (name : String) (depth ty : ℕ) (s : Builder)
      → Allocated s
      → Gives (Built p s) (convert_primitive p name depth ty s)
  unfolding convert_primitive
  convert_primitive-Built name depth ty s good =
      elim (Option-cases (lookup name primitives_types)) [
        | inl e ↦ rw (e, convert_primitive) tt
        | inr (expected, e) ↦ elim (Option-cases (lookup name primitives_proto_kinds)) [
          | inl g ↦ rw (e, g, convert_primitive) tt
          | inr (kind, g) ↦ elim (Bool-cases (p.assignable ty (p.universe expected))) [
            | inl k ↦
                rw (e, g, k, convert_primitive) (alloc-Built (of_primitive depth none kind) s good)
            | inr k ↦ elim (Bool-cases (p.convertible ty (p.universe expected))) [
              | inl j ↦
                  rw (e, g, k, j, convert_primitive)
                    (alloc-Built (of_primitive depth (some (p.universe expected)) kind) s good)
              | inr j ↦ rw (e, g, k, j, convert_primitive) tt
            ]
          ]
        ]
      ]

  build_chan_value-Built :
      (dir : ChanDir) (elem node : ℕ) (s : Builder)
      → Allocated s
      → Gives (Built p s) (build_chan_value p rec dir elem node s)
  unfolding build_chan_value
  build_chan_value-Built ChanDir.recv_only elem node s good =
      Gives-bind (Built p s) (Built p s) (rec (record { ast_type = node; resolver_type = elem })) _
        s (h (record { ast_type = node; resolver_type = elem }) s good) (λ a s1 k. tt)
  build_chan_value-Built ChanDir.send_only elem node s good = tt
  build_chan_value-Built ChanDir.send_recv elem node s good = tt

  build_primitive-Built :
      (f node : ℕ) (name : String) (ty : ℕ) (s : Builder)
      → Allocated s
      → Gives (Built p s) (build_primitive p f rec node name ty s)
  unfolding build_primitive
  build_primitive-Built f node name ty s good = by_leaf (leaf_loop p f 0 (p.underlying ty))
    where
      by_leaf :
          (o : Leaf)
          → Gives (Built p s) (elim o [
            | basic_at depth at ↦ convert_primitive p name depth at s
            | chan_at dir elem ↦ build_chan_value p rec dir elem node s
            | no_leaf ↦ failed BuildError.unexpected_non_primitive
            | too_deep ↦ spent
          ])
      by_leaf (basic_at depth at) = convert_primitive-Built name depth at s good
      by_leaf (chan_at dir elem) = build_chan_value-Built dir elem node s good
      by_leaf no_leaf = tt
      by_leaf too_deep = tt

  pub build_follow-Built :
      (f node : ℕ) (name : Option String) (ty : ℕ) (s : Builder)
      → Allocated s
      → Gives (Built p s) (build_follow p f rec node name ty s)
  unfolding build_follow
  build_follow-Built f node none ty s good = follow_type-Built node ty none s good
  build_follow-Built f node (some name) ty s good = elim (Bool-cases (is_primitive name)) [
    | inl e ↦ rw (e, build_follow) (build_primitive-Built f node name ty s good)
    | inr e ↦ rw (e, build_follow) (follow_type-Built node ty (some name) s good)
  ]
