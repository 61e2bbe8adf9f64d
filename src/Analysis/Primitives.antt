-- ===== src/Analysis/Primitives.antt =====
-- analysis/resolve-primitive.go and resolve-chan.go, and the names that `buildFollowResolver` of
-- model-build.go follows. A builder takes the recursive call of `buildResolver` as an argument.
use rgraphql.Prelude.{
  ℕ, zero, suc, ◌+◌, String, Option, none, some, lookup, nat_eq, string_eq, if◌then◌else◌,
}
use rgraphql.Types.Ast.{is_primitive, primitives_proto_kinds}
use rgraphql.Analysis.{
  ChanDir, GoType, Program, Pair, pair_eq, of_primitive, BuildError, failed, panicked, spent, M,
  ◌>>=◌, alloc,
}
use rgraphql.Analysis.Args.{primitives_types}

-- Where the loop of `buildPrimitiveResolver` ends: at a basic type below so many pointers, at a
-- channel, or at another type.
pub data Leaf : Type 0 where
  basic_at : ℕ → ℕ → Leaf
  chan_at : ChanDir → ℕ → Leaf
  no_leaf : Leaf
  too_deep : Leaf

module _ (p : Program) where
  unfoldable pub leaf_loop : ℕ → ℕ → ℕ → Leaf
  leaf_loop zero depth ty = too_deep
  leaf_loop (suc f) depth ty =
      let under = leaf_loop f depth (p.underlying ty) in
      let elem_of = leaf_loop f (depth + 1) in
      elim (p.go ty) [
        | GoType.basic kind ↦ basic_at depth ty
        | GoType.pointer elem ↦ elem_of elem
        | GoType.named pkg name methods ↦ under
        | GoType.chan dir elem ↦ chan_at dir elem
        | _ ↦ no_leaf
      ]

  -- The end of `buildPrimitiveResolver`, for a basic type.
  unfoldable pub convert_primitive : String → ℕ → ℕ → M ℕ
  convert_primitive name depth ty s = elim (lookup name primitives_types) [
    | none ↦ failed BuildError.not_a_primitive
    | some expected ↦ elim (lookup name primitives_proto_kinds) [
      | none ↦ failed BuildError.not_supported
      | some kind ↦
          if p.assignable ty (p.universe expected)
          then alloc (of_primitive depth none kind) s
          else (if p.convertible ty (p.universe expected)
              then alloc (of_primitive depth (some (p.universe expected)) kind) s
              else failed BuildError.cannot_convert)
    ]
  ]

  -- `buildChanValueResolver`
  unfoldable pub build_chan_value : (Pair → M ℕ) → ChanDir → ℕ → ℕ → M ℕ
  build_chan_value rec ChanDir.recv_only elem node s =
      (rec (record { ast_type = node; resolver_type = elem }) >>= λ a s1.
      failed BuildError.value_chan_unimplemented)
        s
  build_chan_value rec _ elem node s = failed BuildError.expected_recv_chan

  -- `buildPrimitiveResolver`; the loop has `f` rounds at most.
  unfoldable pub build_primitive : ℕ → (Pair → M ℕ) → ℕ → String → ℕ → M ℕ
  build_primitive f rec node name ty s = elim (leaf_loop f 0 (p.underlying ty)) [
    | basic_at depth at ↦ convert_primitive name depth at s
    | chan_at dir elem ↦ build_chan_value rec dir elem node s
    | no_leaf ↦ failed BuildError.unexpected_non_primitive
    | too_deep ↦ spent
  ]

  -- `lookupType` of a named type and what `buildFollowResolver` does with the answer.
  unfoldable pub follow_type : (Pair → M ℕ) → ℕ → Option String → ℕ → M ℕ
  follow_type rec node name ty s = elim (p.look node) [
    | some next ↦ rec (record { ast_type = next; resolver_type = ty }) s
    | none ↦ elim name [ none ↦ panicked | some n ↦ failed BuildError.type_not_found ]
  ]

  -- `buildFollowResolver`
  unfoldable pub build_follow : ℕ → (Pair → M ℕ) → ℕ → Option String → ℕ → M ℕ
  build_follow f rec node none ty s = follow_type rec node none ty s
  build_follow f rec node (some name) ty s =
      if is_primitive name
      then build_primitive f rec node name ty s
      else follow_type rec node (some name) ty s
