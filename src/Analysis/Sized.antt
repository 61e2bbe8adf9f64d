-- ===== src/Analysis/Sized.antt =====
-- When the recursion of `buildResolver` ends: the program is finite, and its types are well founded.
use rgraphql.Prelude.{
  ℕ, zero, suc, ◌+◌, ◌*◌, ◌<◌, ◌≤◌, String, Option, some, List, ◌≡◌, refl, true, arith,
}
use rgraphql.Analysis.{FieldDefinition, AstNode, ChanDir, Func, GoType, Program, Pair}
use rgraphql.Analysis.Build.{object_type}
use rgraphql.Analysis.Primitives.{Leaf, basic_at, chan_at, no_leaf, too_deep, leaf_loop}
use rgraphql.Analysis.Rules.{among}

-- Every pair of an object and a type with a name is one of `pairs`. What a node of the syntax wraps or
-- names is on a lower level, and a pointer, a channel or a named type has a higher rank than what it
-- is made of, so that no type is a pointer to itself.
pub record Sized (p : Program) (pairs : List Pair) (level rank : ℕ → ℕ) (l_max r_max : ℕ)
    : Type 0 where
  pub listed :
      (pair : Pair) (ty : ℕ) (pkg name : Option String) (fields : List FieldDefinition)
      → p.ast pair.ast_type ≡ AstNode.object name fields
      → object_type p pair.resolver_type ≡ some (ty, pkg)
      → among pair pairs ≡ true
  pub below_non_null : (a b : ℕ) → p.ast a ≡ AstNode.non_null b → level b < level a
  pub below_list : (a b : ℕ) → p.ast a ≡ AstNode.list b → level b < level a
  pub below_named :
      (a b : ℕ) (name : Option String)
      → p.ast a ≡ AstNode.named name
      → p.look a ≡ some b
      → level b < level a
  pub level_le : (a : ℕ) → level a ≤ l_max
  pub rank_pointer : (g e : ℕ) → p.go g ≡ GoType.pointer e → rank e < rank g
  pub rank_chan : (g e : ℕ) (dir : ChanDir) → p.go g ≡ GoType.chan dir e → rank e < rank g
  pub rank_named :
      (g : ℕ) (pkg : Option String) (name : String) (methods : List Func)
      → p.go g ≡ GoType.named pkg name methods
      → rank (p.underlying g) < rank g
  pub rank_underlying : (g : ℕ) → rank (p.underlying g) ≤ rank g
  pub rank_le : (g : ℕ) → rank g ≤ r_max

mul-suc_le : (a b k : ℕ) → a < b → a * k + k ≤ b * k
mul-suc_le a zero k h = absurd (omega (arith, h))
mul-suc_le zero (suc b) k h = omega arith
mul-suc_le (suc a) (suc b) k h =
    let less = mul-suc_le a b k (omega (arith, h)) in omega (arith, less)

mul_le : (a b k : ℕ) → a ≤ b → a * k ≤ b * k
mul_le zero b k h = omega arith
mul_le (suc a) zero k h = absurd (omega (arith, h))
mul_le (suc a) (suc b) k h = let le = mul_le a b k (omega (arith, h)) in omega (arith, le)

-- A bound on the calls that are left: pairs first, then levels, then ranks.
abbrev pub calls_left : ℕ → ℕ → ℕ → ℕ → ℕ → ℕ
calls_left l_max r_max n l r = n * ((l_max + 1) * (r_max + 1)) + l * (r_max + 1) + r

module _ (l_max r_max : ℕ) where
  pub fewer_pairs :
      (n n' l l' r r' : ℕ)
      → n' < n
      → l' ≤ l_max
      → r' ≤ r_max
      → calls_left l_max r_max n' l' r' < calls_left l_max r_max n l r
  fewer_pairs n n' l l' r r' hn hl hr =
      let pairs = mul-suc_le n' n ((l_max + 1) * (r_max + 1)) hn in
      let levels = mul-suc_le l' (l_max + 1) (r_max + 1) (omega (arith, hl)) in
      omega (arith, pairs, levels, hr)

  pub lower_level :
      (n n' l l' r r' : ℕ)
      → n' ≤ n
      → l' < l
      → r' ≤ r_max
      → calls_left l_max r_max n' l' r' < calls_left l_max r_max n l r
  lower_level n n' l l' r r' hn hl hr =
      let pairs = mul_le n' n ((l_max + 1) * (r_max + 1)) hn in
      let levels = mul-suc_le l' l (r_max + 1) hl in omega (arith, pairs, levels, hr)

  pub lower_rank :
      (n n' l r r' : ℕ)
      → n' ≤ n
      → r' < r
      → calls_left l_max r_max n' l r' < calls_left l_max r_max n l r
  lower_rank n n' l r r' hn hr =
      let pairs = mul_le n' n ((l_max + 1) * (r_max + 1)) hn in omega (arith, pairs, hr)

  pub calls_left_le :
      (n n' l l' r r' : ℕ)
      → n' ≤ n
      → l' ≤ l
      → r' ≤ r
      → calls_left l_max r_max n' l' r' ≤ calls_left l_max r_max n l r
  calls_left_le n n' l l' r r' hn hl hr =
      let pairs = mul_le n' n ((l_max + 1) * (r_max + 1)) hn in
      let levels = mul_le l' l (r_max + 1) hl in omega (arith, pairs, levels, hr)

-- Where the loop of `buildPrimitiveResolver` ends, for a type of that rank.
abbrev pub LeafBelow : (ℕ → ℕ) → ℕ → Leaf → Type 0
LeafBelow rank r (basic_at depth ty) = Unit
LeafBelow rank r (chan_at dir elem) = rank elem < r
LeafBelow rank r no_leaf = Unit
LeafBelow rank r too_deep = ⊥

LeafBelow-le :
    (rank : ℕ → ℕ) (r r' : ℕ) (o : Leaf) → r ≤ r' → LeafBelow rank r o → LeafBelow rank r' o
LeafBelow-le rank r r' (basic_at depth ty) le h = tt
LeafBelow-le rank r r' (chan_at dir elem) le h = omega (arith, le, h)
LeafBelow-le rank r r' no_leaf le h = tt
LeafBelow-le rank r r' too_deep le h = h

pub leaf_loop-LeafBelow :
    (p : Program) (pairs : List Pair) (level rank : ℕ → ℕ) (l_max r_max : ℕ) (f depth ty : ℕ)
    → Sized p pairs level rank l_max r_max
    → rank ty < f
    → LeafBelow rank (rank ty) (leaf_loop p f depth ty)
unfolding leaf_loop
leaf_loop-LeafBelow p pairs level rank l_max r_max zero depth ty h lt = absurd (omega (arith, lt))
leaf_loop-LeafBelow p pairs level rank l_max r_max (suc f) depth ty h lt =
    by_view (p.go ty) refl
      (λ d t less. leaf_loop-LeafBelow p pairs level rank l_max r_max f d t h less)
  where
    by_view :
        (v : GoType)
        → p.go ty ≡ v
        → ((d t : ℕ) → rank t < f → LeafBelow rank (rank t) (leaf_loop p f d t))
        → LeafBelow rank (rank ty) (elim v [
          | GoType.basic kind ↦ basic_at depth ty
          | GoType.pointer elem ↦ leaf_loop p f (depth + 1) elem
          | GoType.named pkg name methods ↦ leaf_loop p f depth (p.underlying ty)
          | GoType.chan dir elem ↦ chan_at dir elem
          | _ ↦ no_leaf
        ])
    by_view (GoType.basic kind) e again = tt
    by_view (GoType.pointer elem) e again =
        let less = h.rank_pointer ty elem e in
        LeafBelow-le rank (rank elem) (rank ty) (leaf_loop p f (depth + 1) elem)
          (omega (arith, less)) (again (depth + 1) elem (omega (arith, less, lt)))
    by_view (GoType.named pkg name methods) e again =
        let less = h.rank_named ty pkg name methods e in
        LeafBelow-le rank (rank (p.underlying ty)) (rank ty) (leaf_loop p f depth (p.underlying ty))
          (omega (arith, less)) (again depth (p.underlying ty) (omega (arith, less, lt)))
    by_view (GoType.chan dir elem) e again = h.rank_chan ty elem dir e
    by_view (GoType.slice elem) e again = tt
    by_view (GoType.struct fields) e again = tt
    by_view GoType.other e again = tt
