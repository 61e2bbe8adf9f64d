-- ===== src/Analysis/Model.antt =====
-- What `BuildModel` returns.
use rgraphql.Prelude.{
  ℕ, zero, suc, ◌≤◌, none, some, List, ◌≡◌, ◌≢◌, ◌⊎◌, refl, arith, lookup, lookup-insert, nat_eq,
  string_eq, Option-cases, inl, inr, length,
}
use rgraphql.Analysis.{
  AstNode, Program, Pair, pair_eq, BuildError, Builder, Out, done, failed, panicked, spent, M,
  remember,
}
use rgraphql.Analysis.Build.{
  build_list, build_object, keep, build_node, build_resolver, build_model, new_model_builder, Model,
}
use rgraphql.Analysis.Primitives.{build_follow}
use rgraphql.Analysis.Sized.{Sized}
use rgraphql.Analysis.Total.{enough, build_model-ends}
use rgraphql.Analysis.Extends.{
  Complete, IsObject, Allocated, Extends-refl, remember-Extends, Gives, Gives-bind,
}
use rgraphql.Analysis.Closed.{Any, Built, Builds}
use rgraphql.Analysis.Followed.{build_follow-Built}
use rgraphql.Analysis.Whole.{ObjectBuilt, build_object-ObjectBuilt, build_list-Built}

module _ (p : Program) where
  keep-Built :
      (pair : Pair) (s : Builder) (m : M ℕ)
      → (IsObject p pair → ⊥)
      → Gives (Built p s) (m s)
      → Gives (Built p s) (keep p pair m s)
  keep-Built pair s m not_object h =
      Gives-bind (Built p s) (Built p s) m (λ a s1. done a (remember pair a s1)) s h
        (λ a s1 (grown, lt).
          (remember-Extends p Any pair a s s1 lt (λ k. absurd (not_object k)) grown, lt))

  keep-object :
      (pair : Pair) (s : Builder) (m : M ℕ) (rec : Pair → M ℕ) (h : Builds p rec)
      → Gives (ObjectBuilt p rec h pair s) (m s)
      → Gives (Built p s) (keep p pair m s)
  keep-object pair s m rec h k =
      Gives-bind (ObjectBuilt p rec h pair s) (Built p s) m (λ a s1. done a (remember pair a s1)) s
        k
        (λ a s1 (grown, lt, high, whole).
          (remember-Extends p Any pair a s s1 lt (λ j. (high, whole)) grown, lt))

  build_node-Built :
      (f : ℕ) (rec : Pair → M ℕ) (pair : Pair) (s : Builder)
      → Builds p rec
      → Allocated s
      → Gives (Built p s) (build_node p f rec pair s)
  unfolding build_node
  build_node-Built f rec pair s h good = by_view (p.ast pair.ast_type) refl
    where
      by_view :
          (v : AstNode)
          → p.ast pair.ast_type ≡ v
          → Gives (Built p s) (elim v [
            | AstNode.named name ↦ build_follow p f rec pair.ast_type name pair.resolver_type s
            | AstNode.non_null inner ↦
                keep p pair
                  (rec (record { ast_type = inner; resolver_type = pair.resolver_type }))
                  s
            | AstNode.object name fields ↦ keep p pair (build_object p rec pair name fields) s
            | AstNode.list inner ↦ keep p pair (build_list p rec pair inner) s
            | AstNode.nil ↦ panicked
            | AstNode.other ↦ failed BuildError.unsupported_kind
          ])
      by_view AstNode.nil e = tt
      by_view AstNode.other e = tt
      by_view (AstNode.named name) e =
          build_follow-Built p rec h f pair.ast_type name pair.resolver_type s good
      by_view (AstNode.non_null inner) e =
          keep-Built pair s (rec (record { ast_type = inner; resolver_type = pair.resolver_type }))
            (λ (n, fs, at). absurd (ground (arith, e, at)))
            (h (record { ast_type = inner; resolver_type = pair.resolver_type }) s good)
      by_view (AstNode.list inner) e =
          keep-Built pair s (build_list p rec pair inner)
            (λ (n, fs, at). absurd (ground (arith, e, at)))
            (build_list-Built p rec h pair inner s (λ (n, fs, at). absurd (ground (arith, e, at)))
              good)
      by_view (AstNode.object name fields) e =
          keep-object pair s (build_object p rec pair name fields) rec h
            (build_object-ObjectBuilt p rec h pair name fields s e good)

  build_resolver-Builds : (f : ℕ) → Builds p (build_resolver p f)
  unfolding build_resolver
  build_resolver-Builds zero pair s good = tt
  build_resolver-Builds (suc f) pair s good = elim (Option-cases (lookup pair s.resolvers)) [
    | inr (a, e) ↦ rw (e, build_resolver) ((Extends-refl p Any s good, good.kept pair a e))
    | inl e ↦
        rw (e, build_resolver)
          (build_node-Built f (build_resolver p f) pair s (build_resolver-Builds f) good)
  ]

-- A model with its builder: the root has a resolver, every address in use is allocated, and each pair
-- of an object and a Go type that was met has the resolver of that object, with one for each field.
pub record WholeModel (p : Program) (root : Pair) (m : Model p) (s : Builder) : Type 0 where
  pub root_kept : lookup root s.resolvers ≡ some m.root_resolver
  pub allocated : Allocated s
  pub complete :
      (pair : Pair) (a : ℕ)
      → IsObject p pair
      → lookup pair s.resolvers ≡ some a
      → Complete p s pair a

Gives-any : {A : Type 0} (o : Out A) → Gives (λ a s. Unit {0}) o
Gives-any (done a s) = tt
Gives-any (failed e) = tt
Gives-any panicked = tt
Gives-any spent = tt

-- The resolver of an object is the one that is kept for it.
build_resolver-kept :
    (p : Program) (f : ℕ) (pair : Pair) (s : Builder)
    → IsObject p pair
    → Gives (λ a s'. lookup pair s'.resolvers ≡ some a) (build_resolver p f pair s)
unfolding build_resolver build_node
build_resolver-kept p zero pair s h = tt
build_resolver-kept p (suc f) pair s (name, fields, view) =
    elim (Option-cases (lookup pair s.resolvers)) [
      | inr (a, e) ↦ rw (e, build_resolver) e
      | inl e ↦
          rw (e, build_resolver, view, build_node)
            (Gives-bind (λ a s1. Unit {0}) (λ a s'. lookup pair s'.resolvers ≡ some a)
              (build_object p (build_resolver p f) pair name fields)
              (λ a s1. done a (remember pair a s1)) s
              (Gives-any (build_object p (build_resolver p f) pair name fields s))
              (λ a s1 u.
                ground (arith, lookup-insert pair pair a s1.resolvers, pair_eq.same_iff pair pair)))
    ]

new-Allocated : (p : Program) → Allocated (new_model_builder p)
unfolding lookup
new-Allocated p = record {
  kept = λ pair a e. absurd (ground (arith));
  dense = λ b lt. absurd (omega (arith, lt));
}

no_pairs : (p : Program) (pair : Pair) → lookup pair (new_model_builder p).resolvers ≡ none
unfolding lookup
no_pairs p pair = refl

both :
    {A : Type 0} (P Q : A → Builder → Type 0) (o : Out A)
    → Gives P o
    → Gives Q o
    → Gives (λ a s. P a s × Q a s) o
both P Q (done a s) h k = (h, k)
both P Q (failed e) h k = tt
both P Q panicked h k = tt
both P Q spent h k = tt

build_model-Gives :
    (p : Program) (f root ty : ℕ)
    → IsObject p (record { ast_type = root; resolver_type = ty })
    → Gives
        (WholeModel p (record { ast_type = root; resolver_type = ty }))
        (build_model p f (some root) (some ty))
unfolding build_model
build_model-Gives p f root ty is_object =
    let first : Pair = record { ast_type = root; resolver_type = ty } in
    let start : Builder = new_model_builder p in
    Gives-bind (λ a s. Built p start a s × (lookup first s.resolvers ≡ some a)) (WholeModel p first)
      (build_resolver p f first) _ start
      (both (Built p start) (λ a s. lookup first s.resolvers ≡ some a)
        (build_resolver p f first start) (build_resolver-Builds p f first start (new-Allocated p))
        (build_resolver-kept p f first start is_object))
      (λ a s ((grown, lt), kept). record {
        root_kept = kept;
        allocated = grown.allocated;
        complete = λ pair b k e. elim (grown.fresh pair b k e) [
          | inl old ↦ absurd (ground (arith, old, no_pairs p pair))
          | inr (high, whole) ↦ whole
        ];
      })

-- `BuildModel` of an object of the schema and a Go type, for a program of finitely many pairs whose
-- nodes and types are well founded apart from fields and methods, given the fuel that this size asks
-- for: it returns an error, or panics, or returns a whole model, recursive types included.
pub build_model-WholeModel :
    (p : Program) (pairs : List Pair) (level rank : ℕ → ℕ) (l_max r_max f root ty : ℕ)
    → Sized p pairs level rank l_max r_max
    → enough (length pairs) l_max r_max ≤ f
    → IsObject p (record { ast_type = root; resolver_type = ty })
    → ((e : BuildError) × (build_model p f (some root) (some ty) ≡ failed e))
      ⊎ ((build_model p f (some root) (some ty) ≡ panicked)
          ⊎ ((m : Model p) × (s : Builder) × (build_model p f (some root) (some ty) ≡ done m s)
              × WholeModel p (record { ast_type = root; resolver_type = ty }) m s))
build_model-WholeModel p pairs level rank l_max r_max f root ty z le is_object =
    outcomes (build_model p f (some root) (some ty)) (build_model-Gives p f root ty is_object)
      (build_model-ends p pairs level rank l_max r_max f (some root) (some ty) z le)
  where
    outcomes :
        (o : Out (Model p))
        → Gives (WholeModel p (record { ast_type = root; resolver_type = ty })) o
        → o ≢ spent
        → ((e : BuildError) × (o ≡ failed e))
          ⊎ ((o ≡ panicked)
              ⊎ ((m : Model p) × (s : Builder) × (o ≡ done m s)
                  × WholeModel p (record { ast_type = root; resolver_type = ty }) m s))
    outcomes (done m s) h k = inr (inr (m, s, refl, h))
    outcomes (failed e) h k = inl (e, refl)
    outcomes panicked h k = inr (inl refl)
    outcomes spent h k = absurd (k refl)
