-- ===== src/Analysis/Rules.antt =====
-- How the operations of the builder end, step by step, and how the pairs that it keeps grow.
use rgraphql.Prelude.{
  ℕ, suc, ◌<◌, ◌≤◌, Bool, none, some, List, [], ◌∷◌, ◌≡◌, arith, lookup, lookup-insert, Bool-cases,
  inl, inr, ◌==◌, if◌then◌else◌,
}
use rgraphql.Analysis.{
  Pair, pair_eq, Builder, Out, done, failed, panicked, spent, M, ◌>>=◌, Checked, ok, refused,
  faulted, lift, remember,
}

-- The operation has fuel enough, and P holds of what it returns.
abbrev pub Ends : {A : Type 0} → (A → Builder → Type 0) → Out A → Type 0
Ends P (done a s) = P a s
Ends P (failed e) = Unit
Ends P panicked = Unit
Ends P spent = ⊥

-- What is kept stays kept.
abbrev pub Grows : Builder → Builder → Type 0
Grows s s' = (q : Pair) → lookup q s'.resolvers ≡ none → lookup q s.resolvers ≡ none

-- The operation ends, and everything that was kept in `s` still is.
abbrev pub Adds : {A : Type 0} → Builder → Out A → Type 0
Adds s o = Ends (λ a s'. Grows s s') o

pub Adds-later : {A : Type 0} (s s1 : Builder) (o : Out A) → Grows s s1 → Adds s1 o → Adds s o
Adds-later s s1 (done b s2) g e = λ q none_left. g q (e q none_left)
Adds-later s s1 (failed e) g h = tt
Adds-later s s1 panicked g h = tt
Adds-later s s1 spent g h = h

pub Adds-bind :
    {A B : Type 0} (s : Builder) (m : M A) (f : A → M B)
    → Adds s (m s)
    → ((a : A) (s1 : Builder) → Grows s s1 → Adds s1 (f a s1))
    → Adds s ((m >>= f) s)
Adds-bind s m f h k = after (m s) h
  where
    after :
        (o : Out _)
        → Adds s o
        → Adds s (elim o [
          | done a s' ↦ f a s'
          | failed e ↦ failed e
          | panicked ↦ panicked
          | spent ↦ spent
        ])
    after (done a s1) h = Adds-later s s1 (f a s1) h (k a s1 h)
    after (failed e) h = tt
    after panicked h = tt
    after spent h = h

pub Adds-lift : {A : Type 0} (c : Checked A) (s : Builder) → Adds s (lift c s)
Adds-lift (ok a) s = λ q e. e
Adds-lift (refused e) s = tt
Adds-lift faulted s = tt

pub Grows-remember : (pair : Pair) (a : ℕ) (s : Builder) → Grows s (remember pair a s)
Grows-remember pair a s = λ q e. ground (arith, lookup-insert pair q a s.resolvers)

-- How many of the pairs are not kept.
abbrev pub unkept : List Pair → Builder → ℕ
unkept [] s = 0
unkept (q ∷ qs) s = elim (lookup q s.resolvers) [ none ↦ suc (unkept qs s) | some a ↦ unkept qs s ]

pub unkept_le : (qs : List Pair) (s s' : Builder) → Grows s s' → unkept qs s' ≤ unkept qs s
unkept_le [] s s' g = omega arith
unkept_le (q ∷ qs) s s' g = ground (arith, unkept_le qs s s' g, g q)

-- Whether the pair is in the list.
abbrev pub among : Pair → List Pair → Bool
among q [] = Bool.false
among q (r ∷ qs) = if r == q then Bool.true else among q qs

pub unkept_lt :
    (qs : List Pair) (pair : Pair) (a : ℕ) (s : Builder)
    → among pair qs ≡ Bool.true
    → lookup pair s.resolvers ≡ none
    → unkept qs (remember pair a s) < unkept qs s
unkept_lt [] pair a s h e = absurd (ground (arith))
unkept_lt (q ∷ qs) pair a s h e = elim (Bool-cases (q == pair)) [
  | inl same ↦
      let le = unkept_le qs s (remember pair a s) (Grows-remember pair a s) in
      ground (
        arith,
        le,
        lookup-insert pair q a s.resolvers,
        pair_eq.same_iff q pair,
        pair_eq.same_iff pair q,
      )
  | inr other ↦
      let less = unkept_lt qs pair a s (ground (arith)) e in
      ground (
        arith,
        less,
        lookup-insert pair q a s.resolvers,
        pair_eq.same_iff q pair,
        pair_eq.same_iff pair q,
      )
]
