-- ===== src/Analysis/Extends.antt =====
-- What it is for a step to extend the builder, and for an object's resolver to be complete.
use rgraphql.Prelude.{
  ℕ, ◌+◌, ◌<◌, ◌≤◌, String, Option, some, List, [], ◌∷◌, ◌≡◌, ◌≢◌, ◌⊎◌, refl, sym, ◌∙◌, arith,
  lookup, insert, lookup-insert, nat_eq, nat_beq_iff, string_eq, Bool-cases, inl, inr, ◌==◌, subst,
}
use rgraphql.Analysis.{
  FieldDefinition, AstNode, Program, Pair, pair_eq, FuncResolver, ObjectResolver, Resolver,
  of_object, Builder, Out, done, failed, panicked, spent, M, ◌>>=◌, remember, write,
}
use rgraphql.Analysis.Build.{resolved_name}

-- The object has a method for that field, and the resolver of its result is on the heap.
abbrev pub Filled : Builder → ObjectResolver → String → Type 0
Filled s o name =
    (r : FuncResolver) × (b : ℕ) × (lookup name o.field_resolvers ≡ some r)
    × (r.result_resolver ≡ some b)
    × (b < s.next)

-- Every field that is not skipped is filled.
abbrev pub AllFilled : Program → Builder → ObjectResolver → List FieldDefinition → Type 0
AllFilled p s o [] = Unit
AllFilled p s o (field ∷ more) =
    ((name : String) → resolved_name p field ≡ some name → Filled s o name) × AllFilled p s o more

-- The resolver at `a` is that of the object of the pair, and has a resolver for each of its fields.
abbrev pub Complete : Program → Builder → Pair → ℕ → Type 0
Complete p s pair a =
    (name : String) × (fields : List FieldDefinition) × (o : ObjectResolver) × (p.ast pair.ast_type
      ≡ AstNode.object (some name) fields)
    × (lookup a s.heap ≡ some (of_object o))
    × (o.type_name ≡ name)
    × AllFilled p s o fields

abbrev pub IsObject : Program → Pair → Type 0
IsObject p pair =
    (name : Option String) × (fields : List FieldDefinition) × (p.ast pair.ast_type
      ≡ AstNode.object name fields)

-- Every address in use is allocated.
pub record Allocated (s : Builder) : Type 0 where
  pub kept : (pair : Pair) (a : ℕ) → lookup pair s.resolvers ≡ some a → a < s.next
  pub dense : (b : ℕ) → b < s.next → (r : Resolver) × (lookup b s.heap ≡ some r)

-- From `s` to `s'`, the addresses with `P` that were allocated are left alone, and each pair of an
-- object that is new is complete.
pub record Extends (p : Program) (P : ℕ → Type 0) (s s' : Builder) : Type 0 where
  pub longer : s.next ≤ s'.next
  pub same : (b : ℕ) → b < s.next → P b → lookup b s'.heap ≡ lookup b s.heap
  pub fresh :
      (pair : Pair) (a : ℕ)
      → IsObject p pair
      → lookup pair s'.resolvers ≡ some a
      → (lookup pair s.resolvers ≡ some a) ⊎ ((s.next ≤ a) × Complete p s' pair a)
  pub allocated : Allocated s'

AllFilled-longer :
    (p : Program) (s s' : Builder) (o : ObjectResolver) (fields : List FieldDefinition)
    → s.next ≤ s'.next
    → AllFilled p s o fields
    → AllFilled p s' o fields
AllFilled-longer p s s' o [] le h = tt
AllFilled-longer p s s' o (field ∷ more) le h = (
  λ name e. let (r, b, at, res, lt) = h.0 name e in (r, b, at, res, omega (arith, lt, le)),
  AllFilled-longer p s s' o more le h.1,
)

pub Filled-longer :
    (s s' : Builder) (o : ObjectResolver) (name : String)
    → s.next ≤ s'.next
    → Filled s o name
    → Filled s' o name
Filled-longer s s' o name le (r, b, at, res, lt) = (r, b, at, res, omega (arith, lt, le))

pub Complete-longer :
    (p : Program) (s s' : Builder) (pair : Pair) (a : ℕ)
    → s.next ≤ s'.next
    → lookup a s'.heap ≡ lookup a s.heap
    → Complete p s pair a
    → Complete p s' pair a
Complete-longer p s s' pair a le same (name, fields, o, view, at, ty, all) =
    (name, fields, o, view, same ∙ at, ty, AllFilled-longer p s s' o fields le all)

module _ (p : Program) (P : ℕ → Type 0) where
  pub Extends-refl : (s : Builder) → Allocated s → Extends p P s s
  Extends-refl s h = record {
    longer = omega arith;
    same = λ b lt ok. refl;
    fresh = λ pair a is_object e. inl e;
    allocated = h;
  }

  pub Extends-trans :
      (s s1 s2 : Builder)
      → ((b : ℕ) → s.next ≤ b → P b)
      → Extends p P s s1
      → Extends p P s1 s2
      → Extends p P s s2
  Extends-trans s s1 s2 high h k = record {
    longer = omega (arith, h.longer, k.longer);
    same = λ b lt ok. k.same b (omega (arith, lt, h.longer)) ok ∙ h.same b lt ok;
    fresh = λ pair a is_object e. elim (k.fresh pair a is_object e) [
      | inr (le, c) ↦ inr (omega (arith, le, h.longer), c)
      | inl before ↦ elim (h.fresh pair a is_object before) [
        | inl old ↦ inl old
        | inr (le, c) ↦ inr (
          le,
          Complete-longer p s1 s2 pair a k.longer
              (k.same a (h.allocated.kept pair a before) (high a le)) c,
        )
      ]
    ];
    allocated = k.allocated;
  }

  pub Extends-weaken :
      (Q : ℕ → Type 0) (s s' : Builder)
      → ((b : ℕ) → b < s.next → P b → Q b)
      → Extends p Q s s'
      → Extends p P s s'
  Extends-weaken Q s s' weaker h = record {
    longer = h.longer;
    same = λ b lt ok. h.same b lt (weaker b lt ok);
    fresh = h.fresh;
    allocated = h.allocated;
  }

-- A resolver is allocated.
pub alloc-Extends :
    (p : Program) (P : ℕ → Type 0) (r : Resolver) (s : Builder)
    → Allocated s
    → Extends p P s (record s { heap = insert s.next r s.heap; next = s.next + 1 })
alloc-Extends p P r s h = record {
  longer = omega arith;
  same = λ b lt ok. ground (arith, lt, lookup-insert s.next b r s.heap, nat_beq_iff s.next b);
  fresh = λ pair a is_object e. inl e;
  allocated = record {
    kept = λ pair a e. let lt = h.kept pair a e in omega (arith, lt);
    dense = λ b lt. elim (Bool-cases (s.next == b)) [
      | inl e ↦ (r, ground (arith, lookup-insert s.next b r s.heap))
      | inr e ↦
          let (x, at) = h.dense b (ground (arith, lt, nat_beq_iff s.next b)) in
          (x, ground (arith, lookup-insert s.next b r s.heap))
    ];
  };
}

-- A resolver that is allocated is written.
pub write-Extends :
    (p : Program) (P : ℕ → Type 0) (a : ℕ) (r : Resolver) (s : Builder)
    → ((b : ℕ) → P b → a ≢ b)
    → Allocated s
    → Extends p P s (write a r s)
write-Extends p P a r s apart h = record {
  longer = omega arith;
  same =
      λ b lt ok. let ne = apart b ok in ground (arith, lookup-insert a b r s.heap, nat_beq_iff a b);
  fresh = λ pair c is_object e. inl e;
  allocated = record {
    kept = h.kept;
    dense = λ b lt. elim (Bool-cases (a == b)) [
      | inl e ↦ (r, ground (arith, lookup-insert a b r s.heap))
      | inr e ↦ let (x, at) = h.dense b lt in (x, ground (arith, lookup-insert a b r s.heap))
    ];
  };
}

pub Allocated-remember :
    (pair : Pair) (a : ℕ) (s : Builder) → a < s.next → Allocated s → Allocated (remember pair a s)
Allocated-remember pair a s lt h = record {
  kept = λ q b e. elim (Bool-cases (pair == q)) [
    | inl g ↦ ground (arith, lt, lookup-insert pair q a s.resolvers)
    | inr g ↦ h.kept q b (ground (arith, lookup-insert pair q a s.resolvers))
  ];
  dense = h.dense;
}

-- A pair is kept: no object, or one that is complete.
pub remember-Extends :
    (p : Program) (P : ℕ → Type 0) (pair : Pair) (a : ℕ) (s0 s : Builder)
    → a < s.next
    → (IsObject p pair → (s0.next ≤ a) × Complete p s pair a)
    → Extends p P s0 s
    → Extends p P s0 (remember pair a s)
remember-Extends p P pair a s0 s lt good h = record {
  longer = h.longer;
  same = h.same;
  fresh = λ q b is_object e. elim (Bool-cases (pair == q)) [
    | inl g ↦
        let same : pair ≡ q = (pair_eq.same_iff pair q).0 g in
        let at : a ≡ b = ground (arith, lookup-insert pair q a s.resolvers) in
        inr (
          subst (λ x. (s0.next ≤ x) × Complete p s q x) at
            (subst (λ x. (s0.next ≤ a) × Complete p s x a) same
              (good (subst (IsObject p) (sym same) is_object))))
    | inr g ↦ h.fresh q b is_object (ground (arith, lookup-insert pair q a s.resolvers))
  ];
  allocated = Allocated-remember pair a s lt h.allocated;
}

-- What the operation returns, where it does.
abbrev pub Gives : {A : Type 0} → (A → Builder → Type 0) → Out A → Type 0
Gives P (done a s) = P a s
Gives P (failed e) = Unit
Gives P panicked = Unit
Gives P spent = Unit

pub Gives-map :
    {A : Type 0} (P Q : A → Builder → Type 0) (o : Out A)
    → Gives P o
    → ((a : A) (s : Builder) → P a s → Q a s)
    → Gives Q o
Gives-map P Q (done a s) h k = k a s h
Gives-map P Q (failed e) h k = tt
Gives-map P Q panicked h k = tt
Gives-map P Q spent h k = tt

pub Gives-bind :
    {A B : Type 0} (P : A → Builder → Type 0) (Q : B → Builder → Type 0) (m : M A) (f : A → M B)
    (s : Builder)
    → Gives P (m s)
    → ((a : A) (s1 : Builder) → P a s1 → Gives Q (f a s1))
    → Gives Q ((m >>= f) s)
Gives-bind P Q m f s h k = after (m s) h
  where
    after :
        (o : Out _)
        → Gives P o
        → Gives Q (elim o [
          | done a s' ↦ f a s'
          | failed e ↦ failed e
          | panicked ↦ panicked
          | spent ↦ spent
        ])
    after (done a s1) h = k a s1 h
    after (failed e) h = tt
    after panicked h = tt
    after spent h = tt
