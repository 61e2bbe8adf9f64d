-- ===== src/Resolver/Context/Shape.antt =====
-- The chain of parents: where values are written.
use rgraphql.Prelude.{
  subst, ◌∙◌, ℕ, ◌<◌, false, Option, none, some, [], ◌∷◌, ◌++◌, ◌≡◌, refl, arith, Map, lookup,
  insert, nat_eq, nat_beq_iff, lookup-insert, inl, inr, Bool-cases, Option-cases, ◌==◌,
}
use rgraphql.Resolver.Value.{RgqlValue, Value}
use rgraphql.Resolver.Context.{
  Context, Contexts, done, nil_read, with_context, alloc, chain_parent, child_of, base_child,
  write_value,
}

-- A parent in the chain is in the heap, and has a path component.
abbrev pub ParentOk : Map ℕ Context → Option ℕ → Type 0
ParentOk m none = Unit
ParentOk m (some p) =
    (x : Context) × (pc : RgqlValue) × (lookup p m ≡ some x) × (x.path_component ≡ some pc)

-- Every parent has a path component, and addresses from `next` on are free.
pub record IsValid (s : Contexts) : Type 0 where
  pub parents :
      (c : ℕ) (x : Context) → lookup c s.contexts ≡ some x → ParentOk s.contexts x.path_parent
  pub used : (c : ℕ) (x : Context) → lookup c s.contexts ≡ some x → c < s.next

ParentOk-insert :
    (m : Map ℕ Context) (c : ℕ) (x : Context) (o : Option ℕ)
    → lookup c m ≡ none
    → ParentOk m o
    → ParentOk (insert c x m) o
ParentOk-insert m c x none fresh h = tt
ParentOk-insert m c x (some p) fresh (y, pc, at, has) =
    (y, pc, ground (arith, lookup-insert c p x m, nat_beq_iff c p), has)

pub next-free : (s : Contexts) → IsValid s → lookup s.next s.contexts ≡ none
next-free s h = elim (Option-cases (lookup s.next s.contexts)) [
  | inl e ↦ e
  | inr (x, e) ↦ absurd (omega (arith, h.used s.next x e))
]

alloc-IsValid :
    (x : Context) (s : Contexts)
    → IsValid s
    → ParentOk s.contexts x.path_parent
    → IsValid (alloc x s).0
alloc-IsValid x s h ok = record {
  parents = λ c y at. elim (Bool-cases (s.next == c)) [
    | inl e ↦
        let same : x ≡ y = ground (arith, lookup-insert s.next c x s.contexts) in
        subst (λ z. ParentOk (insert s.next x s.contexts) z.path_parent) same
          (ParentOk-insert s.contexts s.next x x.path_parent (next-free s h) ok)
    | inr e ↦
        ParentOk-insert s.contexts s.next x y.path_parent (next-free s h)
          (h.parents c y (ground (arith, lookup-insert s.next c x s.contexts)))
  ];
  used = λ c y at.
      ground (arith, lookup-insert s.next c x s.contexts, nat_beq_iff s.next c, h.used c y);
}

chain_parent-ok :
    (s : Contexts) (c : ℕ) (x : Context)
    → IsValid s
    → lookup c s.contexts ≡ some x
    → ParentOk s.contexts (chain_parent c x)
chain_parent-ok s c x h at = elim (Option-cases x.path_component) [
  | inl e ↦ rw e (h.parents c x at)
  | inr (pc, e) ↦ rw e (x, pc, at, e)
]

-- A child of any context, with or without a path component of its own, keeps the chain valid.
pub base_child-IsValid :
    (s : Contexts) (c : ℕ) (x : Context) (pc : Option RgqlValue)
    → IsValid s
    → lookup c s.contexts ≡ some x
    → IsValid (base_child c x pc s).0
unfolding base_child
base_child-IsValid s c x pc h at = alloc-IsValid (child_of c x pc) s h (chain_parent-ok s c x h at)

write_value-parent :
    (s : Contexts) (o : Option ℕ) (val : Value)
    → ParentOk s.contexts o
    → write_value 1 o val false s ≡ elim o [
      | none ↦ nil_read s
      | some p ↦ done (record s { written = s.written ++ record val { context = some p } ∷ [] })
    ]
unfolding write_value
write_value-parent s none val h = refl
write_value-parent s (some p) val (x, pc, at, has) = rw (at, with_context) (rw has refl)

write_value-up :
    (s : Contexts) (c : ℕ) (x : Context) (val : Value)
    → lookup c s.contexts ≡ some x
    → x.path_component ≡ none
    → write_value 2 (some c) val false s ≡ write_value 1 x.path_parent val false s
unfolding write_value
write_value-up s c x val at e = rw (at, with_context) (rw e refl)

-- On a valid chain a value that is not final goes, in at most two calls, to the context itself if
-- that has a path component and else to its parent; without a parent the call reads nil.
pub write_value-nearest :
    (s : Contexts) (c : ℕ) (x : Context) (val : Value)
    → IsValid s
    → lookup c s.contexts ≡ some x
    → write_value 2 (some c) val false s ≡ elim (chain_parent c x) [
      | none ↦ nil_read s
      | some p ↦ done (record s { written = s.written ++ record val { context = some p } ∷ [] })
    ]
write_value-nearest s c x val h at = elim (Option-cases x.path_component) [
  | inr (pc, e) ↦ unfold write_value in rw (at, with_context) (rw e refl)
  | inl e ↦
      write_value-up s c x val at e
      ∙ rw e (write_value-parent s x.path_parent val (h.parents c x at))
]
