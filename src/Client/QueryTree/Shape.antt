-- ===== src/Client/QueryTree/Shape.antt =====
-- The heap of nodes: children and parents are on it, a parent has a smaller address than its
-- children, and addresses from `next` on are free.
use rgraphql.Prelude.{
  ℕ, ◌<◌, Option, none, some, List, [], ◌∷◌, ◌++◌, ◌≡◌, arith, Map, lookup, insert, lookup-insert,
  nat_eq, nat_beq_iff, Bool-cases, inl, inr, ◌==◌, subst,
}
use rgraphql.Client.QueryNode.{QtNode}

abbrev pub Nodes : Type 0
Nodes = Map ℕ QtNode

abbrev pub Has : Nodes → ℕ → Type 0
Has m a = (n : QtNode) × (lookup a m ≡ some n)

abbrev pub Kids : Nodes → ℕ → List ℕ → Type 0
Kids m a [] = Unit
Kids m a (c ∷ cs) = (a < c) × Has m c × Kids m a cs

abbrev pub Up : Nodes → ℕ → Option ℕ → Type 0
Up m a none = Unit
Up m a (some p) = (p < a) × Has m p

pub record NodeOk (m : Nodes) (next a : ℕ) (n : QtNode) : Type 0 where
  pub kids : Kids m a n.children
  pub up : Up m a n.parent
  pub used : a < next

abbrev pub Shape : ℕ → Nodes → Type 0
Shape next m = (a : ℕ) (n : QtNode) → lookup a m ≡ some n → NodeOk m next a n

abbrev pub AllHas : Nodes → List ℕ → Type 0
AllHas m [] = Unit
AllHas m (c ∷ cs) = Has m c × AllHas m cs

pub AllHas-append : (m : Nodes) (xs ys : List ℕ) → AllHas m xs → AllHas m ys → AllHas m (xs ++ ys)
AllHas-append m [] ys h k = k
AllHas-append m (x ∷ xs) ys h k = (h.0, AllHas-append m xs ys h.1 k)

pub Has-insert : (m : Nodes) (a b : ℕ) (x : QtNode) → Has m b → Has (insert a x m) b
Has-insert m a b x (n, h) = elim (Bool-cases (a == b)) [
  | inl e ↦ (x, ground (arith, lookup-insert a b x m))
  | inr e ↦ (n, ground (arith, lookup-insert a b x m))
]

pub Kids-insert :
    (m : Nodes) (a p : ℕ) (x : QtNode) (cs : List ℕ) → Kids m p cs → Kids (insert a x m) p cs
Kids-insert m a p x [] h = tt
Kids-insert m a p x (c ∷ cs) h = (h.0, Has-insert m a c x h.1, Kids-insert m a p x cs h.2)

pub Up-insert : (m : Nodes) (a b : ℕ) (x : QtNode) (o : Option ℕ) → Up m b o → Up (insert a x m) b o
Up-insert m a b x none h = tt
Up-insert m a b x (some p) h = (h.0, Has-insert m a p x h.1)

-- A write of a node that fits.
pub insert-Shape :
    (m : Nodes) (next a : ℕ) (x : QtNode)
    → Shape next m
    → NodeOk m next a x
    → Shape next (insert a x m)
insert-Shape m next a x s ok b n h = elim (Bool-cases (a == b)) [
  | inl e ↦
      let same : x ≡ n = ground (arith, lookup-insert a b x m) in
      let at : a ≡ b = (nat_beq_iff a b).0 e in
      subst (λ y. NodeOk (insert a x m) next b y) same
        (subst (λ k. NodeOk (insert a x m) next k x) at
          (record {
            kids = Kids-insert m a a x x.children ok.kids;
            up = Up-insert m a a x x.parent ok.up;
            used = ok.used;
          }))
  | inr e ↦
      let old = s b n (ground (arith, lookup-insert a b x m)) in
      record {
        kids = Kids-insert m a b x n.children old.kids;
        up = Up-insert m a b x n.parent old.up;
        used = old.used;
      }
]
