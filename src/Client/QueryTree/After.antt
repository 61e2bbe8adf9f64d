-- ===== src/Client/QueryTree/After.antt =====
-- What a sweep of a part of the client's query tree leaves of the rest.
use mathlib.Core.Option
use rgraphql.Prelude.{
  ℕ, ◌<◌, ◌≤◌, Bool, true, false, Option, none, some, List, [], ◌∷◌, ◌≡◌, ◌⊎◌, refl, ap, ◌∙◌, arith,
  lookup, nat_eq, Option-cases, inl, inr,
}
use rgraphql.Resolver.Observable.{count}
use rgraphql.Client.QueryNode.{QtNode}
use rgraphql.Client.QueryTree.{QueryTree, is_referenced}
use rgraphql.Client.QueryTree.Shape.{Nodes, Has, AllHas, Kids, Shape}

-- A node without what a sweep changes in it.
abbrev pub core : QtNode → QtNode
core n = record n { children = []; gc_next = false }

abbrev pub core_at : Nodes → ℕ → Option QtNode
core_at m b = Option.map core (lookup b m)

abbrev pub ref_of : Nodes → ℕ → Bool
ref_of m b = elim (lookup b m) [ none ↦ false | some n ↦ is_referenced n ]

abbrev pub flag_of : Nodes → ℕ → Bool
flag_of m b = elim (lookup b m) [ none ↦ false | some n ↦ n.gc_next ]

abbrev pub parent_of : Nodes → ℕ → Option ℕ
parent_of m b = elim (lookup b m) [ none ↦ none | some n ↦ n.parent ]

abbrev pub children_of : Nodes → ℕ → List ℕ
children_of m b = elim (lookup b m) [ none ↦ [] | some n ↦ n.children ]

-- The children of a node: they point back to it, and unless the node is flagged they are
-- referenced and are not flagged.
abbrev pub InOrder : Nodes → ℕ → Bool → List ℕ → Type 0
InOrder m b g [] = Unit
InOrder m b g (c ∷ cs) =
    (parent_of m c ≡ some b)
    × ((g ≡ true) ⊎ ((ref_of m c ≡ true) × (flag_of m c ≡ false)))
    × InOrder m b g cs

-- The nodes from an address on have their children in order.
abbrev pub Orderly : ℕ → Nodes → Type 0
Orderly l m = (b : ℕ) (n : QtNode) → l ≤ b → lookup b m ≡ some n → InOrder m b n.gc_next n.children

-- From one tree to another, with no change to nodes below the address `a`.
pub record After (a : ℕ) (t t' : QueryTree) : Type 0 where
  pub shape : Shape t'.next t'.nodes
  pub cores : (b : ℕ) → core_at t'.nodes b ≡ core_at t.nodes b
  pub flags : (b : ℕ) → flag_of t.nodes b ≡ false → flag_of t'.nodes b ≡ false
  pub below : (b : ℕ) → b < a → lookup b t'.nodes ≡ lookup b t.nodes
  pub kids :
      (b c : ℕ)
      → ref_of t.nodes c ≡ true
      → count c (children_of t'.nodes b) ≡ count c (children_of t.nodes b)
  pub orderly : (l : ℕ) → l ≤ a → Orderly l t.nodes → Orderly l t'.nodes
  pub rest : t' ≡ record t { nodes = t'.nodes; handler = t'.handler }

-- What the cores determine.
module _ (m m' : Nodes) (b : ℕ) (same : core_at m' b ≡ core_at m b) where
  pub ref_of-core : ref_of m' b ≡ ref_of m b
  ref_of-core = ground (arith, Option-cases (lookup b m), Option-cases (lookup b m'))

  pub parent_of-core : parent_of m' b ≡ parent_of m b
  parent_of-core = ground (arith, Option-cases (lookup b m), Option-cases (lookup b m'))

  pub Has-core : Has m b → Has m' b
  Has-core (n, p) = elim (Option-cases (lookup b m')) [
    | inl e ↦ absurd (ground arith)
    | inr found ↦ found
  ]

pub AllHas-core :
    (m m' : Nodes) (cs : List ℕ)
    → ((b : ℕ) → core_at m' b ≡ core_at m b)
    → AllHas m cs
    → AllHas m' cs
AllHas-core m m' [] same h = tt
AllHas-core m m' (c ∷ cs) same h = (Has-core m m' c (same c) h.0, AllHas-core m m' cs same h.1)

pub Kids-core :
    (m m' : Nodes) (a : ℕ) (cs : List ℕ)
    → ((b : ℕ) → core_at m' b ≡ core_at m b)
    → Kids m a cs
    → Kids m' a cs
Kids-core m m' a [] same h = tt
Kids-core m m' a (c ∷ cs) same h = (h.0, Has-core m m' c (same c) h.1, Kids-core m m' a cs same h.2)

pub After-refl : (a : ℕ) (t : QueryTree) → Shape t.next t.nodes → After a t t
After-refl a t s = record {
  shape = s;
  cores = λ b. refl;
  flags = λ b h. h;
  below = λ b h. refl;
  kids = λ b c h. refl;
  orderly = λ l h o. o;
  rest = refl;
}

pub After-trans : (a : ℕ) (t t' t'' : QueryTree) → After a t t' → After a t' t'' → After a t t''
After-trans a t t' t'' h k = record {
  shape = k.shape;
  cores = λ b. k.cores b ∙ h.cores b;
  flags = λ b p. k.flags b (h.flags b p);
  below = λ b p. k.below b p ∙ h.below b p;
  kids = λ b c p. k.kids b c (ref_of-core t.nodes t'.nodes c (h.cores c) ∙ p) ∙ h.kids b c p;
  orderly = λ l p o. k.orderly l p (h.orderly l p o);
  rest =
      k.rest ∙ ap (λ (u : QueryTree). record u { nodes = t''.nodes; handler = t''.handler }) h.rest;
}

-- A change above an address is one above any smaller address, as far as order is not concerned.
pub After-lower : (a c : ℕ) (t t' : QueryTree) → a ≤ c → After c t t' → After a t t'
After-lower a c t t' le h = record {
  shape = h.shape;
  cores = h.cores;
  flags = h.flags;
  below = λ b p. h.below b (omega (arith, p, le));
  kids = h.kids;
  orderly = λ l p. h.orderly l (omega (arith, p, le));
  rest = h.rest;
}
