-- ===== src/Client/QueryTree/Linked.antt =====
-- The links of the nodes of a query, from parent to child, up to the root of the tree.
use rgraphql.Prelude.{
  ℕ, suc, zero, ◌+◌, ◌<◌, Option, none, some, List, [], ◌∷◌, ◌++◌, ◌≡◌, ◌≢◌, ◌⊎◌, refl, subst, sym,
  arith, Map, lookup, insert, delete, lookup-insert, lookup-delete, nat_eq, nat_beq_iff, Bool-cases,
  Option-cases, inl, inr, ◌==◌,
}
use rgraphql.Resolver.Observable.{count}
use rgraphql.Client.QueryTree.Shape.{Nodes, Shape, Up}
use rgraphql.Client.QueryTree.After.{parent_of, children_of, Orderly}
use rgraphql.Client.QueryTree.Collect.{Reach, here, step, InOrder-at}

abbrev pub Link : Nodes → ℕ → List ℕ → ℕ → Type 0
Link m root xs c =
    (p : ℕ) × (parent_of m c ≡ some p)
    × (count c (children_of m p) ≢ 0)
    × ((p ≡ root) ⊎ (count p xs ≢ 0))

abbrev pub Linked : Nodes → ℕ → List ℕ → Type 0
Linked m root xs = (c : ℕ) → count c xs ≢ 0 → Link m root xs c

-- Where the links of the nodes are kept.
abbrev pub KeepsLinks : Nodes → Nodes → List ℕ → Type 0
KeepsLinks m m' xs =
    (c p : ℕ)
    → count c xs ≢ 0
    → parent_of m c ≡ some p
    → count c (children_of m p) ≢ 0
    → (parent_of m' c ≡ some p) × (count c (children_of m' p) ≢ 0)

pub KeepsLinks-Linked :
    (m m' : Nodes) (root : ℕ) (xs : List ℕ)
    → KeepsLinks m m' xs
    → Linked m root xs
    → Linked m' root xs
KeepsLinks-Linked m m' root xs keep h c held =
    let (p, up, kid, more) = h c held in
    let (up', kid') = keep c p held up kid in (p, up', kid', more)

-- A node of the query can be reached, since a parent has a smaller address.
Linked-below :
    (f : ℕ) (m : Nodes) (root next : ℕ) (xs : List ℕ) (c : ℕ)
    → c < f
    → Shape next m
    → Linked m root xs
    → count c xs ≢ 0
    → Reach m root c
Linked-below zero m root next xs c lt s h held = absurd (omega (arith, lt))
Linked-below (suc f) m root next xs c lt s h held =
    let (p, up, kid, more) = h c held in
    elim (Option-cases (lookup c m)) [
      | inl e ↦ absurd (ground (arith))
      | inr (n, at) ↦
          let above : n.parent ≡ some p = ground (arith) in
          let less = Up-less m c p n.parent (s c n at).up above in
          elim more [
            | inl e ↦ step p c (subst (Reach m root) (sym e) here) kid
            | inr also ↦
                step p c (Linked-below f m root next xs p (omega (arith, less, lt)) s h also) kid
          ]
    ]
  where
    Up-less : (m : Nodes) (c p : ℕ) (o : Option ℕ) → Up m c o → o ≡ some p → p < c
    Up-less m c p none u e = absurd (ground (arith))
    Up-less m c p (some r) u e = ground (arith, u.0)

pub Linked-Reach :
    (m : Nodes) (root next : ℕ) (xs : List ℕ) (c : ℕ)
    → Shape next m
    → Linked m root xs
    → count c xs ≢ 0
    → Reach m root c
Linked-Reach m root next xs c s h held =
    Linked-below (suc c) m root next xs c (omega arith) s h held

pub count-append : (b : ℕ) (xs ys : List ℕ) → count b (xs ++ ys) ≡ count b xs + count b ys
count-append b [] ys = omega arith
count-append b (x ∷ xs) ys = ground (arith, count-append b xs ys)

-- A child points back to its parent.
pub child_parent :
    (m : Nodes) (a c : ℕ) → Orderly 0 m → count c (children_of m a) ≢ 0 → parent_of m c ≡ some a
child_parent m a c o kid = elim (Option-cases (lookup a m)) [
  | inl e ↦ absurd (kid (ground (arith)))
  | inr (n, at) ↦
      (InOrder-at m a c n.gc_next n.children (o a n (omega arith) at) (ground (arith))).0
]

-- The root has no parent; the nodes of the attached queries `qs`, and the nodes `xs` of a query that is
-- visited, are linked to it; and the node `q` of the visit is the root or one of `xs`.
pub record Anchored (qs : Map ℕ (List ℕ)) (xs : List ℕ) (q : Option ℕ) (root : ℕ) (m : Nodes)
    : Type 0 where
  pub crown : parent_of m root ≡ none
  pub linked : Linked m root xs
  pub linked_held : (p : ℕ) (ys : List ℕ) → lookup p qs ≡ some ys → Linked m root ys
  pub inside : (c : ℕ) → q ≡ some c → (c ≡ root) ⊎ (count c xs ≢ 0)

module _ (qs : Map ℕ (List ℕ)) (xs : List ℕ) (q : Option ℕ) (root : ℕ) (m : Nodes) where
  -- The heap changes, and the links of the nodes with `P` are kept.
  pub Anchored-keep :
      (P : ℕ → Type 0) (m' : Nodes)
      → ((c : ℕ) → count c xs ≢ 0 → P c)
      → ((p : ℕ) (ys : List ℕ) (c : ℕ) → lookup p qs ≡ some ys → count c ys ≢ 0 → P c)
      → parent_of m' root ≡ none
      → ((c p : ℕ)
          → P c
          → parent_of m c ≡ some p
          → count c (children_of m p) ≢ 0
          → (parent_of m' c ≡ some p) × (count c (children_of m' p) ≢ 0))
      → Anchored qs xs q root m
      → Anchored qs xs q root m'
  Anchored-keep P m' mine theirs top keep h = record {
    crown = top;
    linked =
        KeepsLinks-Linked m m' root xs (λ c p held up kid. keep c p (mine c held) up kid) h.linked;
    linked_held = λ r ys e.
        KeepsLinks-Linked m m' root ys (λ c p held up kid. keep c p (theirs r ys c e held) up kid)
          (h.linked_held r ys e);
    inside = h.inside;
  }

  -- The visit leaves its node for the parent.
  pub Anchored-leave :
      (c : ℕ) → q ≡ some c → Anchored qs xs q root m → Anchored qs xs (parent_of m c) root m
  Anchored-leave c now h = record {
    crown = h.crown;
    linked = h.linked;
    linked_held = h.linked_held;
    inside = λ d e. elim (h.inside c now) [
      | inl same ↦ absurd (ground (arith, h.crown))
      | inr held ↦
          let (p, up, _, more) = h.linked c held in
          let same : p ≡ d = ground (arith) in subst (λ z. (z ≡ root) ⊎ (count z xs ≢ 0)) same more
    ];
  }

  -- The query is attached.
  pub Anchored-attach :
      (query : ℕ) → Anchored qs xs q root m → Anchored (insert query xs qs) [] none root m
  Anchored-attach query h = record {
    crown = h.crown;
    linked = λ c held. absurd (held refl);
    linked_held = λ p ys e. elim (Bool-cases (query == p)) [
      | inl g ↦ subst (Linked m root) (ground (arith, lookup-insert query p xs qs)) h.linked
      | inr g ↦ h.linked_held p ys (ground (arith, lookup-insert query p xs qs))
    ];
    inside = λ c e. absurd (ground (arith));
  }

  -- The query is given up.
  pub Anchored-forget : Anchored qs xs q root m → Anchored qs [] none root m
  Anchored-forget h = record {
    crown = h.crown;
    linked = λ c held. absurd (held refl);
    linked_held = h.linked_held;
    inside = λ c e. absurd (ground (arith));
  }

  -- A child of the node of the visit is entered.
  pub Anchored-enter :
      (a c : ℕ)
      → q ≡ some a
      → parent_of m c ≡ some a
      → count c (children_of m a) ≢ 0
      → Anchored qs xs q root m
      → Anchored qs (xs ++ c ∷ []) (some c) root m
  Anchored-enter a c now up kid h = record {
    crown = h.crown;
    linked = λ d held. elim (Bool-cases (c == d)) [
      | inl e ↦
          subst (Link m root (xs ++ c ∷ [])) ((nat_beq_iff c d).0 e)
            (a, up, kid, longer a (h.inside a now))
      | inr e ↦
          let (p, above, among, more) = h.linked d (ground (arith, count-append d xs (c ∷ []))) in
          (p, above, among, longer p more)
    ];
    linked_held = h.linked_held;
    inside = λ d e. inr (ground (arith, count-append d xs (c ∷ []), nat_beq_iff c d));
  }
    where
      longer : (p : ℕ) → (p ≡ root) ⊎ (count p xs ≢ 0) → (p ≡ root) ⊎ (count p (xs ++ c ∷ []) ≢ 0)
      longer p (inl e) = inl e
      longer p (inr held) = inr (λ none_left. held (ground (arith, count-append p xs (c ∷ []))))

pub Anchored-start :
    (qs : Map ℕ (List ℕ)) (root : ℕ) (m : Nodes)
    → Anchored qs [] none root m
    → Anchored qs [] (some root) root m
Anchored-start qs root m h = record {
  crown = h.crown;
  linked = h.linked;
  linked_held = h.linked_held;
  inside = λ c e. inl (ground (arith));
}

pub Anchored-detach :
    (qs : Map ℕ (List ℕ)) (root query : ℕ) (m : Nodes)
    → Anchored qs [] none root m
    → Anchored (delete query qs) [] none root m
Anchored-detach qs root query m h = record {
  crown = h.crown;
  linked = h.linked;
  linked_held = λ p ys e. h.linked_held p ys (ground (arith, lookup-delete query p qs));
  inside = h.inside;
}
