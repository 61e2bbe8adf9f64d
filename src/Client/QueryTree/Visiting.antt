-- ===== src/Client/QueryTree/Visiting.antt =====
-- What holds of the tree while a query is visited: the nodes that it has entered are counted beside
-- those of the attached queries.

use rgraphql.Prelude.{
  ℕ, ◌+◌, ◌%◌, ◌<◌, false, Option, none, some, List, [], ◌∷◌, ◌++◌, ◌≡◌, ◌≢◌, refl, sym, ap, ◌∙◌,
  arith, Map, lookup, insert, lookup-insert, IsMap, nat_eq, nat_beq_iff, Bool-cases, inl, inr, ◌==◌,
}
use rgraphql.Resolver.Observable.{count}
use rgraphql.Client.QueryNode.{QtNode}
use rgraphql.Client.QueryTree.Shape.{
  Nodes, Has, AllHas, AllHas-append, Shape, Has-insert, insert-Shape,
}
use rgraphql.Client.QueryTree.After.{children_of, flag_of, Orderly}
use rgraphql.Client.QueryTree.Flag.{Orderly-OrderlyBut, OrderlyBut-Orderly}
use rgraphql.Client.QueryTree.Lowered.{Counts}
use rgraphql.Client.QueryTree.Linked.{
  Anchored, Anchored-keep, Anchored-enter, child_parent, count-append,
}
use rgraphql.Client.QueryTree.Valid.{total_of}

abbrev pub HasOpt : Nodes → Option ℕ → Type 0
HasOpt m none = Unit
HasOpt m (some a) = Has m a

-- `xs` are the nodes entered, `q` is the current one and `qs` are the attached queries.
pub record Visiting (qs : Map ℕ (List ℕ)) (xs : List ℕ) (q : Option ℕ) (root next : ℕ) (m : Nodes)
    : Type 0 where
  pub shape : Shape next m
  pub root_in : Has m root
  pub counts : Counts (λ b. count b xs + total_of qs b) m
  pub entered : AllHas m xs
  pub held : (p : ℕ) (ys : List ℕ) → lookup p qs ≡ some ys → AllHas m ys
  pub unique : IsMap qs
  pub orderly : Orderly 0 m
  pub idle : flag_of m root ≡ false
  pub current : HasOpt m q
  pub anchored : Anchored qs xs q root m

pub AllHas-insert :
    (m : Nodes) (a : ℕ) (x : QtNode) (xs : List ℕ) → AllHas m xs → AllHas (insert a x m) xs
AllHas-insert m a x [] h = tt
AllHas-insert m a x (y ∷ xs) h = (Has-insert m a y x h.0, AllHas-insert m a x xs h.1)

-- A reference more on a node, with room for it.
module _ (qs : Map ℕ (List ℕ)) (xs : List ℕ) (q : Option ℕ) (root next : ℕ) (m : Nodes) (c : ℕ)
    (n : QtNode) (v : Visiting qs xs q root next m) (at : lookup c m ≡ some n)
    (room : count c xs + total_of qs c + 1 < 4294967296) where
  abbrev more : QtNode
  more = record n { ref_count = (n.ref_count + 1) % 4294967296 }

  more-Counts : Counts (λ b. count b (xs ++ c ∷ []) + total_of qs b) (insert c more m)
  more-Counts b y p = elim (Bool-cases (c == b)) [
    | inl e ↦
        let same : c ≡ b = (nat_beq_iff c b).0 e in
        let old = v.counts c n at in
        ground (arith, lookup-insert c b more m, count-append b xs (c ∷ []), nat_beq_iff c c)
    | inr e ↦ ground (arith, lookup-insert c b more m, v.counts b y, count-append b xs (c ∷ []))
  ]

  more-Orderly : Orderly 0 (insert c more m)
  more-Orderly = OrderlyBut-Orderly (insert c more m) λ b d y p k.
      let (z, was, g, same) = back b y p in
      let (up, good) =
        Orderly-OrderlyBut (λ e. ⊥) m v.orderly b d z was (λ h. k (ap (count d) (sym same) ∙ h)) in
      (
        ground (arith, lookup-insert c d more m, nat_beq_iff c d),
        elim good [
          | inl h ↦ inl (sym g ∙ h)
          | inr (inl h) ↦ absurd h
          | inr (inr h) ↦
              inr (inr (ground (arith, h, v.counts c n, lookup-insert c d more m, nat_beq_iff c d)))
        ],
      )
    where
      back :
          (b : ℕ) (y : QtNode)
          → lookup b (insert c more m) ≡ some y
          → (z : QtNode) × (lookup b m ≡ some z)
            × (z.gc_next ≡ y.gc_next)
            × (z.children ≡ y.children)
      back b y p = elim (Bool-cases (c == b)) [
        | inl e ↦ (
          n,
          ground (arith, nat_beq_iff c b),
          ground (arith, lookup-insert c b more m),
          ground (arith, lookup-insert c b more m),
        )
        | inr e ↦ (y, ground (arith, lookup-insert c b more m), refl, refl)
      ]

  more-Anchored :
      (a : ℕ)
      → q ≡ some a
      → count c (children_of m a) ≢ 0
      → Anchored qs (xs ++ c ∷ []) (some c) root (insert c more m)
  more-Anchored a now kid =
      Anchored-keep qs (xs ++ c ∷ []) (some c) root m (λ d. Unit) (insert c more m) (λ d held. tt)
        (λ p ys d e held. tt)
        (ground (arith, v.anchored.crown, lookup-insert c root more m, nat_beq_iff c root))
        (λ d p any up among. (
          ground (arith, up, lookup-insert c d more m, nat_beq_iff c d),
          λ zero. among (ground (arith, zero, lookup-insert c p more m, nat_beq_iff c p)),
        ))
        (Anchored-enter qs xs q root m a c now (child_parent m a c v.orderly kid) kid v.anchored)

  -- The node is entered.
  pub enter-Visiting :
      (a : ℕ)
      → q ≡ some a
      → count c (children_of m a) ≢ 0
      → Visiting qs (xs ++ c ∷ []) (some c) root next (insert c more m)
  enter-Visiting a now kid = record {
    anchored = more-Anchored a now kid;
    shape = insert-Shape m next c more v.shape (record {
      kids = (v.shape c n at).kids;
      up = (v.shape c n at).up;
      used = (v.shape c n at).used;
    });
    root_in = Has-insert m c root more v.root_in;
    counts = more-Counts;
    entered =
        AllHas-append (insert c more m) xs (c ∷ []) (AllHas-insert m c more xs v.entered)
          (Has-insert m c c more (n, at), tt);
    held = λ p ys e. AllHas-insert m c more ys (v.held p ys e);
    unique = v.unique;
    orderly = more-Orderly;
    idle = ground (arith, v.idle, lookup-insert c root more m, nat_beq_iff c root);
    current = Has-insert m c c more (n, at);
  }
