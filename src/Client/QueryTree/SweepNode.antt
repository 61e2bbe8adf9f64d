-- ===== src/Client/QueryTree/SweepNode.antt =====
-- `gcSweep` of one node.

use rgraphql.Prelude.{
  ℕ, zero, suc, ◌+◌, ◌≤◌, Bool, true, false, some, List, [], ◌∷◌, ◌≡◌, refl, ap, ◌∙◌, arith, lookup,
  insert, lookup-insert, nat_eq, nat_beq_iff, Bool-cases, inl, inr, ◌==◌, subst, length, leb,
}
use rgraphql.Resolver.Observable.{count}
use rgraphql.Client.QueryNode.{QtNode}
use rgraphql.Client.QueryTree.{QueryTree, is_referenced, Swept, sweep_children, sweep, purged_with}
use rgraphql.Client.QueryTree.Rules.{Ensures, Ensures-bind, Ensures-load}
use rgraphql.Client.QueryTree.Shape.{Nodes, Has, AllHas, AllHas-append, Shape, insert-Shape}
use rgraphql.Client.QueryTree.After.{
  core, ref_of, flag_of, core_at, children_of, InOrder, Orderly, After, After-refl, ref_of-core,
  parent_of-core, AllHas-core, Kids-core,
}
use rgraphql.Client.QueryTree.Sweep.{SweptAt, SweptAll, InOrder-Linked, Linked, sweep_children_lem}

pub insert-core :
    (m : Nodes) (a b : ℕ) (n x : QtNode)
    → lookup a m ≡ some n
    → core x ≡ core n
    → core_at (insert a x m) b ≡ core_at m b
insert-core m a b n x at same = ground (arith, lookup-insert a b x m, nat_beq_iff a b)

pub insert-flags :
    (m : Nodes) (a b : ℕ) (x : QtNode)
    → x.gc_next ≡ false
    → flag_of m b ≡ false
    → flag_of (insert a x m) b ≡ false
insert-flags m a b x off h = ground (arith, lookup-insert a b x m, nat_beq_iff a b)

pub InOrder-mono :
    (m m' : Nodes) (b : ℕ) (g : Bool) (cs : List ℕ)
    → ((c : ℕ) → core_at m' c ≡ core_at m c)
    → ((c : ℕ) → flag_of m c ≡ false → flag_of m' c ≡ false)
    → InOrder m b g cs
    → InOrder m' b g cs
InOrder-mono m m' b g [] same flags h = tt
InOrder-mono m m' b g (c ∷ cs) same flags h = (
  parent_of-core m m' c (same c) ∙ h.0,
  elim h.1 [ inl e ↦ inl e | inr (r, e) ↦ inr (ref_of-core m m' c (same c) ∙ r, flags c e) ],
  InOrder-mono m m' b g cs same flags h.2,
)

-- The node `a` is written, and nothing but its flag and its children changes.
module _ (m : Nodes) (a : ℕ) (n x : QtNode) (at : lookup a m ≡ some n) (same : core x ≡ core n)
    (off : x.gc_next ≡ false) where
  Orderly-above : Orderly (suc a) m → Orderly (suc a) (insert a x m)
  Orderly-above o b y le p =
      InOrder-mono m (insert a x m) b y.gc_next y.children (λ c. insert-core m a c n x at same)
        (λ c. insert-flags m a c x off)
        (o b y le (ground (arith, lookup-insert a b x m, nat_beq_iff a b)))

module _ (a : ℕ) (t : QueryTree) (n : QtNode) (at : lookup a t.nodes ≡ some n)
    (s : Shape t.next t.nodes) where
  abbrev n1 : QtNode
  n1 = record n { gc_next = false }

  abbrev t1 : QueryTree
  t1 = record t { nodes = insert a n1 t.nodes }

  t1-Shape : Shape t1.next t1.nodes
  t1-Shape =
      insert-Shape t.nodes t.next a n1 s
        (record { kids = (s a n at).kids; up = (s a n at).up; used = (s a n at).used })

  t1-at : lookup a t1.nodes ≡ some n1
  t1-at = ground (arith, lookup-insert a a n1 t.nodes, nat_beq_iff a a)

  t1-cores : (b : ℕ) → core_at t1.nodes b ≡ core_at t.nodes b
  t1-cores b = insert-core t.nodes a b n n1 at refl

  module _ (t2 : QueryTree) (sw : Swept) (h : SweptAll a n.children t1 sw t2) where
    abbrev n3 : QtNode
    n3 = record n1 { children = sw.kept }

    abbrev t3 : QueryTree
    t3 = record t2 { nodes = insert a n3 t2.nodes }

    t2-at : lookup a t2.nodes ≡ some n1
    t2-at = h.after.below a (omega arith) ∙ t1-at

    t3-cores : (b : ℕ) → core_at t3.nodes b ≡ core_at t2.nodes b
    t3-cores b = insert-core t2.nodes a b n1 n3 t2-at refl

    t3-flags : (b : ℕ) → flag_of t2.nodes b ≡ false → flag_of t3.nodes b ≡ false
    t3-flags b = insert-flags t2.nodes a b n3 refl

    t3-Shape : Shape t3.next t3.nodes
    t3-Shape = insert-Shape t2.nodes t2.next a n3 h.after.shape (record {
      kids = h.kids;
      up = (h.after.shape a n1 t2-at).up;
      used = (h.after.shape a n1 t2-at).used;
    })

    t3-kids :
        (b c : ℕ)
        → ref_of t.nodes c ≡ true
        → count c (children_of t3.nodes b) ≡ count c (children_of t.nodes b)
    t3-kids b c r =
        let r1 = ref_of-core t.nodes t1.nodes c (t1-cores c) in
        ground (
          arith,
          lookup-insert a b n3 t2.nodes,
          lookup-insert a b n1 t.nodes,
          nat_beq_iff a b,
          r1,
          h.counts c,
          h.after.kids b c,
        )

    t3-Orderly : (l : ℕ) → l ≤ a → Orderly l t.nodes → Orderly l t3.nodes
    t3-Orderly l le o b y lb p = elim (Bool-cases (a == b)) [
      | inl e ↦
          let kept : n3 ≡ y = ground (arith, lookup-insert a b n3 t2.nodes) in
          let here : a ≡ b = (nat_beq_iff a b).0 e in
          let ordered = h.ordered (
            linked_core n.children (InOrder-Linked t.nodes a n.gc_next n.children (o a n le at))) in
          subst (λ z. InOrder t3.nodes b z.gc_next z.children) kept
            (subst (λ k. InOrder t3.nodes k false sw.kept) here
              (InOrder-mono t2.nodes t3.nodes a false sw.kept t3-cores t3-flags ordered))
      | inr e ↦
          InOrder-mono t2.nodes t3.nodes b y.gc_next y.children t3-cores t3-flags
            (t2-orderly b y lb e (ground (arith, lookup-insert a b n3 t2.nodes)))
    ]
      where
        linked_core : (cs : List ℕ) → Linked t.nodes a cs → Linked t1.nodes a cs
        linked_core [] k = tt
        linked_core (c ∷ cs) k =
            (parent_of-core t.nodes t1.nodes c (t1-cores c) ∙ k.0, linked_core cs k.1)

        above : Orderly (suc a) t2.nodes
        above = h.after.orderly (suc a) (omega arith) (
            Orderly-above t.nodes a n n1 at refl refl (λ c z lc q. o c z (omega (arith, le, lc)) q))

        t2-orderly :
            (c : ℕ) (z : QtNode)
            → l ≤ c
            → (a == c) ≡ false
            → lookup c t2.nodes ≡ some z
            → InOrder t2.nodes c z.gc_next z.children
        t2-orderly c z lc off q = elim (Bool-cases (leb c a)) [
          | inl small ↦
              InOrder-mono t.nodes t2.nodes c z.gc_next z.children
                (λ k. h.after.cores k ∙ t1-cores k)
                (λ k g. h.after.flags k (insert-flags t.nodes a k n1 refl g))
                (o c z lc
                  (ground (arith, h.after.below c, lookup-insert a c n1 t.nodes, nat_beq_iff a c)))
          | inr large ↦ above c z (ground (arith)) q
        ]

    swept-After : After a t t3
    swept-After = record {
      shape = t3-Shape;
      cores = λ b. t3-cores b ∙ h.after.cores b ∙ t1-cores b;
      flags = λ b g. t3-flags b (h.after.flags b (insert-flags t.nodes a b n1 refl g));
      below = λ b lt. ground (
        arith,
        lookup-insert a b n3 t2.nodes,
        lookup-insert a b n1 t.nodes,
        nat_beq_iff a b,
        h.after.below b,
      );
      kids = t3-kids;
      orderly = t3-Orderly;
      rest =
          ap (λ (u : QueryTree). record u { nodes = t3.nodes; handler = t3.handler }) h.after.rest;
    }

purged-AllHas :
    (m : Nodes) (xs ys : List ℕ) (r : Bool)
    → AllHas m xs
    → AllHas m ys
    → AllHas m (purged_with r xs ys)
purged-AllHas m xs ys true h k = AllHas-append m xs ys h k
purged-AllHas m xs ys false h k = h

-- On a well-shaped heap `gcSweep` of a node returns, given fuel for the addresses above it: it says
-- whether the node is referenced, the node is no longer flagged, referenced children stay, and
-- the nodes are left in order if they were.
pub sweep_lem :
    (f a : ℕ) (t : QueryTree)
    → Shape t.next t.nodes
    → Has t.nodes a
    → t.next ≤ a + f
    → Ensures (SweptAt a t) (sweep f a t)
unfolding sweep
sweep_lem zero a t s (n, at) le = absurd (omega (arith, (s a n at).used, le))
sweep_lem (suc f) a t s (n, at) le =
    Ensures-load (SweptAt a t) a n _ t at (elim (Bool-cases n.gc_next) [
      | inl e ↦ rw e (
          Ensures-bind (SweptAll a n.children (t1 a t n at s)) (SweptAt a t)
            (λ u. sweep_children (λ c. sweep f c) (length n.children) n.children u) _
            (t1 a t n at s)
            (sweep_children_lem a t.next (λ c. sweep f c)
              (λ c u lt same sh has. sweep_lem f c u sh has (omega (arith, lt, same, le)))
              (length n.children) n.children (t1 a t n at s) (omega arith) refl
              (t1-Shape a t n at s)
              (Kids-core t.nodes (insert a (n1 a t n at s) t.nodes) a n.children
                (t1-cores a t n at s) (s a n at).kids))
            (λ sw t2 h.
              Ensures-load (SweptAt a t) a (n1 a t n at s) _ t2 (t2-at a t n at s t2 sw h) (record {
                after = swept-After a t n at s t2 sw h;
                answer = ground (arith);
                unflagged =
                    ground
                      (arith, lookup-insert a a (n3 a t n at s t2 sw h) t2.nodes, nat_beq_iff a a);
                listed =
                    AllHas-core t2.nodes (t3 a t n at s t2 sw h).nodes _
                      (t3-cores a t n at s t2 sw h)
                      (purged-AllHas t2.nodes sw.purged sw.dropped (is_referenced n) h.listed
                        h.gone);
              })))
      | inr e ↦ rw e (record {
        after = After-refl a t s;
        answer = ground (arith);
        unflagged = ground (arith);
        listed = tt;
      })
    ])
