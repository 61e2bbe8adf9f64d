-- ===== src/Client/QueryTree/Marked.antt =====
-- `Attach` builds the mutation of the new nodes and marks them as transmitted: the tree stays in order.

use rgraphql.Prelude.{
  ℕ, zero, suc, ◌+◌, ◌<◌, ◌≤◌, true, Option, none, some, List, [], ◌∷◌, ◌≡◌, refl, sym, ap, ◌∙◌,
  arith, Map, lookup, insert, lookup-insert, nat_eq, nat_beq_iff, Bool-cases, inl, inr, ◌==◌,
}
use rgraphql.Qtree.{QueryNode}
use rgraphql.Resolver.Observable.{count}
use rgraphql.Client.QueryNode.{QtNode}
use rgraphql.Client.QueryTree.{QueryTree, M, deref}
use rgraphql.Client.QueryTree.Attach.{build_nodes, build_node, args_proto, add_mutations}
use rgraphql.Client.QueryTree.Rules.{Leaves, Leaves-bind, Leaves-load}
use rgraphql.Client.QueryTree.Shape.{Nodes, Has, Kids, Shape, Has-insert, insert-Shape}
use rgraphql.Client.QueryTree.After.{Orderly}
use rgraphql.Client.QueryTree.Flag.{Orderly-OrderlyBut, OrderlyBut-Orderly}
use rgraphql.Client.QueryTree.Linked.{Anchored, Anchored-keep}
use rgraphql.Client.QueryTree.Visiting.{Visiting, HasOpt, AllHas-insert}

-- A node is marked as transmitted.
module _ (qs : Map ℕ (List ℕ)) (xs : List ℕ) (q : Option ℕ) (root next : ℕ) (m : Nodes) (a : ℕ)
    (n : QtNode) (v : Visiting qs xs q root next m) (at : lookup a m ≡ some n) where
  abbrev sent : QtNode
  sent = record n { xmitted = true }

  -- The node as it was.
  back :
      (b : ℕ) (y : QtNode)
      → lookup b (insert a sent m) ≡ some y
      → (z : QtNode) × (lookup b m ≡ some z)
        × (z.gc_next ≡ y.gc_next)
        × (z.children ≡ y.children)
        × (z.ref_count ≡ y.ref_count)
  back b y p = elim (Bool-cases (a == b)) [
    | inl e ↦ (
      n,
      ground (arith, nat_beq_iff a b),
      ground (arith, lookup-insert a b sent m),
      ground (arith, lookup-insert a b sent m),
      ground (arith, lookup-insert a b sent m),
    )
    | inr e ↦ (y, ground (arith, lookup-insert a b sent m), refl, refl, refl)
  ]

  sent-Orderly : Orderly 0 (insert a sent m)
  sent-Orderly = OrderlyBut-Orderly (insert a sent m) λ b d y p k.
      let (z, was, g, same, _) = back b y p in
      let (up, good) =
        Orderly-OrderlyBut (λ e. ⊥) m v.orderly b d z was (λ h. k (ap (count d) (sym same) ∙ h)) in
      (
        ground (arith, lookup-insert a d sent m, nat_beq_iff a d),
        elim good [
          | inl h ↦ inl (sym g ∙ h)
          | inr (inl h) ↦ absurd h
          | inr (inr h) ↦ inr (inr (ground (arith, h, lookup-insert a d sent m, nat_beq_iff a d)))
        ],
      )

  HasOpt-sent : (o : Option ℕ) → HasOpt m o → HasOpt (insert a sent m) o
  HasOpt-sent none h = tt
  HasOpt-sent (some b) h = Has-insert m a b sent h

  sent-Anchored : Anchored qs xs q root (insert a sent m)
  sent-Anchored =
      Anchored-keep qs xs q root m (λ d. Unit) (insert a sent m) (λ d held. tt)
        (λ p ys d e held. tt)
        (ground (arith, v.anchored.crown, lookup-insert a root sent m, nat_beq_iff a root))
        (λ d p any up among. (
          ground (arith, up, lookup-insert a d sent m, nat_beq_iff a d),
          λ zero. among (ground (arith, zero, lookup-insert a p sent m, nat_beq_iff a p)),
        ))
        v.anchored

  pub sent-Visiting : Visiting qs xs q root next (insert a sent m)
  sent-Visiting = record {
    anchored = sent-Anchored;
    shape = insert-Shape m next a sent v.shape (record {
      kids = (v.shape a n at).kids;
      up = (v.shape a n at).up;
      used = (v.shape a n at).used;
    });
    root_in = Has-insert m a root sent v.root_in;
    counts = λ b y p. let (z, was, _, _, same) = back b y p in sym same ∙ v.counts b z was;
    entered = AllHas-insert m a sent xs v.entered;
    held = λ p ys e. AllHas-insert m a sent ys (v.held p ys e);
    unique = v.unique;
    orderly = sent-Orderly;
    idle = ground (arith, v.idle, lookup-insert a root sent m, nat_beq_iff a root);
    current = HasOpt-sent q v.current;
  }

Leaves-deref : {A : Type 0} (o : Option A) (t : QueryTree) → Leaves (λ r t'. t' ≡ t) (deref o t)
Leaves-deref none t = tt
Leaves-deref (some a) t = refl

build_nodes_lem :
    (rec : ℕ → M QueryNode) (a : ℕ) (cs : List ℕ) (t : QueryTree)
    → Kids t.nodes a cs
    → ((c : ℕ) → a < c → Has t.nodes c → Leaves (λ r t'. t' ≡ t) (rec c t))
    → Leaves (λ r t'. t' ≡ t) (build_nodes rec cs t)
unfolding build_nodes
build_nodes_lem rec a [] t h k = refl
build_nodes_lem rec a (c ∷ cs) t h k =
    Leaves-bind (λ r t'. t' ≡ t) (λ r t'. t' ≡ t) (rec c) _ t (k c h.0 h.1)
      (λ r t1 e. rw e (
        Leaves-bind (λ r t'. t' ≡ t) (λ r t'. t' ≡ t) (λ u. build_nodes rec cs u) _ t
          (build_nodes_lem rec a cs t h.2 k) (λ s t2 g. g)))

-- `buildProto` has fuel for all the addresses above the node, and changes nothing.
build_node_lem :
    (f a : ℕ) (t : QueryTree)
    → Shape t.next t.nodes
    → Has t.nodes a
    → t.next ≤ f + a
    → Leaves (λ r t'. t' ≡ t) (build_node f a t)
unfolding build_node
build_node_lem zero a t s (n, at) le = absurd (omega (arith, le, (s a n at).used))
build_node_lem (suc f) a t s has le =
    Leaves-load (λ r t'. t' ≡ t) a _ t
      (λ n at.
        Leaves-bind (λ r t'. t' ≡ t) (λ r t'. t' ≡ t)
          (λ u. build_nodes (λ c. build_node f c) n.children u) _ t
          (build_nodes_lem (λ c. build_node f c) a n.children t (s a n at).kids
            (λ c lt h. build_node_lem f c t s h (omega (arith, le, lt))))
          (λ kids t1 e. rw e (
            Leaves-bind (λ r t'. t' ≡ t) (λ r t'. t' ≡ t) (λ u. deref (args_proto n.args u) u) _ t
              (Leaves-deref (args_proto n.args t) t) (λ r t2 g. g))))

-- What is left of the tree by the loop over the new nodes.
abbrev pub MarkedOnly : Map ℕ (List ℕ) → List ℕ → Option ℕ → QueryTree → QueryTree → Type 0
MarkedOnly qs xs q t t' =
    Visiting qs xs q t.root t.next t'.nodes × (t' ≡ record t { nodes = t'.nodes })

module _ (qs : Map ℕ (List ℕ)) (xs : List ℕ) (q : Option ℕ) (f : ℕ) where
  pub add_mutations_lem :
      (new : List ℕ) (t : QueryTree)
      → Visiting qs xs q t.root t.next t.nodes
      → t.next ≤ f
      → Leaves (λ r t'. MarkedOnly qs xs q t t') (add_mutations f new t)
  unfolding add_mutations
  add_mutations_lem [] t v le = (v, refl)
  add_mutations_lem (a ∷ new) t v le =
      Leaves-load (λ r t'. MarkedOnly qs xs q t t') a _ t
        (λ n at.
          let v1 = sent-Visiting qs xs q t.root t.next t.nodes a n v at in
          let t1 : QueryTree = record t {
            nodes = insert a (record n { xmitted = true }) t.nodes;
          } in
          Leaves-bind (λ r t'. t' ≡ t1) (λ r t'. MarkedOnly qs xs q t t') (λ u. deref n.parent u) _
            t1 (Leaves-deref n.parent t1)
            (λ p t2 e. rw e (
              Leaves-load (λ r t'. MarkedOnly qs xs q t t') p _ t1
                (λ parent there.
                  Leaves-bind (λ r t'. t' ≡ t1) (λ r t'. MarkedOnly qs xs q t t')
                    (λ u. build_node f a u) _ t1
                    (build_node_lem f a t1 v1.shape (Has-insert t.nodes a a _ (n, at))
                      (omega (arith, le)))
                    (λ node t3 g. rw g (
                      Leaves-bind (λ r t'. MarkedOnly qs xs q t1 t')
                        (λ r t'. MarkedOnly qs xs q t t') (λ u. add_mutations f new u) _ t1
                        (add_mutations_lem new t1 v1 le) (λ rest t4 h. (h.0, h.1))))))))
