-- ===== src/Qtree/Dispose/Total.antt =====
-- `Dispose` on a tree with no dangling pointer: it does not panic, and one unit of fuel for each live
-- node, and one more, is enough.
use rgraphql.Prelude.{
  Bool, if◌then◌else◌, ℕ, zero, suc, ◌+◌, ◌≤◌, true, false, Option, none, some, ◌≡◌, refl, arith,
  lookup, insert, nat_eq, inl, inr, Bool-cases, length,
}
use rgraphql.Qtree.{QueryTreeNode, Tree, Out, done, blocked, panicked, spent, with_node, write_node}
use rgraphql.Qtree.Subscribe.{next_update}
use rgraphql.Qtree.Dispose.{
  slot, dispose_range, clear_children, unregister, leave_parent, release_arguments, delete_update,
  dispose_body, dispose,
}
use rgraphql.Qtree.Dispose.Steps.{
  Ends, Keeps, Keeps-insert, Ends-bind, clear_children-Ends, Keeps, Keeps-insert, unregister-Ends,
  Keeps, Keeps-insert, release_arguments-Ends, Keeps, Keeps-insert, leave_parent-Ends,
  end_once-Ends,
}
use rgraphql.Qtree.Dispose.Skips.{After}
use rgraphql.Qtree.Dispose.Closed.{
  Nodes, Has, HasOpt, NodeIsClosed, NodeIsClosed-insert, IsClosed, Has-insert, insert-IsClosed,
  HasOpt-slot, live, live-insert, live-le-length,
}

-- What the recursive call promises where at most `k` nodes are live.
abbrev CallEnds : ℕ → (Option ℕ → Tree → Out (Unit {0})) → Type 0
CallEnds k rec =
    (o : Option ℕ) (t : Tree)
    → live t.nodes ≤ k
    → IsClosed t.nodes
    → HasOpt t.nodes o
    → Ends t.nodes (rec o t)

dispose_range-Ends :
    (k : ℕ) (rec : Option ℕ → Tree → Out (Unit {0}))
    → CallEnds k rec
    → (a i rounds : ℕ) (t : Tree) → live t.nodes ≤ k
    → IsClosed t.nodes
    → Has t.nodes a
    → Ends t.nodes (dispose_range rec a i rounds t)
unfolding dispose_range
dispose_range-Ends k rec call a i zero t h c q = (omega arith, c, λ b. (λ p. p, λ p. p))
dispose_range-Ends k rec call a i (suc rounds) t h c (n, p) =
    rw (p, with_node)
      (Ends-bind t.nodes (rec (slot n.children i) t) (λ _ t'. dispose_range rec a (suc i) rounds t')
        (call (slot n.children i) t h c (HasOpt-slot t.nodes n.children i (c a n p).children))
        (λ u t' le c' has.
          dispose_range-Ends k rec call a (suc i) rounds t' (omega arith) c' ((has a).0 (n, p))))

HasOpt-keeps :
    (m m' : Nodes) (o : Option ℕ) → ((b : ℕ) → Has m b → Has m' b) → HasOpt m o → HasOpt m' o
HasOpt-keeps m m' none k h = tt
HasOpt-keeps m m' (some a) k h = k a h

dispose_body-Ends :
    (k : ℕ) (rec : Option ℕ → Tree → Out (Unit {0}))
    → CallEnds k rec
    → (a : ℕ) (n : QueryTreeNode) (t : Tree) → live t.nodes ≤ k
    → IsClosed t.nodes
    → Has t.nodes a
    → NodeIsClosed t.nodes n
    → Ends t.nodes (dispose_body rec a n t)
unfolding dispose_body
dispose_body-Ends k rec call a n t le c has closed =
    Ends-bind t.nodes (dispose_range rec a 0 n.child_len t) _
      (dispose_range-Ends k rec call a 0 n.child_len t le c has)
      λ _ t1 _ c1 k1.
        Ends-bind t1.nodes (clear_children a t1) _ (clear_children-Ends a t1 c1 ((k1 a).0 has))
          λ _ t2 _ c2 k2.
            Ends-bind t2.nodes (unregister n.root n.id t2) _
              (unregister-Ends n.root n.id t2 c2 ((k2 n.root).0 ((k1 n.root).0 closed.root)))
              λ _ t3 _ c3 k3.
                Ends-bind t3.nodes (leave_parent n.parent a t3) _
                  (leave_parent-Ends n.parent a t3 c3 (
                    HasOpt-keeps t.nodes t3.nodes n.parent (λ b q. (k3 b).0 ((k2 b).0 ((k1 b).0 q)))
                      closed.parent))
                  λ _ t4 _ c4 k4.
                    let here = (k4 a).0 ((k3 a).0 ((k2 a).0 ((k1 a).0 has))) in
                    Ends-bind t4.nodes (release_arguments a t4) _
                      (release_arguments-Ends a t4 c4 here)
                      λ _ t5 _ c5 k5. end_once-Ends a t5 c5 ((k5 a).0 here)

-- The node that `Dispose` starts on, marked and told.
abbrev marked : QueryTreeNode → QueryTreeNode
marked n = delete_update (record n { disposed = true })

marked-NodeIsClosed : (m : Nodes) (n : QueryTreeNode) → NodeIsClosed m n → NodeIsClosed m (marked n)
unfolding next_update
marked-NodeIsClosed m n h = record { root = h.root; parent = h.parent; children = h.children }

live-marked :
    (m : Nodes) (a : ℕ) (n : QueryTreeNode)
    → lookup a m ≡ some n
    → n.disposed ≡ false
    → live (insert a (marked n) m) + 1 ≡ live m
unfolding next_update
live-marked m a n p alive = ground (arith, live-insert m a n (marked n) p)

marked-disposed : (n : QueryTreeNode) → (marked n).disposed ≡ true
unfolding next_update
marked-disposed n = refl

-- Of the state with the node marked, what is promised of the state before.
after_mark :
    (m : Nodes) (a : ℕ) (n : QueryTreeNode) (o : Out (Unit {0}))
    → lookup a m ≡ some n
    → n.disposed ≡ false
    → Ends (insert a (marked n) m) o
    → Ends m o
after_mark m a n (done u t) p alive h = (
  omega (arith, h.0, live-marked m a n p alive),
  h.1,
  λ b.
      let first = Keeps-insert m a (marked n) (λ g. marked-disposed n) b in
      (λ q. (h.2 b).0 (first.0 q), λ q. (h.2 b).1 (first.1 q)),
)
after_mark m a n (blocked t) p alive h = h
after_mark m a n (panicked t) p alive h = h
after_mark m a n spent p alive h = h

-- A call for a node that is disposed returns at once, or blocks.
once_more :
    (b : Bool) (t : Tree) → IsClosed t.nodes → Ends t.nodes (if b then done tt t else blocked t)
once_more true t c = (omega arith, c, λ b. (λ q. q, λ q. q))
once_more false t c = tt

-- The fuel covers the live nodes: the node that is disposed first leaves one fewer.
dispose-Ends : (f : ℕ) → CallEnds f (λ o t. dispose (suc f) o t)
unfolding dispose
dispose-Ends f none t le c h = (omega arith, c, λ b. (λ p. p, λ p. p))
dispose-Ends zero (some a) t le c (n, p) = elim (Bool-cases n.disposed) [
  | inl gone ↦ rw (p, gone, with_node) (once_more n.dispose_ended t c)
  | inr alive ↦ absurd (omega (arith, live-marked t.nodes a n p alive))
]
dispose-Ends (suc f) (some a) t le c (n, p) = elim (Bool-cases n.disposed) [
  | inl gone ↦ rw (p, gone, with_node) (once_more n.dispose_ended t c)
  | inr alive ↦
      let t1 : Tree = write_node a (marked n) t in
      let n-closed = marked-NodeIsClosed t.nodes n (c a n p) in
      let closed = insert-IsClosed t.nodes a (marked n) c n-closed in
      rw (p, alive, with_node)
        (after_mark t.nodes a n _ p alive (
          dispose_body-Ends f (λ o t'. dispose (suc f) o t') (dispose-Ends f) a n t1
            (omega (arith, live-marked t.nodes a n p alive)) closed
            (Has-insert t.nodes a a (marked n) (n, p))
            (NodeIsClosed-insert t.nodes a (marked n) n (c a n p))))
]

returned :
    (m : Nodes) (P : Nodes → Type 0) (o : Out (Unit {0}))
    → Ends m o
    → After P o
    → (t' : Tree) × (o ≡ done tt t') × Keeps m t'.nodes × P t'.nodes
returned m P (done u t') h g = (t', refl, h.2, g)
returned m P (blocked t') h g = absurd g
returned m P (panicked t') h g = absurd h
returned m P spent h g = absurd h

-- On a tree with no dangling pointer, with one unit of fuel more than there are nodes, a disposal
-- that does not block returns, and every node is still there.
pub dispose-Returns :
    (a : ℕ) (t : Tree)
    → IsClosed t.nodes
    → Has t.nodes a
    → (P : Nodes → Type 0) → After P (dispose (suc (length t.nodes)) (some a) t)
    → (t' : Tree) × (dispose (suc (length t.nodes)) (some a) t ≡ done tt t')
      × Keeps t.nodes t'.nodes
      × P t'.nodes
dispose-Returns a t c h P after =
    returned t.nodes P _ (dispose-Ends (length t.nodes) (some a) t (live-le-length t.nodes) c h)
      after
