-- ===== src/Qtree/Dispose/Steps.antt =====
-- What each step of `Dispose` but the recursive calls promises on a tree with no dangling pointer.
use rgraphql.Prelude.{
  ℕ, ◌≤◌, Option, none, some, [], ◌≡◌, refl, arith, lookup, insert, nat_eq, inl, inr, Option-cases,
  Bool-cases, true, lookup-insert, nat_beq_iff, ◌==◌,
}
use rgraphql.Qtree.{QueryTreeNode, Tree, Out, done, blocked, panicked, spent, ◌>>=◌, with_node}
use rgraphql.Qtree.Subscribe.{next_update}
use rgraphql.Qtree.Dispose.{
  remove_slot, remove_child, clear_children, unregister, leave_parent, release_arguments, end_once,
}
use rgraphql.Qtree.Dispose.Closed.{
  Nodes, Has, HasOpt, NodeIsClosed, IsClosed, Has-insert, insert-IsClosed, Slots-remove_slot, live,
  live-insert,
}

-- The node at an address was disposed.
abbrev pub Gone : Nodes → ℕ → Type 0
Gone m a = (n : QueryTreeNode) × (lookup a m ≡ some n) × (n.disposed ≡ true)

-- What was there still is, and what was disposed stays so.
abbrev pub Keeps : Nodes → Nodes → Type 0
Keeps m m' = (b : ℕ) → (Has m b → Has m' b) × (Gone m b → Gone m' b)

pub Keeps-insert :
    (m : Nodes) (a : ℕ) (x : QueryTreeNode)
    → (Gone m a → x.disposed ≡ true)
    → Keeps m (insert a x m)
Keeps-insert m a x h b = (
  λ q. Has-insert m a b x q,
  λ (n, p, d). elim (Bool-cases (a == b)) [
    | inl e ↦ (x, ground (arith, lookup-insert a b x m), h (n, ground (arith, nat_beq_iff a b), d))
    | inr e ↦ (n, ground (arith, lookup-insert a b x m), d)
  ],
)

-- The operation does not panic and the fuel is enough; where it returns, no more nodes are live than in `m`, nothing dangles, and what was there
-- or disposed still is.
abbrev pub Ends : Nodes → Out (Unit {0}) → Type 0
Ends m (done u t) = (live t.nodes ≤ live m) × IsClosed t.nodes × Keeps m t.nodes
Ends m (blocked t) = Unit
Ends m (panicked t) = ⊥
Ends m spent = ⊥

pub Ends-bind :
    (m : Nodes) (o : Out (Unit {0})) (f : Unit {0} → Tree → Out (Unit {0}))
    → Ends m o
    → ((u : Unit {0}) (t : Tree)
        → live t.nodes ≤ live m
        → IsClosed t.nodes
        → Keeps m t.nodes
        → Ends t.nodes (f u t))
    → Ends m (o >>= f)
Ends-bind m (done u t) f h k = later m t (f u t) h (k u t h.0 h.1 h.2)
  where
    later :
        (m : Nodes) (t : Tree) (o : Out (Unit {0}))
        → (live t.nodes ≤ live m) × IsClosed t.nodes × Keeps m t.nodes
        → Ends t.nodes o
        → Ends m o
    later m t (done u t') h e =
        (omega arith, e.1, λ b. (λ p. (e.2 b).0 ((h.2 b).0 p), λ p. (e.2 b).1 ((h.2 b).1 p)))
    later m t (blocked t') h e = e
    later m t (panicked t') h e = e
    later m t spent h e = e
Ends-bind m (blocked t) f h k = h
Ends-bind m (panicked t) f h k = h
Ends-bind m spent f h k = h

-- A write that leaves the node live, or disposed, as it was.
pub wrote :
    (m : Nodes) (a : ℕ) (n x : QueryTreeNode)
    → IsClosed m
    → lookup a m ≡ some n
    → NodeIsClosed m x
    → x.disposed ≡ n.disposed
    → (live (insert a x m) ≤ live m) × IsClosed (insert a x m) × Keeps m (insert a x m)
wrote m a n x c p h same = (
  ground (arith, live-insert m a n x p),
  insert-IsClosed m a x c h,
  Keeps-insert m a x (λ (y, q, d). ground (arith, q, p, d, same)),
)

pub clear_children-Ends :
    (a : ℕ) (t : Tree) → IsClosed t.nodes → Has t.nodes a → Ends t.nodes (clear_children a t)
unfolding clear_children
clear_children-Ends a t c (n, p) =
    rw (p, with_node)
      (wrote t.nodes a n (record n { children = []; child_len = 0 }) c p
        (record { root = (c a n p).root; parent = (c a n p).parent; children = tt }) refl)

pub unregister-Ends :
    (root id : ℕ) (t : Tree)
    → IsClosed t.nodes
    → Has t.nodes root
    → Ends t.nodes (unregister root id t)
unfolding unregister
unregister-Ends root id t c (n, p) =
    rw (p, with_node)
      (wrote t.nodes root n _ c p
        (record {
          root = (c root n p).root;
          parent = (c root n p).parent;
          children = (c root n p).children;
        })
        refl)

pub release_arguments-Ends :
    (a : ℕ) (t : Tree) → IsClosed t.nodes → Has t.nodes a → Ends t.nodes (release_arguments a t)
unfolding release_arguments
release_arguments-Ends a t c (n, p) =
    rw (p, with_node)
      (wrote t.nodes a n (record n { arguments = none }) c p
        (record { root = (c a n p).root; parent = (c a n p).parent; children = (c a n p).children })
        refl)

pub end_once-Ends :
    (a : ℕ) (t : Tree) → IsClosed t.nodes → Has t.nodes a → Ends t.nodes (end_once a t)
unfolding end_once
end_once-Ends a t c (n, p) =
    rw (p, with_node)
      (wrote t.nodes a n (record n { dispose_ended = true }) c p
        (record { root = (c a n p).root; parent = (c a n p).parent; children = (c a n p).children })
        refl)

pub remove_child-Ends :
    (q a : ℕ) (t : Tree) → IsClosed t.nodes → Has t.nodes q → Ends t.nodes (remove_child q a t)
unfolding remove_child next_update
remove_child-Ends q a t c (n, p) = elim (Option-cases (remove_slot a n.child_len n.children)) [
  | inl e ↦ rw (p, with_node) (rw e (wrote t.nodes q n n c p (c q n p) refl))
  | inr (ys, e) ↦
      rw (p, with_node)
        (rw e (
          wrote t.nodes q n _ c p
            (record {
              root = (c q n p).root;
              parent = (c q n p).parent;
              children = Slots-remove_slot t.nodes a n.child_len n.children (c q n p).children e;
            })
            refl))
]

pub leave_parent-Ends :
    (o : Option ℕ) (a : ℕ) (t : Tree)
    → IsClosed t.nodes
    → HasOpt t.nodes o
    → Ends t.nodes (leave_parent o a t)
unfolding leave_parent
leave_parent-Ends none a t c h = (omega arith, c, λ b. (λ p. p, λ p. p))
leave_parent-Ends (some q) a t c h = remove_child-Ends q a t c h
