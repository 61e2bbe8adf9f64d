-- ===== src/Qtree/Dispose/Skips.antt =====
-- `Dispose` ranges over an array that `removeChild` shifts under it.
use rgraphql.Prelude.{
  ℕ, zero, suc, ◌-◌, true, false, Option, none, some, List, [], ◌≡◌, ◌≢◌, refl, arith, lookup,
  insert, nat_eq, nat_beq_iff, lookup-insert, inl, inr, Bool-cases, Option-cases, ◌==◌, ap,
}
use rgraphql.Qtree.{
  QueryTreeNode, Tree, Out, done, blocked, panicked, spent, ◌>>=◌, with_node, write_node,
}
use rgraphql.Qtree.Subscribe.{next_update}
use rgraphql.Qtree.Dispose.{
  remove_slot, remove_child, dispose_range, clear_children, unregister, leave_parent,
  release_arguments, end_once, delete_update, dispose_body, dispose, unmapped,
}
use rgraphql.Qtree.Dispose.Closed.{Nodes}

-- The operation does not block, and P holds of the nodes where it returns.
abbrev pub After : (Nodes → Type 0) → Out (Unit {0}) → Type 0
After P (done u t) = P t.nodes
After P (blocked t) = ⊥
After P (panicked t) = Unit
After P spent = Unit

pub After-bind :
    (P Q : Nodes → Type 0) (o : Out (Unit {0})) (f : Unit {0} → Tree → Out (Unit {0}))
    → After P o
    → ((u : Unit {0}) (t : Tree) → P t.nodes → After Q (f u t))
    → After Q (o >>= f)
After-bind P Q (done u t) f h k = k u t h
After-bind P Q (blocked t) f h k = h
After-bind P Q (panicked t) f h k = tt
After-bind P Q spent f h k = tt

-- The node at `b` is live.
abbrev pub Alive : ℕ → Nodes → Type 0
Alive b m = (n : QueryTreeNode) → lookup b m ≡ some n → n.disposed ≡ false

-- The array and the length of the children of the node at `p`.
abbrev pub Kids : ℕ → List (Option ℕ) → ℕ → Nodes → Type 0
Kids p xs k m = (n : QueryTreeNode) → lookup p m ≡ some n → (n.children ≡ xs) × (n.child_len ≡ k)

pub insert-Alive :
    (b q : ℕ) (m : Nodes) (n x : QueryTreeNode)
    → lookup q m ≡ some n
    → x.disposed ≡ n.disposed
    → Alive b m
    → Alive b (insert q x m)
insert-Alive b q m n x p same h y r = elim (Bool-cases (q == b)) [
  | inl c ↦ ground (arith, lookup-insert q b x m, nat_beq_iff q b, h n)
  | inr c ↦ h y (ground (arith, lookup-insert q b x m))
]

pub insert-Alive_ne :
    (b q : ℕ) (m : Nodes) (x : QueryTreeNode) → q ≢ b → Alive b m → Alive b (insert q x m)
insert-Alive_ne b q m x other h y r = h y (ground (arith, lookup-insert q b x m, nat_beq_iff q b))

insert-Kids_ne :
    (p q : ℕ) (xs : List (Option ℕ)) (k : ℕ) (m : Nodes) (x : QueryTreeNode)
    → q ≢ p
    → Kids p xs k m
    → Kids p xs k (insert q x m)
insert-Kids_ne p q xs k m x other h y r =
    h y (ground (arith, lookup-insert q p x m, nat_beq_iff q p))

pub insert-Kids_self :
    (p q : ℕ) (xs : List (Option ℕ)) (k : ℕ) (m : Nodes) (x : QueryTreeNode)
    → q ≡ p
    → x.children ≡ xs
    → x.child_len ≡ k
    → Kids p xs k (insert q x m)
insert-Kids_self p q xs k m x s c l y r = ground (arith, lookup-insert q p x m, nat_beq_iff q p)

-- What the operations on other nodes keep.
abbrev pub Kept : ℕ → ℕ → List (Option ℕ) → ℕ → Nodes → Type 0
Kept b p xs k m = Alive b m × Kids p xs k m

module _ (b p : ℕ) (xs : List (Option ℕ)) (k : ℕ) (t : Tree) (h : Kept b p xs k t.nodes) where
  clear_children-Kept : (a : ℕ) → a ≢ p → After (Kept b p xs k) (clear_children a t)
  unfolding clear_children
  clear_children-Kept a other = elim (Option-cases (lookup a t.nodes)) [
    | inl e ↦ rw (e, with_node) tt
    | inr (n, e) ↦
        let x : QueryTreeNode = record n { children = []; child_len = 0 } in
        rw (e, with_node)
          (insert-Alive b a t.nodes n x e refl h.0, insert-Kids_ne p a xs k t.nodes x other h.1)
  ]

  unregister-Kept : (r id : ℕ) → After (Kept b p xs k) (unregister r id t)
  unfolding unregister
  unregister-Kept r id = elim (Option-cases (lookup r t.nodes)) [
    | inl e ↦ rw (e, with_node) tt
    | inr (n, e) ↦
        let x : QueryTreeNode = record n { root_node_map = unmapped id n.root_node_map } in
        rw (e, with_node)
          (
            insert-Alive b r t.nodes n x e refl h.0,
            elim (Bool-cases (r == p)) [
              | inl c ↦
                  let same : r ≡ p = ground (arith, nat_beq_iff r p) in
                  let kids = h.1 n (rw (← same) e) in
                  insert-Kids_self p r xs k t.nodes x same kids.0 kids.1
              | inr c ↦ insert-Kids_ne p r xs k t.nodes x (ground (arith, nat_beq_iff r p)) h.1
            ],
          )
  ]

  release_arguments-Kept : (a : ℕ) → a ≢ p → After (Kept b p xs k) (release_arguments a t)
  unfolding release_arguments
  release_arguments-Kept a other = elim (Option-cases (lookup a t.nodes)) [
    | inl e ↦ rw (e, with_node) tt
    | inr (n, e) ↦
        let x : QueryTreeNode = record n { arguments = none } in
        rw (e, with_node)
          (insert-Alive b a t.nodes n x e refl h.0, insert-Kids_ne p a xs k t.nodes x other h.1)
  ]

  end_once-Kept : (a : ℕ) → a ≢ p → After (Kept b p xs k) (end_once a t)
  unfolding end_once
  end_once-Kept a other = elim (Option-cases (lookup a t.nodes)) [
    | inl e ↦ rw (e, with_node) tt
    | inr (n, e) ↦
        let x : QueryTreeNode = record n { dispose_ended = true } in
        rw (e, with_node)
          (insert-Alive b a t.nodes n x e refl h.0, insert-Kids_ne p a xs k t.nodes x other h.1)
  ]

  -- `removeChild` on the parent takes the slot of the child out.
  remove_child-Kept :
      (a : ℕ) (ys : List (Option ℕ))
      → remove_slot a k xs ≡ some ys
      → After (Kept b p ys (k - 1)) (remove_child p a t)
  unfolding remove_child next_update
  remove_child-Kept a ys out = elim (Option-cases (lookup p t.nodes)) [
    | inl e ↦ rw (e, with_node) tt
    | inr (n, e) ↦
        let kids = h.1 n e in
        let same : remove_slot a n.child_len n.children ≡ some ys = rw (kids.0, kids.1) out in
        rw (e, with_node)
          (rw same (
            insert-Alive b p t.nodes n _ e refl h.0,
            insert-Kids_self p p ys (k - 1) t.nodes _ refl refl (ap (λ c. c - 1) kids.1),
          ))
  ]

no_children-Kept :
    (rec : Option ℕ → Tree → Out (Unit {0})) (a k : ℕ) (P : Nodes → Type 0) (t : Tree)
    → k ≡ 0
    → P t.nodes
    → After P (dispose_range rec a 0 k t)
unfolding dispose_range
no_children-Kept rec a zero P t e h = h
no_children-Kept rec a (suc k) P t e h = absurd (omega arith)

leave_parent-Kept :
    (b p a : ℕ) (xs ys : List (Option ℕ)) (k : ℕ) (o : Option ℕ) (t : Tree)
    → o ≡ some p
    → remove_slot a k xs ≡ some ys
    → Kept b p xs k t.nodes
    → After (Kept b p ys (k - 1)) (leave_parent o a t)
unfolding leave_parent
leave_parent-Kept b p a xs ys k o t e out h = rw e (remove_child-Kept b p xs k t h a ys out)

-- A child with no children of its own, disposed: the parent loses its slot.
pub leaf-Kept :
    (f b p a : ℕ) (xs ys : List (Option ℕ)) (k : ℕ) (t : Tree) (n : QueryTreeNode)
    → Kept b p xs k t.nodes
    → lookup a t.nodes ≡ some n
    → n.disposed ≡ false
    → n.child_len ≡ 0
    → n.parent ≡ some p
    → a ≢ b
    → a ≢ p
    → remove_slot a k xs ≡ some ys
    → After (Kept b p ys (k - 1)) (dispose f (some a) t)
unfolding dispose dispose_body next_update
leaf-Kept zero b p a xs ys k t n h e alive leaf parent a-b a-p out = tt
leaf-Kept (suc f) b p a xs ys k t n h e alive leaf parent a-b a-p out =
    let x : QueryTreeNode = delete_update (record n { disposed = true }) in
    let h0 : Kept b p xs k (insert a x t.nodes) =
      (insert-Alive_ne b a t.nodes x a-b h.0, insert-Kids_ne p a xs k t.nodes x a-p h.1) in
    let Q = Kept b p ys (k - 1) in
    rw (e, alive, with_node)
      (After-bind (Kept b p xs k) Q _ _
        (no_children-Kept _ a n.child_len (Kept b p xs k) (write_node a x t) leaf h0)
        λ _ t1 h1.
          After-bind (Kept b p xs k) Q _ _ (clear_children-Kept b p xs k t1 h1 a a-p) λ _ t2 h2.
            After-bind (Kept b p xs k) Q _ _ (unregister-Kept b p xs k t2 h2 n.root n.id) λ _ t3 h3.
              After-bind Q Q _ _ (leave_parent-Kept b p a xs ys k n.parent t3 parent out h3)
                λ _ t4 h4.
                  After-bind Q Q _ _ (release_arguments-Kept b p ys (k - 1) t4 h4 a a-p)
                    λ _ t5 h5. end_once-Kept b p ys (k - 1) t5 h5 a a-p)
