-- ===== src/Qtree/Dispose/Second.antt =====
-- What `Dispose` does to the second child of a node.
use rgraphql.Prelude.{
  sym, subst, lookup-insert, ℕ, zero, suc, true, false, Option, none, some, List, [], ◌∷◌, ◌≡◌, ◌≢◌,
  refl, arith, lookup, insert, nat_eq, nat_beq_iff, inl, inr, Option-cases, length,
}
use rgraphql.Qtree.{QueryTreeNode, Tree, Out, done, with_node, write_node}
use rgraphql.Qtree.Subscribe.{next_update}
use rgraphql.Qtree.Dispose.{
  remove_slot, shift_left, remove_child, dispose_range, clear_children, unregister, leave_parent,
  release_arguments, end_once, delete_update, dispose_body, dispose, slot,
}
use rgraphql.Qtree.Dispose.Closed.{Nodes, IsClosed}
use rgraphql.Qtree.Dispose.Total.{dispose-Returns}
use rgraphql.Qtree.Dispose.Skips.{
  After, After-bind, Alive, Kept, insert-Alive, insert-Alive_ne, insert-Kids_self, leaf-Kept,
}

module _ (b : ℕ) (t : Tree) (h : Alive b t.nodes) where
  clear_children-Alive : (a : ℕ) → After (Alive b) (clear_children a t)
  unfolding clear_children
  clear_children-Alive a = elim (Option-cases (lookup a t.nodes)) [
    | inl e ↦ rw (e, with_node) tt
    | inr (n, e) ↦ rw (e, with_node) (insert-Alive b a t.nodes n _ e refl h)
  ]

  unregister-Alive : (r id : ℕ) → After (Alive b) (unregister r id t)
  unfolding unregister
  unregister-Alive r id = elim (Option-cases (lookup r t.nodes)) [
    | inl e ↦ rw (e, with_node) tt
    | inr (n, e) ↦ rw (e, with_node) (insert-Alive b r t.nodes n _ e refl h)
  ]

  release_arguments-Alive : (a : ℕ) → After (Alive b) (release_arguments a t)
  unfolding release_arguments
  release_arguments-Alive a = elim (Option-cases (lookup a t.nodes)) [
    | inl e ↦ rw (e, with_node) tt
    | inr (n, e) ↦ rw (e, with_node) (insert-Alive b a t.nodes n _ e refl h)
  ]

  end_once-Alive : (a : ℕ) → After (Alive b) (end_once a t)
  unfolding end_once
  end_once-Alive a = elim (Option-cases (lookup a t.nodes)) [
    | inl e ↦ rw (e, with_node) tt
    | inr (n, e) ↦ rw (e, with_node) (insert-Alive b a t.nodes n _ e refl h)
  ]

  remove_child-Alive : (q a : ℕ) → After (Alive b) (remove_child q a t)
  unfolding remove_child next_update
  remove_child-Alive q a = elim (Option-cases (lookup q t.nodes)) [
    | inl e ↦ rw (e, with_node) tt
    | inr (n, e) ↦ elim (Option-cases (remove_slot a n.child_len n.children)) [
      | inl out ↦ rw (e, with_node) (rw out (insert-Alive b q t.nodes n n e refl h))
      | inr (ys, out) ↦ rw (e, with_node) (rw out (insert-Alive b q t.nodes n _ e refl h))
    ]
  ]

  leave_parent-Alive : (o : Option ℕ) (a : ℕ) → After (Alive b) (leave_parent o a t)
  unfolding leave_parent
  leave_parent-Alive none a = h
  leave_parent-Alive (some q) a = remove_child-Alive q a

-- Taking out the first of two items leaves the second at index 0.
shifted : (a b : ℕ) → remove_slot a 2 (some a ∷ some b ∷ []) ≡ some (some b ∷ none ∷ [])
unfolding remove_slot shift_left
shifted a b = ground (arith, nat_beq_iff a a)

-- The slot that a round reads, as the array stands.
round-Alive :
    (P : Nodes → Type 0) (rec : Option ℕ → Tree → Out (Unit {0})) (p i k : ℕ) (xs : List (Option ℕ))
    (len : ℕ) (b : ℕ) (t : Tree)
    → Kept b p xs len t.nodes
    → After P (rec (slot xs i) t)
    → ((t' : Tree) → P t'.nodes → After (Alive b) (dispose_range rec p (suc i) k t'))
    → After (Alive b) (dispose_range rec p i (suc k) t)
unfolding dispose_range
round-Alive P rec p i k xs len b t h first later = elim (Option-cases (lookup p t.nodes)) [
  | inl gone ↦ rw (gone, with_node) tt
  | inr (n, at) ↦
      rw (at, with_node)
        (rw (h.1 n at).0
          (After-bind P (Alive b) (rec (slot xs i) t) _ first (λ _ t' q. later t' q)))
]

nil-Alive : (f b : ℕ) (t : Tree) → Alive b t.nodes → After (Alive b) (dispose f none t)
unfolding dispose
nil-Alive zero b t h = tt
nil-Alive (suc f) b t h = h

end-Alive :
    (rec : Option ℕ → Tree → Out (Unit {0})) (p i b : ℕ) (t : Tree)
    → Alive b t.nodes
    → After (Alive b) (dispose_range rec p i 0 t)
unfolding dispose_range
end-Alive rec p i b t h = h

-- The two rounds over the children `a` and `b`: after the first, the array holds `b` at index 0
-- and nil at index 1, where the second round looks.
two_rounds :
    (f p a b : ℕ) (t : Tree) (na : QueryTreeNode)
    → Kept b p (some a ∷ some b ∷ []) 2 t.nodes
    → lookup a t.nodes ≡ some na
    → na.disposed ≡ false
    → na.child_len ≡ 0
    → na.parent ≡ some p
    → a ≢ b
    → a ≢ p
    → After (Alive b) (dispose_range (λ c t'. dispose f c t') p 0 2 t)
two_rounds f p a b t na h e alive leaf parent a-b a-p =
    let rec : Option ℕ → Tree → Out (Unit {0}) = λ c t'. dispose f c t' in
    round-Alive (Kept b p (some b ∷ none ∷ []) 1) rec p 0 1 (some a ∷ some b ∷ []) 2 b t h
      (leaf-Kept f b p a (some a ∷ some b ∷ []) (some b ∷ none ∷ []) 2 t na h e alive leaf parent
        a-b a-p (shifted a b))
      λ t1 h1.
        round-Alive (Alive b) rec p 1 0 (some b ∷ none ∷ []) 1 b t1 h1 (nil-Alive f b t1 h1.0)
          λ t2 h2. end-Alive rec p 2 b t2 h2

parent-Alive :
    (f p a b : ℕ) (t : Tree) (n na : QueryTreeNode)
    → Alive b t.nodes
    → lookup p t.nodes ≡ some n
    → n.disposed ≡ false
    → n.children ≡ some a ∷ some b ∷ []
    → n.child_len ≡ 2
    → lookup a t.nodes ≡ some na
    → na.disposed ≡ false
    → na.child_len ≡ 0
    → na.parent ≡ some p
    → a ≢ b
    → a ≢ p
    → b ≢ p
    → After (Alive b) (dispose (suc f) (some p) t)
unfolding dispose dispose_body next_update
parent-Alive f p a b t n na h at live kids len e alive leaf parent a-b a-p b-p =
    let x : QueryTreeNode = delete_update (record n { disposed = true }) in
    let m : Nodes = insert p x t.nodes in
    let h0 : Kept b p (some a ∷ some b ∷ []) 2 m = (
      insert-Alive_ne b p t.nodes x (λ q. b-p (sym q)) h,
      insert-Kids_self p p (some a ∷ some b ∷ []) 2 t.nodes x refl kids len,
    ) in
    let e0 : lookup a m ≡ some na = ground (arith, lookup-insert p a x t.nodes, nat_beq_iff p a) in
    let rounds = two_rounds f p a b (write_node p x t) na h0 e0 alive leaf parent a-b a-p in
    rw (at, live, with_node)
      (After-bind (Alive b) (Alive b) _ _
        (subst
          (λ c. After (Alive b) (dispose_range (λ c t'. dispose f c t') p 0 c (write_node p x t)))
          (sym len) rounds)
        λ _ t1 h1. After-bind (Alive b) (Alive b) _ _ (clear_children-Alive b t1 h1 p) λ _ t2 h2.
          After-bind (Alive b) (Alive b) _ _ (unregister-Alive b t2 h2 n.root n.id) λ _ t3 h3.
            After-bind (Alive b) (Alive b) _ _ (leave_parent-Alive b t3 h3 n.parent p) λ _ t4 h4.
              After-bind (Alive b) (Alive b) _ _ (release_arguments-Alive b t4 h4 p)
                λ _ t5 h5. end_once-Alive b t5 h5 p)

-- A live node with two children, the first of them live and with no children of its own: disposing
-- the node returns, and the second child is still there and was not disposed.
pub dispose_skips_second :
    (p a b : ℕ) (t : Tree) (n na nb : QueryTreeNode)
    → IsClosed t.nodes
    → lookup p t.nodes ≡ some n
    → n.disposed ≡ false
    → n.children ≡ some a ∷ some b ∷ []
    → n.child_len ≡ 2
    → lookup a t.nodes ≡ some na
    → na.disposed ≡ false
    → na.child_len ≡ 0
    → na.parent ≡ some p
    → lookup b t.nodes ≡ some nb
    → nb.disposed ≡ false
    → a ≢ b
    → a ≢ p
    → b ≢ p
    → (t' : Tree) × (nb' : QueryTreeNode) × (dispose (suc (length t.nodes)) (some p) t ≡ done tt t')
      × (lookup b t'.nodes ≡ some nb')
      × (nb'.disposed ≡ false)
dispose_skips_second p a b t n na nb c at live kids len e alive leaf parent eb bl a-b a-p b-p =
    let h : Alive b t.nodes = λ y r. ground arith in
    let after =
      parent-Alive (length t.nodes) p a b t n na h at live kids len e alive leaf parent a-b a-p
        b-p in
    let (t', returns, keeps, kept) = dispose-Returns p t c (n, at) _ after in
    let (nb', here) = (keeps b).0 (nb, eb) in (t', nb', returns, here, kept nb' here)
