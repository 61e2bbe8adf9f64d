-- ===== src/Qtree/Dispose/Acyclic.antt =====
-- `Dispose` on a tree without cycles never calls itself for a node whose disposal is running.
use rgraphql.Prelude.{
  ℕ, zero, suc, ◌<◌, ◌⊎◌, ◌||◌, Bool, true, false, Option, none, some, List, [], ◌∷◌, ◌≡◌, refl,
  arith, lookup, insert, nat_eq, nat_beq_iff, lookup-insert, inl, inr, Bool-cases, Option-cases,
  ◌==◌, subst,
}
use rgraphql.Qtree.{QueryTreeNode, Tree, Out, with_node, write_node}
use rgraphql.Qtree.Subscribe.{next_update}
use rgraphql.Qtree.Dispose.{
  slot, holds, shift_left, remove_slot, remove_child, dispose_range, clear_children, unregister,
  leave_parent, release_arguments, end_once, delete_update, dispose_body, dispose,
}
use rgraphql.Qtree.Dispose.Closed.{Nodes}
use rgraphql.Qtree.Dispose.Skips.{After, After-bind}

module _ (rank : ℕ → ℕ) where
  abbrev pub BelowOpt : ℕ → Option ℕ → Type 0
  BelowOpt r none = Unit
  BelowOpt r (some c) = rank c < r

  -- The children that a slice holds are of a lower rank.
  abbrev pub Below : ℕ → List (Option ℕ) → Type 0
  Below r [] = Unit
  Below r (x ∷ xs) = BelowOpt r x × Below r xs

  -- The children of every node are of a lower rank than the node, and only nodes of `s` are being
  -- disposed.
  abbrev pub IsCalm : (ℕ → Bool) → Nodes → Type 0
  IsCalm s m =
      (b : ℕ) (n : QueryTreeNode)
      → lookup b m ≡ some n
      → Below (rank b) n.children
        × ((n.disposed ≡ false) ⊎ ((n.dispose_ended ≡ true) ⊎ (s b ≡ true)))

  BelowOpt-slot : (r : ℕ) (xs : List (Option ℕ)) (i : ℕ) → Below r xs → BelowOpt r (slot xs i)
  BelowOpt-slot r [] i h = tt
  BelowOpt-slot r (x ∷ xs) zero h = h.0
  BelowOpt-slot r (x ∷ xs) (suc i) h = BelowOpt-slot r xs i h.1

  Below-shift_left : (r k : ℕ) (xs : List (Option ℕ)) → Below r xs → Below r (shift_left k xs)
  unfolding shift_left
  Below-shift_left r zero xs h = (tt, h)
  Below-shift_left r (suc k) [] h = (tt, tt)
  Below-shift_left r (suc k) (x ∷ xs) h = (h.0, Below-shift_left r k xs h.1)

  Below-remove_slot :
      (r c len : ℕ) (xs : List (Option ℕ)) {ys : List (Option ℕ)}
      → Below r xs
      → remove_slot c len xs ≡ some ys
      → Below r ys
  unfolding remove_slot
  Below-remove_slot r c zero xs h e = absurd (ground arith)
  Below-remove_slot r c (suc len) [] h e = absurd (ground arith)
  Below-remove_slot r c (suc len) (x ∷ xs) {ys} h e = elim (Bool-cases (holds c x)) [
    | inl found ↦
        let same : shift_left len xs ≡ ys = ground arith in
        subst (Below r) same (Below-shift_left r len xs h.1)
    | inr other ↦ elim (Option-cases (remove_slot c len xs)) [
      | inl gone ↦ absurd (ground arith)
      | inr (zs, rest) ↦
          let same : x ∷ zs ≡ ys = ground arith in
          subst (Below r) same (h.0, Below-remove_slot r c len xs h.1 rest)
    ]
  ]

  -- A write that keeps the order of ranks, and does not start a disposal out of `s`.
  insert-IsCalm :
      (s u : ℕ → Bool) (q : ℕ) (m : Nodes) (x : QueryTreeNode)
      → Below (rank q) x.children
      → (x.disposed ≡ false) ⊎ ((x.dispose_ended ≡ true) ⊎ (u q ≡ true))
      → ((b : ℕ) → s b ≡ true → (q == b) ≡ false → u b ≡ true)
      → IsCalm s m
      → IsCalm u (insert q x m)
  insert-IsCalm s u q m x below runs sub h b y p = elim (Bool-cases (q == b)) [
    | inl e ↦
        let node : x ≡ y = ground (arith, lookup-insert q b x m) in
        let place : q ≡ b = (nat_beq_iff q b).0 e in
        subst
          (λ z.
            Below (rank b) z.children
            × ((z.disposed ≡ false) ⊎ ((z.dispose_ended ≡ true) ⊎ (u b ≡ true))))
          node
          (subst
            (λ c.
              Below (rank c) x.children
              × ((x.disposed ≡ false) ⊎ ((x.dispose_ended ≡ true) ⊎ (u c ≡ true))))
            place (below, runs))
    | inr e ↦
        let (low, why) = h b y (ground (arith, e, lookup-insert q b x m)) in
        (
          low,
          elim why [
            | inl alive ↦ inl alive
            | inr (inl over) ↦ inr (inl over)
            | inr (inr running) ↦ inr (inr (sub b running e))
          ],
        )
  ]

  module _ (s : ℕ → Bool) (t : Tree) (h : IsCalm s t.nodes) where
    same_flags :
        (q : ℕ) (n x : QueryTreeNode)
        → lookup q t.nodes ≡ some n
        → Below (rank q) x.children
        → x.disposed ≡ n.disposed
        → x.dispose_ended ≡ n.dispose_ended
        → IsCalm s (insert q x t.nodes)
    same_flags q n x p below d e =
        insert-IsCalm s s q t.nodes x below (rw (d, e) (h q n p).1) (λ b r f. r) h

    clear_children-IsCalm : (a : ℕ) → After (IsCalm s) (clear_children a t)
    unfolding clear_children
    clear_children-IsCalm a = elim (Option-cases (lookup a t.nodes)) [
      | inl e ↦ rw (e, with_node) tt
      | inr (n, e) ↦ rw (e, with_node) (same_flags a n _ e tt refl refl)
    ]

    unregister-IsCalm : (r id : ℕ) → After (IsCalm s) (unregister r id t)
    unfolding unregister
    unregister-IsCalm r id = elim (Option-cases (lookup r t.nodes)) [
      | inl e ↦ rw (e, with_node) tt
      | inr (n, e) ↦ rw (e, with_node) (same_flags r n _ e (h r n e).0 refl refl)
    ]

    release_arguments-IsCalm : (a : ℕ) → After (IsCalm s) (release_arguments a t)
    unfolding release_arguments
    release_arguments-IsCalm a = elim (Option-cases (lookup a t.nodes)) [
      | inl e ↦ rw (e, with_node) tt
      | inr (n, e) ↦ rw (e, with_node) (same_flags a n _ e (h a n e).0 refl refl)
    ]

    leave_parent-IsCalm : (o : Option ℕ) (a : ℕ) → After (IsCalm s) (leave_parent o a t)
    unfolding leave_parent remove_child next_update
    leave_parent-IsCalm none a = h
    leave_parent-IsCalm (some q) a = elim (Option-cases (lookup q t.nodes)) [
      | inl e ↦ rw (e, with_node) tt
      | inr (n, e) ↦ elim (Option-cases (remove_slot a n.child_len n.children)) [
        | inl out ↦ rw (e, with_node) (rw out (same_flags q n n e (h q n e).0 refl refl))
        | inr (ys, out) ↦
            rw (e, with_node)
              (rw out (
                same_flags q n _ e
                  (Below-remove_slot (rank q) a n.child_len n.children (h q n e).0 out) refl refl))
      ]
    ]

  -- The nodes of `s`, and `a`.
  abbrev with_running : ℕ → (ℕ → Bool) → ℕ → Bool
  with_running a s b = (a == b) || s b

  end_once-IsCalm :
      (a : ℕ) (s : ℕ → Bool) (t : Tree)
      → IsCalm (with_running a s) t.nodes
      → After (IsCalm s) (end_once a t)
  unfolding end_once
  end_once-IsCalm a s t h = elim (Option-cases (lookup a t.nodes)) [
    | inl e ↦ rw (e, with_node) tt
    | inr (n, e) ↦
        rw (e, with_node)
          (insert-IsCalm (with_running a s) s a t.nodes _ (h a n e).0 (inr (inl refl))
            (λ b r other. ground (arith, r, other)) h)
  ]

  -- What the recursive call promises for a node of a lower rank than all that are being disposed.
  abbrev CallIsCalm : (Option ℕ → Tree → Out (Unit {0})) → Type 0
  CallIsCalm rec =
      (s : ℕ → Bool) (o : Option ℕ) (t : Tree)
      → ((b : ℕ) → s b ≡ true → BelowOpt (rank b) o)
      → IsCalm s t.nodes
      → After (IsCalm s) (rec o t)

  BelowOpt-trans : (o : Option ℕ) (r u : ℕ) → r < u → BelowOpt r o → BelowOpt u o
  BelowOpt-trans none r u lt h = tt
  BelowOpt-trans (some c) r u lt h = omega (arith, lt, h)

  dispose_range-IsCalm :
      (rec : Option ℕ → Tree → Out (Unit {0})) (a : ℕ) (s : ℕ → Bool)
      → CallIsCalm rec
      → ((b : ℕ) → s b ≡ true → rank a < rank b)
      → (i rounds : ℕ) (t : Tree) → IsCalm (with_running a s) t.nodes
      → After (IsCalm (with_running a s)) (dispose_range rec a i rounds t)
  unfolding dispose_range
  dispose_range-IsCalm rec a s call above i zero t h = h
  dispose_range-IsCalm rec a s call above i (suc rounds) t h =
      elim (Option-cases (lookup a t.nodes)) [
        | inl e ↦ rw (e, with_node) tt
        | inr (n, e) ↦
            let low = BelowOpt-slot (rank a) n.children i (h a n e).0 in
            rw (e, with_node)
              (After-bind (IsCalm (with_running a s)) (IsCalm (with_running a s)) _ _
                (call (with_running a s) (slot n.children i) t
                  (λ b r. elim (Bool-cases (a == b)) [
                    | inl same ↦
                        subst (λ c. BelowOpt (rank c) (slot n.children i))
                          ((nat_beq_iff a b).0 same) low
                    | inr other ↦
                        BelowOpt-trans (slot n.children i) (rank a) (rank b)
                          (above b (ground (arith, r, other))) low
                  ])
                  h)
                λ _ t1 h1. dispose_range-IsCalm rec a s call above (suc i) rounds t1 h1)
      ]

  -- The disposals that are running are those of `s` again when `Dispose` returns.
  pub dispose-IsCalm : (f : ℕ) → CallIsCalm (λ o t. dispose f o t)
  unfolding dispose dispose_body next_update
  dispose-IsCalm zero s o t above h = tt
  dispose-IsCalm (suc f) s none t above h = h
  dispose-IsCalm (suc f) s (some a) t above h = elim (Option-cases (lookup a t.nodes)) [
    | inl e ↦ rw (e, with_node) tt
    | inr (n, e) ↦ elim (Bool-cases n.disposed) [
      | inl gone ↦ elim (h a n e).1 [
        | inl alive ↦ absurd (ground (arith, gone, alive))
        | inr (inl over) ↦ rw (e, gone, over, with_node) h
        | inr (inr running) ↦ let low = above a running in absurd (omega (arith, low))
      ]
      | inr alive ↦
          let x : QueryTreeNode = delete_update (record n { disposed = true }) in
          let u = with_running a s in
          let rec : Option ℕ → Tree → Out (Unit {0}) = λ o t'. dispose f o t' in
          let h0 : IsCalm u (insert a x t.nodes) =
            insert-IsCalm s u a t.nodes x (h a n e).0 (inr (inr (ground (arith, nat_beq_iff a a))))
              (λ b r other. ground (arith, r)) h in
          rw (e, alive, with_node)
            (After-bind (IsCalm u) (IsCalm s) _ _
              (dispose_range-IsCalm rec a s (dispose-IsCalm f) above 0 n.child_len
                (write_node a x t) h0)
              λ _ t1 h1.
                After-bind (IsCalm u) (IsCalm s) _ _ (clear_children-IsCalm u t1 h1 a) λ _ t2 h2.
                  After-bind (IsCalm u) (IsCalm s) _ _ (unregister-IsCalm u t2 h2 n.root n.id)
                    λ _ t3 h3.
                      After-bind (IsCalm u) (IsCalm s) _ _ (leave_parent-IsCalm u t3 h3 n.parent a)
                        λ _ t4 h4.
                          After-bind (IsCalm u) (IsCalm s) _ _ (release_arguments-IsCalm u t4 h4 a)
                            λ _ t5 h5. end_once-IsCalm a s t5 h5)
    ]
  ]

  -- The rounds over the children of a node that has just been marked.
  pub rounds-IsCalm :
      (f a : ℕ) (s : ℕ → Bool) (t : Tree) (n : QueryTreeNode)
      → ((b : ℕ) → s b ≡ true → rank a < rank b)
      → IsCalm s t.nodes
      → lookup a t.nodes ≡ some n
      → After (IsCalm (with_running a s)) (
          dispose_range
            (λ o t'. dispose f o t')
            a
            0
            n.child_len
            (write_node a (delete_update (record n { disposed = true })) t))
  unfolding next_update
  rounds-IsCalm f a s t n above h e =
      dispose_range-IsCalm (λ o t'. dispose f o t') a s (dispose-IsCalm f) above 0 n.child_len _
        (insert-IsCalm s (with_running a s) a t.nodes (delete_update (record n { disposed = true }))
          (h a n e).0 (inr (inr (ground (arith, nat_beq_iff a a)))) (λ b r other. ground (arith, r))
          h)

  abbrev pub CalmEntries : (ℕ → Bool) → Nodes → Type 0
  CalmEntries s [] = Unit
  CalmEntries s ((b, n) ∷ m) =
      (Below (rank b) n.children
        × ((n.disposed ≡ false) ⊎ ((n.dispose_ended ≡ true) ⊎ (s b ≡ true))))
      × CalmEntries s m

  -- To check the entries one by one is enough.
  pub CalmEntries-IsCalm : (s : ℕ → Bool) (m : Nodes) → CalmEntries s m → IsCalm s m
  unfolding lookup
  CalmEntries-IsCalm s [] h b n p = absurd (ground arith)
  CalmEntries-IsCalm s ((c, x) ∷ m) h b n p = elim (Bool-cases (c == b)) [
    | inl e ↦
        let node : x ≡ n = ground (arith, e, p) in
        let place : c ≡ b = (nat_beq_iff c b).0 e in
        subst
          (λ z.
            Below (rank b) z.children
            × ((z.disposed ≡ false) ⊎ ((z.dispose_ended ≡ true) ⊎ (s b ≡ true))))
          node
          (subst
            (λ k.
              Below (rank k) x.children
              × ((x.disposed ≡ false) ⊎ ((x.dispose_ended ≡ true) ⊎ (s k ≡ true))))
            place h.0)
    | inr e ↦ CalmEntries-IsCalm s m h.1 b n (ground (arith, e, p))
  ]
