-- ===== src/Qtree/Dispose/Cleared.antt =====
-- What `Dispose` leaves of the node, on a tree without cycles.
use rgraphql.Prelude.{
  ℕ, suc, Bool, true, false, Option, none, some, [], ◌≡◌, refl, arith, Map, lookup, insert, nat_eq,
  nat_beq_iff, lookup-insert, lookup-delete, inl, inr, Bool-cases, Option-cases, ◌==◌, length,
  subst,
}
use rgraphql.Qtree.{QueryTreeNode, Tree, Out, done, blocked, panicked, spent, with_node, write_node}
use rgraphql.Qtree.Subscribe.{next_update}
use rgraphql.Qtree.Dispose.{
  remove_slot, remove_child, dispose_range, clear_children, unregister, unmapped, leave_parent,
  release_arguments, end_once, delete_update, dispose_body, dispose,
}
use rgraphql.Qtree.Dispose.Closed.{Nodes, IsClosed}
use rgraphql.Qtree.Dispose.Skips.{After, After-bind}
use rgraphql.Qtree.Dispose.Acyclic.{IsCalm, dispose-IsCalm, rounds-IsCalm}
use rgraphql.Qtree.Dispose.Total.{dispose-Returns}

-- The entries of a map that may be nil.
abbrev pub entries : Option (Map ℕ ℕ) → Map ℕ ℕ
entries none = []
entries (some m) = m

-- The node at `a` has no children.
abbrev IsChildless : ℕ → Nodes → Type 0
IsChildless a m = (n : QueryTreeNode) → lookup a m ≡ some n → (n.children ≡ []) × (n.child_len ≡ 0)

-- The map of the node at `r` has no entry for the id.
abbrev IsUnlisted : ℕ → ℕ → Nodes → Type 0
IsUnlisted r id m =
    (n : QueryTreeNode) → lookup r m ≡ some n → lookup id (entries n.root_node_map) ≡ none

-- The node at `a` has given its arguments back.
abbrev IsReleased : ℕ → Nodes → Type 0
IsReleased a m = (n : QueryTreeNode) → lookup a m ≡ some n → n.arguments ≡ none

abbrev IsOver : ℕ → Nodes → Type 0
IsOver a m = (n : QueryTreeNode) → lookup a m ≡ some n → n.dispose_ended ≡ true

-- What holds of one node holds after the write of a node for which it holds.
insert-each :
    (P : QueryTreeNode → Type 0) (a q : ℕ) (m : Nodes) (x : QueryTreeNode)
    → (q ≡ a → P x)
    → ((n : QueryTreeNode) → lookup a m ≡ some n → P n)
    → (n : QueryTreeNode) → lookup a (insert q x m) ≡ some n
    → P n
insert-each P a q m x new old n p = elim (Bool-cases (q == a)) [
  | inl e ↦
      let node : x ≡ n = ground (arith, e, p, lookup-insert q a x m) in
      subst P node (new ((nat_beq_iff q a).0 e))
  | inr e ↦ old n (ground (arith, e, p, lookup-insert q a x m))
]

abbrev NoKids : QueryTreeNode → Type 0
NoKids n = (n.children ≡ []) × (n.child_len ≡ 0)

abbrev Unlisted : ℕ → QueryTreeNode → Type 0
Unlisted id n = lookup id (entries n.root_node_map) ≡ none

-- An operation that does not block.
any-After : (P : Nodes → Type 0) (o : Out (Unit {0})) → After P o → After (λ m. Unit {0}) o
any-After P (done u t) h = tt
any-After P (blocked t) h = h
any-After P (panicked t) h = tt
any-After P spent h = tt

clear_children-IsChildless : (a : ℕ) (t : Tree) → After (IsChildless a) (clear_children a t)
unfolding clear_children
clear_children-IsChildless a t = elim (Option-cases (lookup a t.nodes)) [
  | inl e ↦ rw (e, with_node) tt
  | inr (n, e) ↦
      rw (e, with_node)
        (λ y p.
          let same : record n { children = []; child_len = 0 } ≡ y = ground (
            arith,
            p,
            nat_beq_iff a a,
            lookup-insert a a (record n { children = []; child_len = 0 }) t.nodes,
          ) in
          subst NoKids same (refl, refl))
]

lookup-unmapped : (id : ℕ) (m : Option (Map ℕ ℕ)) → lookup id (entries (unmapped id m)) ≡ none
unfolding lookup
lookup-unmapped id none = refl
lookup-unmapped id (some m) = ground (arith, lookup-delete id id m, nat_beq_iff id id)

-- What is left to keep, once the children are cleared and the id is out of the map.
abbrev IsGone : ℕ → ℕ → ℕ → Nodes → Type 0
IsGone a r id m = IsChildless a m × IsUnlisted r id m

unregister-IsGone :
    (a r id : ℕ) (t : Tree) → IsChildless a t.nodes → After (IsGone a r id) (unregister r id t)
unfolding unregister
unregister-IsGone a r id t h = elim (Option-cases (lookup r t.nodes)) [
  | inl e ↦ rw (e, with_node) tt
  | inr (n, e) ↦
      let x : QueryTreeNode = record n { root_node_map = unmapped id n.root_node_map } in
      rw (e, with_node)
        (
          insert-each NoKids a r t.nodes x (λ same. h n (rw (← same) e)) h,
          λ y p.
              let node : x ≡ y = ground (arith, p, nat_beq_iff r r, lookup-insert r r x t.nodes) in
              subst (Unlisted id) node (lookup-unmapped id n.root_node_map),
        )
]

module _ (a r id : ℕ) (t : Tree) (h : IsGone a r id t.nodes) where
  leave_parent-IsGone : (o : Option ℕ) → After (IsGone a r id) (leave_parent o a t)
  unfolding leave_parent remove_child remove_slot next_update
  leave_parent-IsGone none = h
  leave_parent-IsGone (some q) = elim (Option-cases (lookup q t.nodes)) [
    | inl e ↦ rw (e, with_node) tt
    | inr (n, e) ↦ elim (Option-cases (remove_slot a n.child_len n.children)) [
      | inl out ↦
          rw (e, with_node)
            (rw out (
              insert-each NoKids a q t.nodes n (λ same. h.0 n (rw (← same) e)) h.0,
              insert-each (Unlisted id) r q t.nodes n (λ same. h.1 n (rw (← same) e)) h.1,
            ))
      | inr (ys, out) ↦
          rw (e, with_node)
            (rw out (
              insert-each NoKids a q t.nodes _
                  (λ same. let kids = h.0 n (rw (← same) e) in absurd (ground (arith, out, kids)))
                  h.0,
              insert-each (Unlisted id) r q t.nodes _ (λ same. h.1 n (rw (← same) e)) h.1,
            ))
    ]
  ]

  release_arguments-IsGone : After (λ m. IsGone a r id m × IsReleased a m) (release_arguments a t)
  unfolding release_arguments
  release_arguments-IsGone = elim (Option-cases (lookup a t.nodes)) [
    | inl e ↦ rw (e, with_node) tt
    | inr (n, e) ↦
        let x : QueryTreeNode = record n { arguments = none } in
        rw (e, with_node)
          (
            (
              insert-each NoKids a a t.nodes x (λ same. h.0 n e) h.0,
              insert-each (Unlisted id) r a t.nodes x (λ same. h.1 n (rw (← same) e)) h.1,
            ),
            λ y p.
                let node : x ≡ y =
                  ground (arith, p, nat_beq_iff a a, lookup-insert a a x t.nodes) in
                subst (λ z. z.arguments ≡ none) node refl,
          )
  ]

  end_once-IsGone :
      IsReleased a t.nodes
      → After (λ m. IsGone a r id m × (IsReleased a m × IsOver a m)) (end_once a t)
  unfolding end_once
  end_once-IsGone free = elim (Option-cases (lookup a t.nodes)) [
    | inl e ↦ rw (e, with_node) tt
    | inr (n, e) ↦
        let x : QueryTreeNode = record n { dispose_ended = true } in
        rw (e, with_node)
          (
            (
              insert-each NoKids a a t.nodes x (λ same. h.0 n e) h.0,
              insert-each (Unlisted id) r a t.nodes x (λ same. h.1 n (rw (← same) e)) h.1,
            ),
            (
              insert-each (λ z. z.arguments ≡ none) a a t.nodes x (λ same. free n e) free,
              λ y p.
                  let node : x ≡ y =
                    ground (arith, p, nat_beq_iff a a, lookup-insert a a x t.nodes) in
                  subst (λ z. z.dispose_ended ≡ true) node refl,
            ),
          )
  ]

-- What the disposal of a live node, with the given root and id, leaves.
abbrev IsCleared : ℕ → ℕ → ℕ → Nodes → Type 0
IsCleared a r id m = IsGone a r id m × (IsReleased a m × IsOver a m)

dispose_body-IsCleared :
    (rec : Option ℕ → Tree → Out (Unit {0})) (a : ℕ) (n : QueryTreeNode) (t : Tree)
    → After (λ m. Unit {0}) (dispose_range rec a 0 n.child_len t)
    → After (IsCleared a n.root n.id) (dispose_body rec a n t)
unfolding dispose_body
dispose_body-IsCleared rec a n t goes_on =
    let R = IsCleared a n.root n.id in
    let G = IsGone a n.root n.id in
    After-bind (λ m. Unit {0}) R _ _ goes_on
      λ _ t1 _. After-bind (IsChildless a) R _ _ (clear_children-IsChildless a t1) λ _ t2 h2.
        After-bind G R _ _ (unregister-IsGone a n.root n.id t2 h2) λ _ t3 h3.
          After-bind G R _ _ (leave_parent-IsGone a n.root n.id t3 h3 n.parent) λ _ t4 h4.
            After-bind (λ m. G m × IsReleased a m) R _ _
              (release_arguments-IsGone a n.root n.id t4 h4)
              λ _ t5 h5. end_once-IsGone a n.root n.id t5 h5.0 h5.1

After-both :
    (P Q : Nodes → Type 0) (o : Out (Unit {0})) → After P o → After Q o → After (λ m. P m × Q m) o
After-both P Q (done u t) h k = (h, k)
After-both P Q (blocked t) h k = h
After-both P Q (panicked t) h k = tt
After-both P Q spent h k = tt

-- Nothing is being disposed.
abbrev pub none_running : ℕ → Bool
none_running b = false

dispose-IsCleared :
    (rank : ℕ → ℕ) (f a : ℕ) (t : Tree) (n : QueryTreeNode)
    → IsCalm rank none_running t.nodes
    → lookup a t.nodes ≡ some n
    → n.disposed ≡ false
    → After (IsCleared a n.root n.id) (dispose (suc f) (some a) t)
unfolding dispose next_update
dispose-IsCleared rank f a t n calm at alive =
    let x : QueryTreeNode = delete_update (record n { disposed = true }) in
    rw (at, alive, with_node)
      (dispose_body-IsCleared (λ o t'. dispose f o t') a n (write_node a x t)
        (any-After _ _
          (rounds-IsCalm rank f a none_running t n (λ b h. absurd (ground (arith, h))) calm at)))

-- On a tree with no dangling pointer, where every child has a lower rank than its parent and nothing is
-- being disposed, `Dispose` of a node that is live returns, given one unit of fuel more than there
-- are nodes. It then has no children and no arguments, its `disposeOnce` is done, the map of
-- its root has no entry for its id, and again nothing is being disposed and every child has
-- a lower rank than its parent.
pub dispose-done :
    (rank : ℕ → ℕ) (a : ℕ) (t : Tree) (n : QueryTreeNode)
    → IsClosed t.nodes
    → IsCalm rank none_running t.nodes
    → lookup a t.nodes ≡ some n
    → n.disposed ≡ false
    → (t' : Tree) × (n' r' : QueryTreeNode) × (dispose (suc (length t.nodes)) (some a) t
        ≡ done tt t')
      × (lookup a t'.nodes ≡ some n')
      × (n'.children ≡ [])
      × (n'.child_len ≡ 0)
      × (n'.arguments ≡ none)
      × (n'.dispose_ended ≡ true)
      × (lookup n.root t'.nodes ≡ some r')
      × (lookup n.id (entries r'.root_node_map) ≡ none)
      × IsCalm rank none_running t'.nodes
dispose-done rank a t n closed calm at alive =
    let P = IsCleared a n.root n.id in
    let Q = IsCalm rank none_running in
    let out = dispose (suc (length t.nodes)) (some a) t in
    let (t', returns, keeps, ((gone, (free, over)), quiet)) =
      dispose-Returns a t closed (n, at) (λ m. P m × Q m)
        (After-both P Q out (dispose-IsCleared rank (length t.nodes) a t n calm at alive) (
          dispose-IsCalm rank (suc (length t.nodes)) none_running (some a) t
            (λ b h. absurd (ground (arith, h))) calm)) in
    let (n', here) = (keeps a).0 (n, at) in
    let (r', root) = (keeps n.root).0 (closed a n at).root in
    let kids = gone.0 n' here in
    (
      t',
      n',
      r',
      returns,
      here,
      kids.0,
      kids.1,
      free n' here,
      over n' here,
      root,
      gone.1 r' root,
      quiet,
    )
