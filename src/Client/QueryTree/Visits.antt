-- ===== src/Client/QueryTree/Visits.antt =====
-- A whole visit, callback by callback.

use rgraphql.Prelude.{
  ℕ, suc, ◌+◌, ◌%◌, ◌<◌, ◌≤◌, String, Option, none, some, List, [], ◌∷◌, ◌++◌, ◌≡◌, ◌≢◌, refl,
  arith, Map, lookup, insert, lookup-insert, nat_eq, nat_beq_iff, Bool-cases, Option-cases, inl,
  inr, ◌==◌, subst,
}
use rgraphql.Varstore.{VariableStore}
use rgraphql.Resolver.Observable.{count}
use rgraphql.Client.Arguments.{Args}
use rgraphql.Client.QueryNode.{ObjectDef, QtNode}
use rgraphql.Client.QueryTree.{QueryTree, ◌>>=◌}
use rgraphql.Client.QueryTree.Resolve.{new_child}
use rgraphql.Client.QueryTree.Attach.{Visit, enter_child, leave_field}
use rgraphql.Client.QueryTree.Rules.{Leaves, Leaves-load}
use rgraphql.Client.QueryTree.Shape.{Nodes, Has, Kids, Up}
use rgraphql.Client.QueryTree.Valid.{total_of}
use rgraphql.Client.QueryTree.Visiting.{Visiting, HasOpt, enter-Visiting}
use rgraphql.Client.QueryTree.Linked.{Anchored, Anchored-leave, count-append}
use rgraphql.Client.QueryTree.After.{children_of}
use rgraphql.Client.QueryTree.Entering.{grown-Visiting}
use rgraphql.Client.QueryTree.Visit.{with_child}

-- Visiting with room for `k` references more on any node, and for `k` nodes more below `limit`.
pub record At (qs : Map ℕ (List ℕ)) (root limit k : ℕ) (v : Visit) (t : QueryTree) : Type 0 where
  pub visiting : Visiting qs v.qt_nodes v.qnode t.root t.next t.nodes
  pub queries : t.attached_queries ≡ qs
  pub top : t.root ≡ root
  pub bound : t.next + k ≤ limit
  pub room : (b : ℕ) → count b v.qt_nodes + total_of qs b + k < 4294967296

pub Kids-Has : (m : Nodes) (a c : ℕ) (cs : List ℕ) → Kids m a cs → count c cs ≢ 0 → Has m c
Kids-Has m a c [] h k = absurd (k refl)
Kids-Has m a c (x ∷ cs) h k = elim (Bool-cases (x == c)) [
  | inl e ↦ subst (Has m) ((nat_beq_iff x c).0 e) h.1
  | inr e ↦ Kids-Has m a c cs h.2 (ground (arith))
]

Up-HasOpt : (m : Nodes) (a : ℕ) (o : Option ℕ) → Up m a o → HasOpt m o
Up-HasOpt m a none u = tt
Up-HasOpt m a (some p) u = u.1

module _ (qs : Map ℕ (List ℕ)) (root limit k : ℕ) where
  pub At-store :
      (v : Visit) (t : QueryTree) (vs : VariableStore)
      → At qs root limit k v t
      → At qs root limit k v (record t { store = vs })
  At-store v t vs h = record {
    visiting = h.visiting;
    queries = h.queries;
    top = h.top;
    bound = h.bound;
    room = h.room;
  }

  pub enter_child-old :
      (a c : ℕ) (v : Visit) (t : QueryTree)
      → v.qnode ≡ some a
      → count c (children_of t.nodes a) ≢ 0
      → At qs root limit (suc k) v t
      → Leaves (At qs root limit k) (enter_child c v t)
  unfolding enter_child
  enter_child-old a c v t now kid h = Leaves-load (At qs root limit k) c _ t (λ n at. record {
    visiting =
        enter-Visiting qs v.qt_nodes v.qnode t.root t.next t.nodes c n h.visiting at
          (ground (arith, h.room c)) a now kid;
    queries = h.queries;
    top = h.top;
    bound = omega (arith, h.bound);
    room = λ b. ground (arith, h.room b, count-append b v.qt_nodes (c ∷ []), nat_beq_iff c b);
  })

  pub enter_child-new :
      (q : ℕ) (n : QtNode) (name : String) (def : Option ObjectDef) (args : Option Args) (v : Visit)
      (t : QueryTree)
      → v.qnode ≡ some q
      → lookup q t.nodes ≡ some n
      → At qs root limit (suc k) v t
      → Leaves (At qs root limit k) (enter_child t.next v (with_child q n name def args t))
  unfolding enter_child
  enter_child-new q n name def args v t here at h =
      let v0 : Visiting qs v.qt_nodes (some q) t.root t.next t.nodes =
        subst (λ c. Visiting qs v.qt_nodes c t.root t.next t.nodes) here h.visiting in
      let lt = (v0.shape q n at).used in
      Leaves-load (At qs root limit k) t.next _ (with_child q n name def args t) (λ y found.
        let same : new_child t.next_id q name def args ≡ y = ground (
          arith,
          found,
          lt,
          nat_beq_iff q t.next,
          nat_beq_iff t.next t.next,
          lookup-insert q t.next (record n { children = n.children ++ t.next ∷ [] })
              (insert t.next (new_child t.next_id q name def args) t.nodes),
          lookup-insert t.next t.next (new_child t.next_id q name def args) t.nodes,
        ) in
        record {
          visiting =
              subst
                (λ (z : QtNode).
                  Visiting qs (v.qt_nodes ++ t.next ∷ []) (some t.next) t.root (t.next + 1) (
                    insert t.next (record z { ref_count = (z.ref_count + 1) % 4294967296 })
                      (with_child q n name def args t).nodes))
                same
                (grown-Visiting qs v.qt_nodes t.root t.next t.nodes q n t.next_id name def args v0
                  at);
          queries = h.queries;
          top = h.top;
          bound = omega (arith, h.bound);
          room = λ b.
              ground
                (arith, h.room b, count-append b v.qt_nodes (t.next ∷ []), nat_beq_iff t.next b);
        })

  -- The visit moves to another node, with less room.
  pub At-move :
      (c : Option ℕ) (v w : Visit) (t : QueryTree)
      → w.qnode ≡ c
      → w.qt_nodes ≡ v.qt_nodes
      → HasOpt t.nodes c
      → Anchored qs v.qt_nodes c t.root t.nodes
      → At qs root limit (suc k) v t
      → At qs root limit k w t
  At-move c v w t now same has anchor h = record {
    visiting = record {
      shape = h.visiting.shape;
      root_in = h.visiting.root_in;
      counts = rw same h.visiting.counts;
      entered = rw same h.visiting.entered;
      held = h.visiting.held;
      unique = h.visiting.unique;
      orderly = h.visiting.orderly;
      idle = h.visiting.idle;
      current = rw now has;
      anchored = rw (now, same) anchor;
    };
    queries = h.queries;
    top = h.top;
    bound = omega (arith, h.bound);
    room = λ b. ground (arith, h.room b, same);
  }

  pub leave_field_lem :
      (v : Visit) (t : QueryTree)
      → At qs root limit (suc k) v t
      → Leaves (At qs root limit k) (leave_field v t)
  unfolding leave_field
  leave_field_lem v t h = elim (Bool-cases (v.new_node_depth == 0)) [
    | inl e ↦ rw e (At-move v.qnode v v t refl refl h.visiting.current h.visiting.anchored h)
    | inr e ↦ rw e (elim (Option-cases v.qnode) [
      | inl gone ↦ rw (gone, ◌>>=◌) tt
      | inr (q, here) ↦
          rw (here, ◌>>=◌)
            (Leaves-load (At qs root limit k) q _ t (λ n at.
              At-move n.parent v _ t refl refl
                (Up-HasOpt t.nodes q n.parent (h.visiting.shape q n at).up)
                (subst (λ o. Anchored qs v.qt_nodes o t.root t.nodes) (ground (arith, at))
                  (Anchored-leave qs v.qt_nodes v.qnode t.root t.nodes q here h.visiting.anchored))
                h))
    ])
  ]
