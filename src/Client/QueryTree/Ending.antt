-- ===== src/Client/QueryTree/Ending.antt =====
-- The end of `Attach`: the query is given up, or its new nodes are transmitted and it is attached.

use rgraphql.Client.QueryTree.Linked.{Anchored-attach, Anchored-forget}
use rgraphql.Prelude.{
  ℕ, ◌+◌, ◌%◌, ◌≤◌, ◌<◌, Bool, Option, none, some, List, [], ◌∷◌, ◌≡◌, refl, sym, ap, ◌∙◌, arith,
  Map, lookup, insert, lookup-insert, insert-IsMap, nat_eq, Bool-cases, inl, inr, ◌==◌, subst,
}
use rgraphql.Varstore.{VariableStore}
use rgraphql.Qtree.Mutation.{TreeMutation}
use rgraphql.Resolver.Observable.{count}
use rgraphql.Client.QueryTree.{QueryTree, done, ◌>>=◌, ◌>>◌, pure, clear_pending, gc_sweep}
use rgraphql.Client.QueryTree.Resolve.{ClientError}
use rgraphql.Client.QueryTree.Attach.{Visit, add_mutations, transmit, release_all}
use rgraphql.Client.QueryTree.Rules.{Ensures-Leaves, Leaves, Leaves-bind, Leaves-map}
use rgraphql.Client.QueryTree.Shape.{AllHas}
use rgraphql.Client.QueryTree.Collect.{Collected, gc_sweep_lem}
use rgraphql.Client.QueryTree.Release.{Has-bare, Anchored-bare, AllHas-bare, release_all_lem}
use rgraphql.Client.QueryTree.Lowered.{Released}
use rgraphql.Client.QueryTree.Valid.{
  total_of, IsValid, Unswept, Collected-queries, Collected-IsValid, IsValid-Unswept,
}
use rgraphql.Client.QueryTree.Visiting.{Visiting}
use rgraphql.Client.QueryTree.Marked.{MarkedOnly, add_mutations_lem}

-- A sweep of a tree that is valid but for the flag of its root.
abbrev SweptValid : QueryTree → QueryTree → Type 0
SweptValid t t' = IsValid t' × (t'.attached_queries ≡ t.attached_queries) × (t'.next ≡ t.next)

sweep-Unswept :
    (f : ℕ) (t : QueryTree)
    → Unswept t
    → t.next ≤ f
    → Leaves (λ u t'. SweptValid t t') (gc_sweep f t)
sweep-Unswept f t h le =
    Leaves-map (λ u t'. Collected t t') (λ u t'. SweptValid t t') (gc_sweep f t)
      (Ensures-Leaves (λ u t'. Collected t t') (gc_sweep f t) (gc_sweep_lem f t h.shape h.root le))
      (λ u t' k. (
        Collected-IsValid t t' h k,
        Collected-queries t t' k,
        ap (λ (u : QueryTree). u.next) k.after.rest,
      ))

-- The store and the handler play no part.
Unswept-rest :
    (t : QueryTree) (vs : VariableStore) (h : Option (List TreeMutation))
    → Unswept t
    → Unswept (record t { store = vs; handler = h })
Unswept-rest t vs h v = record {
  shape = v.shape;
  root = v.root;
  counts = v.counts;
  held = v.held;
  unique = v.unique;
  orderly = v.orderly;
  anchored = v.anchored;
  fits = v.fits;
}

-- There is room in every count for the nodes `xs` beside those of the attached queries.
abbrev pub Fits : Map ℕ (List ℕ) → List ℕ → Type 0
Fits qs xs = (b : ℕ) → count b xs + total_of qs b < 4294967296

-- The nodes of a query that is given up.
module _ (v : Visit) (t t1 : QueryTree) (flagged : Bool)
    (h : Visiting t.attached_queries v.qt_nodes v.qnode t.root t.next t.nodes)
    (room : Fits t.attached_queries v.qt_nodes) (k : Released v.qt_nodes t flagged t1) where
  released-queries : t1.attached_queries ≡ t.attached_queries
  released-queries = ap (λ (u : QueryTree). u.attached_queries) k.rest

  released-Unswept : Unswept t1
  released-Unswept = record {
    shape = k.shape;
    root =
        rw (ap (λ (u : QueryTree). u.root) k.rest)
          (Has-bare t.nodes t1.nodes t.root (k.bares t.root) h.root_in);
    counts = rw released-queries (k.counts (total_of t.attached_queries) h.counts);
    held = λ p ys e.
        AllHas-bare t.nodes t1.nodes ys k.bares
          (h.held p ys (sym (ap (lookup p) released-queries) ∙ e));
    unique = rw released-queries h.unique;
    orderly = k.orderly;
    anchored =
        let same : t1.root ≡ t.root = ap (λ (u : QueryTree). u.root) k.rest in
        rw (released-queries, same)
          (Anchored-forget t.attached_queries v.qt_nodes v.qnode t.root t1.nodes (
            Anchored-bare t.attached_queries v.qt_nodes v.qnode t.root t.nodes t1.nodes k.bares
              h.anchored));
    fits = λ b. ground (arith, released-queries, room b);
  }

total_of-insert :
    (q b : ℕ) (xs : List ℕ) (m : Map ℕ (List ℕ))
    → lookup q m ≡ none
    → total_of (insert q xs m) b ≡ count b xs + total_of m b
unfolding insert lookup
total_of-insert q b xs [] h = refl
total_of-insert q b xs ((i, ys) ∷ m) h = ground (arith, total_of-insert q b xs m)

-- The query is attached to a tree that counts its nodes.
module _ (query : ℕ) (v : Visit) (t : QueryTree)
    (h : Visiting t.attached_queries v.qt_nodes v.qnode t.root t.next t.nodes)
    (room : Fits t.attached_queries v.qt_nodes) (new : lookup query t.attached_queries ≡ none) where
  abbrev with_query : QueryTree
  with_query = record t { attached_queries = insert query v.qt_nodes t.attached_queries }

  with_query-Unswept : Unswept with_query
  with_query-Unswept = record {
    shape = h.shape;
    root = h.root_in;
    counts = λ b n p.
        h.counts b n p
        ∙ ap (λ k. k % 4294967296)
            (sym (total_of-insert query b v.qt_nodes t.attached_queries new));
    held = λ p ys e. elim (Bool-cases (query == p)) [
      | inl g ↦
          subst (AllHas t.nodes)
            (ground (arith, lookup-insert query p v.qt_nodes t.attached_queries)) h.entered
      | inr g ↦ h.held p ys (ground (arith, lookup-insert query p v.qt_nodes t.attached_queries))
    ];
    unique = insert-IsMap query v.qt_nodes t.attached_queries h.unique;
    orderly = h.orderly;
    anchored =
        Anchored-attach t.attached_queries v.qt_nodes v.qnode t.root t.nodes query h.anchored;
    fits = λ b. ground (arith, room b, total_of-insert query b v.qt_nodes t.attached_queries new);
  }

-- What is left of the tree by the transmission.
abbrev TransmittedOnly : Map ℕ (List ℕ) → Visit → QueryTree → QueryTree → Type 0
TransmittedOnly qs v t t' =
    Visiting qs v.qt_nodes v.qnode t.root t.next t'.nodes
    × (t' ≡ record t { nodes = t'.nodes; handler = t'.handler })

only_handler :
    (t t1 : QueryTree) (h : Option (List TreeMutation))
    → t1 ≡ record t { nodes = t1.nodes }
    → record t1 { handler = h } ≡ record t { nodes = t1.nodes; handler = h }
only_handler t t1 h same = ap (λ (u : QueryTree). record u { handler = h }) same

transmit_lem :
    (qs : Map ℕ (List ℕ)) (f : ℕ) (v : Visit) (new : List ℕ) (t : QueryTree)
    → Visiting qs v.qt_nodes v.qnode t.root t.next t.nodes
    → t.next ≤ f
    → Leaves (λ u t'. TransmittedOnly qs v t t') (transmit f new t)
unfolding transmit
transmit_lem qs f v [] t h le = (h, refl)
transmit_lem qs f v (a ∷ new) t h le =
    Leaves-bind (λ muts t'. MarkedOnly qs v.qt_nodes v.qnode t t')
      (λ u t'. TransmittedOnly qs v t t') (λ u. add_mutations f (a ∷ new) u) _ t
      (add_mutations_lem qs v.qt_nodes v.qnode f (a ∷ new) t h le)
      (λ muts t1 (k, same). (k, only_handler t t1 _ same))

-- The tree is valid, with the queries `qs`.
abbrev pub ValidWith : Map ℕ (List ℕ) → QueryTree → Type 0
ValidWith qs t = IsValid t × (t.attached_queries ≡ qs)

sweep_last :
    {A : Type 0} (f : ℕ) (r : A) (t : QueryTree)
    → Unswept t
    → t.next ≤ f
    → Leaves (λ u t'. (u ≡ r) × ValidWith t.attached_queries t') ((gc_sweep f >> pure r) t)
sweep_last f r t h le =
    Leaves-bind (λ u t'. SweptValid t t') (λ u t'. (u ≡ r) × ValidWith t.attached_queries t')
      (λ u. gc_sweep f u) _ t (sweep-Unswept f t h le) (λ u t1 (v, same, _). (refl, (v, same)))

sweep_clear_sweep :
    {A : Type 0} (f : ℕ) (r : A) (t : QueryTree)
    → Unswept t
    → t.next ≤ f
    → Leaves
        (λ u t'. (u ≡ r) × ValidWith t.attached_queries t')
        ((gc_sweep f >> (clear_pending >> (gc_sweep f >> pure r))) t)
sweep_clear_sweep f r t h le =
    Leaves-bind (λ u t'. SweptValid t t') (λ u t'. (u ≡ r) × ValidWith t.attached_queries t')
      (λ u. gc_sweep f u) _ t (sweep-Unswept f t h le)
      (λ u t1 (v, same, more).
        let t2 : QueryTree = record t1 { store = record t1.store { handler = some [] } } in
        Leaves-map (λ u t'. (u ≡ r) × ValidWith t2.attached_queries t')
          (λ u t'. (u ≡ r) × ValidWith t.attached_queries t') ((gc_sweep f >> pure r) t2)
          (sweep_last f r t2 (Unswept-rest t1 t2.store t1.handler (IsValid-Unswept t1 v))
            (omega (arith, more, le)))
          (λ u t3 (e, (w, again)). (e, (w, again ∙ same))))

sweep_sweep :
    {A : Type 0} (f : ℕ) (r : A) (t : QueryTree)
    → Unswept t
    → t.next ≤ f
    → Leaves
        (λ u t'. (u ≡ r) × ValidWith t.attached_queries t')
        ((gc_sweep f >> (gc_sweep f >> pure r)) t)
sweep_sweep f r t h le =
    Leaves-bind (λ u t'. SweptValid t t') (λ u t'. (u ≡ r) × ValidWith t.attached_queries t')
      (λ u. gc_sweep f u) _ t (sweep-Unswept f t h le)
      (λ u t1 (v, same, more).
        Leaves-map (λ u t'. (u ≡ r) × ValidWith t1.attached_queries t')
          (λ u t'. (u ≡ r) × ValidWith t.attached_queries t') ((gc_sweep f >> pure r) t1)
          (sweep_last f r t1 (IsValid-Unswept t1 v) (omega (arith, more, le)))
          (λ u t3 (e, (w, again)). (e, (w, again ∙ same))))

-- The visit ends with an error.
pub refuse_lem :
    (f : ℕ) (e : ClientError) (v : Visit) (t : QueryTree)
    → Visiting t.attached_queries v.qt_nodes v.qnode t.root t.next t.nodes
    → Fits t.attached_queries v.qt_nodes
    → t.next ≤ f
    → Leaves
        (λ r t'. (r ≡ some e) × ValidWith t.attached_queries t')
        ((release_all f v.qt_nodes >>= λ flagged.
            gc_sweep f >> (clear_pending >> (gc_sweep f >> pure (some e))))
          t)
refuse_lem f e v t h room le =
    Leaves-bind (Released v.qt_nodes t) (λ r t'. (r ≡ some e) × ValidWith t.attached_queries t')
      (λ u. release_all f v.qt_nodes u) _ t
      (Ensures-Leaves (Released v.qt_nodes t) (release_all f v.qt_nodes t)
        (release_all_lem f v.qt_nodes t h.shape h.orderly h.entered le))
      (λ flagged t1 k.
        Leaves-map (λ r t'. (r ≡ some e) × ValidWith t1.attached_queries t')
          (λ r t'. (r ≡ some e) × ValidWith t.attached_queries t')
          ((gc_sweep f >> (clear_pending >> (gc_sweep f >> pure (some e)))) t1)
          (sweep_clear_sweep f (some e) t1 (released-Unswept v t t1 flagged h room k)
            (omega (arith, le, ap (λ (u : QueryTree). u.next) k.rest)))
          (λ r t2 (same, (valid, queries)).
            (same, (valid, queries ∙ released-queries v t t1 flagged h room k))))

-- The visit ends with no error.
pub accept_lem :
    (f query : ℕ) (v : Visit) (t : QueryTree)
    → Visiting t.attached_queries v.qt_nodes v.qnode t.root t.next t.nodes
    → Fits t.attached_queries v.qt_nodes
    → lookup query t.attached_queries ≡ none
    → t.next ≤ f
    → Leaves
        (λ (r : Option ClientError) t'.
          (r ≡ none) × ValidWith (insert query v.qt_nodes t.attached_queries) t')
        ((transmit f v.new_nodes
            >> (clear_pending
                >> ((λ t1. done tt (record t1 {
                  attached_queries = insert query v.qt_nodes t1.attached_queries;
                }))
                    >> (gc_sweep f >> (gc_sweep f >> pure none)))))
          t)
accept_lem f query v t h room new le =
    Leaves-bind (λ u t'. TransmittedOnly t.attached_queries v t t')
      (λ r t'. (r ≡ none) × ValidWith (insert query v.qt_nodes t.attached_queries) t')
      (λ u. transmit f v.new_nodes u) _ t (transmit_lem t.attached_queries f v v.new_nodes t h le)
      (λ u t1 (k, same).
        let t2 : QueryTree = record t {
          nodes = t1.nodes;
          handler = t1.handler;
          store = record t.store { handler = some [] };
          attached_queries = insert query v.qt_nodes t.attached_queries;
        } in
        rw same (
          sweep_sweep f none t2
            (Unswept-rest (with_query query v (record t { nodes = t1.nodes }) k room new) t2.store
              t1.handler (with_query-Unswept query v (record t { nodes = t1.nodes }) k room new))
            le))
