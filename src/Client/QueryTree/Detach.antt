-- ===== src/Client/QueryTree/Detach.antt =====
-- `Detach` on a valid tree, and what a valid tree holds.
use rgraphql.Client.QueryTree.Linked.{Anchored, Anchored-detach}
use rgraphql.Prelude.{
  ℕ, ◌+◌, ◌≤◌, ◌<◌, Bool, true, false, none, some, List, [], ◌∷◌, ◌≡◌, ◌≢◌, ◌⊎◌, refl, sym, ap, ◌∙◌,
  arith, Map, lookup, delete, lookup-delete, IsMap, delete-IsMap, nat_eq, nat_beq_iff, Bool-cases,
  Option-cases, inl, inr, ◌==◌, if◌then◌else◌,
}
use rgraphql.Resolver.Observable.{count}
use rgraphql.Client.QueryTree.{QueryTree, done, gc_sweep}
use rgraphql.Client.QueryTree.Attach.{release_all, detach}
use rgraphql.Client.QueryTree.Rules.{Ensures, Ensures-bind, Ensures-map, Ensures-returns}
use rgraphql.Client.QueryTree.Shape.{Nodes, Has, AllHas}
use rgraphql.Client.QueryTree.After.{ref_of, children_of, ref_of-core}
use rgraphql.Client.QueryTree.Collect.{
  Collected, gc_sweep_lem, Reach, here, step, InOrder-at, Reach-referenced,
}
use rgraphql.Client.QueryTree.Valid.{
  total_of, IsValid, Unswept, Collected-queries, Collected-IsValid,
}
use rgraphql.Client.QueryTree.Release.{
  Anchored-bare, children_of-bare, AllHas-bare, Has-bare, release_all_lem,
}
use rgraphql.Client.QueryTree.Lowered.{Counts, Released}

total_of-absent :
    (q b : ℕ) (m : Map ℕ (List ℕ)) → lookup q m ≡ none → total_of (delete q m) b ≡ total_of m b
unfolding lookup delete
total_of-absent q b [] h = refl
total_of-absent q b ((i, xs) ∷ m) h = ground (arith, total_of-absent q b m)

total_of-delete :
    (q b : ℕ) (xs : List ℕ) (m : Map ℕ (List ℕ))
    → IsMap m
    → lookup q m ≡ some xs
    → total_of m b ≡ count b xs + total_of (delete q m) b
unfolding lookup delete
total_of-delete q b xs [] u h = absurd (ground arith)
total_of-delete q b xs ((i, ys) ∷ m) u h =
    ground (arith, total_of-delete q b xs m, total_of-absent q b m, nat_beq_iff i q)

-- No child that is held is cut off.
abbrev pub KeepsHeld : Nodes → Nodes → Type 0
KeepsHeld m m' =
    (b c : ℕ) → ref_of m' c ≡ true → count c (children_of m' b) ≡ count c (children_of m b)

-- What detaching the query `q` promises.
pub record Detached (q : ℕ) (t t' : QueryTree) : Type 0 where
  pub valid : IsValid t'
  pub queries :
      (p : ℕ)
      → lookup p t'.attached_queries ≡ (if q == p then none else lookup p t.attached_queries)
  pub kept : KeepsHeld t.nodes t'.nodes

module _ (q : ℕ) (xs : List ℕ) (t t1 : QueryTree) (r : Bool) (v : IsValid t)
    (at : lookup q t.attached_queries ≡ some xs) (h : Released xs t r t1) where
  -- The tree without the query, before a sweep.
  abbrev without : QueryTree
  without = record t1 { attached_queries = delete q t1.attached_queries }

  same_queries : t1.attached_queries ≡ t.attached_queries
  same_queries = ap (λ (u : QueryTree). u.attached_queries) h.rest

  without-Counts : Counts (total_of without.attached_queries) without.nodes
  without-Counts = h.counts (total_of without.attached_queries) λ b n p.
      ground
        (arith, same_queries, v.counts b n, total_of-delete q b xs t.attached_queries v.unique at)

  without-held :
      (p : ℕ) (ys : List ℕ) → lookup p without.attached_queries ≡ some ys → AllHas without.nodes ys
  without-held p ys e =
      AllHas-bare t.nodes t1.nodes ys h.bares
        (v.held p ys (ground (arith, same_queries, lookup-delete q p t.attached_queries)))

  without-queries :
      (p : ℕ)
      → lookup p without.attached_queries ≡ (if q == p then none else lookup p t.attached_queries)
  without-queries p = ground (arith, same_queries, lookup-delete q p t.attached_queries)

  without-root : Has without.nodes without.root
  without-root =
      let same : t1.root ≡ t.root = ap (λ (u : QueryTree). u.root) h.rest in
      rw same (Has-bare t.nodes t1.nodes t.root (h.bares t.root) v.root)

  without-Anchored : Anchored without.attached_queries [] none without.root without.nodes
  without-Anchored =
      let same : t1.root ≡ t.root = ap (λ (u : QueryTree). u.root) h.rest in
      rw (same_queries, same)
        (Anchored-detach t.attached_queries t.root q t1.nodes
          (Anchored-bare t.attached_queries [] none t.root t.nodes t1.nodes h.bares v.anchored))

  without-fits : (b : ℕ) → total_of without.attached_queries b < 4294967296
  without-fits b =
      ground (arith, same_queries, v.fits b, total_of-delete q b xs t.attached_queries v.unique at)

  without-Unswept : Unswept without
  without-Unswept = record {
    shape = h.shape;
    root = without-root;
    counts = without-Counts;
    held = without-held;
    unique = rw same_queries (delete-IsMap q t.attached_queries v.unique);
    orderly = h.orderly;
    anchored = without-Anchored;
    fits = without-fits;
  }

  -- Nothing was flagged, and nothing is swept.
  quiet-Detached : r ≡ false → Detached q t without
  quiet-Detached e = record {
    valid =
        let same : t1.root ≡ t.root = ap (λ (u : QueryTree). u.root) h.rest in
        record {
          shape = h.shape;
          root = without-root;
          counts = without-Counts;
          held = without-held;
          unique = without-Unswept.unique;
          orderly = h.orderly;
          anchored = without-Anchored;
          fits = without-fits;
          idle = rw same (h.quiet e t.root ∙ v.idle);
        };
    queries = without-queries;
    kept = λ b c held. ap (count c) (children_of-bare t.nodes t1.nodes b (h.bares b));
  }

  -- After the sweep.
  swept-Detached : (t' : QueryTree) → Collected without t' → Detached q t t'
  swept-Detached t' k = record {
    valid = Collected-IsValid without t' without-Unswept k;
    queries = λ p. ap (lookup p) (Collected-queries without t' k) ∙ without-queries p;
    kept = λ b c held.
        k.after.kids b c (sym (ref_of-core without.nodes t'.nodes c (k.after.cores c)) ∙ held)
        ∙ ap (count c) (children_of-bare t.nodes t1.nodes b (h.bares b));
  }

detach_lem :
    (f q : ℕ) (t : QueryTree)
    → IsValid t
    → t.next ≤ f
    → Ensures (λ u t'. Detached q t t') (detach f q t)
unfolding detach
detach_lem f q t v le = elim (Option-cases (lookup q t.attached_queries)) [
  | inl e ↦
      rw (e, Ensures)
        (record {
          valid = v;
          queries = λ p. ground (arith, nat_beq_iff q p);
          kept = λ b c held. refl;
        })
  | inr (xs, e) ↦
      rw (e, Ensures)
        (Ensures-bind (Released xs t) (λ u t'. Detached q t t') (λ u. release_all f xs u) _ t
          (release_all_lem f xs t v.shape v.orderly (v.held q xs e) le)
          (λ r t1 h. elim (Bool-cases r) [
            | inl g ↦ rw g (
                Ensures-map (λ u t'. Collected (without q xs t t1 r v e h) t')
                  (λ u t'. Detached q t t') (gc_sweep f (without q xs t t1 r v e h))
                  (gc_sweep_lem f (without q xs t t1 r v e h) h.shape
                    (without-root q xs t t1 r v e h)
                    (omega (arith, le, ap (λ (u : QueryTree). u.next) h.rest)))
                  (λ u t' k. swept-Detached q xs t t1 r v e h t' k))
            | inr g ↦ rw g (quiet-Detached q xs t t1 r v e h g)
          ]))
]

-- `Detach` of any query from a valid tree returns, given fuel for all the addresses: the tree is
-- valid again, that query and no other is gone, and no child that is still held is cut off.
pub detach-Detached :
    (f q : ℕ) (t : QueryTree)
    → IsValid t
    → t.next ≤ f
    → (t' : QueryTree) × (detach f q t ≡ done tt t') × Detached q t t'
detach-Detached f q t v le =
    let (u, t', e, h) =
      Ensures-returns (λ u t'. Detached q t t') (detach f q t) (detach_lem f q t v le) in
    (t', e, h)

-- On a valid tree every node but the root that can be reached from it is held by an attached query.
pub Reach-held :
    (t : QueryTree) (c : ℕ)
    → IsValid t
    → Reach t.nodes t.root c
    → (c ≡ t.root) ⊎ (total_of t.attached_queries c ≢ 0)
Reach-held t c v here = inl refl
Reach-held t c v (step b _ r k) =
    let (quiet, _) = Reach-referenced t.nodes t.root b v.orderly v.idle r in
    elim (Option-cases (lookup b t.nodes)) [
      | inl e ↦ absurd (k (ground (arith)))
      | inr (n, at) ↦
          let (up, good) =
            InOrder-at t.nodes b c n.gc_next n.children (v.orderly b n (omega arith) at)
              (ground (arith)) in
          elim good [
            | inl g ↦ absurd (ground (arith))
            | inr (counted, calm) ↦ elim (Option-cases (lookup c t.nodes)) [
              | inl gone ↦ absurd (ground (arith))
              | inr (y, there) ↦ inr (λ zero. ground (arith, v.counts c y there))
            ]
          ]
    ]
