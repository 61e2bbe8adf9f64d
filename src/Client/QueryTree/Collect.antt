-- ===== src/Client/QueryTree/Collect.antt =====
-- `gcSweep` of the whole tree: what can be reached from the root afterwards.
use rgraphql.Prelude.{
  ℕ, ◌≤◌, Bool, true, false, some, List, [], ◌∷◌, ◌≡◌, ◌≢◌, ◌⊎◌, refl, arith, lookup, nat_eq,
  nat_beq_iff, Bool-cases, Option-cases, inl, inr, ◌==◌,
}
use rgraphql.Resolver.Observable.{count}
use rgraphql.Client.QueryTree.{QueryTree, done, ◌>>=◌, send, sweep, deletions, gc_sweep}
use rgraphql.Client.QueryTree.Rules.{Ensures, Ensures-bind, Ensures-load}
use rgraphql.Client.QueryTree.Shape.{Nodes, Has, AllHas, Shape}
use rgraphql.Client.QueryTree.After.{
  ref_of, flag_of, parent_of, children_of, InOrder, Orderly, After,
}
use rgraphql.Client.QueryTree.Sweep.{SweptAt}
use rgraphql.Client.QueryTree.SweepNode.{sweep_lem}

deletions_lem :
    (xs : List ℕ) (t : QueryTree) → AllHas t.nodes xs → Ensures (λ muts t'. t' ≡ t) (deletions xs t)
unfolding deletions
deletions_lem [] t h = refl
deletions_lem (a ∷ xs) t ((n, at), h) =
    Ensures-load (λ muts t'. t' ≡ t) a n _ t at
      (Ensures-bind (λ muts t'. t' ≡ t) (λ muts t'. t' ≡ t) (λ u. deletions xs u) _ t
        (deletions_lem xs t h) (λ muts t' e. e))

-- What a sweep from the root leaves.
pub record Collected (t t' : QueryTree) : Type 0 where
  pub after : After t.root t t'
  pub unflagged : flag_of t'.nodes t.root ≡ false

-- The sweep returns, given fuel for all the addresses.
pub gc_sweep_lem :
    (f : ℕ) (t : QueryTree)
    → Shape t.next t.nodes
    → Has t.nodes t.root
    → t.next ≤ f
    → Ensures (λ u t'. Collected t t') (gc_sweep f t)
unfolding gc_sweep
gc_sweep_lem f t s root le =
    Ensures-bind (SweptAt t.root t) (λ u t'. Collected t t') (λ u. sweep f t.root u) _ t
      (sweep_lem f t.root t s root (omega (arith, le)))
      (λ r t1 h. finish r.1 t1 h.after h.unflagged h.listed)
  where
    finish :
        (purged : List ℕ) (t1 : QueryTree)
        → After t.root t t1
        → flag_of t1.nodes t.root ≡ false
        → AllHas t1.nodes purged
        → Ensures
            (λ u t'. Collected t t')
            (elim purged [
              | [] ↦ done tt t1
              | a ∷ more ↦
                  (deletions (a ∷ more) >>= λ muts.
                  send (record { query_id = 0; node_mutation = muts; variables = [] }))
                    t1
            ])
    finish [] t1 h off listed = record { after = h; unflagged = off }
    finish (a ∷ more) t1 h off listed =
        Ensures-bind (λ muts t'. t' ≡ t1) (λ u t'. Collected t t') (λ u. deletions (a ∷ more) u) _
          t1 (deletions_lem (a ∷ more) t1 listed)
          (λ muts t' e. rw e (record {
            after = record {
              shape = h.shape;
              cores = h.cores;
              flags = h.flags;
              below = h.below;
              kids = h.kids;
              orderly = h.orderly;
              rest = ground (arith, h.rest);
            };
            unflagged = off;
          }))

-- The nodes that are reached from the root through children.
pub data Reach (m : Nodes) (root : ℕ) : ℕ → Type 0 where
  here : Reach m root root
  step : (b c : ℕ) → Reach m root b → count c (children_of m b) ≢ 0 → Reach m root c

pub InOrder-at :
    (m : Nodes) (b c : ℕ) (g : Bool) (cs : List ℕ)
    → InOrder m b g cs
    → count c cs ≢ 0
    → (parent_of m c ≡ some b) × ((g ≡ true) ⊎ ((ref_of m c ≡ true) × (flag_of m c ≡ false)))
InOrder-at m b c g [] h k = absurd (k refl)
InOrder-at m b c g (x ∷ cs) h k = elim (Bool-cases (x == c)) [
  | inl e ↦ let same : x ≡ c = (nat_beq_iff x c).0 e in rw (← same) (h.0, h.1)
  | inr e ↦ InOrder-at m b c g cs h.2 (ground (arith))
]

-- Where the root is not flagged and the nodes are in order, everything below the root that can be
-- reached is referenced.
pub Reach-referenced :
    (m : Nodes) (root c : ℕ)
    → Orderly 0 m
    → flag_of m root ≡ false
    → Reach m root c
    → (flag_of m c ≡ false) × ((c ≡ root) ⊎ (ref_of m c ≡ true))
Reach-referenced m root c o off here = (off, inl refl)
Reach-referenced m root c o off (step b _ r k) =
    let (quiet, _) = Reach-referenced m root b o off r in
    elim (Option-cases (lookup b m)) [
      | inl e ↦ absurd (k (ground (arith)))
      | inr (n, at) ↦
          elim (InOrder-at m b c n.gc_next n.children (o b n (omega arith) at) (ground (arith))).1 [
            | inl g ↦ absurd (ground (arith))
            | inr (good, calm) ↦ (calm, inr good)
          ]
    ]
