-- ===== src/Client/QueryTree/Valid.antt =====
-- What makes the client's query tree valid, and what a sweep makes valid.
use rgraphql.Prelude.{
  ℕ, ◌+◌, false, some, List, [], ◌∷◌, ◌≡◌, ◌≢◌, ◌<◌, ◌≤◌, true, none, refl, subst, Bool-cases,
  nat_beq_iff, ◌==◌, sym, ap, ◌∙◌, arith, Map, lookup, IsMap, nat_eq, Option-cases, inl, inr,
}
use rgraphql.Resolver.Observable.{count}
use rgraphql.Client.QueryTree.{QueryTree}
use rgraphql.Client.QueryTree.Shape.{Nodes, Has, AllHas, Shape}
use rgraphql.Client.QueryTree.After.{
  flag_of, ref_of, core_at, Orderly, AllHas-core, Has-core, parent_of-core,
}
use rgraphql.Client.QueryTree.Linked.{Anchored, Anchored-keep}
use rgraphql.Client.QueryTree.Collect.{Collected}
use rgraphql.Client.QueryTree.Lowered.{Counts}

-- How often the attached queries hold a node.
abbrev pub total_of : Map ℕ (List ℕ) → ℕ → ℕ
total_of [] b = 0
total_of ((q, xs) ∷ m) b = count b xs + total_of m b

-- The count of every node is the number of times that the attached queries hold it, which fits; what
-- they hold is on the heap, and linked to the root; the nodes are in order, and the root is not flagged.
pub record IsValid (t : QueryTree) : Type 0 where
  pub shape : Shape t.next t.nodes
  pub root : Has t.nodes t.root
  pub counts : Counts (total_of t.attached_queries) t.nodes
  pub held : (q : ℕ) (xs : List ℕ) → lookup q t.attached_queries ≡ some xs → AllHas t.nodes xs
  pub unique : IsMap t.attached_queries
  pub orderly : Orderly 0 t.nodes
  pub anchored : Anchored t.attached_queries [] none t.root t.nodes
  pub fits : (b : ℕ) → total_of t.attached_queries b < 4294967296
  pub idle : flag_of t.nodes t.root ≡ false

-- A tree that is valid but for the flag of its root.
pub record Unswept (t : QueryTree) : Type 0 where
  pub shape : Shape t.next t.nodes
  pub root : Has t.nodes t.root
  pub counts : Counts (total_of t.attached_queries) t.nodes
  pub held : (q : ℕ) (xs : List ℕ) → lookup q t.attached_queries ≡ some xs → AllHas t.nodes xs
  pub unique : IsMap t.attached_queries
  pub orderly : Orderly 0 t.nodes
  pub anchored : Anchored t.attached_queries [] none t.root t.nodes
  pub fits : (b : ℕ) → total_of t.attached_queries b < 4294967296

Counts-core :
    (m m' : Nodes) (total : ℕ → ℕ)
    → ((b : ℕ) → core_at m' b ≡ core_at m b)
    → Counts total m
    → Counts total m'
Counts-core m m' total same h b n p = elim (Option-cases (lookup b m)) [
  | inl e ↦ absurd (ground (arith, same b))
  | inr (y, e) ↦ ground (arith, same b, h b y)
]

-- A sweep leaves the attached queries.
pub Collected-queries :
    (t t' : QueryTree) → Collected t t' → t'.attached_queries ≡ t.attached_queries
Collected-queries t t' k = ap (λ (u : QueryTree). u.attached_queries) k.after.rest

AllHas-count : (m : Nodes) (c : ℕ) (xs : List ℕ) → AllHas m xs → count c xs ≢ 0 → Has m c
AllHas-count m c [] h k = absurd (k refl)
AllHas-count m c (x ∷ xs) h k = elim (Bool-cases (x == c)) [
  | inl e ↦ subst (Has m) ((nat_beq_iff x c).0 e) h.0
  | inr e ↦ AllHas-count m c xs h.1 (λ zero. k (ground (arith, zero)))
]

count-le-total_of :
    (q b : ℕ) (xs : List ℕ) (m : Map ℕ (List ℕ)) → lookup q m ≡ some xs → count b xs ≤ total_of m b
unfolding lookup
count-le-total_of q b xs [] e = absurd (ground (arith))
count-le-total_of q b xs ((i, ys) ∷ m) e =
    ground (arith, count-le-total_of q b xs m, nat_beq_iff i q)

-- What a query holds is referenced.
pub held_referenced :
    (t : QueryTree) (q c : ℕ) (xs : List ℕ)
    → Unswept t
    → lookup q t.attached_queries ≡ some xs
    → count c xs ≢ 0
    → ref_of t.nodes c ≡ true
held_referenced t q c xs h at held =
    let (n, there) = AllHas-count t.nodes c xs (h.held q xs at) held in
    let least = count-le-total_of q c xs t.attached_queries at in
    ground (arith, there, h.counts c n, h.fits c, least)

-- A sweep leaves the links of what the queries hold.
Collected-Anchored :
    (t t' : QueryTree)
    → Unswept t
    → Collected t t'
    → Anchored t.attached_queries [] none t.root t'.nodes
Collected-Anchored t t' h k =
    Anchored-keep t.attached_queries [] none t.root t.nodes (λ c. ref_of t.nodes c ≡ true) t'.nodes
      (λ c held. absurd (held refl)) (λ p ys c e held. held_referenced t p c ys h e held)
      (parent_of-core t.nodes t'.nodes t.root (k.after.cores t.root) ∙ h.anchored.crown)
      (λ c p used up kid. (
        parent_of-core t.nodes t'.nodes c (k.after.cores c) ∙ up,
        λ zero. kid (sym (k.after.kids p c used) ∙ zero),
      ))
      h.anchored

-- A sweep makes the tree valid.
pub Collected-IsValid : (t t' : QueryTree) → Unswept t → Collected t t' → IsValid t'
Collected-IsValid t t' h k =
    let queries : t'.attached_queries ≡ t.attached_queries = Collected-queries t t' k in
    let top : t'.root ≡ t.root = ap (λ (u : QueryTree). u.root) k.after.rest in
    record {
      shape = k.after.shape;
      root = rw top (Has-core t.nodes t'.nodes t.root (k.after.cores t.root) h.root);
      counts =
          rw queries
            (Counts-core t.nodes t'.nodes (total_of t.attached_queries) k.after.cores h.counts);
      held = λ p ys e.
          AllHas-core t.nodes t'.nodes ys k.after.cores
            (h.held p ys (sym (ap (lookup p) queries) ∙ e));
      unique = rw queries h.unique;
      orderly = k.after.orderly 0 (omega arith) h.orderly;
      idle = rw top k.unflagged;
      anchored = rw (queries, top) (Collected-Anchored t t' h k);
      fits = rw queries h.fits;
    }

pub IsValid-Unswept : (t : QueryTree) → IsValid t → Unswept t
IsValid-Unswept t v = record {
  shape = v.shape;
  root = v.root;
  counts = v.counts;
  held = v.held;
  unique = v.unique;
  orderly = v.orderly;
  anchored = v.anchored;
  fits = v.fits;
}
