-- ===== src/Client/QueryTree/Release.antt =====
-- Giving up the references of a query: the counts, and the order of the tree.

use rgraphql.Client.QueryTree.Linked.{Anchored, Anchored-keep}
use rgraphql.Client.QueryTree.After.{parent_of, children_of}
use rgraphql.Prelude.{
  ℕ, ◌+◌, ◌≤◌, Bool, some, List, [], ◌∷◌, ◌≡◌, ◌⊎◌, refl, ap, ◌∙◌, arith, lookup, nat_eq,
  Bool-cases, Option-cases, inl, inr, ◌==◌, Map, Option, sym,
}
use rgraphql.Resolver.Observable.{count}
use rgraphql.Client.QueryTree.{QueryTree, flag_gc_next}
use rgraphql.Client.QueryTree.Attach.{release, release_all, or_else}
use rgraphql.Client.QueryTree.Rules.{Ensures, Ensures-bind, Ensures-load}
use rgraphql.Client.QueryTree.Shape.{Nodes, Has, AllHas, Shape}
use rgraphql.Client.QueryTree.After.{Orderly}
use rgraphql.Client.QueryTree.Flag.{OrderlyBut-mono, FlagsOnly, calm_at, flag_gc_next_lem}
use rgraphql.Client.QueryTree.Lowered.{
  Counts, Released, bare_at, fewer, lowered, lowered-Counts, lowered-Orderly, lowered-OrderlyBut,
  lowered-Shape, lowered-at, lowered-bares, lowered-flags,
}

Counts-calm :
    (m m' : Nodes) (total : ℕ → ℕ)
    → ((b : ℕ) → calm_at m' b ≡ calm_at m b)
    → Counts total m
    → Counts total m'
Counts-calm m m' total same h b n p = elim (Option-cases (lookup b m)) [
  | inl e ↦ absurd (ground (arith, same b))
  | inr (y, e) ↦ ground (arith, same b, h b y)
]

bare-calm : (m m' : Nodes) (b : ℕ) → calm_at m' b ≡ calm_at m b → bare_at m' b ≡ bare_at m b
bare-calm m m' b same = ground (arith, Option-cases (lookup b m), Option-cases (lookup b m'))

-- Giving up one node returns, given fuel for its address.
pub release_lem :
    (f a : ℕ) (t : QueryTree)
    → Shape t.next t.nodes
    → Orderly 0 t.nodes
    → Has t.nodes a
    → t.next ≤ f
    → Ensures (Released (a ∷ []) t) (release f a t)
unfolding release
release_lem f a t s o (n, at) le =
    Ensures-load (Released (a ∷ []) t) a n _ t at
      (elim (Bool-cases ((fewer a t n at s).ref_count == 0)) [
        | inr e ↦ rw e (record {
          shape = lowered-Shape a t n at s;
          orderly = lowered-Orderly a t n at s e o;
          counts = lowered-Counts a t n at s;
          bares = lowered-bares a t n at s;
          quiet = λ h. lowered-flags a t n at s;
          rest = refl;
        })
        | inl e ↦ rw e (
            Ensures-bind (λ u t'. FlagsOnly (lowered a t n at s) t' × Orderly 0 t'.nodes)
              (Released (a ∷ []) t) (λ u. flag_gc_next f a u) _ (lowered a t n at s)
              (flag_gc_next_lem f a (lowered a t n at s) (fewer a t n at s) (lowered-at a t n at s)
                (lowered-Shape a t n at s) (omega (arith, le, (s a n at).used))
                (OrderlyBut-mono (λ b. n.parent ≡ some b) (λ b. (b ≡ a) ⊎ (n.parent ≡ some b))
                  (lowered a t n at s).nodes (λ b h. inr h) (lowered-OrderlyBut a t n at s o)))
              (λ u t' (only, ordered). record {
                shape = only.shape;
                orderly = ordered;
                counts = λ total h.
                    Counts-calm (lowered a t n at s).nodes t'.nodes total only.calms
                      (lowered-Counts a t n at s total h);
                bares = λ b.
                    bare-calm (lowered a t n at s).nodes t'.nodes b (only.calms b)
                    ∙ lowered-bares a t n at s b;
                quiet = λ h. absurd (ground (arith));
                rest = only.rest;
              }))
      ])

pub children_of-bare :
    (m m' : Nodes) (b : ℕ) → bare_at m' b ≡ bare_at m b → children_of m' b ≡ children_of m b
children_of-bare m m' b same = ground (arith, Option-cases (lookup b m), Option-cases (lookup b m'))

parent_of-bare :
    (m m' : Nodes) (b : ℕ) → bare_at m' b ≡ bare_at m b → parent_of m' b ≡ parent_of m b
parent_of-bare m m' b same = ground (arith, Option-cases (lookup b m), Option-cases (lookup b m'))

-- Counts and flags play no part in the links.
pub Anchored-bare :
    (qs : Map ℕ (List ℕ)) (xs : List ℕ) (q : Option ℕ) (root : ℕ) (m m' : Nodes)
    → ((b : ℕ) → bare_at m' b ≡ bare_at m b)
    → Anchored qs xs q root m
    → Anchored qs xs q root m'
Anchored-bare qs xs q root m m' same h =
    Anchored-keep qs xs q root m (λ c. Unit) m' (λ c held. tt) (λ p ys c e held. tt)
      (parent_of-bare m m' root (same root) ∙ h.crown)
      (λ c p any up kid. (
        parent_of-bare m m' c (same c) ∙ up,
        λ zero. kid (ap (count c) (sym (children_of-bare m m' p (same p))) ∙ zero),
      ))
      h

pub Has-bare : (m m' : Nodes) (b : ℕ) → bare_at m' b ≡ bare_at m b → Has m b → Has m' b
Has-bare m m' b same (n, p) = elim (Option-cases (lookup b m')) [
  | inl e ↦ absurd (ground arith)
  | inr found ↦ found
]

pub AllHas-bare :
    (m m' : Nodes) (xs : List ℕ)
    → ((b : ℕ) → bare_at m' b ≡ bare_at m b)
    → AllHas m xs
    → AllHas m' xs
AllHas-bare m m' [] same h = tt
AllHas-bare m m' (x ∷ xs) same h = (Has-bare m m' x (same x) h.0, AllHas-bare m m' xs same h.1)

Counts-cons :
    (m : Nodes) (a : ℕ) (xs : List ℕ) (total : ℕ → ℕ)
    → Counts (λ b. count b (a ∷ xs) + total b) m
    → Counts (λ b. count b (a ∷ []) + (count b xs + total b)) m
Counts-cons m a xs total h b n p = ground (arith, h b n)

Released-cons :
    (a : ℕ) (xs : List ℕ) (one rest : Bool) (t t1 t2 : QueryTree)
    → Released (a ∷ []) t one t1
    → Released xs t1 rest t2
    → Released (a ∷ xs) t (or_else one rest) t2
Released-cons a xs one rest t t1 t2 h k = record {
  shape = k.shape;
  orderly = k.orderly;
  counts = λ total c.
      k.counts total (h.counts (λ b. count b xs + total b) (Counts-cons t.nodes a xs total c));
  bares = λ b. k.bares b ∙ h.bares b;
  quiet = λ e b. k.quiet (ground (arith)) b ∙ h.quiet (ground (arith)) b;
  rest = k.rest ∙ ap (λ (u : QueryTree). record u { nodes = t2.nodes }) h.rest;
}

-- Giving up all the nodes of a query returns; with none of them flagged, no flag has changed.
pub release_all_lem :
    (f : ℕ) (xs : List ℕ) (t : QueryTree)
    → Shape t.next t.nodes
    → Orderly 0 t.nodes
    → AllHas t.nodes xs
    → t.next ≤ f
    → Ensures (Released xs t) (release_all f xs t)
unfolding release_all
release_all_lem f [] t s o h le = record {
  shape = s;
  orderly = o;
  counts = λ total c b n p. ground (arith, c b n);
  bares = λ b. refl;
  quiet = λ e b. refl;
  rest = refl;
}
release_all_lem f (a ∷ xs) t s o h le =
    Ensures-bind (Released (a ∷ []) t) (Released (a ∷ xs) t) (λ u. release f a u) _ t
      (release_lem f a t s o h.0 le)
      (λ one t1 first.
        let same : t1.next ≡ t.next = ap (λ (u : QueryTree). u.next) first.rest in
        Ensures-bind (Released xs t1) (Released (a ∷ xs) t) (λ u. release_all f xs u) _ t1
          (release_all_lem f xs t1 first.shape first.orderly
            (AllHas-bare t.nodes t1.nodes xs first.bares h.1) (omega (arith, same, le)))
          (λ rest t2 more. Released-cons a xs one rest t t1 t2 first more))
