-- ===== src/Client/QueryTree/Sweep.antt =====
-- The loop of `gcSweep` over the children of one node.

use rgraphql.Prelude.{
  ℕ, zero, suc, ◌<◌, ◌≤◌, Bool, true, false, some, List, [], ◌∷◌, ◌≡◌, refl, sym, ap, ◌∙◌, arith,
  nat_eq, nat_beq_iff, inr, length, if◌then◌else◌,
}
use rgraphql.Resolver.Observable.{count, last_first, length-last_first, count-last_first}
use rgraphql.Client.QueryTree.{QueryTree, M, Swept, with_child, left_over, sweep_children}
use rgraphql.Client.QueryTree.Rules.{Ensures, Ensures-bind, Ensures-load}
use rgraphql.Client.QueryTree.Shape.{Nodes, Has, AllHas, AllHas-append, Kids, Shape}
use rgraphql.Client.QueryTree.After.{
  ref_of, flag_of, parent_of, core_at, InOrder, After, After-refl, After-trans, After-lower,
  ref_of-core, parent_of-core, Has-core, AllHas-core, Kids-core,
}

-- Children that point back to their parent.
abbrev pub Linked : Nodes → ℕ → List ℕ → Type 0
Linked m a [] = Unit
Linked m a (c ∷ cs) = (parent_of m c ≡ some a) × Linked m a cs

pub InOrder-Linked : (m : Nodes) (b : ℕ) (g : Bool) (cs : List ℕ) → InOrder m b g cs → Linked m b cs
InOrder-Linked m b g [] h = tt
InOrder-Linked m b g (c ∷ cs) h = (h.0, InOrder-Linked m b g cs h.2)

Linked-core :
    (m m' : Nodes) (a : ℕ) (cs : List ℕ)
    → ((b : ℕ) → core_at m' b ≡ core_at m b)
    → Linked m a cs
    → Linked m' a cs
Linked-core m m' a [] same h = tt
Linked-core m m' a (c ∷ cs) same h =
    (parent_of-core m m' c (same c) ∙ h.0, Linked-core m m' a cs same h.1)

-- A property of all elements holds of them in any order.
Kids-last_first : (m : Nodes) (a : ℕ) (cs : List ℕ) → Kids m a cs → Kids m a (last_first cs)
unfolding last_first
Kids-last_first m a [] h = tt
Kids-last_first m a (c ∷ cs) h = swap (last_first cs) (Kids-last_first m a cs h.2)
  where
    swap : (ds : List ℕ) → Kids m a ds → Kids m a (elim ds [ [] ↦ c ∷ [] | y ∷ ys ↦ y ∷ c ∷ ys ])
    swap [] k = (h.0, h.1, k)
    swap (y ∷ ys) k = (k.0, k.1, (h.0, h.1, k.2))

Linked-last_first : (m : Nodes) (a : ℕ) (cs : List ℕ) → Linked m a cs → Linked m a (last_first cs)
unfolding last_first
Linked-last_first m a [] h = tt
Linked-last_first m a (c ∷ cs) h = swap (last_first cs) (Linked-last_first m a cs h.1)
  where
    swap :
        (ds : List ℕ) → Linked m a ds → Linked m a (elim ds [ [] ↦ c ∷ [] | y ∷ ys ↦ y ∷ c ∷ ys ])
    swap [] k = (h.0, k)
    swap (y ∷ ys) k = (k.0, (h.0, k.1))

-- What is left over has the same elements.
module _ (m : Nodes) (a : ℕ) (rest : List ℕ) where
  Kids-left_over : (r : Bool) → Kids m a rest → Kids m a (left_over r rest)
  Kids-left_over true h = h
  Kids-left_over false h = Kids-last_first m a rest h

  Linked-left_over : (r : Bool) → Linked m a rest → Linked m a (left_over r rest)
  Linked-left_over true h = h
  Linked-left_over false h = Linked-last_first m a rest h

  length-left_over : (r : Bool) → length (left_over r rest) ≡ length rest
  length-left_over true = refl
  length-left_over false = length-last_first rest

  count-left_over : (r : Bool) (k : ℕ) → count k (left_over r rest) ≡ count k rest
  count-left_over true k = refl
  count-left_over false k = count-last_first k rest

-- What the sweep of the child `c` promises: the result says whether `c` is referenced, and `c` is no
-- longer flagged.
pub record SweptAt (c : ℕ) (t : QueryTree) (r : Bool × List ℕ) (t' : QueryTree) : Type 0 where
  pub after : After c t t'
  pub answer : r.0 ≡ ref_of t.nodes c
  pub unflagged : flag_of t'.nodes c ≡ false
  pub listed : AllHas t'.nodes r.1

-- The promise of the recursive call, on the addresses from `a` on.
abbrev pub Calls : ℕ → ℕ → (ℕ → M (Bool × List ℕ)) → Type 0
Calls a next rec =
    (c : ℕ) (t : QueryTree)
    → a < c
    → t.next ≡ next
    → Shape t.next t.nodes
    → Has t.nodes c
    → Ensures (SweptAt c t) (rec c t)

-- What the loop over the children of `a` promises: the children that are kept are those that are
-- referenced, each as often as before.
pub record SweptAll (a : ℕ) (cs : List ℕ) (t : QueryTree) (s : Swept) (t' : QueryTree)
    : Type 0 where
  pub after : After (suc a) t t'
  pub kids : Kids t'.nodes a s.kept
  pub counts : (k : ℕ) → count k s.kept ≡ (if ref_of t.nodes k then count k cs else 0)
  pub ordered : Linked t.nodes a cs → InOrder t'.nodes a false s.kept
  pub listed : AllHas t'.nodes s.purged
  pub gone : AllHas t'.nodes s.dropped

-- One child in front of the rest.
module _ (a c : ℕ) (rest : List ℕ) (r : Bool × List ℕ) (x : Bool) (t t1 t2 : QueryTree) (s : Swept)
    (first : SweptAt c t r t1) (h : SweptAll a (left_over r.0 rest) t1 s t2) where
  parts-Kids : (b : Bool) → a < c → Has t.nodes c → Kids t2.nodes a (with_child b x c r.1 s).kept
  parts-Kids true lt has =
      (lt, Has-core t.nodes t2.nodes c (h.after.cores c ∙ first.after.cores c) has, h.kids)
  parts-Kids false lt has = h.kids

  parts-counts :
      (k : ℕ)
      → count k (with_child r.0 x c r.1 s).kept
        ≡ (if ref_of t.nodes k then count k (c ∷ rest) else 0)
  parts-counts k = ground (
    arith,
    h.counts k,
    count-left_over t.nodes a rest r.0 k,
    ref_of-core t.nodes t1.nodes k (first.after.cores k),
    first.answer,
    nat_beq_iff c k,
  )

  parts-ordered :
      (b : Bool)
      → r.0 ≡ b
      → Linked t.nodes a (c ∷ rest)
      → InOrder t2.nodes a false (with_child b x c r.1 s).kept
  parts-ordered b e l = by_answer b e (h.ordered left)
    where
      left : Linked t1.nodes a (left_over r.0 rest)
      left =
          Linked-left_over t1.nodes a rest r.0
            (Linked-core t.nodes t1.nodes a rest first.after.cores l.1)

      by_answer :
          (b : Bool)
          → r.0 ≡ b
          → InOrder t2.nodes a false s.kept
          → InOrder t2.nodes a false (with_child b x c r.1 s).kept
      by_answer false e o = o
      by_answer true e o = (
        parent_of-core t1.nodes t2.nodes c (h.after.cores c)
            ∙ parent_of-core t.nodes t1.nodes c (first.after.cores c)
            ∙ l.0,
        inr (
          ref_of-core t1.nodes t2.nodes c (h.after.cores c)
              ∙ ref_of-core t.nodes t1.nodes c (first.after.cores c)
              ∙ sym first.answer
              ∙ e,
          h.after.flags c first.unflagged,
        ),
        o,
      )

  parts-listed : (b : Bool) → AllHas t2.nodes (with_child b x c r.1 s).purged
  parts-listed true =
      AllHas-append t2.nodes r.1 s.purged
        (AllHas-core t1.nodes t2.nodes r.1 h.after.cores first.listed) h.listed
  parts-listed false =
      AllHas-append t2.nodes r.1 s.purged
        (AllHas-core t1.nodes t2.nodes r.1 h.after.cores first.listed) h.listed

  parts-gone : (b y : Bool) → Has t.nodes c → AllHas t2.nodes (with_child b y c r.1 s).dropped
  parts-gone true y has = h.gone
  parts-gone false false has = h.gone
  parts-gone false true has =
      (Has-core t.nodes t2.nodes c (h.after.cores c ∙ first.after.cores c) has, h.gone)

  SweptAll-cons : a < c → Has t.nodes c → SweptAll a (c ∷ rest) t (with_child r.0 x c r.1 s) t2
  SweptAll-cons lt has = record {
    after =
        After-trans (suc a) t t1 t2 (After-lower (suc a) c t t1 (omega (arith, lt)) first.after)
          h.after;
    kids = parts-Kids r.0 lt has;
    counts = parts-counts;
    ordered = parts-ordered r.0 refl;
    listed = parts-listed r.0;
    gone = parts-gone r.0 x has;
  }

pub sweep_children_lem :
    (a next : ℕ) (rec : ℕ → M (Bool × List ℕ))
    → Calls a next rec
    → (rounds : ℕ) (cs : List ℕ) (t : QueryTree) → length cs ≤ rounds
    → t.next ≡ next
    → Shape t.next t.nodes
    → Kids t.nodes a cs
    → Ensures (SweptAll a cs t) (sweep_children rec rounds cs t)
unfolding sweep_children
sweep_children_lem a next rec calls rounds [] t le e s h = record {
  after = After-refl (suc a) t s;
  kids = tt;
  counts = λ k. ground arith;
  ordered = λ l. tt;
  listed = tt;
  gone = tt;
}
sweep_children_lem a next rec calls zero (c ∷ cs) t le e s h = absurd (omega (arith, le))
sweep_children_lem a next rec calls (suc rounds) (c ∷ cs) t le e s h =
    Ensures-bind (SweptAt c t) (SweptAll a (c ∷ cs) t) (λ u. rec c u) _ t (calls c t h.0 e s h.1)
      λ r t1 first.
        let (child, at) = Has-core t.nodes t1.nodes c (first.after.cores c) h.1 in
        let size = length-left_over t.nodes a cs r.0 in
        let same : t1.next ≡ t.next = ap (λ (u : QueryTree). u.next) first.after.rest in
        Ensures-load (SweptAll a (c ∷ cs) t) c child _ t1 at (
          Ensures-bind (SweptAll a (left_over r.0 cs) t1) (SweptAll a (c ∷ cs) t)
            (λ u. sweep_children rec rounds (left_over r.0 cs) u) _ t1
            (sweep_children_lem a next rec calls rounds (left_over r.0 cs) t1
              (omega (arith, le, size)) (same ∙ e) first.after.shape
              (Kids-left_over t1.nodes a cs r.0
                (Kids-core t.nodes t1.nodes a cs first.after.cores h.2)))
            (λ sw t2 all. SweptAll-cons a c cs r child.xmitted t t1 t2 sw first all h.0 h.1))
