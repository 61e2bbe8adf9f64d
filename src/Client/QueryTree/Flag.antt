-- ===== src/Client/QueryTree/Flag.antt =====
-- `flagGcNext`: how the flags put a tree back in order in which one node lost its references.
use mathlib.Core.Option
use rgraphql.Prelude.{
  ℕ, zero, suc, ◌<◌, Bool, true, false, Option, none, some, List, [], ◌∷◌, ◌≡◌, ◌≢◌, ◌⊎◌, refl, ap,
  ◌∙◌, arith, lookup, insert, lookup-insert, nat_eq, nat_beq_iff, Bool-cases, inl, inr, ◌==◌,
}
use rgraphql.Resolver.Observable.{count}
use rgraphql.Client.QueryNode.{QtNode}
use rgraphql.Client.QueryTree.{QueryTree, done, flag_gc_next}
use rgraphql.Client.QueryTree.Rules.{Ensures, Ensures-load, Ensures-map}
use rgraphql.Client.QueryTree.Shape.{Nodes, Has-insert, Shape, insert-Shape}
use rgraphql.Client.QueryTree.After.{ref_of, flag_of, parent_of, InOrder, Orderly}
use rgraphql.Client.QueryTree.Collect.{InOrder-at}

abbrev pub Fine : Nodes → ℕ → Type 0
Fine m c = (ref_of m c ≡ true) × (flag_of m c ≡ false)

-- The children are in order at every node, but for those at which `Bad` holds.
abbrev pub OrderlyBut : (ℕ → Type 0) → Nodes → Type 0
OrderlyBut Bad m =
    (b c : ℕ) (n : QtNode)
    → lookup b m ≡ some n
    → count c n.children ≢ 0
    → (parent_of m c ≡ some b) × ((n.gc_next ≡ true) ⊎ (Bad b ⊎ Fine m c))

pub Orderly-OrderlyBut : (Bad : ℕ → Type 0) (m : Nodes) → Orderly 0 m → OrderlyBut Bad m
Orderly-OrderlyBut Bad m o b c n at k =
    let (up, good) = InOrder-at m b c n.gc_next n.children (o b n (omega arith) at) k in
    (up, elim good [ inl g ↦ inl g | inr h ↦ inr (inr h) ])

InOrder-of :
    (m : Nodes) (b : ℕ) (g : Bool) (cs : List ℕ)
    → ((c : ℕ) → count c cs ≢ 0 → (parent_of m c ≡ some b) × ((g ≡ true) ⊎ Fine m c))
    → InOrder m b g cs
InOrder-of m b g [] h = tt
InOrder-of m b g (c ∷ cs) h =
    let first = h c (ground (arith, nat_beq_iff c c)) in
    (first.0, first.1, InOrder-of m b g cs (λ d k. h d (ground (arith))))

pub OrderlyBut-Orderly : (m : Nodes) → OrderlyBut (λ b. ⊥) m → Orderly 0 m
OrderlyBut-Orderly m o b n le at = InOrder-of m b n.gc_next n.children (λ c k.
    let (up, good) = o b c n at k in
    (up, elim good [ inl g ↦ inl g | inr (inl h) ↦ absurd h | inr (inr h) ↦ inr h ]))

-- A node without its flag.
abbrev pub calm : QtNode → QtNode
calm n = record n { gc_next = false }

abbrev pub calm_at : Nodes → ℕ → Option QtNode
calm_at m b = Option.map calm (lookup b m)

-- From one tree to another, with no change but flags.
pub record FlagsOnly (t t' : QueryTree) : Type 0 where
  pub shape : Shape t'.next t'.nodes
  pub calms : (b : ℕ) → calm_at t'.nodes b ≡ calm_at t.nodes b
  pub rest : t' ≡ record t { nodes = t'.nodes }

pub FlagsOnly-trans : (t t' t'' : QueryTree) → FlagsOnly t t' → FlagsOnly t' t'' → FlagsOnly t t''
FlagsOnly-trans t t' t'' h k = record {
  shape = k.shape;
  calms = λ b. k.calms b ∙ h.calms b;
  rest = k.rest ∙ ap (λ (u : QueryTree). record u { nodes = t''.nodes }) h.rest;
}

-- One flag.
module _ (a : ℕ) (t : QueryTree) (n : QtNode) (at : lookup a t.nodes ≡ some n)
    (s : Shape t.next t.nodes) where
  abbrev pub flagged : QueryTree
  flagged = record t { nodes = insert a (record n { gc_next = true }) t.nodes }

  flagged-only : FlagsOnly t flagged
  flagged-only = record {
    shape =
        insert-Shape t.nodes t.next a (record n { gc_next = true }) s
          (record { kids = (s a n at).kids; up = (s a n at).up; used = (s a n at).used });
    calms = λ b.
        ground (arith, lookup-insert a b (record n { gc_next = true }) t.nodes, nat_beq_iff a b);
    rest = refl;
  }

  -- The node itself is in order now, and its parent may not be.
  flagged-OrderlyBut :
      OrderlyBut (λ b. (b ≡ a) ⊎ (n.parent ≡ some b)) t.nodes
      → OrderlyBut (λ b. n.parent ≡ some b) flagged.nodes
  flagged-OrderlyBut o b c y p k = elim (Bool-cases (a == b)) [
    | inl e ↦ (
      ground (
        arith,
        lookup-insert a b (record n { gc_next = true }) t.nodes,
        lookup-insert a c (record n { gc_next = true }) t.nodes,
        nat_beq_iff a b,
        nat_beq_iff a c,
        o a c n,
      ),
      inl (ground (arith, lookup-insert a b (record n { gc_next = true }) t.nodes)),
    )
    | inr e ↦
        let old : lookup b t.nodes ≡ some y =
          ground (arith, lookup-insert a b (record n { gc_next = true }) t.nodes) in
        let (up, good) = o b c y old k in
        let up' : parent_of flagged.nodes c ≡ some b =
          ground
            (arith, lookup-insert a c (record n { gc_next = true }) t.nodes, nat_beq_iff a c) in
        (
          up',
          elim good [
            | inl g ↦ inl g
            | inr (inl (inl same)) ↦ absurd (ground (arith, nat_beq_iff a b))
            | inr (inl (inr h)) ↦ inr (inl h)
            | inr (inr h) ↦ elim (Bool-cases (a == c)) [
              | inl d ↦ inr (inl (ground (arith, nat_beq_iff a c)))
              | inr d ↦
                  inr (
                    inr
                      (ground (arith, h, lookup-insert a c (record n { gc_next = true }) t.nodes)))
            ]
          ],
        )
  ]

pub OrderlyBut-mono :
    (B C : ℕ → Type 0) (m : Nodes) → ((b : ℕ) → B b → C b) → OrderlyBut B m → OrderlyBut C m
OrderlyBut-mono B C m sub o b c n at k =
    let (up, good) = o b c n at k in
    (
      up,
      elim good [ inl g ↦ inl g | inr (inl h) ↦ inr (inl (sub b h)) | inr (inr h) ↦ inr (inr h) ],
    )

-- Flagging a node and all above it puts the tree in order if only that node and its parent were not;
-- the fuel is enough for the addresses below.
pub flag_gc_next_lem :
    (f a : ℕ) (t : QueryTree) (n : QtNode)
    → lookup a t.nodes ≡ some n
    → Shape t.next t.nodes
    → a < f
    → OrderlyBut (λ b. (b ≡ a) ⊎ (n.parent ≡ some b)) t.nodes
    → Ensures (λ u t'. FlagsOnly t t' × Orderly 0 t'.nodes) (flag_gc_next f a t)
unfolding flag_gc_next
flag_gc_next_lem zero a t n at s le o = absurd (omega (arith, le))
flag_gc_next_lem (suc f) a t n at s le o =
    Ensures-load (λ u t'. FlagsOnly t t' × Orderly 0 t'.nodes) a n _ t at
      (up (flag_gc_next_lem f) n.parent refl)
  where
    only : FlagsOnly t (flagged a t n at s)
    only = flagged-only a t n at s

    left : OrderlyBut (λ b. n.parent ≡ some b) (flagged a t n at s).nodes
    left = flagged-OrderlyBut a t n at s o

    up :
        ((q : ℕ) (u : QueryTree) (y : QtNode)
          → lookup q u.nodes ≡ some y
          → Shape u.next u.nodes
          → q < f
          → OrderlyBut (λ b. (b ≡ q) ⊎ (y.parent ≡ some b)) u.nodes
          → Ensures (λ v u'. FlagsOnly u u' × Orderly 0 u'.nodes) (flag_gc_next f q u))
        → (p : Option ℕ) → n.parent ≡ p
        → Ensures
            (λ u t'. FlagsOnly t t' × Orderly 0 t'.nodes)
            (elim p [
              | none ↦ done tt (flagged a t n at s)
              | some q ↦ flag_gc_next f q (flagged a t n at s)
            ])
    up again none e = (
      only,
      OrderlyBut-Orderly (flagged a t n at s).nodes (
          OrderlyBut-mono (λ b. n.parent ≡ some b) (λ b. ⊥) (flagged a t n at s).nodes
            (λ b h. ground (arith)) left),
    )
    up again (some q) e =
        let above = rw e at ((s a n at).up) in
        let (y, there) = Has-insert t.nodes a q (record n { gc_next = true }) above.1 in
        Ensures-map (λ u t'. FlagsOnly (flagged a t n at s) t' × Orderly 0 t'.nodes)
          (λ u t'. FlagsOnly t t' × Orderly 0 t'.nodes) (flag_gc_next f q (flagged a t n at s))
          (again q (flagged a t n at s) y there only.shape (omega (arith, above.0, le)) (
            OrderlyBut-mono (λ b. n.parent ≡ some b) (λ b. (b ≡ q) ⊎ (y.parent ≡ some b))
              (flagged a t n at s).nodes (λ b h. inl (ground (arith))) left))
          (λ u t' h. (FlagsOnly-trans t (flagged a t n at s) t' only h.0, h.1))
