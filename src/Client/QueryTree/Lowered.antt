-- ===== src/Client/QueryTree/Lowered.antt =====
-- The count of one node goes down: the other counts, and the order of the tree.
use mathlib.Core.Option
use rgraphql.Prelude.{
  ℕ, ◌+◌, ◌%◌, Bool, false, Option, some, List, [], ◌∷◌, ◌≡◌, refl, sym, ap, ◌∙◌, arith, lookup,
  insert, lookup-insert, nat_eq, nat_beq_iff, Bool-cases, inl, inr, ◌==◌,
}
use rgraphql.Resolver.Observable.{count}
use rgraphql.Client.QueryNode.{QtNode}
use rgraphql.Client.QueryTree.{QueryTree}
use rgraphql.Client.QueryTree.Shape.{Nodes, Shape, insert-Shape}
use rgraphql.Client.QueryTree.After.{flag_of, Orderly}
use rgraphql.Client.QueryTree.Flag.{OrderlyBut, Orderly-OrderlyBut, OrderlyBut-Orderly}

-- Every count is the number given for its node, as 32 bits.
abbrev pub Counts : (ℕ → ℕ) → Nodes → Type 0
Counts total m = (b : ℕ) (n : QtNode) → lookup b m ≡ some n → n.ref_count ≡ total b % 4294967296

-- A node without its flag and its count.
abbrev pub bare : QtNode → QtNode
bare n = record n { gc_next = false; ref_count = 0 }

abbrev pub bare_at : Nodes → ℕ → Option QtNode
bare_at m b = Option.map bare (lookup b m)

-- What giving up the nodes `xs` promises of a tree in order.
pub record Released (xs : List ℕ) (t : QueryTree) (r : Bool) (t' : QueryTree) : Type 0 where
  pub shape : Shape t'.next t'.nodes
  pub orderly : Orderly 0 t'.nodes
  pub counts : (total : ℕ → ℕ) → Counts (λ b. count b xs + total b) t.nodes → Counts total t'.nodes
  pub bares : (b : ℕ) → bare_at t'.nodes b ≡ bare_at t.nodes b
  pub quiet : r ≡ false → (b : ℕ) → flag_of t'.nodes b ≡ flag_of t.nodes b
  pub rest : t' ≡ record t { nodes = t'.nodes }

module _ (a : ℕ) (t : QueryTree) (n : QtNode) (at : lookup a t.nodes ≡ some n)
    (s : Shape t.next t.nodes) where
  abbrev pub fewer : QtNode
  fewer = record n { ref_count = (n.ref_count + 4294967295) % 4294967296 }

  abbrev pub lowered : QueryTree
  lowered = record t { nodes = insert a fewer t.nodes }

  pub lowered-at : lookup a lowered.nodes ≡ some fewer
  lowered-at = ground (arith, lookup-insert a a fewer t.nodes, nat_beq_iff a a)

  pub lowered-Shape : Shape lowered.next lowered.nodes
  lowered-Shape =
      insert-Shape t.nodes t.next a fewer s
        (record { kids = (s a n at).kids; up = (s a n at).up; used = (s a n at).used })

  pub lowered-Counts :
      (total : ℕ → ℕ)
      → Counts (λ b. count b (a ∷ []) + total b) t.nodes
      → Counts total lowered.nodes
  lowered-Counts total h b y p = elim (Bool-cases (a == b)) [
    | inl e ↦
        let same : a ≡ b = (nat_beq_iff a b).0 e in
        let old = h a n at in ground (arith, lookup-insert a b fewer t.nodes, nat_beq_iff a a)
    | inr e ↦ ground (arith, lookup-insert a b fewer t.nodes, h b y)
  ]

  pub lowered-bares : (b : ℕ) → bare_at lowered.nodes b ≡ bare_at t.nodes b
  lowered-bares b = ground (arith, lookup-insert a b fewer t.nodes, nat_beq_iff a b)

  pub lowered-flags : (b : ℕ) → flag_of lowered.nodes b ≡ flag_of t.nodes b
  lowered-flags b = ground (arith, lookup-insert a b fewer t.nodes, nat_beq_iff a b)

  -- The node as it was.
  lowered-back :
      (b : ℕ) (y : QtNode)
      → lookup b lowered.nodes ≡ some y
      → (z : QtNode) × (lookup b t.nodes ≡ some z)
        × (z.gc_next ≡ y.gc_next)
        × (z.children ≡ y.children)
  lowered-back b y p = elim (Bool-cases (a == b)) [
    | inl e ↦ (
      n,
      ground (arith, nat_beq_iff a b),
      ground (arith, lookup-insert a b fewer t.nodes),
      ground (arith, lookup-insert a b fewer t.nodes),
    )
    | inr e ↦ (y, ground (arith, lookup-insert a b fewer t.nodes), refl, refl)
  ]

  -- Only the parent of the node may be out of order.
  pub lowered-OrderlyBut : Orderly 0 t.nodes → OrderlyBut (λ b. n.parent ≡ some b) lowered.nodes
  lowered-OrderlyBut o b c y p k =
      let (z, was, g, same) = lowered-back b y p in
      let (up, good) =
        Orderly-OrderlyBut (λ d. ⊥) t.nodes o b c z was (λ h. k (ap (count c) (sym same) ∙ h)) in
      (
        ground (arith, lookup-insert a c fewer t.nodes, nat_beq_iff a c),
        elim good [
          | inl h ↦ inl (sym g ∙ h)
          | inr (inl h) ↦ absurd h
          | inr (inr h) ↦ elim (Bool-cases (a == c)) [
            | inl e ↦ inr (inl (ground (arith, nat_beq_iff a c)))
            | inr e ↦ inr (inr (ground (arith, h, lookup-insert a c fewer t.nodes)))
          ]
        ],
      )

  -- If a reference is left, the tree is in order.
  pub lowered-Orderly : (fewer.ref_count == 0) ≡ false → Orderly 0 t.nodes → Orderly 0 lowered.nodes
  lowered-Orderly left o = OrderlyBut-Orderly lowered.nodes λ b c y p k.
      let (z, was, g, same) = lowered-back b y p in
      let (up, good) =
        Orderly-OrderlyBut (λ d. ⊥) t.nodes o b c z was (λ h. k (ap (count c) (sym same) ∙ h)) in
      (
        ground (arith, lookup-insert a c fewer t.nodes, nat_beq_iff a c),
        elim good [
          | inl h ↦ inl (sym g ∙ h)
          | inr (inl h) ↦ absurd h
          | inr (inr h) ↦
              inr (inr (ground (arith, h, left, lookup-insert a c fewer t.nodes, nat_beq_iff a c)))
        ],
      )
