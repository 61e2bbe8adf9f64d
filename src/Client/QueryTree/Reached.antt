-- ===== src/Client/QueryTree/Reached.antt =====
-- The trees that a client reaches from `NewQueryTree` by `Attach` and `Detach`.

use rgraphql.Prelude.{
  ℕ, ◌+◌, ◌<◌, ◌≤◌, String, Option, none, some, List, [], ◌∷◌, ◌≡◌, ◌≢◌, ◌⊎◌, refl, sym, ap, arith,
  Map, lookup, IsMap, nat_eq, nat_beq_iff, Bool-cases, inl, inr, ◌↔◌, ◌==◌, subst, length,
}
use rgraphql.Types.Ast.{AstType, TypeDefinition}
use rgraphql.Qtree.Mutation.{TreeMutation}
use rgraphql.Varstore.{new_variable_store}
use rgraphql.Resolver.Observable.{count}
use rgraphql.Client.QueryNode.{ObjectDef, QtNode, new_qt_node}
use rgraphql.Client.QueryTree.{QueryTree, done, Built, built, new_query_tree}
use rgraphql.Client.QueryTree.Resolve.{ClientError}
use rgraphql.Client.QueryTree.Attach.{Call, attach, detach}
use rgraphql.Client.QueryTree.Shape.{NodeOk}
use rgraphql.Client.QueryTree.Collect.{Reach, here}
use rgraphql.Client.QueryTree.Linked.{Linked-Reach}
use rgraphql.Client.QueryTree.After.{InOrder}
use rgraphql.Client.QueryTree.Valid.{total_of, IsValid}
use rgraphql.Client.QueryTree.Detach.{detach-Detached, Reach-held}
use rgraphql.Client.QueryTree.Attached.{attach-Attached}

-- One step of the client, with fuel `f` for every address.
pub data Step (look : AstType → Option TypeDefinition) (parse_float : String → Option ℕ) (f : ℕ)
    : QueryTree → QueryTree → Type 0 where
  attach_step :
      (query : ℕ) (calls : List Call) (t : QueryTree) (r : Option ClientError) (t' : QueryTree)
      → t.next + length calls ≤ f
      → ((b : ℕ) → total_of t.attached_queries b + length calls < 4294967296)
      → attach look parse_float f query calls t ≡ done r t'
      → Step look parse_float f t t'
  detach_step :
      (query : ℕ) (t t' : QueryTree)
      → t.next ≤ f
      → detach f query t ≡ done tt t'
      → Step look parse_float f t t'

-- The trees that the steps reach.
pub data Reached (look : AstType → Option TypeDefinition) (parse_float : String → Option ℕ) (f : ℕ)
    : QueryTree → Type 0 where
  first :
      (def : Option ObjectDef) (handler : Option (List TreeMutation)) (t : QueryTree)
      → new_query_tree def handler ≡ built t
      → Reached look parse_float f t
  next :
      (t t' : QueryTree)
      → Reached look parse_float f t
      → Step look parse_float f t t'
      → Reached look parse_float f t'

-- The tree with nothing but a root.
abbrev alone : String → ObjectDef → Option (List TreeMutation) → QueryTree
alone name def handler = record {
  nodes = (0, new_qt_node name def) ∷ [];
  next = 1;
  root = 0;
  store = new_variable_store (some []);
  attached_queries = [];
  handler = handler;
  next_id = 1;
}

one_node : (n y : QtNode) (b : ℕ) → lookup b ((0, n) ∷ []) ≡ some y → (b ≡ 0) × (n ≡ y)
unfolding lookup
one_node n y b p = (ground (arith, nat_beq_iff 0 b), ground (arith))

alone-IsValid :
    (name : String) (def : ObjectDef) (handler : Option (List TreeMutation))
    → IsValid (alone name def handler)
unfolding lookup new_qt_node
alone-IsValid name def handler =
    let root : QtNode = new_qt_node name def in
    record {
      shape = λ b y p.
          let (at, same) = one_node root y b p in
          subst (λ (z : QtNode). NodeOk ((0, root) ∷ []) 1 b z) same
            (record { kids = tt; up = tt; used = omega (arith, at) });
      root = (root, refl);
      counts = λ b y p.
          let (at, same) = one_node root y b p in ap (λ (z : QtNode). z.ref_count) (sym same);
      held = λ q xs e. absurd (ground (arith));
      unique = tt;
      orderly = λ b y le p.
          let (at, same) = one_node root y b p in
          subst (λ (z : QtNode). InOrder ((0, root) ∷ []) b z.gc_next z.children) same tt;
      idle = refl;
      anchored = record {
        crown = refl;
        linked = λ c held. absurd (held refl);
        linked_held = λ q xs e. absurd (ground (arith));
        inside = λ c e. absurd (ground (arith));
      };
      fits = λ b. omega arith;
    }

new_query_tree-IsValid :
    (def : Option ObjectDef) (handler : Option (List TreeMutation)) (t : QueryTree)
    → new_query_tree def handler ≡ built t
    → IsValid t
unfolding new_query_tree
new_query_tree-IsValid none handler t e = absurd (ground (arith))
new_query_tree-IsValid (some def) handler t e = by_name def.name e
  where
    by_name :
        (o : Option String)
        → elim o [ none ↦ Built.fault | some name ↦ built (alone name def handler) ] ≡ built t
        → IsValid t
    by_name none e = absurd (ground (arith))
    by_name (some name) e =
        let same : alone name def handler ≡ t = ground (arith, e) in
        subst IsValid same (alone-IsValid name def handler)

module _ (look : AstType → Option TypeDefinition) (parse_float : String → Option ℕ) (f : ℕ) where
  Step-IsValid : (t t' : QueryTree) → Step look parse_float f t t' → IsValid t → IsValid t'
  Step-IsValid t t' (attach_step query calls _ r _ le room e) v =
      elim (attach-Attached look parse_float f query calls t v le room) [
        | inl fault ↦ absurd (ground (arith, e, fault))
        | inr (r1, t1, e1, a) ↦ subst IsValid (ground (arith, e, e1)) a.valid
      ]
  Step-IsValid t t' (detach_step query _ _ le e) v =
      let (t1, e1, d) = detach-Detached f query t v le in
      subst IsValid (ground (arith, e, e1)) d.valid

  pub Reached-IsValid : (t : QueryTree) → Reached look parse_float f t → IsValid t
  Reached-IsValid t (first def handler _ e) = new_query_tree-IsValid def handler t e
  Reached-IsValid t (next before _ r s) = Step-IsValid before t s (Reached-IsValid before r)

-- A node that is held often is held by one of the queries.
total_of-held :
    (b : ℕ) (m : Map ℕ (List ℕ))
    → IsMap m
    → total_of m b ≢ 0
    → (q : ℕ) × (xs : List ℕ) × (lookup q m ≡ some xs) × (count b xs ≢ 0)
unfolding lookup
total_of-held b [] u h = absurd (h refl)
total_of-held b ((q, xs) ∷ m) u h = elim (Bool-cases (count b xs == 0)) [
  | inr e ↦ (q, xs, ground (arith, nat_beq_iff q q), λ zero. ground (arith))
  | inl e ↦
      let (p, ys, at, held) =
        total_of-held b m u.1 (λ zero. h (ground (arith, nat_beq_iff (count b xs) 0))) in
      (p, ys, ground (arith, u.0, nat_beq_iff q p), held)
]

-- In every tree that a client reaches, each node below the root is one that an attached query has
-- entered and still holds.
pub Reached-held :
    (look : AstType → Option TypeDefinition) (parse_float : String → Option ℕ) (f : ℕ)
    (t : QueryTree) (c : ℕ)
    → Reached look parse_float f t
    → Reach t.nodes t.root c
    → (c ≡ t.root)
      ⊎ ((q : ℕ) × (xs : List ℕ) × (lookup q t.attached_queries ≡ some xs) × (count c xs ≢ 0))
Reached-held look parse_float f t c r p =
    let v = Reached-IsValid look parse_float f t r in
    elim (Reach-held t c v p) [
      | inl e ↦ inl e
      | inr held ↦ inr (total_of-held c t.attached_queries v.unique held)
    ]

-- In every tree that a client reaches, the nodes that can be reached from the root are the root and
-- those that an attached query has entered and still holds, and no others.
pub Reach-iff_held :
    (look : AstType → Option TypeDefinition) (parse_float : String → Option ℕ) (f : ℕ)
    (t : QueryTree) (c : ℕ)
    → Reached look parse_float f t
    → Reach t.nodes t.root c ↔ (
        (c ≡ t.root)
        ⊎ ((q : ℕ) × (xs : List ℕ) × (lookup q t.attached_queries ≡ some xs) × (count c xs ≢ 0)))
Reach-iff_held look parse_float f t c r = (Reached-held look parse_float f t c r, back)
  where
    back :
        (c ≡ t.root)
          ⊎ ((q : ℕ) × (xs : List ℕ) × (lookup q t.attached_queries ≡ some xs) × (count c xs ≢ 0))
        → Reach t.nodes t.root c
    back (inl e) = subst (Reach t.nodes t.root) (sym e) here
    back (inr (q, xs, at, held)) =
        let v = Reached-IsValid look parse_float f t r in
        Linked-Reach t.nodes t.root t.next xs c v.shape (v.anchored.linked_held q xs at) held
