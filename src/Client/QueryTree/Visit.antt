-- ===== src/Client/QueryTree/Visit.antt =====
-- The visit of a query keeps the tree in the state of `Visiting`.

use rgraphql.Prelude.{
  ℕ, ◌+◌, ◌%◌, String, Option, none, some, List, [], ◌∷◌, ◌++◌, ◌≡◌, ◌≢◌, ◌⊎◌, refl, arith, lookup,
  insert, nat_eq, nat_beq_iff, Bool-cases, Option-cases, inl, inr,
}
use rgraphql.Types.Ast.{AstType, TypeDefinition}
use rgraphql.Varstore.{VariableStore}
use rgraphql.Resolver.Observable.{count}
use rgraphql.Client.Arguments.{Args, Argument, Bound, new_args_map}
use rgraphql.Client.QueryNode.{ObjectDef, QtNode, find_schema_field}
use rgraphql.Client.QueryTree.{QueryTree, done, nil_read, ◌>>=◌, pure}
use rgraphql.Client.QueryTree.Resolve.{
  ClientError, FieldType, unknown, Resolved, found, invalid, field_type, matches_field, find_match,
  alloc_child, match_or_alloc, bind_and_match, resolve_child, new_child,
}
use rgraphql.Client.QueryTree.Rules.{Leaves, Leaves-bind, Leaves-load, Leaves-map}

-- Nothing but the store changes.
abbrev pub StoreOnly : QueryTree → QueryTree → Type 0
StoreOnly t t' = t' ≡ record t { store = t'.store }

-- The tree with the new child.
abbrev pub with_child : ℕ → QtNode → String → Option ObjectDef → Option Args → QueryTree → QueryTree
with_child q n name def args t = record t {
  nodes =
      insert q (record n { children = n.children ++ t.next ∷ [] })
        (insert t.next (new_child t.next_id q name def args) t.nodes);
  next = t.next + 1;
  next_id = (t.next_id + 1) % 4294967296;
}

-- A child is found among the children, or it is new.
abbrev pub FoundIn : ℕ → QtNode → QueryTree → Resolved → QueryTree → Type 0
FoundIn q n t (invalid e) t' = StoreOnly t t'
FoundIn q n t (found c) t' =
    (StoreOnly t t' × (count c n.children ≢ 0))
    ⊎ ((name : String) × (def : Option ObjectDef) × (args : Option Args) × (vs : VariableStore) × (c
          ≡ t.next)
        × (t' ≡ with_child q n name def args (record t { store = vs })))

find_match_lem :
    (name : String) (args : Option Args) (cs : List ℕ) (t : QueryTree)
    → Leaves
        (λ r t'. (t' ≡ t) × ((c : ℕ) → r ≡ some c → count c cs ≢ 0))
        (find_match name args cs t)
unfolding find_match
find_match_lem name args [] t = (refl, λ c e. absurd (ground (arith)))
find_match_lem name args (x ∷ cs) t = elim (Option-cases (lookup x t.nodes)) [
  | inl e ↦ rw (e, Leaves) tt
  | inr (n, e) ↦ elim (Bool-cases (matches_field t.store n name args)) [
    | inl g ↦ rw (e, Leaves) (rw g (refl, λ c h k. ground (arith, nat_beq_iff x c)))
    | inr g ↦
        rw (e, Leaves)
          (rw g (
            Leaves-map (λ r t'. (t' ≡ t) × ((c : ℕ) → r ≡ some c → count c cs ≢ 0))
              (λ r t'. (t' ≡ t) × ((c : ℕ) → r ≡ some c → count c (x ∷ cs) ≢ 0))
              (find_match name args cs t) (find_match_lem name args cs t)
              (λ r t' (same, k). (same, λ c h zero. k c h (ground (arith))))))
  ]
]

match_or_alloc_lem :
    (q : ℕ) (n : QtNode) (name : String) (def : Option ObjectDef) (args : Option Args)
    (t : QueryTree) (vs : VariableStore)
    → lookup q t.nodes ≡ some n
    → Leaves (FoundIn q n t) (match_or_alloc q n.children name def args (record t { store = vs }))
unfolding match_or_alloc alloc_child
match_or_alloc_lem q n name def args t vs at =
    Leaves-bind
      (λ r t'. (t' ≡ record t { store = vs }) × ((c : ℕ) → r ≡ some c → count c n.children ≢ 0))
      (FoundIn q n t) (λ u. find_match name args n.children u) _ (record t { store = vs })
      (find_match_lem name args n.children (record t { store = vs }))
      (λ r t' (same, k). answer r t' same k)
  where
    answer :
        (r : Option ℕ) (t' : QueryTree)
        → t' ≡ record t { store = vs }
        → ((c : ℕ) → r ≡ some c → count c n.children ≢ 0)
        → Leaves (FoundIn q n t) (elim r [
          | some c ↦ done (found c) t'
          | none ↦ (alloc_child q name def args >>= λ c. pure (found c)) t'
        ])
    answer (some c) t' same k = inl (rw same refl, k c refl)
    answer none t' same k = rw same (rw (at, ◌>>=◌) (inr (name, def, args, vs, refl, refl)))

module _ (look : AstType → Option TypeDefinition) (parse_float : String → Option ℕ) where
  bind_and_match_lem :
      (q : ℕ) (n : QtNode) (name : String) (def : Option ObjectDef) (arguments : List Argument)
      (t : QueryTree)
      → lookup q t.nodes ≡ some n
      → Leaves (FoundIn q n t) (bind_and_match look parse_float q n.children name def arguments t)
  unfolding bind_and_match
  bind_and_match_lem q n name def arguments t at =
      by_args (new_args_map parse_float arguments t.store)
    where
      by_args :
          (b : Bound)
          → Leaves (FoundIn q n t) (elim b [
            | Bound.fault ↦ nil_read
            | Bound.refused e vs ↦
                done (invalid (ClientError.bad_argument e)) (record t { store = vs })
            | Bound.bound args vs ↦
                match_or_alloc q n.children name def args (record t { store = vs })
          ])
      by_args Bound.fault = tt
      by_args (Bound.refused e vs) = refl
      by_args (Bound.bound args vs) = match_or_alloc_lem q n name def args t vs at

  pub resolve_child_lem :
      (q : ℕ) (name : String) (arguments : List Argument) (t : QueryTree)
      → Leaves
          (λ r t'. (n : QtNode) × (lookup q t.nodes ≡ some n) × FoundIn q n t r t')
          (resolve_child look parse_float q name arguments t)
  unfolding resolve_child
  resolve_child_lem q name arguments t =
      Leaves-load _ q _ t (λ n at. by_field n at (find_schema_field name n))
    where
      by_type :
          (n : QtNode)
          → lookup q t.nodes ≡ some n
          → (ft : FieldType)
          → Leaves
              (λ r t'. (n : QtNode) × (lookup q t.nodes ≡ some n) × FoundIn q n t r t')
              (elim ft [
                | FieldType.fault ↦ nil_read
                | unknown e ↦ done (invalid e) t
                | FieldType.object def ↦
                    bind_and_match look parse_float q n.children name def arguments t
              ])
      by_type n at FieldType.fault = tt
      by_type n at (unknown e) = (n, at, refl)
      by_type n at (FieldType.object def) =
          Leaves-map (FoundIn q n t)
            (λ r t'. (n : QtNode) × (lookup q t.nodes ≡ some n) × FoundIn q n t r t')
            (bind_and_match look parse_float q n.children name def arguments t)
            (bind_and_match_lem q n name def arguments t at) (λ r t' h. (n, at, h))

      by_field :
          (n : QtNode)
          → lookup q t.nodes ≡ some n
          → (ft : Option AstType)
          → Leaves
              (λ r t'. (n : QtNode) × (lookup q t.nodes ≡ some n) × FoundIn q n t r t')
              (elim ft [
                | none ↦ done (invalid (ClientError.field_not_found name n.name)) t
                | some ty ↦ elim (field_type look ty) [
                  | FieldType.fault ↦ nil_read
                  | unknown e ↦ done (invalid e) t
                  | FieldType.object def ↦
                      bind_and_match look parse_float q n.children name def arguments t
                ]
              ])
      by_field n at none = (n, at, refl)
      by_field n at (some ty) = by_type n at (field_type look ty)
