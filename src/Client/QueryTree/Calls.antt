-- ===== src/Client/QueryTree/Calls.antt =====
-- A whole visit of a query, callback by callback.

use rgraphql.Prelude.{
  ℕ, suc, String, Option, none, some, List, [], ◌∷◌, ◌≡◌, refl, arith, Map, lookup, nat_eq,
  Option-cases, inl, inr, length,
}
use rgraphql.Types.Ast.{AstType, TypeDefinition}
use rgraphql.Client.QueryNode.{QtNode}
use rgraphql.Client.QueryTree.{QueryTree, done, nil_read, ◌>>=◌, deref}
use rgraphql.Client.QueryTree.Resolve.{ClientError, Field, Resolved, found, invalid, resolve_child}
use rgraphql.Client.QueryTree.Attach.{
  Visit, Call, enter, leave, named, enter_child, leave_field, enter_field, call, visit,
}
use rgraphql.Client.QueryTree.Rules.{Leaves, Leaves-bind}
use rgraphql.Client.QueryTree.Visit.{FoundIn, resolve_child_lem}
use rgraphql.Client.QueryTree.Visits.{
  At, At-store, At-move, enter_child-old, enter_child-new, leave_field_lem,
}

module _ (look : AstType → Option TypeDefinition) (parse_float : String → Option ℕ)
    (qs : Map ℕ (List ℕ)) (root limit k : ℕ) where
  -- What follows the resolution of a child.
  answer_lem :
      (q : ℕ) (n : QtNode) (v : Visit) (t t1 : QueryTree) (r : Resolved)
      → v.qnode ≡ some q
      → lookup q t.nodes ≡ some n
      → At qs root limit (suc k) v t
      → FoundIn q n t r t1
      → Leaves (At qs root limit k) (elim r [
        | found c ↦ enter_child c v t1
        | invalid e ↦ done (record v { validate_err = some e }) t1
      ])
  answer_lem q n v t t1 (invalid e) here at h same = rw same (
      At-move qs root limit k v.qnode v _ (record t { store = t1.store }) refl refl
        h.visiting.current h.visiting.anchored (At-store qs root limit (suc k) v t t1.store h))
  answer_lem q n v t t1 (found c) here at h (inl (same, there)) = rw same (
      enter_child-old qs root limit k q c v (record t { store = t1.store }) here
        (λ zero. there (ground (arith, at, zero))) (At-store qs root limit (suc k) v t t1.store h))
  answer_lem q n v t t1 (found c) here at h (inr (name, def, args, vs, fresh, same)) =
      rw (same, fresh)
        (enter_child-new qs root limit k q n name def args v (record t { store = vs }) here at
          (At-store qs root limit (suc k) v t vs h))

  enter_field_lem :
      (field : Field) (v : Visit) (t : QueryTree)
      → At qs root limit (suc k) v t
      → Leaves (At qs root limit k) (enter_field look parse_float field v t)
  unfolding enter_field
  enter_field_lem field v t h = by_name (named field)
    where
      resolved :
          (name : String) (c : Option ℕ)
          → v.qnode ≡ c
          → Leaves (At qs root limit k) (elim c [
            | none ↦ nil_read
            | some q ↦
                (resolve_child look parse_float q name field.arguments >>= λ r. λ t1. elim r [
                  | found c ↦ enter_child c v t1
                  | invalid e ↦ done (record v { validate_err = some e }) t1
                ])
                  t
          ])
      resolved name none here = tt
      resolved name (some q) here =
          Leaves-bind (λ r t'. (n : QtNode) × (lookup q t.nodes ≡ some n) × FoundIn q n t r t')
            (At qs root limit k) (λ u. resolve_child look parse_float q name field.arguments u) _ t
            (resolve_child_lem look parse_float q name field.arguments t)
            (λ r t1 (n, at, f). answer_lem q n v t t1 r here at h f)

      by_name :
          (o : Option String)
          → Leaves (At qs root limit k) (elim o [
            | none ↦ done v t
            | some name ↦
                (deref v.qnode >>= λ q.
                resolve_child look parse_float q name field.arguments >>= λ r. λ t1. elim r [
                  | found c ↦ enter_child c v t1
                  | invalid e ↦ done (record v { validate_err = some e }) t1
                ])
                  t
          ])
      by_name none =
          At-move qs root limit k v.qnode v v t refl refl h.visiting.current h.visiting.anchored h
      by_name (some name) = elim (Option-cases v.qnode) [
        | inl gone ↦ rw (gone, ◌>>=◌) tt
        | inr (q, here) ↦ rw (here, ◌>>=◌) (resolved name (some q) here)
      ]

  pub call_lem :
      (c : Call) (v : Visit) (t : QueryTree)
      → At qs root limit (suc k) v t
      → Leaves (At qs root limit k) (call look parse_float c v t)
  unfolding call
  call_lem (enter field) v t h = enter_field_lem field v t h
  call_lem (leave field) v t h = by_name (named field)
    where
      by_name :
          (o : Option String)
          → Leaves (At qs root limit k) (elim o [ none ↦ done v t | some name ↦ leave_field v t ])
      by_name none =
          At-move qs root limit k v.qnode v v t refl refl h.visiting.current h.visiting.anchored h
      by_name (some name) = leave_field_lem qs root limit k v t h

-- There is room for one reference less at every callback.
module _ (look : AstType → Option TypeDefinition) (parse_float : String → Option ℕ)
    (qs : Map ℕ (List ℕ)) (root limit : ℕ) where
  At-less : (k : ℕ) (v : Visit) (t : QueryTree) → At qs root limit k v t → At qs root limit 0 v t
  At-less k v t h = record {
    visiting = h.visiting;
    queries = h.queries;
    top = h.top;
    bound = omega (arith, h.bound);
    room = λ b. omega (arith, h.room b);
  }

  pub visit_lem :
      (calls : List Call) (v : Visit) (t : QueryTree)
      → At qs root limit (length calls) v t
      → Leaves (At qs root limit 0) (visit look parse_float calls v t)
  unfolding visit
  visit_lem [] v t h = At-less 0 v t h
  visit_lem (c ∷ calls) v t h =
      Leaves-bind (At qs root limit (length calls)) (At qs root limit 0)
        (λ u. call look parse_float c v u) _ t
        (call_lem look parse_float qs root limit (length calls) c v t h)
        (λ v1 t1 h1. next v1 t1 h1 (visit_lem calls v1 t1 h1) v1.validate_err)
    where
      next :
          (v1 : Visit) (t1 : QueryTree)
          → At qs root limit (length calls) v1 t1
          → Leaves (At qs root limit 0) (visit look parse_float calls v1 t1)
          → (e : Option ClientError)
          → Leaves
              (At qs root limit 0)
              (elim e [ some e ↦ done v1 t1 | none ↦ visit look parse_float calls v1 t1 ])
      next v1 t1 h1 rest none = rest
      next v1 t1 h1 rest (some e) = At-less (length calls) v1 t1 h1
