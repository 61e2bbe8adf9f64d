-- ===== src/Client/QueryTree/Attached.antt =====
-- `Attach` on a valid tree, for a query that is not attached.

use rgraphql.Client.QueryTree.Linked.{Anchored-start}
use rgraphql.Prelude.{
  ℕ, ◌+◌, ◌<◌, ◌≤◌, String, Option, none, some, List, ◌≡◌, ◌⊎◌, refl, sym, ap, ◌∙◌, arith, lookup,
  insert, lookup-insert, nat_eq, nat_beq_iff, Option-cases, inl, inr, ◌==◌, if◌then◌else◌, subst,
  length,
}
use rgraphql.Types.Ast.{AstType, TypeDefinition}
use rgraphql.Client.QueryTree.{
  QueryTree, done, nil_read, ◌>>=◌, ◌>>◌, pure, clear_pending, gc_sweep,
}
use rgraphql.Client.QueryTree.Resolve.{ClientError}
use rgraphql.Client.QueryTree.Attach.{
  Visit, Call, transmit, release_all, start, visit, finish, attach,
}
use rgraphql.Client.QueryTree.Rules.{Leaves, Leaves-bind, Leaves-map, Leaves-returns}
use rgraphql.Client.QueryTree.Valid.{total_of, IsValid}
use rgraphql.Client.QueryTree.Visiting.{Visiting}
use rgraphql.Client.QueryTree.Visits.{At}
use rgraphql.Client.QueryTree.Calls.{visit_lem}
use rgraphql.Client.QueryTree.Ending.{Fits, ValidWith, accept_lem, refuse_lem}

-- What attaching the query promises: on an error no query changes, and without one the query and
-- no other is attached, with the nodes that it holds.
pub record Attached (query : ℕ) (r : Option ClientError) (t t' : QueryTree) : Type 0 where
  pub valid : IsValid t'
  pub refused : (e : ClientError) → r ≡ some e → t'.attached_queries ≡ t.attached_queries
  pub accepted :
      r ≡ none
      → (xs : List ℕ) × ((p : ℕ)
          → lookup p t'.attached_queries
            ≡ (if query == p then some xs else lookup p t.attached_queries))

start-At :
    (look : AstType → Option TypeDefinition) (parse_float : String → Option ℕ) (limit k : ℕ)
    (t : QueryTree)
    → IsValid t
    → t.next + k ≤ limit
    → ((b : ℕ) → total_of t.attached_queries b + k < 4294967296)
    → At t.attached_queries t.root limit k (start look parse_float t) t
start-At look parse_float limit k t v le room = record {
  visiting = record {
    shape = v.shape;
    root_in = v.root;
    counts = λ b n p. omega (arith, v.counts b n p);
    entered = tt;
    held = v.held;
    unique = v.unique;
    orderly = v.orderly;
    idle = v.idle;
    current = v.root;
    anchored = Anchored-start t.attached_queries t.root t.nodes v.anchored;
  };
  queries = refl;
  top = refl;
  bound = le;
  room = λ b. omega (arith, room b);
}

module _ (look : AstType → Option TypeDefinition) (parse_float : String → Option ℕ) (f query : ℕ)
    (calls : List Call) (t : QueryTree) where
  finish_lem :
      (v : Visit) (t1 : QueryTree)
      → lookup query t.attached_queries ≡ none
      → At t.attached_queries t.root f 0 v t1
      → Leaves (λ r t'. Attached query r t t') (finish look parse_float f query v t1)
  unfolding finish
  finish_lem v t1 new h = ends v.validate_err
    where
      here : Visiting t1.attached_queries v.qt_nodes v.qnode t1.root t1.next t1.nodes
      here =
          subst (λ qs. Visiting qs v.qt_nodes v.qnode t1.root t1.next t1.nodes) (sym h.queries)
            h.visiting

      room : Fits t1.attached_queries v.qt_nodes
      room b = ground (arith, h.room b, h.queries)

      ends :
          (o : Option ClientError)
          → Leaves
              (λ r t'. Attached query r t t')
              (elim o [
                | some e ↦
                    (release_all f v.qt_nodes >>= λ flagged.
                    gc_sweep f >> (clear_pending >> (gc_sweep f >> pure (some e))))
                      t1
                | none ↦
                    (transmit f v.new_nodes
                        >> (clear_pending
                            >> ((λ t1. done tt (record t1 {
                              attached_queries = insert query v.qt_nodes t1.attached_queries;
                            }))
                                >> (gc_sweep f >> (gc_sweep f >> pure none)))))
                      t1
              ])
      ends none =
          Leaves-map
            (λ (r : Option ClientError) t'.
              (r ≡ none) × ValidWith (insert query v.qt_nodes t1.attached_queries) t')
            (λ r t'. Attached query r t t') _
            (accept_lem f query v t1 here room (ap (lookup query) h.queries ∙ new)
              (omega (arith, h.bound)))
            (λ r t' (same, (valid, queries)). record {
              valid = valid;
              refused = λ e k. absurd (ground (arith));
              accepted = λ k. (
                v.qt_nodes,
                λ p. ground (
                  arith,
                  queries,
                  h.queries,
                  lookup-insert query p v.qt_nodes t.attached_queries,
                ),
              );
            })
      ends (some e) =
          Leaves-map
            (λ (r : Option ClientError) t'. (r ≡ some e) × ValidWith t1.attached_queries t')
            (λ r t'. Attached query r t t') _
            (refuse_lem f e v t1 here room (omega (arith, h.bound)))
            (λ r t' (same, (valid, queries)). record {
              valid = valid;
              refused = λ e k. queries ∙ h.queries;
              accepted = λ k. absurd (ground (arith));
            })

  attach_lem :
      IsValid t
      → t.next + length calls ≤ f
      → ((b : ℕ) → total_of t.attached_queries b + length calls < 4294967296)
      → Leaves (λ r t'. Attached query r t t') (attach look parse_float f query calls t)
  unfolding attach
  attach_lem v le room = elim (Option-cases (lookup query t.attached_queries)) [
    | inr (xs, e) ↦
        rw (e, Leaves)
          (record {
            valid = v;
            refused = λ g k. refl;
            accepted = λ k. (xs, λ p. ground (arith, nat_beq_iff query p));
          })
    | inl e ↦
        rw (e, Leaves)
          (Leaves-bind (λ w t'. At t.attached_queries t.root f 0 w t')
            (λ r t'. Attached query r t t')
            (λ u. visit look parse_float calls (start look parse_float t) u) _ t
            (visit_lem look parse_float t.attached_queries t.root f calls (start look parse_float t)
              t (start-At look parse_float f (length calls) t v le room))
            (λ w t1 h. finish_lem w t1 e h))
  ]

  -- `Attach` of any sequence of callbacks to a valid tree, given fuel for the addresses it may use and
  -- room for its references in every count, does not run out of fuel. Unless it reads through nil it
  -- returns a valid tree: after an error the attached queries are as before, and otherwise the query
  -- is attached and no other query has changed.
  pub attach-Attached :
      IsValid t
      → t.next + length calls ≤ f
      → ((b : ℕ) → total_of t.attached_queries b + length calls < 4294967296)
      → (attach look parse_float f query calls t ≡ nil_read)
        ⊎ ((r : Option ClientError) × (t' : QueryTree) × (attach look parse_float f query calls t
              ≡ done r t')
            × Attached query r t t')
  attach-Attached v le room =
      Leaves-returns (λ r t'. Attached query r t t') (attach look parse_float f query calls t)
        (attach_lem v le room)
