-- ===== src/Server/Session/Valid.antt =====
-- The queries of a session and the executions that run.

use rgraphql.Prelude.{
  ℕ, true, false, Option, none, some, ◌≡◌, ap, ◌∙◌, arith, lookup, insert, delete, lookup-insert,
  lookup-delete, nat_eq, nat_beq_iff, Bool-cases, Option-cases, inl, inr, ◌==◌,
}
use rgraphql.Qtree
use rgraphql.Qtree.{Tree, Out}
use rgraphql.Qtree.Mutation.{TreeMutation, apply_tree_mutation}
use rgraphql.Server.Session.{
  QueryExecution, Session, Handled, returned, blocked, panicked, spent, cancel_at,
  handle_finish_query, ClientMessage, look_in, with_tree, mutated, handle_mutation, mutate_with,
  then_finish, handle_message,
}
use rgraphql.Server.Session.Live.{IsValid, Keeps, handle_init_query-IsValid}

module _ (id a : ℕ) (e : QueryExecution) (s : Session) where
  abbrev stopped : QueryExecution
  stopped = record e { cancel_called = true }

  abbrev finished : Session
  finished = record s { executions = insert a stopped s.executions; queries = delete id s.queries }

  finished-IsValid :
      IsValid s → lookup id s.queries ≡ some a → lookup a s.executions ≡ some e → IsValid finished
  finished-IsValid v here at = record {
    used = λ b x p. elim (Bool-cases (a == b)) [
      | inl g ↦ let lt = v.used a e at in ground (arith, lt, nat_beq_iff a b)
      | inr g ↦ v.used b x (ground (arith, lookup-insert a b stopped s.executions))
    ];
    live = λ i b p. elim (Bool-cases (id == i)) [
      | inl g ↦ absurd (ground (arith, lookup-delete id i s.queries))
      | inr g ↦
          let (x, there, same, on) = v.live i b (ground (arith, lookup-delete id i s.queries)) in
          let (y, yat, ysame, _) = v.live id a here in
          (
            x,
            ground (
              arith,
              there,
              at,
              yat,
              same,
              ysame,
              lookup-insert a b stopped s.executions,
              nat_beq_iff a b,
              nat_beq_iff id i,
            ),
            same,
            on,
          )
    ];
    listed = λ b x p on. elim (Bool-cases (a == b)) [
      | inl g ↦ absurd (ground (arith, lookup-insert a b stopped s.executions))
      | inr g ↦
          let old : lookup b s.executions ≡ some x =
            ground (arith, lookup-insert a b stopped s.executions) in
          let was = v.listed b x old on in
          ground (
            arith,
            was,
            here,
            lookup-delete id x.qid s.queries,
            nat_beq_iff id x.qid,
            nat_beq_iff a b,
          )
    ];
  }

handle_finish_query-IsValid :
    (id : ℕ) (s : Session) → IsValid s → IsValid (handle_finish_query id s)
unfolding handle_finish_query
handle_finish_query-IsValid id s v = elim (Option-cases (lookup id s.queries)) [
  | inl e ↦ rw (e, handle_finish_query) v
  | inr (a, e) ↦
      let (x, at, _, _) = v.live id a e in
      rw (e, at, handle_finish_query, cancel_at) (finished-IsValid id a x s v e at)
]

with_tree-IsValid :
    (a : ℕ) (e : QueryExecution) (t : Tree) (s : Session)
    → IsValid s
    → lookup a s.executions ≡ some e
    → IsValid (with_tree a e t s)
with_tree-IsValid a e t s v at = record {
  used = λ b x p. elim (Bool-cases (a == b)) [
    | inl g ↦ let lt = v.used a e at in ground (arith, lt, nat_beq_iff a b)
    | inr g ↦ v.used b x (ground (arith, lookup-insert a b (record e { tree = t }) s.executions))
  ];
  live = λ i b p.
      let (x, there, same, on) = v.live i b p in
      elim (Bool-cases (a == b)) [
        | inl g ↦ (
          record e { tree = t },
          ground (arith, lookup-insert a b (record e { tree = t }) s.executions),
          ground (arith, there, at, same, nat_beq_iff a b),
          ground (arith, there, at, on, nat_beq_iff a b),
        )
        | inr g ↦ (
          x,
          ground (arith, there, lookup-insert a b (record e { tree = t }) s.executions),
          same,
          on,
        )
      ];
  listed = λ b x p on. elim (Bool-cases (a == b)) [
    | inl g ↦
        let same : record e { tree = t } ≡ x =
          ground (arith, lookup-insert a b (record e { tree = t }) s.executions) in
        let quiet : e.cancel_called ≡ false =
          ap (λ (y : QueryExecution). y.cancel_called) same ∙ on in
        let was = v.listed a e at quiet in
        ground (arith, was, ap (λ (y : QueryExecution). y.qid) same, nat_beq_iff a b)
    | inr g ↦
        v.listed b x (ground (arith, lookup-insert a b (record e { tree = t }) s.executions)) on
  ];
}

mutated-IsValid :
    (a : ℕ) (e : QueryExecution) (o : Out (Option Qtree.Error)) (s : Session)
    → IsValid s
    → lookup a s.executions ≡ some e
    → Keeps IsValid (mutated a e o s)
mutated-IsValid a e (Out.done none t) s v at = with_tree-IsValid a e t s v at
mutated-IsValid a e (Out.done (some err) t) s v at = with_tree-IsValid a e t s v at
mutated-IsValid a e (Out.blocked t) s v at = with_tree-IsValid a e t s v at
mutated-IsValid a e (Out.panicked t) s v at = with_tree-IsValid a e t s v at
mutated-IsValid a e Out.spent s v at = tt

pub mutate_with-IsValid :
    (m : Option TreeMutation) (s : Session) → IsValid s → Keeps IsValid (mutate_with m s)
unfolding handle_mutation
mutate_with-IsValid none s v = v
mutate_with-IsValid (some m) s v = elim (Option-cases (lookup m.query_id s.queries)) [
  | inl e ↦ rw (e, Keeps) v
  | inr (a, e) ↦
      let (x, at, _, _) = v.live m.query_id a e in
      rw (e, Keeps)
        (rw (at, Keeps)
          (mutated-IsValid a x (apply_tree_mutation (look_in s.definitions) 0 m x.tree) s v at))
]

then_finish-IsValid :
    (id : Option ℕ) (h : Handled) → Keeps IsValid h → Keeps IsValid (then_finish id h)
then_finish-IsValid none (returned none s) v = v
then_finish-IsValid (some id) (returned none s) v = handle_finish_query-IsValid id s v
then_finish-IsValid id (returned (some e) s) v = v
then_finish-IsValid id (blocked s) v = v
then_finish-IsValid id (panicked s) v = v
then_finish-IsValid id spent v = tt

-- Every message that a session handles leaves it valid, also where the call returns an error, blocks
-- or panics: the queries are the executions whose `ctxCancel` was not called, each under its own
-- id.
pub handle_message-IsValid :
    (msg : ClientMessage) (s : Session) → IsValid s → Keeps IsValid (handle_message msg s)
unfolding handle_message
handle_message-IsValid msg s v = elim (Option-cases msg.init_query) [
  | inr (id, e) ↦ rw (e, Keeps) (handle_init_query-IsValid id s v)
  | inl e ↦
      rw (e, Keeps)
        (then_finish-IsValid msg.finish_query (mutate_with msg.mutate_tree s)
          (mutate_with-IsValid msg.mutate_tree s v))
]
