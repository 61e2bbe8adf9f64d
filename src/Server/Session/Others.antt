-- ===== src/Server/Session/Others.antt =====
-- What a message to a session leaves alone.

use rgraphql.Prelude.{
  ℕ, ◌+◌, true, false, Option, none, some, [], ◌∷◌, ◌++◌, ◌≡◌, ◌≢◌, refl, arith, lookup, insert,
  lookup-insert, lookup-delete, nat_eq, nat_beq_iff, Bool-cases, Option-cases, inl, inr, ◌==◌,
}
use rgraphql.Qtree
use rgraphql.Qtree.{Tree, Out}
use rgraphql.Qtree.Mutation.{TreeMutation, apply_tree_mutation}
use rgraphql.Server.Session.{
  SessionError, BuiltTree, built, failed, build_query_tree, QueryExecution, Session, Handled,
  returned, blocked, panicked, spent, refuse, handle_init_query, cancel_at, handle_finish_query,
  ClientMessage, look_in, with_tree, mutated, handle_mutation, mutate_with, then_finish,
  handle_message,
}
use rgraphql.Server.Session.Valid.{mutate_with-IsValid}
use rgraphql.Server.Session.Live.{IsValid, Keeps, send_lem}

-- The query `p` has the execution `x` at the address `a`.
abbrev pub Runs : ℕ → ℕ → QueryExecution → Session → Type 0
Runs p a x s = (lookup p s.queries ≡ some a) × (lookup a s.executions ≡ some x)

module _ (p a : ℕ) (x : QueryExecution) where
  -- Two queries have two executions.
  apart :
      (q b : ℕ) (s : Session)
      → IsValid s
      → Runs p a x s
      → p ≢ q
      → lookup q s.queries ≡ some b
      → (b == a) ≡ false
  apart q b s v (here, at) ne there = elim (Bool-cases (b == a)) [
    | inr e ↦ e
    | inl e ↦
        let (y, yat, ysame, _) = v.live q b there in
        let (z, zat, zsame, _) = v.live p a here in
        absurd (ne (ground (arith, yat, zat, ysame, zsame, nat_beq_iff b a)))
  ]

  Runs-begin :
      (id : ℕ) (qt : Tree) (s : Session)
      → IsValid s
      → lookup id s.queries ≡ none
      → Runs p a x s
      → Runs p a x (record s {
        executions =
            insert s.next (record { qid = id; tree = qt; cancel_called = false }) s.executions;
        queries = insert id s.next s.queries;
        next = s.next + 1;
        started = s.started ++ s.next ∷ [];
      })
  Runs-begin id qt s v new (here, at) =
      let e : QueryExecution = record { qid = id; tree = qt; cancel_called = false } in
      let lt = v.used a x at in
      (
        ground (arith, here, new, lookup-insert id p s.next s.queries, nat_beq_iff id p),
        ground (arith, at, lt, lookup-insert s.next a e s.executions, nat_beq_iff s.next a),
      )

  Runs-init :
      (id : ℕ) (s : Session)
      → IsValid s
      → Runs p a x s
      → Keeps (Runs p a x) (handle_init_query id s)
  unfolding handle_init_query
  Runs-init id s v r = elim (Option-cases (lookup id s.queries)) [
    | inr (b, e) ↦
        rw (e, Keeps)
          (send_lem (Runs p a x) (record { query_id = id; error = SessionError.duplicate_query_id })
            s r r)
    | inl e ↦ rw (e, Keeps) (by_tree (build_query_tree s.definitions 10) e)
  ]
    where
      by_tree :
          (b : BuiltTree)
          → lookup id s.queries ≡ none
          → Keeps (Runs p a x) (elim b [
            | failed e ↦ refuse id e s
            | built qt ↦ returned none (record s {
              executions =
                  insert s.next
                    (record { qid = id; tree = qt; cancel_called = false })
                    s.executions;
              queries = insert id s.next s.queries;
              next = s.next + 1;
              started = s.started ++ s.next ∷ [];
            })
          ])
      by_tree (failed e) new = send_lem (Runs p a x) (record { query_id = id; error = e }) s r r
      by_tree (built qt) new = Runs-begin id qt s v new r

  Runs-finish :
      (id : ℕ) (s : Session)
      → IsValid s
      → p ≢ id
      → Runs p a x s
      → Runs p a x (handle_finish_query id s)
  unfolding handle_finish_query
  Runs-finish id s v ne (here, at) = elim (Option-cases (lookup id s.queries)) [
    | inl e ↦ rw (e, handle_finish_query) (here, at)
    | inr (b, e) ↦
        let (y, there, _, _) = v.live id b e in
        let off = apart id b s v (here, at) ne e in
        rw (e, there, handle_finish_query, cancel_at)
          (
            ground (arith, here, ne, lookup-delete id p s.queries, nat_beq_iff id p),
            ground (
              arith,
              at,
              off,
              lookup-insert b a (record y { cancel_called = true }) s.executions,
            ),
          )
  ]

  Runs-mutated :
      (b : ℕ) (e : QueryExecution) (o : Out (Option Qtree.Error)) (s : Session)
      → (b == a) ≡ false
      → Runs p a x s
      → Keeps (Runs p a x) (mutated b e o s)
  Runs-mutated b e o s off (here, at) = by_outcome o
    where
      other : (t : Tree) → Runs p a x (with_tree b e t s)
      other t =
          (here, ground (arith, at, off, lookup-insert b a (record e { tree = t }) s.executions))

      by_outcome : (o : Out (Option Qtree.Error)) → Keeps (Runs p a x) (mutated b e o s)
      by_outcome (Out.done none t) = other t
      by_outcome (Out.done (some err) t) = other t
      by_outcome (Out.blocked t) = other t
      by_outcome (Out.panicked t) = other t
      by_outcome Out.spent = tt

-- The message does not change the query: it neither mutates nor finishes it.
abbrev pub Spares : ℕ → ClientMessage → Type 0
Spares p msg =
    ((m : TreeMutation) → msg.mutate_tree ≡ some m → p ≢ m.query_id)
    × ((id : ℕ) → msg.finish_query ≡ some id → p ≢ id)

module _ (p a : ℕ) (x : QueryExecution) where
  Runs-mutate :
      (m : Option TreeMutation) (s : Session)
      → IsValid s
      → ((n : TreeMutation) → m ≡ some n → p ≢ n.query_id)
      → Runs p a x s
      → Keeps (Runs p a x) (mutate_with m s)
  unfolding handle_mutation
  Runs-mutate none s v ne r = r
  Runs-mutate (some m) s v ne r = elim (Option-cases (lookup m.query_id s.queries)) [
    | inl e ↦ rw (e, Keeps) r
    | inr (b, e) ↦
        let (y, at, _, _) = v.live m.query_id b e in
        rw (e, Keeps)
          (rw (at, Keeps)
            (Runs-mutated p a x b y (apply_tree_mutation (look_in s.definitions) 0 m y.tree) s
              (apart p a x m.query_id b s v r (ne m refl) e) r))
  ]

  Runs-then_finish :
      (id : Option ℕ) (h : Handled)
      → ((i : ℕ) → id ≡ some i → p ≢ i)
      → Keeps IsValid h
      → Keeps (Runs p a x) h
      → Keeps (Runs p a x) (then_finish id h)
  Runs-then_finish none (returned none s) ne v r = r
  Runs-then_finish (some id) (returned none s) ne v r = Runs-finish p a x id s v (ne id refl) r
  Runs-then_finish id (returned (some e) s) ne v r = r
  Runs-then_finish id (blocked s) ne v r = r
  Runs-then_finish id (panicked s) ne v r = r
  Runs-then_finish id spent ne v r = tt

-- A message to a valid session that neither mutates nor finishes a query leaves that query with its
-- execution, tree included, as it was, whatever the message does to other queries, also where the
-- call returns an error, blocks or panics, and also where it asks for a query of the same id.
pub handle_message-Runs :
    (p a : ℕ) (x : QueryExecution) (msg : ClientMessage) (s : Session)
    → IsValid s
    → Spares p msg
    → Runs p a x s
    → Keeps (Runs p a x) (handle_message msg s)
unfolding handle_message
handle_message-Runs p a x msg s v (mutates, finishes) r = elim (Option-cases msg.init_query) [
  | inr (id, e) ↦ rw (e, Keeps) (Runs-init p a x id s v r)
  | inl e ↦
      rw (e, Keeps)
        (Runs-then_finish p a x msg.finish_query (mutate_with msg.mutate_tree s) finishes
          (mutate_with-IsValid msg.mutate_tree s v)
          (Runs-mutate p a x msg.mutate_tree s v mutates r))
]
