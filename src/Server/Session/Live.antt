-- ===== src/Server/Session/Live.antt =====
-- The queries of a session and the executions that run, and how a query begins.

use rgraphql.Prelude.{
  ℕ, ◌+◌, ◌<◌, Bool, true, false, none, some, [], ◌∷◌, ◌++◌, ◌≡◌, refl, arith, lookup, insert,
  lookup-insert, nat_eq, nat_beq_iff, Bool-cases, Option-cases, inl, inr, ◌==◌,
}
use rgraphql.Qtree.{Tree}
use rgraphql.Server.Session.{
  SessionError, BuiltTree, built, failed, build_query_tree, QueryExecution, ErrorMessage, Session,
  send, Handled, returned, blocked, panicked, spent, refuse, handle_init_query,
}

-- Every query has an execution of its id that is not cancelled, and every execution that is not
-- cancelled is that of a query; the addresses from `next` on are free.
pub record IsValid (s : Session) : Type 0 where
  pub used : (a : ℕ) (e : QueryExecution) → lookup a s.executions ≡ some e → a < s.next
  pub live :
      (id a : ℕ)
      → lookup id s.queries ≡ some a
      → (e : QueryExecution) × (lookup a s.executions ≡ some e)
        × (e.qid ≡ id)
        × (e.cancel_called ≡ false)
  pub listed :
      (a : ℕ) (e : QueryExecution)
      → lookup a s.executions ≡ some e
      → e.cancel_called ≡ false
      → lookup e.qid s.queries ≡ some a

-- P holds of the session that is left, with the call returned or not.
abbrev pub Keeps : (Session → Type 0) → Handled → Type 0
Keeps P (returned r s) = P s
Keeps P (blocked s) = P s
Keeps P (panicked s) = P s
Keeps P spent = Unit

pub send_lem :
    (P : Session → Type 0) (msg : ErrorMessage) (s : Session)
    → P s
    → P (record s { sent = s.sent ++ msg ∷ [] })
    → P (send msg s)
unfolding send
send_lem P msg s h k = by_done s.client_done s.late
  where
    by_done :
        (d l : Bool)
        → P (elim d [
          | false ↦ record s { sent = s.sent ++ msg ∷ [] }
          | true ↦ elim l [ false ↦ s | true ↦ record s { sent = s.sent ++ msg ∷ [] } ]
        ])
    by_done false l = k
    by_done true false = h
    by_done true true = k

refuse-IsValid :
    (id : ℕ) (e : SessionError) (s : Session) → IsValid s → Keeps IsValid (refuse id e s)
refuse-IsValid id e s v =
    send_lem IsValid (record { query_id = id; error = e }) s v
      (record { used = v.used; live = v.live; listed = v.listed })

module _ (id : ℕ) (qt : Tree) (s : Session) where
  abbrev execution : QueryExecution
  execution = record { qid = id; tree = qt; cancel_called = false }

  abbrev begun : Session
  begun = record s {
    executions = insert s.next execution s.executions;
    queries = insert id s.next s.queries;
    next = s.next + 1;
    started = s.started ++ s.next ∷ [];
  }

  begun-IsValid : IsValid s → lookup id s.queries ≡ none → IsValid begun
  begun-IsValid v new = record {
    used = λ a e p. elim (Bool-cases (s.next == a)) [
      | inl g ↦ ground (arith, nat_beq_iff s.next a)
      | inr g ↦
          let old : lookup a s.executions ≡ some e =
            ground (arith, lookup-insert s.next a execution s.executions) in
          omega (arith, v.used a e old)
    ];
    live = λ i a p. elim (Bool-cases (id == i)) [
      | inl g ↦
          let here : s.next ≡ a = ground (arith, lookup-insert id i s.next s.queries) in
          (
            execution,
            ground
                (arith, here, lookup-insert s.next a execution s.executions, nat_beq_iff s.next a),
            (nat_beq_iff id i).0 g,
            refl,
          )
      | inr g ↦
          let (e, at, same, on) =
            v.live i a (ground (arith, lookup-insert id i s.next s.queries)) in
          let lt = v.used a e at in
          (
            e,
            ground (
              arith,
              lt,
              at,
              lookup-insert s.next a execution s.executions,
              nat_beq_iff s.next a,
            ),
            same,
            on,
          )
    ];
    listed = λ a e p on. elim (Bool-cases (s.next == a)) [
      | inl g ↦
          let same : execution ≡ e =
            ground (arith, lookup-insert s.next a execution s.executions) in
          ground (
            arith,
            same,
            lookup-insert id e.qid s.next s.queries,
            nat_beq_iff id e.qid,
            nat_beq_iff s.next a,
          )
      | inr g ↦
          let old : lookup e.qid s.queries ≡ some a =
            v.listed a e (ground (arith, lookup-insert s.next a execution s.executions)) on in
          ground (arith, old, new, lookup-insert id e.qid s.next s.queries, nat_beq_iff id e.qid)
    ];
  }

pub handle_init_query-IsValid :
    (id : ℕ) (s : Session) → IsValid s → Keeps IsValid (handle_init_query id s)
unfolding handle_init_query
handle_init_query-IsValid id s v = elim (Option-cases (lookup id s.queries)) [
  | inr (a, e) ↦ rw (e, Keeps) (refuse-IsValid id SessionError.duplicate_query_id s v)
  | inl e ↦ rw (e, Keeps) (by_tree (build_query_tree s.definitions 10) e)
]
  where
    by_tree :
        (b : BuiltTree)
        → lookup id s.queries ≡ none
        → Keeps IsValid
            (elim b [ failed e ↦ refuse id e s | built qt ↦ returned none (begun id qt s) ])
    by_tree (failed e) new = refuse-IsValid id e s v
    by_tree (built qt) new = begun-IsValid id qt s v new

-- The execution of the query is cancelled, and the query is removed.
