-- ===== src/Client/QueryTree.antt =====
-- client/query-tree.go: the state of the query tree, and what sweeps it (query-tree-node.go). A `*Query`
-- is a number. The handler is the list of the mutations that it was given; the variables that wait to
-- be sent are those that the store's own handler was told of since the list was last emptied.
pub mod Resolve
pub mod Rules
pub mod Shape
pub mod After
pub mod Sweep
pub mod SweepNode
pub mod Collect
pub mod Flag
pub mod Lowered
pub mod Release
pub mod Linked
pub mod Valid
pub mod Detach
pub mod Visiting
pub mod Entering
pub mod Visit
pub mod Visits
pub mod Calls
pub mod Marked
pub mod Ending
pub mod Attached
pub mod Reached
mod Tests
pub mod Attach
use rgraphql.Prelude.{
  ℕ, zero, suc, ◌+◌, ◌-◌, ◌%◌, not, ◌||◌, Bool, true, false, String, Option, none, some, List, [],
  ◌∷◌, ◌++◌, map, Map, lookup, insert, nat_eq, get_elem?, length, ◌==◌, if◌then◌else◌,
}
use rgraphql.Varstore.{AstVariable, Variable, HandlerCall, VariableStore, new_variable_store}
use rgraphql.Qtree.{QueryNode}
use rgraphql.Qtree.Mutation.{SubtreeOperation, NodeMutation, TreeMutation}
use rgraphql.Resolver.Observable.{last_first}
use rgraphql.Client.QueryNode.{ObjectDef, QtNode, new_qt_node}

-- `QueryTree`; `next` is the next free address.
pub record QueryTree : Type 0 where
  pub nodes : Map ℕ QtNode
  pub next : ℕ
  pub root : ℕ
  pub store : VariableStore
  pub attached_queries : Map ℕ (List ℕ)
  pub handler : Option (List TreeMutation)
  pub next_id : ℕ

-- An operation returns, reads through nil, or was given too little fuel.
pub data Out (A : Type 0) : Type 0 where
  done : A → QueryTree → Out A
  nil_read : Out A
  spent : Out A

abbrev pub M : Type 0 → Type 0
M A = QueryTree → Out A

infixl 5 ◌>>=◌ ◌>>◌
abbrev pub ◌>>=◌ : {A B : Type 0} → M A → (A → M B) → M B
◌>>=◌ m f t = elim (m t) [ done a t' ↦ f a t' | nil_read ↦ nil_read | spent ↦ spent ]

abbrev pub ◌>>◌ : {A B : Type 0} → M A → M B → M B
m >> k = m >>= λ _. k

abbrev pub pure : {A : Type 0} → A → M A
pure a t = done a t

abbrev pub load : ℕ → M QtNode
load a t = elim (lookup a t.nodes) [ none ↦ nil_read | some n ↦ done n t ]

abbrev pub save : ℕ → QtNode → M (Unit {0})
save a n t = done tt (record t { nodes = insert a n t.nodes })

-- A read through a pointer that may be nil.
abbrev pub deref : {A : Type 0} → Option A → M A
deref none t = nil_read
deref (some a) t = done a t

-- `NewQueryTree` returns an error where the schema has no root query.
pub data Built : Type 0 where
  built : QueryTree → Built
  no_root_query : Built
  fault : Built

unfoldable pub new_query_tree : Option ObjectDef → Option (List TreeMutation) → Built
unfolding new_variable_store new_qt_node
new_query_tree none handler = no_root_query
new_query_tree (some def) handler = elim def.name [
  | none ↦ fault
  | some name ↦ built (record {
    nodes = (0, new_qt_node name def) ∷ [];
    next = 1;
    root = 0;
    store = new_variable_store (some []);
    attached_queries = [];
    handler = handler;
    next_id = 1;
  })
]

-- `HandleVariableAdded`, which keeps a copy of the variable, and `HandleVariableRemoved`, which
-- does nothing: the variables that are pending.
unfoldable pub pending_of : List Variable → List HandlerCall → List AstVariable
pending_of heap [] = []
pending_of heap (HandlerCall.removed a ∷ calls) = pending_of heap calls
pending_of heap (HandlerCall.added a ∷ calls) = elim (get_elem? heap a) [
  | none ↦ pending_of heap calls
  | some v ↦ v.ast ∷ pending_of heap calls
]

unfoldable pub pending_variables : QueryTree → List AstVariable
unfolding pending_of
pending_variables t = elim t.store.handler [
  | none ↦ []
  | some calls ↦ pending_of t.store.heap calls
]

-- `q.pendingVariables = nil`
abbrev pub clear_pending : M (Unit {0})
clear_pending t = done tt (record t { store = record t.store { handler = some [] } })

-- `q.handler.HandleMutation(mut)`, if there is a handler.
abbrev pub send : TreeMutation → M (Unit {0})
send mut t =
    done tt
      (record t { handler = elim t.handler [ none ↦ none | some muts ↦ some (muts ++ mut ∷ []) ] })

-- `flagGcNext`, on fuel for the chain of parents.
unfoldable pub flag_gc_next : ℕ → ℕ → M (Unit {0})
flag_gc_next zero a t = spent
flag_gc_next (suc f) a t =
    (do
      n ← load a
      save a (record n { gc_next = true })
      λ t'. elim n.parent [ none ↦ done tt t' | some p ↦ flag_gc_next f p t' ])
      t

-- What the loop of `gcSweep` leaves: the children that are kept, the ones that are dropped and
-- were transmitted, and what the callback was given so far.
pub record Swept : Type 0 where
  pub kept : List ℕ
  pub dropped : List ℕ
  pub purged : List ℕ

abbrev dropped_if : Bool → ℕ → List ℕ
dropped_if true c = c ∷ []
dropped_if false c = []

-- One child in front of what the rest of the loop leaves.
abbrev pub with_child : Bool → Bool → ℕ → List ℕ → Swept → Swept
with_child true xmitted c purged s = record s { kept = c ∷ s.kept; purged = purged ++ s.purged }
with_child false xmitted c purged s = record s {
  dropped = dropped_if xmitted c ++ s.dropped;
  purged = purged ++ s.purged;
}

-- The children that are left from the index on: a dropped one is replaced with the last.
abbrev pub left_over : Bool → List ℕ → List ℕ
left_over true rest = rest
left_over false rest = last_first rest

-- The loop of `gcSweep`, with the recursive call and the rounds that are left.
unfoldable pub sweep_children : (ℕ → M (Bool × List ℕ)) → ℕ → List ℕ → M Swept
sweep_children rec rounds [] t = done (record { kept = []; dropped = []; purged = [] }) t
sweep_children rec zero (c ∷ rest) t = spent
sweep_children rec (suc rounds) (c ∷ rest) t =
    (do
      r ← rec c
      child ← load c
      s ← sweep_children rec rounds (left_over r.0 rest)
      pure (with_child r.0 child.xmitted c r.1 s))
      t

-- Whether a node is referenced: the root always is.
abbrev pub is_referenced : QtNode → Bool
is_referenced n = not (n.ref_count == 0) || elim n.parent [ none ↦ true | some p ↦ false ]

abbrev pub purged_with : Bool → List ℕ → List ℕ → List ℕ
purged_with true purged dropped = purged ++ dropped
purged_with false purged dropped = purged

-- `qtNode.gcSweep`, on fuel for the depth: whether the node is referenced, and what the callback was
-- given.
unfoldable pub sweep : ℕ → ℕ → M (Bool × List ℕ)
sweep zero a t = spent
sweep (suc f) a t =
    (load a >>= λ n. λ t1. elim n.gc_next [
      | false ↦ done (is_referenced n, []) t1
      | true ↦
          (do
            save a (record n { gc_next = false })
            s ← sweep_children (λ c. sweep f c) (length n.children) n.children
            now ← load a
            save a (record now { children = s.kept })
            pure (is_referenced n, purged_with (is_referenced n) s.purged s.dropped))
            t1
    ])
      t

-- The messages for the nodes that are purged.
unfoldable pub deletions : List ℕ → M (List NodeMutation)
deletions [] t = done [] t
deletions (a ∷ more) t =
    (do
      n ← load a
      rest ← deletions more
      pure (
          record { node_id = n.id; operation = SubtreeOperation.subtree_delete; node = none }
          ∷ rest))
      t

-- `QueryTree.gcSweep`
unfoldable pub gc_sweep : ℕ → M (Unit {0})
gc_sweep f t =
    (sweep f t.root >>= λ r. λ t1. elim r.1 [
      | [] ↦ done tt t1
      | a ∷ more ↦
          (do
            muts ← deletions (a ∷ more)
            send (record { query_id = 0; node_mutation = muts; variables = [] }))
            t1
    ])
      t
