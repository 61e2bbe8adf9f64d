-- ===== src/Varstore/Collect.antt =====
-- Garbage collection: what it keeps, what it drops and what it tells the handler.
use rgraphql.Prelude.{
  ℕ, Bool, Option, none, some, [], ◌∷◌, ◌≡◌, refl, arith, nat_eq, nat_beq_iff, if◌then◌else◌, Map,
  IsMap, lookup, lookup-delete, delete,
}
use rgraphql.Varstore.{VariableStore, sweep, garbage_collect, has_references, notify, HandlerCall}
use rgraphql.Varstore.Valid.{IsValid}

-- The entry that collection leaves of one entry of the map.
abbrev pub survives : (ℕ → Bool) → Option ℕ → Option ℕ
survives referenced none = none
survives referenced (some a) = if referenced a then some a else none

-- The store after one entry is collected.
abbrev without : ℕ → ℕ → VariableStore → VariableStore
without id a vs = record vs {
  variables = delete id vs.variables;
  handler = notify (HandlerCall.removed a) vs.handler;
}

heap-sweep : (m : Map ℕ ℕ) (vs : VariableStore) → (sweep m vs).heap ≡ vs.heap
unfolding sweep
heap-sweep [] vs = refl
heap-sweep ((id, a) ∷ m) vs = ground (arith, heap-sweep m vs, heap-sweep m (without id a vs))

next_id-sweep : (m : Map ℕ ℕ) (vs : VariableStore) → (sweep m vs).next_id ≡ vs.next_id
unfolding sweep
next_id-sweep [] vs = refl
next_id-sweep ((id, a) ∷ m) vs =
    ground (arith, next_id-sweep m vs, next_id-sweep m (without id a vs))

-- What one pass over the entries `m` does to the entry that the map has for `k`.
abbrev swept : (ℕ → Bool) → Option ℕ → Option ℕ → Option ℕ
swept referenced none old = old
swept referenced (some a) old = if referenced a then old else none

lookup-sweep :
    (k : ℕ) (m : Map ℕ ℕ) (vs : VariableStore)
    → IsMap m
    → lookup k (sweep m vs).variables
      ≡ swept (has_references vs.heap) (lookup k m) (lookup k vs.variables)
unfolding sweep lookup
lookup-sweep k [] vs d = refl
lookup-sweep k ((id, a) ∷ m) vs d = ground (
  arith,
  lookup-sweep k m vs d.1,
  lookup-sweep k m (without id a vs) d.1,
  nat_beq_iff id k,
  lookup-delete id k vs.variables,
)

-- Collection keeps exactly the entries whose variable has a reference; the variables themselves and
-- the next id stay as they were.
pub lookup-garbage_collect :
    (vs : VariableStore)
    → IsValid vs
    → ((k : ℕ)
        → lookup k (garbage_collect vs).variables
          ≡ survives (has_references vs.heap) (lookup k vs.variables))
      × ((garbage_collect vs).heap ≡ vs.heap)
      × ((garbage_collect vs).next_id ≡ vs.next_id)
unfolding garbage_collect
lookup-garbage_collect vs h = (
  λ k. ground (arith, lookup-sweep k vs.variables vs h.distinct),
  heap-sweep vs.variables vs,
  next_id-sweep vs.variables vs,
)
