-- ===== src/Varstore.antt =====
-- varstore/varstore.go: the store that de-duplicates variables and counts references to them.
-- A `*Variable` is an address into `heap`, since a handle keeps its variable when the store does
-- not. Each method runs under the store's mutex and is one step.
pub mod Valid
pub mod References
pub mod Sharing
pub mod Collect
pub mod Allocation
mod Tests
use mathlib.Core.Option
use rgraphql.Prelude.{
  ℕ, ◌+◌, ◌%◌, ◌^◌, Bool, true, false, Option, none, some, List, [], ◌∷◌, ◌++◌, ltb, ◌==◌, nat_eq,
  if◌then◌else◌, Map, lookup, insert, delete, length, get_elem?, set,
}
use rgraphql.Types.Primitive.{Primitive}
use rgraphql.Types.PrimEquiv.{is_prim_equiv}

-- `proto.ASTVariable`
pub record AstVariable : Type 0 where
  pub id : ℕ
  pub value : Option Primitive

-- The handles in `references` are never read back, so a key suffices.
pub record Variable : Type 0 where
  pub ast : AstVariable
  pub reference_ctr : ℕ
  pub references : Map ℕ (Unit {0})

-- `closed` is the state of the handle's `sync.Once`.
pub record VariableReference : Type 0 where
  pub ref_id : ℕ
  pub vb : ℕ
  pub closed : Bool

-- The calls of a `VariableStoreHandler`, with the address of the variable.
pub data HandlerCall : Type 0 where
  added : ℕ → HandlerCall
  removed : ℕ → HandlerCall

-- `handler` is `none` where the handler is nil, and else lists the calls made of it.
pub record VariableStore : Type 0 where
  pub next_id : ℕ
  pub variables : Map ℕ ℕ
  pub heap : List Variable
  pub handler : Option (List HandlerCall)

-- uint32 arithmetic wraps
abbrev pub u32 : ℕ → ℕ
u32 n = n % 4294967296

unfoldable pub new_variable_store : Option (List HandlerCall) → VariableStore
new_variable_store handler = record { next_id = 1; variables = []; heap = []; handler = handler }

abbrev pub new_variable : AstVariable → Variable
new_variable varb = record { ast = varb; reference_ctr = 0; references = [] }

abbrev pub notify : HandlerCall → Option (List HandlerCall) → Option (List HandlerCall)
notify call none = none
notify call (some calls) = some (calls ++ call ∷ [])

-- A new variable on the heap, under its id in the map, and the handler told.
unfoldable pub add_variable : AstVariable → VariableStore → VariableStore
add_variable varb vs = record vs {
  heap = vs.heap ++ new_variable varb ∷ [];
  variables = insert varb.id (length vs.heap) vs.variables;
  handler = notify (added (length vs.heap)) vs.handler;
}

-- `VariableStore.Put`
unfoldable pub put : AstVariable → VariableStore → VariableStore
put varb vs =
    let vs' : VariableStore = elim (lookup varb.id vs.variables) [
      | none ↦ add_variable varb vs
      | some a ↦ vs
    ] in
    record vs' { next_id = if ltb vs'.next_id varb.id then u32 (varb.id + 1) else vs'.next_id }

-- `Variable.AddReference`; the result is `none` only at an address that is not on the heap.
unfoldable pub add_reference : ℕ → VariableStore → VariableStore × Option VariableReference
add_reference a vs = elim (get_elem? vs.heap a) [
  | none ↦ (vs, none)
  | some v ↦
      let id = u32 (v.reference_ctr + 1) in
      (
        record vs {
          heap =
              set vs.heap a
                (record v { reference_ctr = id; references = insert id tt v.references });
        },
        some (record { ref_id = id; vb = a; closed = false }),
      )
]

-- `VariableStore.Get`
unfoldable pub get : ℕ → VariableStore → VariableStore × Option VariableReference
get id vs = elim (lookup id vs.variables) [ none ↦ (vs, none) | some a ↦ add_reference a vs ]

-- `ev.GetValue()` of the variable at an address
unfoldable pub value_at : List Variable → ℕ → Option Primitive
value_at heap a = elim (get_elem? heap a) [ none ↦ none | some v ↦ v.ast.value ]

-- The loop of `GetOrPutWithValue`: the first variable with an equivalent value. `same a` says
-- whether the variable at `a` holds the very pointer that is looked for.
unfoldable pub find_equiv : (ℕ → Bool) → Option Primitive → List Variable → Map ℕ ℕ → Option ℕ
unfolding value_at
find_equiv same val heap [] = none
find_equiv same val heap ((id, a) ∷ m) =
    let rest = find_equiv same val heap m in
    if is_prim_equiv (same a) val (value_at heap a) then some a else rest

-- `VariableStore.GetOrPutWithValue`: the list of the map is in the order in which this call ranges over
-- it. The order differs from call to call, so the next call may find the same entries in any other.
unfoldable pub get_or_put_with_value :
    (ℕ → Bool) → Option Primitive → VariableStore → VariableStore × Option VariableReference
get_or_put_with_value same val vs = elim (find_equiv same val vs.heap vs.variables) [
  | some a ↦ add_reference a vs
  | none ↦
      let nid = vs.next_id in
      add_reference (length vs.heap) (
        add_variable (record { id = nid; value = val })
          (record vs { next_id = u32 (vs.next_id + 1) }))
]

-- `Variable.HasReferences`, for the variable at an address
unfoldable pub has_references : List Variable → ℕ → Bool
has_references heap a = elim (get_elem? heap a) [
  | none ↦ false
  | some v ↦ ltb 0 (length v.references)
]

-- The loop of `GarbageCollect` over the entries of the map.
unfoldable pub sweep : Map ℕ ℕ → VariableStore → VariableStore
sweep [] vs = vs
sweep ((id, a) ∷ m) vs = sweep m (
    if has_references vs.heap a
    then vs
    else record vs { variables = delete id vs.variables; handler = notify (removed a) vs.handler })

-- `VariableStore.GarbageCollect`
unfoldable pub garbage_collect : VariableStore → VariableStore
garbage_collect vs = sweep vs.variables vs

-- `VariableReference.Unsubscribe`
unfoldable pub unsubscribe : VariableReference → VariableStore → VariableStore × VariableReference
unsubscribe r vs = if r.closed then (vs, r) else (
  elim (get_elem? vs.heap r.vb) [
    | none ↦ vs
    | some v ↦ record vs {
      heap = set vs.heap r.vb (record v { references = delete r.ref_id v.references });
    }
  ],
  record r { closed = true },
)

-- `VariableReference.GetValue`
unfoldable pub get_value : VariableReference → VariableStore → Option Primitive
unfolding value_at
get_value r vs = value_at vs.heap r.vb

-- `VariableReference.GetVarID`
unfoldable pub get_var_id : VariableReference → VariableStore → Option ℕ
get_var_id r vs = Option.map (λ v. v.ast.id) (get_elem? vs.heap r.vb)
