-- ===== src/Resolver/Context.antt =====
-- resolver/context.go, resolve-value.go, resolve-error.go and the two loops over slices. A `*Context`
-- is an address into `contexts`; the value writer is the list of what was written to it.
pub mod Shape
pub mod Final
use rgraphql.Prelude.{
  ℕ, zero, suc, ◌+◌, ◌-◌, ◌%◌, Bool, true, false, String, Option, none, some, List, [], ◌∷◌, ◌++◌,
  Map, lookup, insert, nat_eq, string_eq, ltb, ◌==◌, if◌then◌else◌,
}
use rgraphql.Varstore.{VariableReference}
use rgraphql.Qtree.{QueryTreeNode}
use rgraphql.Resolver.Value.{RgqlValue, zero_value, Value, build_error_value}

-- `canceled` says whether the cancellation function of this context was called.
pub record Context : Type 0 where
  pub qnode : ℕ
  pub path_parent : Option ℕ
  pub path_component : Option RgqlValue
  pub is_final : Bool
  pub active_children : ℕ
  pub canceled : Bool

pub record Contexts : Type 0 where
  pub contexts : Map ℕ Context
  pub next : ℕ
  pub written : List Value

-- A method returns, reads through nil, or was given too little fuel.
pub data Out : Type 0 where
  done : Contexts → Out
  nil_read : Contexts → Out
  spent : Out

abbrev pub with_context : ℕ → Contexts → (Context → Out) → Out
with_context c s f = elim (lookup c s.contexts) [ none ↦ nil_read s | some x ↦ f x ]

abbrev pub write_context : ℕ → Context → Contexts → Contexts
write_context c x s = record s { contexts = insert c x s.contexts }

abbrev pub alloc : Context → Contexts → Contexts × ℕ
alloc x s = (record s { contexts = insert s.next x s.contexts; next = s.next + 1 }, s.next)

-- `NewContext`
unfoldable pub new_context : ℕ → Contexts → Contexts × ℕ
new_context qnode s =
    alloc
      (record {
        qnode = qnode;
        path_parent = none;
        path_component = none;
        is_final = false;
        active_children = 0;
        canceled = false;
      })
      s

-- The parent in the chain of path components: the context itself if it has one.
abbrev pub chain_parent : ℕ → Context → Option ℕ
chain_parent c x = elim x.path_component [ none ↦ x.path_parent | some pc ↦ some c ]

abbrev pub child_of : ℕ → Context → Option RgqlValue → Context
child_of c x pc = record {
  qnode = x.qnode;
  path_parent = chain_parent c x;
  path_component = pc;
  is_final = false;
  active_children = 1;
  canceled = false;
}

-- `baseChild` of the context `x` at `c`
unfoldable pub base_child : ℕ → Context → Option RgqlValue → Contexts → Contexts × ℕ
base_child c x pc s = alloc (child_of c x pc) s

-- `FieldChild`
unfoldable pub field_child : ℕ → Context → ℕ → Contexts → Contexts × ℕ
field_child c x qnode s =
    alloc
      (record (child_of c x (some (record zero_value { query_node_id = qnode }))) { qnode = qnode })
      s

-- `ArrayChild`; `index + 1` wraps at 32 bits.
unfoldable pub array_child : ℕ → Context → ℕ → Contexts → Contexts × ℕ
unfolding base_child
array_child c x index s =
    base_child c x (some (record zero_value { array_index = (index + 1) % 4294967296 })) s

-- `VirtualChild`
unfoldable pub virtual_child : ℕ → Context → Contexts → Contexts × ℕ
unfolding base_child
virtual_child c x s = base_child c x none s

-- `markChildFinal`, on fuel for the chain of parents.
unfoldable pub mark_child_final : ℕ → ℕ → Contexts → Out
mark_child_final zero c s = spent
mark_child_final (suc f) c s = with_context c s λ x.
    let left = x.active_children - 1 in
    elim (left == 0) [
      | false ↦ done (write_context c (record x { active_children = left }) s)
      | true ↦
          let s' : Contexts =
            write_context c (record x { active_children = 0; is_final = true }) s in
          elim x.path_parent [ none ↦ done s' | some p ↦ mark_child_final f p s' ]
    ]

-- `MarkFinal`
unfoldable pub mark_final : ℕ → ℕ → Contexts → Out
mark_final f c s = with_context c s λ x. elim x.is_final [
  | true ↦ done s
  | false ↦
      let s' : Contexts = write_context c (record x { is_final = true }) s in
      elim x.path_parent [ none ↦ done s' | some p ↦ mark_child_final f p s' ]
]

abbrev then_write : ℕ → Value → Out → Out
then_write c val (done s) =
    done (record s { written = s.written ++ record val { context = some c } ∷ [] })
then_write c val (nil_read s) = nil_read s
then_write c val spent = spent

-- `Context.WriteValue`, on fuel for the chain of parents; a call on a nil context reads nil.
unfoldable pub write_value : ℕ → Option ℕ → Value → Bool → Contexts → Out
write_value zero c val final s = spent
write_value (suc f) none val final s = nil_read s
write_value (suc f) (some c) val final s = with_context c s λ x. elim x.path_component [
  | none ↦ write_value f x.path_parent val final s
  | some pc ↦ then_write c val (if final then mark_final f c s else done s)
]

-- `Context.SetError`
unfoldable pub set_error : ℕ → ℕ → String → Contexts → Out
unfolding build_error_value
set_error f c err s = write_value f (some c) (build_error_value err) true s

-- `ResolveValue`
unfoldable pub resolve_value : ℕ → ℕ → Bool → Value → Contexts → Out
resolve_value f c final val s = write_value f (some c) val final s

-- The error that a resolver returns.
pub data ResolverError : Type 0 where
  nil : ResolverError
  canceled : ResolverError
  failure : String → ResolverError

-- `ResolveError`
unfoldable pub resolve_error : ℕ → ℕ → ResolverError → Contexts → Out
resolve_error f c ResolverError.nil s = mark_final f c s
resolve_error f c ResolverError.canceled s = mark_final f c s
resolve_error f c (ResolverError.failure err) s = set_error f c err s

-- `Purge`
unfoldable pub purge : ℕ → Contexts → Out
purge c s = with_context c s λ x. done (write_context c (record x { canceled = true }) s)

-- The loop of `ResolveValueSlice`: `rounds` are left, and i is the index.
unfoldable pub resolve_value_slice : ℕ → ℕ → (ℕ → Value) → ℕ → ℕ → Contexts → Out
resolve_value_slice f c index_resolver i zero s = done s
resolve_value_slice f c index_resolver i (suc rounds) s = with_context c s λ x.
    let (s', child) = array_child c x i s in
    elim (write_value f (some child) (index_resolver i) (rounds == 0) s') [
      | done s'' ↦ resolve_value_slice f c index_resolver (i + 1) rounds s''
      | nil_read s'' ↦ nil_read s''
      | spent ↦ spent
    ]

-- The loop of `ResolveSlice`, with the function that resolves the element at an index.
unfoldable pub resolve_slice : ℕ → (ℕ → ℕ → Contexts → Out) → ℕ → ℕ → Contexts → Out
resolve_slice c resolve_func i zero s = done s
resolve_slice c resolve_func i (suc rounds) s = with_context c s λ x.
    let (s', child) = array_child c x i s in
    elim (resolve_func child i s') [
      | done s'' ↦ resolve_slice c resolve_func (i + 1) rounds s''
      | nil_read s'' ↦ nil_read s''
      | spent ↦ spent
    ]

-- `GetQueryArgument`, for the query node of a context.
unfoldable pub get_query_argument : Option QueryTreeNode → String → Option VariableReference
get_query_argument none arg_name = none
get_query_argument (some node) arg_name = elim node.arguments [
  | none ↦ none
  | some arguments ↦ lookup arg_name arguments
]
