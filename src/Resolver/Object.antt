-- ===== src/Resolver/Object.antt =====
-- resolver/resolve-object.go: `ResolveObject` for the context `x` at `c`, over the updates of its query
-- node. `has` says whether there is a resolver for the name of a field, and the `go` statements are the
-- list of the contexts that they are given.
pub mod Process
pub mod Accounted
pub mod Active
use rgraphql.Prelude.{
  ℕ, ◌+◌, Bool, true, false, String, Option, none, some, List, [], ◌∷◌, ◌++◌, Map, lookup, insert,
  delete, nat_eq,
}
use rgraphql.Resolver.Context.{Context, Contexts, Out, done, nil_read, spent, field_child, purge}

-- A child of the query node, with its id.
pub record Child : Type 0 where
  pub id : ℕ
  pub field_name : String

pub data Update : Type 0 where
  add_child : Child → Update
  del_child : ℕ → Update
  error : Update
  deleted : Update

-- The contexts with what `ResolveObject` keeps: `field_cancels` has the context whose `Purge` is kept.
pub record Fields : Type 0 where
  pub contexts : Contexts
  pub field_cancels : Map ℕ ℕ
  pub started : List ℕ

-- The loop goes on or has returned, or a nil context is read.
pub data Loop : Type 0 where
  running : Fields → Loop
  ended : Fields → Loop
  fault : Loop

abbrev pub after_purge : Out → (Contexts → Loop) → Loop
after_purge (done s) f = f s
after_purge (nil_read s) f = fault
after_purge spent f = fault

abbrev pub begin_field : Child → Contexts × ℕ → Fields → Fields
begin_field child made s = record s {
  contexts = made.0;
  field_cancels = insert child.id made.1 s.field_cancels;
  started = s.started ++ made.1 ∷ [];
}

module _ (has : String → Bool) (c : ℕ) (x : Context) where
  -- `processChild`
  unfoldable pub process_child : Child → Fields → Fields
  unfolding field_child
  process_child child s = elim (has child.field_name) [
    | false ↦ s
    | true ↦ begin_field child (field_child c x child.id s.contexts) s
  ]

  unfoldable pub process_children : List Child → Fields → Fields
  process_children [] s = s
  process_children (child ∷ more) s = process_children more (process_child child s)

  -- One round of the loop that gets an update.
  unfoldable pub handle_update : Update → Fields → Loop
  unfolding purge
  handle_update (add_child child) s = running (process_child child s)
  handle_update (del_child id) s = elim (lookup id s.field_cancels) [
    | none ↦ running s
    | some k ↦
        after_purge (purge k s.contexts)
          (λ t. running (record s { contexts = t; field_cancels = delete id s.field_cancels }))
  ]
  handle_update error s = running s
  handle_update deleted s =
      after_purge (purge c s.contexts) (λ t. ended (record s { contexts = t }))

  -- The rounds, until the node is deleted or no update is left.
  unfoldable pub handle_updates : List Update → Fields → Loop
  handle_updates [] s = running s
  handle_updates (u ∷ us) s = elim (handle_update u s) [
    | running t ↦ handle_updates us t
    | ended t ↦ ended t
    | fault ↦ fault
  ]

  -- `ResolveObject` on the children that there are and then on the updates.
  unfoldable pub resolve_object : List Child → List Update → Contexts → Loop
  resolve_object children updates contexts =
      handle_updates updates (
        process_children children
          (record { contexts = contexts; field_cancels = []; started = [] }))
