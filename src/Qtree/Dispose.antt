-- ===== src/Qtree/Dispose.antt =====
-- `removeChild` and `Dispose` of qtree/qtree.go.
pub mod Closed
pub mod Steps
pub mod Total
pub mod Skips
pub mod Second
pub mod Acyclic
pub mod Cleared
use rgraphql.Prelude.{
  ℕ, zero, suc, ◌+◌, ◌-◌, Bool, true, false, String, Option, none, some, List, [], ◌∷◌, Map, lookup,
  insert, delete, nat_eq, get_elem?, ◌==◌, if◌then◌else◌,
}
use rgraphql.Varstore.{VariableReference, VariableStore}
use rgraphql.Qtree.{
  QtNodeOperation, QueryTreeNode, Tree, Out, done, blocked, panicked, spent, ◌>>=◌, with_node,
  write_node,
}
use rgraphql.Qtree.AddChild.{unsubscribe_all}
use rgraphql.Qtree.Subscribe.{next_update}

-- `copy(a[i:], a[i+1:]); a[len(a)-1] = nil`, from index i on: `k` items of the slice follow it.
unfoldable pub shift_left : ℕ → List (Option ℕ) → List (Option ℕ)
shift_left zero xs = none ∷ xs
shift_left (suc k) [] = none ∷ []
shift_left (suc k) (x ∷ xs) = x ∷ shift_left k xs

abbrev pub holds : ℕ → Option ℕ → Bool
holds c none = false
holds c (some a) = a == c

abbrev cons_some : Option ℕ → Option (List (Option ℕ)) → Option (List (Option ℕ))
cons_some x none = none
cons_some x (some xs) = some (x ∷ xs)

-- The array after the first of the `len` items that is `c` is taken out, if there is one.
unfoldable pub remove_slot : ℕ → ℕ → List (Option ℕ) → Option (List (Option ℕ))
remove_slot c zero xs = none
remove_slot c (suc len) [] = none
remove_slot c (suc len) (x ∷ xs) =
    let rest = cons_some x (remove_slot c len xs) in
    if holds c x then some (shift_left len xs) else rest

abbrev pub after_removal : ℕ → QueryTreeNode → Option (List (Option ℕ)) → QueryTreeNode
after_removal c n none = n
after_removal c n (some xs) =
    next_update (record { operation = QtNodeOperation.del_child; child = some c })
      (record n { children = xs; child_len = n.child_len - 1 })

-- `removeChild`
unfoldable pub remove_child : ℕ → ℕ → Tree → Out (Unit {0})
remove_child p c t =
    with_node p t
      λ n. done tt (write_node p (after_removal c n (remove_slot c n.child_len n.children)) t)

-- What the array behind a slice holds at an index.
abbrev pub slot : List (Option ℕ) → ℕ → Option ℕ
slot xs i = elim (get_elem? xs i) [ none ↦ none | some c ↦ c ]

-- `for _, child := range qt.Children { child.Dispose() }`: the length is that of the slice before
-- the loop, and each item is read from the array when its turn comes.
unfoldable pub dispose_range :
    (Option ℕ → Tree → Out (Unit {0})) → ℕ → ℕ → ℕ → Tree → Out (Unit {0})
dispose_range rec a i zero t = done tt t
dispose_range rec a i (suc k) t =
    with_node a t λ n. rec (slot n.children i) t >>= λ _ t'. dispose_range rec a (suc i) k t'

-- `qt.Children = nil`
unfoldable pub clear_children : ℕ → Tree → Out (Unit {0})
clear_children a t =
    with_node a t λ n. done tt (write_node a (record n { children = []; child_len = 0 }) t)

-- `delete(qt.Root.RootNodeMap, qt.Id)`
abbrev pub unmapped : ℕ → Option (Map ℕ ℕ) → Option (Map ℕ ℕ)
unmapped id none = none
unmapped id (some m) = some (delete id m)

unfoldable pub unregister : ℕ → ℕ → Tree → Out (Unit {0})
unregister root id t =
    with_node root t
      λ r. done tt (write_node root (record r { root_node_map = unmapped id r.root_node_map }) t)

unfoldable pub leave_parent : Option ℕ → ℕ → Tree → Out (Unit {0})
leave_parent none a t = done tt t
leave_parent (some p) a t = remove_child p a t

-- The arguments are given back, and the map of arguments becomes nil.
abbrev pub release : Option (Map String VariableReference) → VariableStore → VariableStore
release none vs = vs
release (some m) vs = unsubscribe_all m vs

unfoldable pub release_arguments : ℕ → Tree → Out (Unit {0})
release_arguments a t = with_node a t λ n. done tt (
    write_node a (record n { arguments = none }) (record t { store = release n.arguments t.store }))

abbrev pub delete_update : QueryTreeNode → QueryTreeNode
delete_update = next_update (record { operation = QtNodeOperation.delete; child = none })

-- The function of `disposeOnce` has returned.
unfoldable pub end_once : ℕ → Tree → Out (Unit {0})
end_once a t = with_node a t λ n. done tt (write_node a (record n { dispose_ended = true }) t)

-- The body of `disposeOnce.Do`, after the channel is closed and the subscribers have been told.
unfoldable pub dispose_body :
    (Option ℕ → Tree → Out (Unit {0})) → ℕ → QueryTreeNode → Tree → Out (Unit {0})
dispose_body rec a n t = dispose_range rec a 0 n.child_len t >>= λ _ t1.
    clear_children a t1 >>= λ _ t2. unregister n.root n.id t2 >>= λ _ t3.
    leave_parent n.parent a t3 >>= λ _ t4. release_arguments a t4 >>= λ _ t5. end_once a t5

-- `Dispose`, on fuel; a nil node and a disposed node are left alone. A call for a node whose disposal
-- is running, which only that disposal itself can make here, waits for `disposeOnce` forever.
unfoldable pub dispose : ℕ → Option ℕ → Tree → Out (Unit {0})
dispose zero c t = spent
dispose (suc f) none t = done tt t
dispose (suc f) (some a) t = with_node a t λ n. elim n.disposed [
  | true ↦ if n.dispose_ended then done tt t else blocked t
  | false ↦
      dispose_body (λ c t'. dispose f c t') a n
        (write_node a (delete_update (record n { disposed = true })) t)
]
