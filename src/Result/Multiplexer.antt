-- ===== src/Result/Multiplexer.antt =====
-- result/multiplexer.go. Each function is a part that runs with no other goroutine's part between
-- its accesses to the shared fields: a case of `runMultiplexer`, or one round of `handleTree`. `sent`
-- is the list of messages given to `send`, which drops one that waits for a second.
use rgraphql.Prelude.{
  ℕ, ◌+◌, ◌%◌, Bool, true, false, Option, none, some, List, [], ◌∷◌, ◌++◌, Map, lookup, insert,
  delete, nat_eq, ltb, ◌==◌, if◌then◌else◌, length,
}

-- Bytes
abbrev pub Bytes : Type 0
Bytes = List ℕ

-- `RGQLServerMessage`, as this code fills it.
pub data ServerMessage : Type 0 where
  value_init : ℕ → ℕ → ServerMessage
  value_finalize : ℕ → ServerMessage
  value_batch : ℕ → List Bytes → ServerMessage

-- `pending` says whether `pendingChan`, which holds one element, is full; `tree_id` is the local
-- `treeId` of `runMultiplexer`, and a tree is the number of its execution.
pub record Multiplexer : Type 0 where
  pub trees : Map ℕ ℕ
  pub tree_id : ℕ
  pub previous_pending_id : ℕ
  pub previous_pending_val : Bytes
  pub pending : Bool
  pub sent : List ServerMessage

-- `MaxBatchSize`, with its initial value.
abbrev pub max_batch_size : ℕ
max_batch_size = 8110

abbrev pub send : ServerMessage → Multiplexer → Multiplexer
send msg s = record s { sent = s.sent ++ msg ∷ [] }

-- The case of `addTreeChan` in `runMultiplexer`.
unfoldable pub add_tree : ℕ → Multiplexer → Multiplexer
add_tree exec s =
    send (ServerMessage.value_init s.tree_id exec)
      (record s { trees = insert s.tree_id exec s.trees; tree_id = (s.tree_id + 1) % 4294967296 })

abbrev process_pending_value : Option ℕ → Multiplexer → Multiplexer
process_pending_value none s = s
process_pending_value (some exec) s =
    send (ServerMessage.value_batch s.previous_pending_id (s.previous_pending_val ∷ [])) s

abbrev clear_pending : Multiplexer → Multiplexer
clear_pending s = record s { previous_pending_id = 0; previous_pending_val = [] }

-- The case of `pendingChan` in `runMultiplexer`.
unfoldable pub take_pending : Multiplexer → Multiplexer
take_pending s =
    let s' : Multiplexer = record s { pending = false } in
    if s.previous_pending_id == 0
    then s'
    else clear_pending (process_pending_value (lookup s.previous_pending_id s.trees) s')

-- What reading without blocking gives: the values that are added to the batch, the value that is
-- saved for the next one, and what is left in the channel.
pub record Reading : Type 0 where
  pub values : List Bytes
  pub saved : Option Bytes
  pub left : List Bytes

abbrev with_value : Bytes → Reading → Reading
with_value val r = record r { values = val ∷ r.values }

-- The loop of `tryRead`: the values that are ready, and the size of the batch so far.
unfoldable pub try_read : List Bytes → ℕ → Reading
try_read [] size = record { values = []; saved = none; left = [] }
try_read (val ∷ ready) size =
    let more = try_read ready (size + length val) in
    if ltb size max_batch_size
    then (if ltb max_batch_size (size + length val)
        then record { values = []; saved = some val; left = ready }
        else with_value val more)
    else record { values = []; saved = none; left = val ∷ ready }

abbrev save_exists : ℕ → Bytes → Option ℕ → Multiplexer → Multiplexer
save_exists id val none s = s
save_exists id val (some exec) s = record s {
  previous_pending_id = id;
  previous_pending_val = val;
  pending = true;
}

abbrev pub save : ℕ → Option Bytes → Multiplexer → Multiplexer
save id none s = s
save id (some val) s = save_exists id val (lookup id s.trees) s

-- One round of `handleTree` that receives a value, of which `ready` can follow at once: a round
-- starts with no values, so the value fits or starts a batch of its own.
unfoldable pub read_values : ℕ → Bytes → List Bytes → Multiplexer → Multiplexer × List Bytes
read_values id val ready s =
    let r = try_read ready (length val) in
    (send (ServerMessage.value_batch id (val ∷ r.values)) (save id r.saved s), r.left)

-- The round of `handleTree` in which the output is closed.
unfoldable pub close_tree : ℕ → Multiplexer → Multiplexer
close_tree id s =
    let s' = send (ServerMessage.value_finalize id) s in record s' { trees = delete id s'.trees }

remove_trees : Map ℕ ℕ → Multiplexer → Multiplexer
unfolding close_tree
remove_trees [] s = s
remove_trees ((id, exec) ∷ rest) s = remove_trees rest (close_tree id s)

-- `cleanup`
unfoldable pub cleanup : Multiplexer → Multiplexer
unfolding remove_trees
cleanup s = remove_trees s.trees (clear_pending s)
