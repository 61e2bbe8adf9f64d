-- ===== src/Result/Tests.antt =====
-- Runs of the multiplexer, and the theorems about it at concrete inputs.
use rgraphql.Prelude.{
  ℕ, zero, suc, ◌≤◌, true, false, Option, List, [], ◌∷◌, ◌++◌, ◌≡◌, ◌⊎◌, refl, arith, insert,
  lookup, nat_eq,
}
use rgraphql.Result.Multiplexer.{
  Bytes, ServerMessage, Multiplexer, max_batch_size, try_read, add_tree, take_pending, read_values,
  close_tree, cleanup,
}
use rgraphql.Result.Batches.{
  or_nil, total, kept, IsPending, read_values_lem, take_pending-read_values,
}

abbrev zeros : ℕ → Bytes
zeros zero = []
zeros (suc n) = 0 ∷ zeros n

abbrev new_multiplexer : Multiplexer
new_multiplexer = record {
  trees = [];
  tree_id = 1;
  previous_pending_id = 0;
  previous_pending_val = [];
  pending = false;
  sent = [];
}

abbrev one_tree : Multiplexer
one_tree = record new_multiplexer { trees = (1, 5) ∷ []; tree_id = 2 }

-- A tree is added, gives two values at once, and the multiplexer stops.
session_run :
    (cleanup (read_values 1 (9 ∷ []) ((8 ∷ []) ∷ []) (add_tree 5 new_multiplexer)).0).sent
    ≡ ServerMessage.value_init 1 5
      ∷ ServerMessage.value_batch 1 ((9 ∷ []) ∷ (8 ∷ []) ∷ [])
      ∷ ServerMessage.value_finalize 1
      ∷ []
unfolding cleanup read_values try_read add_tree insert close_tree
session_run = refl

abbrev large : Bytes
large = zeros 8110

read_values_lem_example :
    (batch : List Bytes) × (saved : Option Bytes) × ((read_values 1
        (9 ∷ [])
        (large ∷ [])
        one_tree).0.sent
      ≡ [] ++ ServerMessage.value_batch 1 ((9 ∷ []) ∷ batch) ∷ [])
    × (((9 ∷ []) ∷ batch) ++ (or_nil saved ++ (read_values 1 (9 ∷ []) (large ∷ []) one_tree).1)
        ≡ (9 ∷ []) ∷ large ∷ [])
    × ((total ((9 ∷ []) ∷ batch) ≤ max_batch_size) ⊎ (batch ≡ []))
    × IsPending 1
        (kept (lookup 1 one_tree.trees) saved)
        one_tree
        (read_values 1 (9 ∷ []) (large ∷ []) one_tree).0
read_values_lem_example = read_values_lem 1 (9 ∷ []) (large ∷ []) one_tree

take_pending-read_values_example :
    ((take_pending (read_values 1 (9 ∷ []) (large ∷ []) one_tree).0).sent
      ≡ ([] ++ ServerMessage.value_batch 1 ((9 ∷ []) ∷ (try_read (large ∷ []) 1).values) ∷ [])
        ++ ServerMessage.value_batch 1 (large ∷ []) ∷ [])
    × ((take_pending (read_values 1 (9 ∷ []) (large ∷ []) one_tree).0).previous_pending_id ≡ 0)
    × (take_pending
          (read_values 1 (9 ∷ []) (large ∷ []) (record one_tree {
            previous_pending_id = 1;
            previous_pending_val = 4 ∷ [];
            pending = true;
          })).0
        ≡ take_pending (read_values 1 (9 ∷ []) (large ∷ []) one_tree).0)
unfolding lookup try_read
take_pending-read_values_example =
    take_pending-read_values 1 5 1 (9 ∷ []) (4 ∷ []) large (large ∷ []) one_tree (omega arith) refl
      refl
