-- ===== src/Result/Batches.antt =====
-- What one round of `handleTree` does with the values, and what happens to a value that is saved.
use rgraphql.Prelude.{
  inl, ℕ, ◌+◌, ◌≤◌, true, Option, none, some, List, [], ◌∷◌, ◌++◌, ◌≡◌, ◌≢◌, ◌⊎◌, inr, refl, ap,
  arith, lookup, nat_eq, nat_beq_iff, length, Option-cases,
}
use rgraphql.Result.Multiplexer.{
  Bytes, ServerMessage, Multiplexer, max_batch_size, try_read, save, send, read_values,
  take_pending,
}

abbrev pub total : List Bytes → ℕ
total [] = 0
total (v ∷ vs) = length v + total vs

abbrev pub or_nil : Option Bytes → List Bytes
or_nil none = []
or_nil (some v) = v ∷ []

-- No value that is ready is lost or moved: the batch, then the saved value, then what is left.
pub try_read-all :
    (ready : List Bytes) (size : ℕ)
    → (try_read ready size).values
        ++ (or_nil (try_read ready size).saved ++ (try_read ready size).left)
      ≡ ready
unfolding try_read
try_read-all [] size = refl
try_read-all (v ∷ ready) size = let ih = try_read-all ready (size + length v) in ground arith

-- What is added to a batch keeps it within the bound, if anything is added.
pub try_read-bound :
    (ready : List Bytes) (size : ℕ)
    → (size + total (try_read ready size).values ≤ max_batch_size)
      ⊎ ((try_read ready size).values ≡ [])
unfolding try_read
try_read-bound [] size = inr refl
try_read-bound (v ∷ ready) size = let ih = try_read-bound ready (size + length v) in ground arith

save-sent : (id : ℕ) (o : Option Bytes) (s : Multiplexer) → (save id o s).sent ≡ s.sent
save-sent id none s = refl
save-sent id (some v) s = ground (arith, Option-cases (lookup id s.trees))

-- The value that is kept: the saved one, if the tree is still there.
abbrev pub kept : Option ℕ → Option Bytes → Option Bytes
kept none saved = none
kept (some exec) saved = saved

-- Nothing but the pending value has changed: it is the kept one of the tree `id`, or as before.
abbrev pub IsPending : ℕ → Option Bytes → Multiplexer → Multiplexer → Type 0
IsPending id none s s' =
    (s'.pending ≡ s.pending)
    × (s'.previous_pending_val ≡ s.previous_pending_val)
    × (s'.previous_pending_id ≡ s.previous_pending_id)
IsPending id (some w) s s' =
    (s'.pending ≡ true) × (s'.previous_pending_val ≡ w) × (s'.previous_pending_id ≡ id)

save-IsPending :
    (id : ℕ) (o : Option Bytes) (s : Multiplexer)
    → IsPending id (kept (lookup id s.trees) o) s (save id o s)
save-IsPending id none s = elim (Option-cases (lookup id s.trees)) [
  | inl e ↦ rw e (refl, refl, refl)
  | inr (exec, e) ↦ rw e (refl, refl, refl)
]
save-IsPending id (some w) s = elim (Option-cases (lookup id s.trees)) [
  | inl e ↦ rw e (refl, refl, refl)
  | inr (exec, e) ↦ rw e (refl, refl, refl)
]

-- To send a message changes nothing that is pending.
send-IsPending :
    (id : ℕ) (o : Option Bytes) (m : ServerMessage) (s s' : Multiplexer)
    → IsPending id o s s'
    → IsPending id o s (send m s')
send-IsPending id none m s s' h = h
send-IsPending id (some w) m s s' h = h

-- One round sends one batch, of the value received and those that follow at once: the batch, the
-- saved value and what is left are the values in the order of the channel, and the batch is within
-- the bound unless it is the first value alone. If there is a saved value and the tree is still there,
-- it is afterwards the pending value, under the id of the tree; else what is pending is as before.
pub read_values_lem :
    (id : ℕ) (val : Bytes) (ready : List Bytes) (s : Multiplexer)
    → (batch : List Bytes) × (saved : Option Bytes) × ((read_values id val ready s).0.sent
        ≡ s.sent ++ ServerMessage.value_batch id (val ∷ batch) ∷ [])
      × ((val ∷ batch) ++ (or_nil saved ++ (read_values id val ready s).1) ≡ val ∷ ready)
      × ((total (val ∷ batch) ≤ max_batch_size) ⊎ (batch ≡ []))
      × IsPending id (kept (lookup id s.trees) saved) s (read_values id val ready s).0
unfolding read_values
read_values_lem id val ready s = (
  (try_read ready (length val)).values,
  (try_read ready (length val)).saved,
  rw (save-sent id (try_read ready (length val)).saved s) refl,
  ap (λ r. val ∷ r) (try_read-all ready (length val)),
  try_read-bound ready (length val),
  send-IsPending id (kept (lookup id s.trees) (try_read ready (length val)).saved)
      (ServerMessage.value_batch id (val ∷ (try_read ready (length val)).values)) s
      (save id (try_read ready (length val)).saved s)
      (save-IsPending id (try_read ready (length val)).saved s),
)

-- A round that saves a value of a tree that is still there, followed by the case that sends it:
-- the two batches are sent and nothing is pending. The result is the same whatever value was
-- pending before the round.
pub take_pending-read_values :
    (id exec j : ℕ) (val v w : Bytes) (ready : List Bytes) (s : Multiplexer)
    → id ≢ 0
    → lookup id s.trees ≡ some exec
    → (try_read ready (length val)).saved ≡ some w
    → ((take_pending (read_values id val ready s).0).sent
        ≡ (s.sent ++ ServerMessage.value_batch id (val ∷ (try_read ready (length val)).values) ∷ [])
          ++ ServerMessage.value_batch id (w ∷ []) ∷ [])
      × ((take_pending (read_values id val ready s).0).previous_pending_id ≡ 0)
      × (take_pending
            (read_values id val ready
              (record s { previous_pending_id = j; previous_pending_val = v; pending = true })).0
          ≡ take_pending (read_values id val ready s).0)
unfolding take_pending read_values
take_pending-read_values id exec j val v w ready s numbered at saves = (
  ground (arith, nat_beq_iff id 0),
  ground (arith, nat_beq_iff id 0),
  ground (arith, nat_beq_iff id 0),
)
