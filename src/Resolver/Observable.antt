-- ===== src/Resolver/Observable.antt =====
-- resolver/observable.go. A subscription is a number; `dead` says which ones are canceled while the
-- lock is held, and `emitted` is what the subscriptions were given, in order. An untyped nil is none.
use rgraphql.Prelude.{
  ℕ, zero, suc, ◌≤◌, Bool, true, false, Option, none, some, List, [], ◌∷◌, ◌++◌, map, ◌≡◌, refl,
  arith, nat_eq, ◌==◌, if◌then◌else◌, length, Bool-cases, inl, inr, nat_beq_iff,
}
use mathlib.Core.List.{append_assoc, append-nil}

pub record Observable {ℓ} (A : Type ℓ) : Type ℓ where
  pub val : Option A
  pub subs : List ℕ
  pub emitted : List (ℕ × Option A)

-- The last element moved to the front.
unfoldable pub last_first : List ℕ → List ℕ
last_first [] = []
last_first (x ∷ xs) = elim (last_first xs) [ [] ↦ x ∷ [] | y ∷ ys ↦ y ∷ x ∷ ys ]

module _ {ℓ} {A : Type ℓ} where
  -- `NewObservable`
  unfoldable pub new_observable : Option A → Observable A
  new_observable val = record { val = val; subs = []; emitted = [] }

  abbrev pub keep :
      ℕ → Option (List ℕ × List (ℕ × Option A)) → Option (List ℕ × List (ℕ × Option A))
  keep s none = none
  keep s (some (kept, out)) = some (s ∷ kept, out)

  -- The loop of `Set` from the index i on: the subscriptions from there, and what was emitted. A
  -- canceled one is replaced with the last, which is cut off, and the index stays. The fuel
  -- counts the rounds.
  unfoldable pub set_loop :
      ℕ
      → (ℕ → Bool)
      → Option A
      → List ℕ
      → List (ℕ × Option A)
      → Option (List ℕ × List (ℕ × Option A))
  set_loop f dead v [] out = some ([], out)
  set_loop zero dead v (s ∷ rest) out = none
  set_loop (suc f) dead v (s ∷ rest) out = elim (dead s) [
    | true ↦ set_loop f dead v (last_first rest) out
    | false ↦ keep s (set_loop f dead v rest (out ++ (s, v) ∷ []))
  ]

  abbrev after_set : Option A → Option (List ℕ × List (ℕ × Option A)) → Option (Observable A)
  after_set v none = none
  after_set v (some (kept, out)) = some (record { val = v; subs = kept; emitted = out })

  -- `Observable.Set`
  unfoldable pub set_value : (ℕ → Bool) → Option A → Observable A → Option (Observable A)
  set_value dead v o = after_set v (set_loop (length o.subs) dead v o.subs o.emitted)

  -- `Subscribe` of the subscription `s`
  unfoldable pub subscribe : ℕ → Observable A → Observable A
  subscribe s o = elim o.val [
    | none ↦ record o { subs = o.subs ++ s ∷ [] }
    | some v ↦ record o { subs = o.subs ++ s ∷ []; emitted = o.emitted ++ (s, some v) ∷ [] }
  ]

-- How often a subscription occurs.
abbrev pub count : ℕ → List ℕ → ℕ
count k [] = 0
count k (x ∷ xs) = if x == k then suc (count k xs) else count k xs

pub length-last_first : (xs : List ℕ) → length (last_first xs) ≡ length xs
unfolding last_first
length-last_first [] = refl
length-last_first (x ∷ xs) = let ih = length-last_first xs in ground arith

pub count-last_first : (k : ℕ) (xs : List ℕ) → count k (last_first xs) ≡ count k xs
unfolding last_first
count-last_first k [] = refl
count-last_first k (x ∷ xs) = let ih = count-last_first k xs in ground arith

module _ {ℓ} {A : Type ℓ} (dead : ℕ → Bool) (v : Option A) where
  abbrev sent : List ℕ → List (ℕ × Option A)
  sent = map (λ s. (s, v))

  set_loop-live :
      (f s : ℕ) (rest : List ℕ) (out : List (ℕ × Option A)) (kept : List ℕ)
      → dead s ≡ false
      → set_loop f dead v rest (out ++ (s, v) ∷ []) ≡ some (kept, (out ++ (s, v) ∷ []) ++ sent kept)
      → set_loop (suc f) dead v (s ∷ rest) out ≡ some (s ∷ kept, out ++ sent (s ∷ kept))
  unfolding set_loop
  set_loop-live f s rest out kept on run =
      ground (arith, append_assoc out ((s, v) ∷ []) (sent kept))

  set_loop_lem :
      (f : ℕ) (subs : List ℕ) (out : List (ℕ × Option A))
      → length subs ≤ f
      → (kept : List ℕ) × (set_loop f dead v subs out ≡ some (kept, out ++ sent kept))
        × ((k : ℕ) → count k kept ≡ (if dead k then 0 else count k subs))
  unfolding set_loop
  set_loop_lem f [] out h = ([], rw (append-nil out) refl, λ k. ground arith)
  set_loop_lem zero (s ∷ rest) out h = absurd (omega (arith, h))
  set_loop_lem (suc f) (s ∷ rest) out h = elim (Bool-cases (dead s)) [
    | inl off ↦
        let (kept, run, counts) =
          set_loop_lem f (last_first rest) out (ground (arith, length-last_first rest)) in
        (
          kept,
          ground arith,
          λ k. ground (arith, counts k, count-last_first k rest, nat_beq_iff s k),
        )
    | inr on ↦
        let (kept, run, counts) = set_loop_lem f rest (out ++ (s, v) ∷ []) (ground arith) in
        (
          s ∷ kept,
          set_loop-live f s rest out kept on run,
          λ k. ground (arith, counts k, nat_beq_iff s k),
        )
  ]

  -- `Set` returns: it stores the value, drops exactly the subscriptions that are canceled, each
  -- other one occurring as often as before, and gives the value to each that is kept, once.
  pub set_value_lem :
      (o : Observable A)
      → (kept : List ℕ) × (set_value dead v o
          ≡ some (record { val = v; subs = kept; emitted = o.emitted ++ sent kept }))
        × ((k : ℕ) → count k kept ≡ (if dead k then 0 else count k o.subs))
  unfolding set_value
  set_value_lem o =
      let (kept, run, counts) = set_loop_lem (length o.subs) o.subs o.emitted (omega arith) in
      (kept, rw run refl, counts)
