-- ===== src/Encoder/Encode.antt =====
-- encoder/encoder.go: what `Run` does with one value that it receives, and with a run of values. The
-- run is one in which the context is not cancelled; a cancelled run is a prefix of it. A message is
-- given before it is marshalled.
use rgraphql.Prelude.{
  ℕ, zero, suc, ◌+◌, ◌-◌, ◌%◌, Bool, true, false, not, none, some, List, [], ◌∷◌, ◌++◌, lookup,
  nat_eq, ◌==◌, if◌then◌else◌, length, reverse,
}
use rgraphql.Lru.{Lru}
use rgraphql.Resolver.Value.{RgqlValue, Value, zero_value}
use rgraphql.Resolver.Context.{Context, write_context}
use rgraphql.Encoder.PathCache.{Encoder, put}

pub data Out (l : Lru ℕ) (A : Type 0) : Type 0 where
  done : A → Encoder l → Out l A
  panicked : Encoder l → Out l A
  spent : Out l A

infixl 5 ◌>>=◌
abbrev pub ◌>>=◌ : {l : Lru ℕ} {A B : Type 0} → Out l A → (A → Encoder l → Out l B) → Out l B
done a e >>= f = f a e
panicked e >>= f = panicked e
spent >>= f = spent

module _ (l : Lru ℕ) where
  abbrev pub with_context : {A : Type 0} → ℕ → Encoder l → (Context → Out l A) → Out l A
  with_context c e f = elim (lookup c e.contexts.contexts) [ none ↦ panicked e | some x ↦ f x ]

  abbrev pub with_component :
      {A : Type 0} → ℕ → Encoder l → (Context → RgqlValue → Out l A) → Out l A
  with_component c e f =
      with_context c e λ x. elim x.path_component [ none ↦ panicked e | some pc ↦ f x pc ]

  -- `r.pathCache.Put(c)`, with its results dropped.
  unfoldable pub renew : ℕ → Encoder l → Out l (Unit {0})
  renew c e = elim (put l c e) [ none ↦ panicked e | some (e', r) ↦ done tt e' ]

  -- Whether the component of a context has an alias.
  abbrev pub has_alias : Context → Bool
  has_alias x = elim x.path_component [ none ↦ false | some pc ↦ not (pc.pos_identifier == 0) ]

  -- The rewind: the components from the value's context up to the path's root, on fuel.
  unfoldable pub rewind : ℕ → ℕ → Encoder l → Out l (List ℕ)
  rewind zero c e = spent
  rewind (suc f) c e = with_context c e λ x. elim (has_alias x) [
    | true ↦ renew c e >>= λ _ e'. done (c ∷ []) e'
    | false ↦ elim x.path_parent [
      | none ↦ done (c ∷ []) e
      | some p ↦ rewind f p e >>= λ above e'. done (c ∷ above) e'
    ]
  ]

  -- `labelPathComponents`: the first component but the last that is not final gets an alias.
  unfoldable pub label_path_components : List ℕ → Encoder l → Out l (Unit {0})
  label_path_components [] e = done tt e
  label_path_components (c ∷ []) e = done tt e
  label_path_components (c ∷ d ∷ cs) e =
      with_context c e
        λ x. elim x.is_final [ true ↦ label_path_components (d ∷ cs) e | false ↦ renew c e ]

  -- `mergePosIdentifier`; the index before the first one is out of range.
  unfoldable pub merge_pos : List ℕ → Encoder l → Out l Bool
  merge_pos [] e = panicked e
  merge_pos (c ∷ []) e =
      with_component c e λ x pc. if pc.pos_identifier == 0 then done false e else panicked e
  merge_pos (d ∷ c ∷ []) e = with_component c e λ x pc.
      if pc.pos_identifier == 0
      then done false e
      else with_component d e λ y qc. done (qc.pos_identifier == 0) e
  merge_pos (b ∷ d ∷ c ∷ cs) e = merge_pos (d ∷ c ∷ cs) e

  -- The error or the value, at the end of the path.
  abbrev fill : Value → RgqlValue → RgqlValue
  fill v pc = elim v.error [
    | some err ↦ record pc { error = err }
    | none ↦ record pc { value = v.value }
  ]

  abbrev cleared : Bool → RgqlValue → RgqlValue
  cleared true pc = record pc { value = none; error = "" }
  cleared false pc = pc

  -- A component that is sent as it is: the message, and the component left behind.
  abbrev filled_if : Bool → Value → RgqlValue → RgqlValue
  filled_if true v pc = fill v pc
  filled_if false v pc = pc

  unfoldable pub send_plain : Bool → Value → ℕ → Encoder l → Out l RgqlValue
  send_plain last v c e = with_component c e λ x pc. done (filled_if last v pc) (record e {
    contexts = write_context c (record x { path_component = some (cleared last pc) }) e.contexts;
  })

  -- The root of the path with an alias, not merged: a fresh message with the alias alone.
  unfoldable pub send_root : Bool → Value → ℕ → Encoder l → Out l RgqlValue
  send_root last v c e = with_component c e λ x pc.
      if pc.pos_identifier == 0
      then send_plain last v c e
      else done (filled_if last v (record zero_value { pos_identifier = pc.pos_identifier })) e

  -- The component after the root with the root's alias in it, put back after the send: the value to
  -- put back is kept plus one, and 0 means that there is none.
  unfoldable pub send_merged : Bool → Value → ℕ → ℕ → Encoder l → Out l RgqlValue
  send_merged last v root c e = with_component c e λ x pc. with_component root e λ y plc.
      let alias = plc.pos_identifier in
      let restore = (pc.pos_identifier + 1) % 4294967296 in
      let pos = if restore == 0 then alias else restore - 1 in
      if alias == 0
      then send_plain last v c e
      else done (filled_if last v (record pc { pos_identifier = alias })) (record e {
        contexts =
            write_context c
              (record x {
                path_component = some (cleared last (record pc { pos_identifier = pos }));
              })
              e.contexts;
      })

  -- The serialising loop, from the root of the path down to the value: the list is in that order,
  -- and `merge` holds for its first two components.
  unfoldable pub send_rest : Value → List ℕ → Encoder l → Out l (List RgqlValue)
  send_rest v [] e = done [] e
  send_rest v (c ∷ cs) e = send_plain (length cs == 0) v c e >>= λ msg e'.
      send_rest v cs e' >>= λ msgs e''. done (msg ∷ msgs) e''

  unfoldable pub send_path : Bool → Value → List ℕ → Encoder l → Out l (List RgqlValue)
  send_path merge v [] e = done [] e
  send_path true v (c ∷ []) e = done [] e
  send_path true v (root ∷ c ∷ cs) e = send_merged (length cs == 0) v root c e >>= λ msg e'.
      send_rest v cs e' >>= λ msgs e''. done (msg ∷ msgs) e''
  send_path false v (c ∷ cs) e = send_root (length cs == 0) v c e >>= λ msg e'.
      send_rest v cs e' >>= λ msgs e''. done (msg ∷ msgs) e''

  -- One round of `Run`: the messages that one value gives. A value with no context is skipped.
  unfoldable pub encode : Value → Encoder l → Out l (List RgqlValue)
  encode v e = elim v.context [
    | none ↦ done [] e
    | some c ↦ rewind (suc e.contexts.next) c e >>= λ comps e1.
        label_path_components comps e1 >>= λ _ e2.
        merge_pos comps e2 >>= λ merge e3. send_path merge v (reverse comps) e3
  ]

  -- `Run` over the values that it receives.
  unfoldable pub run : List Value → Encoder l → Out l (List RgqlValue)
  run [] e = done [] e
  run (v ∷ vs) e = encode v e >>= λ msgs e'. run vs e' >>= λ more e''. done (msgs ++ more) e''
