-- ===== src/Client/ArgsMap.antt =====
-- client/query-tree-args.go: `argsMap.Equals`. An argument is the value of its variable, and a nil
-- map is `none`. `same k` says whether the two values under `k` are one pointer.
use rgraphql.Prelude.{
  ◌<◌, ◌≤◌, Bool, true, false, String, Option, none, some, [], ◌∷◌, ◌≡◌, ◌≢◌, refl, arith, Map,
  lookup, delete, lookup-delete, delete-IsMap, IsMap, string_eq, nat_eq, nat_beq_iff, eq_iff, ◌==◌,
  if◌then◌else◌, length, Option-cases, inl, inr,
}
use rgraphql.Types.Primitive.{Primitive}
use rgraphql.Types.PrimEquiv.{is_prim_equiv}

abbrev pub ArgsMap : Type 0
ArgsMap = Map String (Option Primitive)

-- The loop of `Equals` over the first map.
unfoldable pub values_match : (String → Bool) → ArgsMap → ArgsMap → Bool
values_match same other [] = true
values_match same other ((k, v) ∷ m) =
    let rest = values_match same other m in
    elim (lookup k other) [
      | none ↦ false
      | some ov ↦ if is_prim_equiv (same k) ov v then rest else false
    ]

-- `argsMap.Equals`; a nil map equals only a nil map.
unfoldable pub equals : (String → Bool) → Option ArgsMap → Option ArgsMap → Bool
equals same none none = true
equals same none (some other) = false
equals same (some m) none = false
equals same (some m) (some other) =
    if length m == length other then values_match same other m else false

-- The two maps at one key.
abbrev pub agrees : Bool → Option (Option Primitive) → Option (Option Primitive) → Bool
agrees same none none = true
agrees same (some v) (some ov) = is_prim_equiv same ov v
agrees same _ _ = false

length-delete : (j : String) (m : ArgsMap) → length (delete j m) ≤ length m
unfolding delete
length-delete j [] = ground (arith)
length-delete j ((i, w) ∷ m) = ground (arith, length-delete j m)

length-delete_lt : (j : String) (m : ArgsMap) → lookup j m ≢ none → length (delete j m) < length m
unfolding delete lookup
length-delete_lt j [] h = absurd (h refl)
length-delete_lt j ((i, w) ∷ m) h = ground (arith, length-delete j m, length-delete_lt j m)

-- A map whose keys are all in another, which is no longer, has every key of that other.
keys_covered :
    (m other : ArgsMap)
    → IsMap m
    → IsMap other
    → ((k : String) → lookup k m ≢ none → lookup k other ≢ none)
    → length other ≤ length m
    → (k : String) → lookup k m ≡ none
    → lookup k other ≡ none
unfolding lookup
keys_covered [] [] h g sub short k absent = refl
keys_covered [] (x ∷ other) h g sub short k absent = absurd (omega (arith, short))
keys_covered ((j, w) ∷ m) other h g sub short k absent =
    let less = length-delete_lt j other (sub j (ground (arith, eq_iff j j))) in
    let rest =
      keys_covered m (delete j other) h.1 (delete-IsMap j other g)
        (λ i found. ground (arith, h.0, found, sub i, lookup-delete j i other, eq_iff j i))
        (omega (arith, less, short)) k in
    ground (arith, rest, absent, lookup-delete j k other, eq_iff j k)

values_match-lookup :
    (same : String → Bool) (other m : ArgsMap) (k : String) (v : Option Primitive)
    → values_match same other m ≡ true
    → lookup k m ≡ some v
    → agrees (same k) (some v) (lookup k other) ≡ true
unfolding values_match lookup
values_match-lookup same other [] k v h at = absurd (ground arith)
values_match-lookup same other ((j, w) ∷ m) k v h at =
    ground (arith, eq_iff j k, values_match-lookup same other m k v)

in_other :
    (same : String → Bool) (m other : ArgsMap) (k : String)
    → values_match same other m ≡ true
    → lookup k m ≢ none
    → lookup k other ≢ none
in_other same m other k h found gone = elim (Option-cases (lookup k m)) [
  | inl absent ↦ absurd (found absent)
  | inr (v, at) ↦
      let both = values_match-lookup same other m k v h at in absurd (ground (arith, both, gone))
]

-- If `Equals` holds of two maps without a key twice, then at every key both have an argument, with
-- equivalent values, or neither has one.
pub equals-agrees :
    (same : String → Bool) (m other : ArgsMap)
    → IsMap m
    → IsMap other
    → equals same (some m) (some other) ≡ true
    → (k : String) → agrees (same k) (lookup k m) (lookup k other) ≡ true
unfolding equals
equals-agrees same m other h g eq k =
    let long : length m ≡ length other =
      ground (arith, eq, nat_beq_iff (length m) (length other)) in
    let all : values_match same other m ≡ true =
      ground (arith, eq, nat_beq_iff (length m) (length other)) in
    elim (Option-cases (lookup k m)) [
      | inr (v, at) ↦ rw at (values_match-lookup same other m k v all at)
      | inl absent ↦
          rw
            (
              absent,
              keys_covered m other h g (λ i found. in_other same m other i all found)
                  (omega (arith, long)) k absent,
            )
            refl
    ]
