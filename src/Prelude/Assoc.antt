-- ===== src/Prelude/Assoc.antt =====
-- Go maps as association lists. A `range` over a map visits the list in its order; theorems hold
-- for every list, so for every order.
use mathlib.Core.Path.{◌≡◌, refl}
use mathlib.Core.List.{List, [], ◌∷◌}
use mathlib.Core.Option.{Option, none, some}
use native.Mathlib.Omega.{arith}
use rgraphql.Prelude.Tests.{Comparable, ◌==◌, if◌then◌else◌}

abbrev pub Map {ℓ κ} : Type ℓ → Type κ → Type (ℓ ⊔ κ)
Map K V = List (K × V)

module _ {ℓ κ} {K : Type ℓ} {V : Type κ} ⦃e : Comparable K⦄ where
  -- `delete(m, k)`
  unfoldable pub delete : K → Map K V → Map K V
  delete gone [] = []
  delete gone ((key, val) ∷ more) =
      let rest = delete gone more in if key == gone then rest else (key, val) ∷ rest

  -- `m[k]`, where a missing key is told apart.
  unfoldable pub lookup : K → Map K V → Option V
  lookup wanted ((key, val) ∷ more) = if key == wanted then some val else lookup wanted more
  lookup wanted [] = none

  -- `m[k] = v`
  unfoldable pub insert : K → V → Map K V → Map K V
  insert new now ((key, val) ∷ more) =
      let rest = insert new now more in if key == new then (new, now) ∷ more else (key, val) ∷ rest
  insert new now [] = (new, now) ∷ []

  pub lookup-delete :
      (k j : K) (m : Map K V) → lookup j (delete k m) ≡ (if k == j then none else lookup j m)
  unfolding lookup delete
  lookup-delete gone j ((key, val) ∷ more) =
      ground
        (arith, lookup-delete gone j more, e.same_iff gone j, e.same_iff key gone, e.same_iff key j)
  lookup-delete gone j [] = ground arith

  pub lookup-insert :
      (k j : K) (v : V) (m : Map K V)
      → lookup j (insert k v m) ≡ (if k == j then some v else lookup j m)
  unfolding lookup insert
  lookup-insert new j now ((key, val) ∷ more) =
      ground (
        arith,
        lookup-insert new j now more,
        e.same_iff new j,
        e.same_iff key new,
        e.same_iff key j,
      )
  lookup-insert new j now [] = refl

module _ {ℓ κ} {K : Type ℓ} {V : Type κ} ⦃e : Comparable K⦄ where
  pub lookup-nil : (k : K) → lookup {V = V} k [] ≡ none
  unfolding lookup
  lookup-nil k = refl

  -- No key stands twice.
  abbrev pub IsMap : Map K V → Type κ
  IsMap [] = Unit
  IsMap ((k, v) ∷ m) = (lookup k m ≡ none) × IsMap m

  pub insert-IsMap : (k : K) (v : V) (m : Map K V) → IsMap m → IsMap (insert k v m)
  unfolding insert
  insert-IsMap k v [] h = ground (arith, lookup-nil k)
  insert-IsMap k v ((i, w) ∷ m) h =
      ground (arith, insert-IsMap k v m, lookup-insert k i v m, e.same_iff k i, e.same_iff i k)

  pub delete-IsMap : (k : K) (m : Map K V) → IsMap m → IsMap (delete k m)
  unfolding delete
  delete-IsMap k [] h = tt
  delete-IsMap k ((i, w) ∷ m) h = ground (arith, delete-IsMap k m, lookup-delete k i m)
