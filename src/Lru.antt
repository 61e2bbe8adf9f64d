-- ===== src/Lru.antt =====
-- The interface of the LRU cache of hashicorp/golang-lru that the path caches use, with the
-- documented behaviour that this code relies on. A cache maps uint32 keys to values.
use rgraphql.Prelude.{ℕ, Option, none, some, List, [], ◌∷◌, ◌≡◌, ◌≢◌}

-- `add` gives the entries that it evicts, in the order in which the callback is called.
pub record Lru (V : Type 0) : Type 1 where
  pub Cache : Type 0
  pub new : ℕ → Cache
  pub add : ℕ → V → Cache → Cache × List (ℕ × V)
  pub get : ℕ → Cache → Cache × Option V

-- Each entry is one that the cache holds.
abbrev pub AreHeld : {V : Type 0} (l : Lru V) → l.Cache → List (ℕ × V) → Type 0
AreHeld l c [] = Unit
AreHeld l c ((k, v) ∷ more) = ((l.get k c).1 ≡ some v) × AreHeld l c more

-- What `get` finds: nothing in a new cache; after `add` the value that was added; and a value stays
-- under its key through the calls for other keys, unless it was evicted. What `add` evicts was in
-- the cache.
pub record IsLru {V : Type 0} (l : Lru V) : Type 0 where
  pub get-new : (size k : ℕ) → (l.get k (l.new size)).1 ≡ none
  pub get-add_self : (k : ℕ) (v : V) (c : l.Cache) → (l.get k (l.add k v c).0).1 ≡ some v
  pub get-add_ne :
      (k j : ℕ) (v w : V) (c : l.Cache)
      → k ≢ j
      → (l.get j (l.add k v c).0).1 ≡ some w
      → (l.get j c).1 ≡ some w
  pub add-AreHeld : (k : ℕ) (v : V) (c : l.Cache) → AreHeld l c (l.add k v c).1
  pub get-get : (k j : ℕ) (c : l.Cache) → (l.get j (l.get k c).0).1 ≡ (l.get j c).1
