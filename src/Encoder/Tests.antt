-- ===== src/Encoder/Tests.antt =====
-- Runs of the encoder, and the theorems about it at concrete inputs, over a cache that is a map and
-- evicts nothing and over one that holds a single entry.
use rgraphql.Prelude.{
  ◌==◌, if◌then◌else◌, ◌≢◌, Bool-cases, inl, inr, ℕ, true, false, Option, none, some, List, [], ◌∷◌,
  ◌≡◌, refl, arith, Map, lookup, insert, nat_eq, nat_beq_iff,
}
use rgraphql.Lru.{Lru, IsLru, AreHeld}
use rgraphql.Resolver.Value.{RgqlValue, Value, zero_value, build_int_value}
use rgraphql.Resolver.Context.{Context, Contexts, child_of}
use rgraphql.Types.Primitive.{pos}
use rgraphql.Encoder.PathCache.{Encoder, put, cache_add, evict_all, put_twice, with_pos}
use rgraphql.Encoder.Encode.{
  Out, done, panicked, spent, run, encode, rewind, renew, label_path_components, merge_pos,
  send_path, send_root, send_plain, send_rest, send_merged,
}
use rgraphql.Encoder.Aliased.{with_renewed, encode-aliased_panics}

abbrev map_cache : Lru ℕ
map_cache = record {
  Cache = Map ℕ ℕ;
  new = λ size. [];
  add = λ k v c. (insert k v c, []);
  get = λ k c. (c, lookup k c);
}

abbrev add_single : ℕ → ℕ → Option (ℕ × ℕ) → Option (ℕ × ℕ) × List (ℕ × ℕ)
add_single k v none = (some (k, v), [])
add_single k v (some (j, w)) = (some (k, v), if j == k then [] else (j, w) ∷ [])

abbrev get_single : ℕ → Option (ℕ × ℕ) → Option (ℕ × ℕ) × Option ℕ
get_single k none = (none, none)
get_single k (some (j, w)) = (some (j, w), if j == k then some w else none)

-- A cache of one entry.
abbrev single_cache : Lru ℕ
single_cache = record {
  Cache = Option (ℕ × ℕ);
  new = λ size. none;
  add = add_single;
  get = get_single;
}

get_add_self : (k v : ℕ) (c : Option (ℕ × ℕ)) → (get_single k (add_single k v c).0).1 ≡ some v
get_add_self k v none = ground (arith, nat_beq_iff k k)
get_add_self k v (some (j, w)) = ground (arith, nat_beq_iff k k)

get_add_ne :
    (k j v w : ℕ) (c : Option (ℕ × ℕ))
    → k ≢ j
    → (get_single j (add_single k v c).0).1 ≡ some w
    → (get_single j c).1 ≡ some w
get_add_ne k j v w none ne found = absurd (ground (arith, found, ne, nat_beq_iff k j))
get_add_ne k j v w (some (i, u)) ne found = absurd (ground (arith, found, ne, nat_beq_iff k j))

add_holds : (k v : ℕ) (c : Option (ℕ × ℕ)) → AreHeld single_cache c (add_single k v c).1
add_holds k v none = tt
add_holds k v (some (j, w)) = elim (Bool-cases (j == k)) [
  | inl e ↦ rw e tt
  | inr e ↦ rw e (ground (arith, nat_beq_iff j j), tt)
]

get_get : (k j : ℕ) (c : Option (ℕ × ℕ)) → (get_single j (get_single k c).0).1 ≡ (get_single j c).1
get_get k j none = refl
get_get k j (some (i, u)) = refl

single_cache-IsLru : IsLru single_cache
single_cache-IsLru = record {
  get-new = λ size k. refl;
  get-add_self = get_add_self;
  get-add_ne = get_add_ne;
  add-AreHeld = add_holds;
  get-get = get_get;
}

abbrev component : ℕ → RgqlValue
component id = record zero_value { query_node_id = id }

abbrev root : Context
root = record {
  qnode = 0;
  path_parent = none;
  path_component = none;
  is_final = false;
  active_children = 0;
  canceled = false;
}

abbrev outer : Context
outer = child_of 0 root (some (component 7))

abbrev inner : Context
inner = child_of 1 outer (some (component 8))

-- A live field in a live field.
abbrev nested : Contexts
nested = record { contexts = (0, root) ∷ (1, outer) ∷ (2, inner) ∷ []; next = 3; written = [] }

abbrev fresh : Encoder map_cache
fresh = record { id = 1; cache = []; contexts = nested }

abbrev five : Value
five = record (build_int_value (pos 5)) { context = some 2 }

abbrev messages : Out map_cache (List RgqlValue) → Option (List RgqlValue)
messages (done msgs e) = some msgs
messages (panicked e) = none
messages spent = none

-- The first value of the inner field.
first_value :
    messages (encode map_cache five fresh)
    ≡ some (component 7 ∷ record (component 8) { pos_identifier = 1; value = five.value } ∷ [])
unfolding run encode rewind renew put cache_add evict_all label_path_components merge_pos send_path
    send_root send_plain send_rest send_merged lookup insert build_int_value
first_value = refl

-- The second one.
second_value : messages (run map_cache (five ∷ five ∷ []) fresh) ≡ none
unfolding run encode rewind renew put cache_add evict_all label_path_components merge_pos send_path
    send_root send_plain send_rest send_merged lookup insert build_int_value
second_value = refl

abbrev aliased : Encoder map_cache
aliased = record {
  id = 2;
  cache = (1, 2) ∷ [];
  contexts = record nested {
    contexts = (0, root) ∷ (1, outer) ∷ (2, with_pos 1 (component 8) inner) ∷ [];
  };
}

-- The one entry is that of the outer context, which loses its alias.
abbrev full_cache : Encoder single_cache
full_cache = record {
  id = 6;
  cache = some (5, 1);
  contexts = record nested {
    contexts = (0, root) ∷ (1, with_pos 5 (component 7) outer) ∷ (2, inner) ∷ [];
  };
}

put_twice_example :
    (first second : Encoder single_cache) × (put single_cache 2 full_cache
      ≡ some (first, record { added = true; id = 0 }))
    × (lookup 2 first.contexts.contexts ≡ some (with_pos 6 (component 8) inner))
    × ((single_cache.get 0 first.cache).1 ≡ some 2)
    × (put single_cache 2 first ≡ some (second, record { added = false; id = 6 }))
    × ((single_cache.get 6 second.cache).1 ≡ some 2)
    × (second.id ≡ 7)
unfolding lookup
put_twice_example =
    put_twice single_cache 2 full_cache inner (component 8) single_cache-IsLru refl refl refl
      (omega arith) refl

encode-aliased_panics_example :
    encode map_cache five aliased ≡ panicked (with_renewed map_cache 1 2 aliased)
unfolding lookup
encode-aliased_panics_example =
    encode-aliased_panics map_cache five 2 aliased (with_pos 1 (component 8) inner)
      (record (component 8) { pos_identifier = 1 }) refl refl refl (omega arith) refl
