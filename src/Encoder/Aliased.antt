-- ===== src/Encoder/Aliased.antt =====
-- encoder/encoder.go: a value that is written at a context whose own component has an alias. `Run`
-- looks at the component after the path's root, and the path has one component.
use rgraphql.Prelude.{ℕ, suc, some, [], ◌∷◌, ◌≡◌, ◌≢◌, arith, lookup, nat_eq, nat_beq_iff}
use rgraphql.Lru.{Lru}
use rgraphql.Resolver.Value.{RgqlValue, Value}
use rgraphql.Resolver.Context.{Context}
use rgraphql.Encoder.PathCache.{Encoder, put, cache_add, evict_all}
use rgraphql.Encoder.Encode.{
  done, panicked, ◌>>=◌, renew, rewind, label_path_components, merge_pos, encode,
}

-- The alias of the context `c` moved to the front of the cache.
abbrev pub with_renewed : (l : Lru ℕ) → ℕ → ℕ → Encoder l → Encoder l
with_renewed l alias c e = record e { cache = (l.add alias c e.cache).0 }

module _ (l : Lru ℕ) (v : Value) (c : ℕ) (e : Encoder l) (x : Context) (pc : RgqlValue)
    (on : v.context ≡ some c) (at : lookup c e.contexts.contexts ≡ some x)
    (has : x.path_component ≡ some pc) (aliased : pc.pos_identifier ≢ 0) where
  rewind-aliased : (f : ℕ) → rewind l (suc f) c e ≡ (renew l c e >>= λ _ e'. done (c ∷ []) e')
  unfolding rewind
  rewind-aliased f = ground (arith, nat_beq_iff pc.pos_identifier 0)

  module _ (kept : (l.add pc.pos_identifier c e.cache).1 ≡ []) where
    renew-aliased : renew l c e ≡ done tt (with_renewed l pc.pos_identifier c e)
    unfolding renew put cache_add evict_all
    renew-aliased = ground (arith, nat_beq_iff pc.pos_identifier 0)

    merge_pos-aliased :
        merge_pos l (c ∷ []) (with_renewed l pc.pos_identifier c e)
        ≡ panicked (with_renewed l pc.pos_identifier c e)
    unfolding merge_pos
    merge_pos-aliased = ground (arith, nat_beq_iff pc.pos_identifier 0)

    -- A value whose context has a component with an alias, where renewing the alias in the cache
    -- evicts nothing: `Run` renews the alias and then reads the path at index -1, which panics.
    pub encode-aliased_panics : encode l v e ≡ panicked (with_renewed l pc.pos_identifier c e)
    unfolding encode label_path_components
    encode-aliased_panics =
        ground (arith, rewind-aliased e.contexts.next, renew-aliased, merge_pos-aliased)
