-- ===== src/Encoder/PathCache.antt =====
-- encoder/path-cache.go
use rgraphql.Prelude.{
  lookup-insert, Bool-cases, subst, ℕ, ◌+◌, ◌%◌, Bool, true, false, Option, none, some, List, [],
  ◌∷◌, ◌≡◌, ◌≢◌, refl, arith, lookup, nat_eq, nat_beq_iff, ◌==◌, if◌then◌else◌, Option-cases, inl,
  inr,
}
use rgraphql.Lru.{Lru, IsLru, AreHeld}
use rgraphql.Resolver.Value.{RgqlValue}
use rgraphql.Resolver.Context.{Context, Contexts, write_context}

-- `PathCache`, beside the contexts that it points to.
pub record Encoder (l : Lru ℕ) : Type 0 where
  pub id : ℕ
  pub cache : l.Cache
  pub contexts : Contexts

-- `NewPathCache`, for a size that is not negative: `lru.NewWithEvict` has an error where the size is 0,
-- and the panic that follows is `none`.
unfoldable pub new_path_cache : (l : Lru ℕ) → ℕ → Contexts → Option (Encoder l)
new_path_cache l size s =
    if size == 0 then none else some (record { id = 1; cache = l.new size; contexts = s })

abbrev pub with_pos : ℕ → RgqlValue → Context → Context
with_pos id pc x = record x { path_component = some (record pc { pos_identifier = id }) }

-- `onEvicted`: the alias is taken back if the context still has that one.
unfoldable pub on_evicted : ℕ → ℕ → Contexts → Contexts
on_evicted id c s = elim (lookup c s.contexts) [
  | none ↦ s
  | some x ↦ elim x.path_component [
    | none ↦ s
    | some pc ↦ if id == pc.pos_identifier then write_context c (with_pos 0 pc x) s else s
  ]
]

-- The calls of the callback, in order.
unfoldable pub evict_all : List (ℕ × ℕ) → Contexts → Contexts
evict_all [] s = s
evict_all ((id, c) ∷ rest) s = evict_all rest (on_evicted id c s)

-- `p.cache.Add(id, ctx)` with its callbacks
unfoldable pub cache_add : (l : Lru ℕ) → ℕ → ℕ → Encoder l → Encoder l
cache_add l id c e =
    let (cache', evicted) = l.add id c e.cache in
    record e { cache = cache'; contexts = evict_all evicted e.contexts }

-- What `Put` returns.
pub record Added : Type 0 where
  pub added : Bool
  pub id : ℕ

-- `Put`; a context with no path component reads nil. Where the component has no alias, the `id`
-- that is declared inside the branch is another variable than the result, which stays 0.
unfoldable pub put : (l : Lru ℕ) → ℕ → Encoder l → Option (Encoder l × Added)
put l c e = elim (lookup c e.contexts.contexts) [
  | none ↦ none
  | some x ↦ elim x.path_component [
    | none ↦ none
    | some pc ↦ some (
        if pc.pos_identifier == 0
        then (
          cache_add l 0 c (record e {
            id = (e.id + 1) % 4294967296;
            contexts = write_context c (with_pos e.id pc x) e.contexts;
          }),
          record { added = true; id = 0 },
        )
        else (cache_add l pc.pos_identifier c e, record { added = false; id = pc.pos_identifier }))
  ]
]

-- No entry has the key.
abbrev HaveOtherKeys : ℕ → List (ℕ × ℕ) → Type 0
HaveOtherKeys k [] = Unit
HaveOtherKeys k ((j, w) ∷ more) = ((j == k) ≡ false) × HaveOtherKeys k more

AreHeld-other :
    (l : Lru ℕ) (k : ℕ) (c : l.Cache) (es : List (ℕ × ℕ))
    → (l.get k c).1 ≡ none
    → AreHeld l c es
    → HaveOtherKeys k es
AreHeld-other l k c [] absent h = tt
AreHeld-other l k c ((j, w) ∷ more) absent h = (
  elim (Bool-cases (j == k)) [
    | inl same ↦
        let there : (l.get k c).1 ≡ some w =
          subst (λ i. (l.get i c).1 ≡ some w) ((nat_beq_iff j k).0 same) h.0 in
        absurd (ground (arith, absent, there))
    | inr other ↦ other
  ],
  AreHeld-other l k c more absent h.1,
)

module _ (c : ℕ) (y : Context) (pc : RgqlValue) (has : y.path_component ≡ some pc) where
  on_evicted-other :
      (j w : ℕ) (s : Contexts)
      → lookup c s.contexts ≡ some y
      → (j == pc.pos_identifier) ≡ false
      → lookup c (on_evicted j w s).contexts ≡ some y
  unfolding on_evicted
  on_evicted-other j w s at other = elim (Option-cases (lookup w s.contexts)) [
    | inl e ↦ rw (e, on_evicted) at
    | inr (x, e) ↦ elim (Option-cases x.path_component) [
      | inl f ↦ rw (e, f, on_evicted) at
      | inr (qc, f) ↦ elim (Bool-cases (j == qc.pos_identifier)) [
        | inr g ↦ rw (e, f, g, on_evicted) at
        | inl g ↦
            rw (e, f, g, on_evicted)
              (ground (
                arith,
                at,
                e,
                f,
                g,
                has,
                other,
                nat_beq_iff w c,
                lookup-insert w c (with_pos 0 qc x) s.contexts,
              ))
      ]
    ]
  ]

  -- Evictions under other aliases leave the context as it is.
  evict_all-other :
      (es : List (ℕ × ℕ)) (s : Contexts)
      → lookup c s.contexts ≡ some y
      → HaveOtherKeys pc.pos_identifier es
      → lookup c (evict_all es s).contexts ≡ some y
  unfolding evict_all
  evict_all-other [] s at h = at
  evict_all-other ((j, w) ∷ more) s at h =
      evict_all-other more (on_evicted j w s) (on_evicted-other j w s at h.0) h.1

-- A context without an alias is put twice, where the next alias is not 0 and the cache holds nothing
-- under it, whatever the cache evicts. The first call gives the context that alias, but says that
-- alias 0 was added, and caches the context under 0; it is the second call that caches it under its
-- alias, and that call says that nothing was added. So neither call tells of the alias as new.
pub put_twice :
    (l : Lru ℕ) (c : ℕ) (e : Encoder l) (x : Context) (pc : RgqlValue)
    → IsLru l
    → lookup c e.contexts.contexts ≡ some x
    → x.path_component ≡ some pc
    → pc.pos_identifier ≡ 0
    → e.id ≢ 0
    → (l.get e.id e.cache).1 ≡ none
    → (first second : Encoder l) × (put l c e ≡ some (first, record { added = true; id = 0 }))
      × (lookup c first.contexts.contexts ≡ some (with_pos e.id pc x))
      × ((l.get 0 first.cache).1 ≡ some c)
      × (put l c first ≡ some (second, record { added = false; id = e.id }))
      × ((l.get e.id second.cache).1 ≡ some c)
      × (second.id ≡ (e.id + 1) % 4294967296)
unfolding put cache_add
put_twice l c e x pc laws at has bare numbered absent =
    let y : Context = with_pos e.id pc x in
    let s : Contexts = write_context c y e.contexts in
    let first : Encoder l =
      cache_add l 0 c (record e { id = (e.id + 1) % 4294967296; contexts = s }) in
    let others : HaveOtherKeys e.id (l.add 0 c e.cache).1 =
      AreHeld-other l e.id e.cache (l.add 0 c e.cache).1 absent (laws.add-AreHeld 0 c e.cache) in
    let there : lookup c s.contexts ≡ some y =
      ground (arith, lookup-insert c c y e.contexts.contexts, nat_beq_iff c c) in
    let kept : lookup c first.contexts.contexts ≡ some y =
      evict_all-other c y (record pc { pos_identifier = e.id }) refl (l.add 0 c e.cache).1 s there
        others in
    (
      first,
      cache_add l e.id c first,
      ground (arith, nat_beq_iff pc.pos_identifier 0),
      kept,
      laws.get-add_self 0 c e.cache,
      ground (arith, kept, nat_beq_iff e.id 0),
      laws.get-add_self e.id c first.cache,
      refl,
    )
