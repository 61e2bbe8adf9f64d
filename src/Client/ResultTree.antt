-- ===== src/Client/ResultTree.antt =====
-- client/result-tree.go: `HandleValue`, with the cursors that path-cache.go keeps by alias. The
-- eviction callback changes only the registries of handlers, which this function does not read.
use rgraphql.Prelude.{ℕ, Option, none, some, nat_eq, ◌==◌, if◌then◌else◌}
use rgraphql.Lru.{Lru}
use rgraphql.Resolver.Value.{RgqlValue, zero_value}
use rgraphql.Client.PathCursor.{Nodes, PathCursor, apply}

-- `ResultTree`
pub record ResultTree (l : Lru PathCursor) : Type 0 where
  pub nodes : Nodes
  pub cursor : Option PathCursor
  pub path_cache : l.Cache
  pub root_cursor : PathCursor

-- The call returns, returns the error about an unknown position, or reads nil.
pub data Handled (l : Lru PathCursor) : Type 0 where
  done : ResultTree l → Handled l
  unknown_position : ℕ → ResultTree l → Handled l
  nil_read : Handled l

-- What stays of the cursor: nothing after a value.
abbrev pub kept_cursor : RgqlValue → PathCursor → Option PathCursor
kept_cursor va c = elim va.value [ none ↦ some c | some v ↦ none ]

module _ (l : Lru PathCursor) (handle : ℕ → RgqlValue → Option ℕ) where
  -- The first segment of a path, with an alias.
  unfoldable pub handle_alias : RgqlValue → ResultTree l → Handled l
  handle_alias va t =
      let (cache, found) = l.get va.pos_identifier t.path_cache in
      let t' : ResultTree l = record t { path_cache = cache } in
      elim found [
        | none ↦ unknown_position va.pos_identifier t'
        | some c ↦ elim va.value [
          | none ↦ done (record t' { cursor = some c })
          | some v ↦ elim (apply handle (record zero_value { value = some v }) t'.nodes c) [
            | none ↦ nil_read
            | some (n, c') ↦ done (record t' { nodes = n; cursor = none })
          ]
        ]
      ]

  abbrev with_alias : ℕ → PathCursor → l.Cache → l.Cache
  with_alias id c cache = if id == 0 then cache else (l.add id c cache).0

  -- A segment at a cursor.
  unfoldable pub handle_segment : RgqlValue → PathCursor → ResultTree l → Handled l
  handle_segment va c t = elim (apply handle va t.nodes c) [
    | none ↦ nil_read
    | some (n, c') ↦ done (record t {
      nodes = n;
      cursor = kept_cursor va c';
      path_cache = with_alias va.pos_identifier c' t.path_cache;
    })
  ]

  -- `HandleValue`
  unfoldable pub handle_value : RgqlValue → ResultTree l → Handled l
  handle_value va t = elim t.cursor [
    | some c ↦ handle_segment va c t
    | none ↦ if va.pos_identifier == 0 then handle_segment va t.root_cursor t else handle_alias va t
  ]
