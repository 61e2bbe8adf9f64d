-- ===== src/Client/Aliases.antt =====
-- What `HandleValue` does with a path that starts with an alias, and when a path ends.
use rgraphql.Prelude.{
  ℕ, false, String, Option, none, some, ◌≡◌, ◌≢◌, refl, arith, lookup, insert, lookup-insert,
  nat_eq, nat_beq_iff, ◌∙◌, ◌↔◌,
}
use rgraphql.Lru.{Lru}
use rgraphql.Types.Primitive.{Primitive}
use rgraphql.Resolver.Value.{RgqlValue, zero_value}
use rgraphql.Client.PathCursor.{Nodes, PathCursor, RtNode, apply, land, next_handlers}
use rgraphql.Client.ResultTree.{ResultTree, done, handle_alias, handle_segment, handle_value}

module _ (l : Lru PathCursor) (handle : ℕ → RgqlValue → Option ℕ) (va : RgqlValue)
    (t : ResultTree l) where
  first-alias :
      t.cursor ≡ none
      → va.pos_identifier ≢ 0
      → handle_value l handle va t ≡ handle_alias l handle va t
  unfolding handle_value
  first-alias first aliased = ground (arith, nat_beq_iff va.pos_identifier 0)

  -- In the first message of a path, beside an alias, the query node, the array index and the error
  -- have no effect: the message is handled as if they were any others.
  pub handle_value_alias_alone :
      (q i : ℕ) (err : String)
      → t.cursor ≡ none
      → va.pos_identifier ≢ 0
      → handle_value l handle va t
        ≡ handle_value l handle (record va { query_node_id = q; array_index = i; error = err }) t
  unfolding handle_value handle_alias
  handle_value_alias_alone q i err first aliased = ground (arith, nat_beq_iff va.pos_identifier 0)

  abbrev bare : Primitive → RgqlValue
  bare v = record zero_value { value = some v }

  apply-bare :
      (c : PathCursor) (r : RtNode) (v : Primitive) (n : Nodes)
      → c.out_of_bounds ≡ false
      → lookup c.rnode n.rt_nodes ≡ some r
      → apply handle (bare v) n c
        ≡ some (
          record n { rt_nodes = insert c.rnode (record r { value = bare v }) n.rt_nodes },
          record c { result_handlers = next_handlers handle (bare v) c.result_handlers },
        )
  unfolding apply land
  apply-bare c r v n inside at = ground (arith)

  -- A first message with a known alias and a value, at a cursor within bounds on a node of the
  -- tree: the node keeps its children, but its value is replaced by one with no query node and no
  -- array index. The path ends.
  pub handle_value_alias_forgets :
      (c : PathCursor) (r : RtNode) (v : Primitive)
      → t.cursor ≡ none
      → va.pos_identifier ≢ 0
      → (l.get va.pos_identifier t.path_cache).1 ≡ some c
      → va.value ≡ some v
      → c.out_of_bounds ≡ false
      → lookup c.rnode t.nodes.rt_nodes ≡ some r
      → (t' : ResultTree l) × (handle_value l handle va t ≡ done t')
        × (lookup c.rnode t'.nodes.rt_nodes
            ≡ some (record r { value = record zero_value { value = some v } }))
        × (t'.cursor ≡ none)
  unfolding handle_alias
  handle_value_alias_forgets c r v first aliased known has inside at = (
    record t {
      nodes = record t.nodes {
        rt_nodes = insert c.rnode (record r { value = bare v }) t.nodes.rt_nodes;
      };
      cursor = none;
      path_cache = (l.get va.pos_identifier t.path_cache).0;
    },
    first-alias first aliased ∙ ground (arith, apply-bare c r v t.nodes inside at),
    ground (
      arith,
      lookup-insert c.rnode c.rnode (record r { value = bare v }) t.nodes.rt_nodes,
      nat_beq_iff c.rnode c.rnode,
    ),
    refl,
  )

  -- After a message that is handled, a path is open if and only if the message has no value.
  pub handle_value_ends :
      (t' : ResultTree l)
      → handle_value l handle va t ≡ done t'
      → (t'.cursor ≡ none) ↔ (va.value ≢ none)
  unfolding handle_value handle_alias handle_segment
  handle_value_ends t' h = ground (arith)
