-- ===== src/Introspect/Reached.antt =====
-- What a query of the schema can reach through the resolvers of introspection.
use rgraphql.Prelude.{
  ℕ, false, String, Option, none, some, List, [], ◌∷◌, ◌≡◌, ◌≢◌, ◌⊎◌, refl, sym, ap, subst, arith,
  ◌∙◌, map, Option-cases, Bool-cases, inl, inr,
}
use rgraphql.Introspect.{
  InputValueDefinition, FieldDefinition, Node, Ast, TypeResolver, SchemaResolver, ObjectResolver,
  type_at, object_schema, object_type, query_type, types, has_underscores, kept_fields, fields,
  of_type, field_type, field_name, args, input_type,
}

-- Whether the element is in the list.
abbrev pub Among : {A : Type 0} → A → List A → Type 0
Among x [] = ⊥
Among x (y ∷ ys) = (x ≡ y) ⊎ Among x ys

-- The types that a query can reach from the object that is asked for `__type` and `__schema`.
pub data Reached (p : Ast) (o : ObjectResolver) : TypeResolver → Type 0 where
  own : Reached p o (object_type o)
  root :
      (s : SchemaResolver) (r : TypeResolver)
      → object_schema o ≡ some s
      → query_type s ≡ some r
      → Reached p o r
  listed :
      (s : SchemaResolver) (r : TypeResolver)
      → object_schema o ≡ some s
      → Among r (types s)
      → Reached p o r
  of_field :
      (t r : TypeResolver) (f : FieldDefinition)
      → Reached p o t
      → Among f (fields p t)
      → field_type p f ≡ some r
      → Reached p o r
  of_argument :
      (t : TypeResolver) (f : FieldDefinition) (a : InputValueDefinition)
      → Reached p o t
      → Among f (fields p t)
      → Among a (args p f)
      → Reached p o (input_type p a)
  element : (t r : TypeResolver) → Reached p o t → of_type p t ≡ some r → Reached p o r

-- A node that is no list.
abbrev pub IsBare : Ast → Option ℕ → Type 0
IsBare p none = Unit
IsBare p (some a) = (b : ℕ) → p.node a ≢ Node.list b

-- The nodes that the resolvers start from are definitions, and the lookup finds definitions alone: none
-- of these is a list.
pub record Definitions (p : Ast) (o : ObjectResolver) : Type 0 where
  pub object : IsBare p (some o.ast)
  pub query : (s : SchemaResolver) → o.schema_resolver ≡ some s → IsBare p s.root_query
  pub named :
      (s : SchemaResolver) (name : String) (a : ℕ)
      → o.schema_resolver ≡ some s
      → Among {A = String × ℕ} (name, a) s.named_types
      → IsBare p (some a)
  pub found : (t : ℕ) → IsBare p (p.look t)

types-named :
    (p : Ast) (m : List (String × ℕ)) (r : TypeResolver)
    → ((name : String) (a : ℕ) → Among {A = String × ℕ} (name, a) m → IsBare p (some a))
    → Among r (map (λ e. type_at (some e.1)) m)
    → IsBare p r.ast
types-named p [] r h k = absurd k
types-named p ((name, a) ∷ m) r h (inl e) =
    subst (IsBare p) (sym (ap (λ (x : TypeResolver). x.ast) e)) (h name a (inl refl))
types-named p ((name, a) ∷ m) r h (inr k) = types-named p m r (λ n b j. h n b (inr j)) k

by_node :
    (p : Ast) (a : ℕ) (v : Node)
    → p.node a ≡ v
    → IsBare p (some a)
    → elim v [ Node.list inner ↦ some (type_at (p.look inner)) | _ ↦ none ] ≡ none
by_node p a (Node.list inner) e k = absurd (k inner e)
by_node p a (Node.object all) e k = refl
by_node p a (Node.enum values) e k = refl
by_node p a Node.other e k = refl

of_type-bare : (p : Ast) (r : TypeResolver) → IsBare p r.ast → of_type p r ≡ none
unfolding of_type
of_type-bare p r h = by_ast r.ast h
  where
    by_ast :
        (o : Option ℕ)
        → IsBare p o
        → elim o [
          | none ↦ none
          | some a ↦ elim (p.node a) [ Node.list inner ↦ some (type_at (p.look inner)) | _ ↦ none ]
        ]
          ≡ none
    by_ast none k = refl
    by_ast (some a) k = by_node p a (p.node a) refl k

optional-bare :
    (p : Ast) (x : Option ℕ) (r : TypeResolver)
    → IsBare p x
    → elim x [ none ↦ none | some a ↦ some (type_at (some a)) ] ≡ some r
    → IsBare p r.ast
optional-bare p none r h e = absurd (ground (arith))
optional-bare p (some a) r h e =
    let same : some a ≡ r.ast = ground (arith, e) in subst (IsBare p) same h

Reached-bare :
    (p : Ast) (o : ObjectResolver) (r : TypeResolver)
    → Definitions p o
    → Reached p o r
    → IsBare p r.ast
unfolding object_type object_schema query_type types field_type input_type
Reached-bare p o _ d own = d.object
Reached-bare p o r d (root s _ has e) = optional-bare p s.root_query r (d.query s has) e
Reached-bare p o r d (listed s _ has k) =
    types-named p s.named_types r (λ name a j. d.named s name a has j) k
Reached-bare p o r d (of_field t _ f before k e) = optional-bare p (p.look f.ty) r (d.found f.ty) e
Reached-bare p o _ d (of_argument t f a before k j) = d.found a.ty
Reached-bare p o r d (element t _ before e) =
    absurd (ground (arith, e, of_type-bare p t (Reached-bare p o t d before)))

-- The fields that are shown have a name, without the two underscores.
kept_fields-named :
    (all : List FieldDefinition) (p : Ast) (f : FieldDefinition)
    → Among f (kept_fields p all)
    → (name : String) × (field_name p f ≡ some name) × (has_underscores name ≡ false)
unfolding kept_fields field_name
kept_fields-named [] p f h = absurd h
kept_fields-named (field ∷ more) p f h = elim (Option-cases field.name) [
  | inl e ↦ kept_fields-named more p f (subst (Among f) (ground (arith, e)) h)
  | inr (name, e) ↦ elim (Bool-cases (has_underscores name)) [
    | inl g ↦ kept_fields-named more p f (subst (Among f) (ground (arith, e, g)) h)
    | inr g ↦ elim (split name e g) [
      | inl same ↦ (name, ap (λ (x : FieldDefinition). x.name) same ∙ e, g)
      | inr later ↦ kept_fields-named more p f later
    ]
  ]
]
  where
    split :
        (name : String)
        → field.name ≡ some name
        → has_underscores name ≡ false
        → (f ≡ field) ⊎ Among f (kept_fields p more)
    split name e g =
        let same : kept_fields p (field ∷ more) ≡ field ∷ kept_fields p more =
          ground (arith, e, g) in
        subst (Among f) same h

fields-named :
    (p : Ast) (r : TypeResolver) (f : FieldDefinition)
    → Among f (fields p r)
    → (name : String) × (field_name p f ≡ some name) × (has_underscores name ≡ false)
unfolding fields
fields-named p r f h = by_ast r.ast h
  where
    by_node :
        (v : Node)
        → Among f (elim v [ Node.object all ↦ kept_fields p all | _ ↦ [] ])
        → (name : String) × (field_name p f ≡ some name) × (has_underscores name ≡ false)
    by_node (Node.object all) k = kept_fields-named all p f k
    by_node (Node.enum values) k = absurd k
    by_node (Node.list inner) k = absurd k
    by_node Node.other k = absurd k

    by_ast :
        (o : Option ℕ)
        → Among f (elim o [
          | none ↦ []
          | some a ↦ elim (p.node a) [ Node.object all ↦ kept_fields p all | _ ↦ [] ]
        ])
        → (name : String) × (field_name p f ≡ some name) × (has_underscores name ≡ false)
    by_ast none k = absurd k
    by_ast (some a) k = by_node (p.node a) k

-- Where the object, the root query and the named types are definitions, and the lookup finds definitions
-- alone, every type that a query can reach has no element type, however many lists and non-null
-- wrappers are around the types of the fields; and each field that is shown has a name, which does
-- not begin with two underscores, so that asking for it does not panic.
pub Reached-shown :
    (p : Ast) (o : ObjectResolver) (r : TypeResolver)
    → Definitions p o
    → Reached p o r
    → (of_type p r ≡ none)
      × ((f : FieldDefinition)
          → Among f (fields p r)
          → (name : String) × (field_name p f ≡ some name) × (has_underscores name ≡ false))
Reached-shown p o r d h = (of_type-bare p r (Reached-bare p o r d h), fields-named p r)
