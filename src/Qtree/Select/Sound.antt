-- ===== src/Qtree/Select/Sound.antt =====
-- What a selected child is, in terms of the schema.
use rgraphql.Prelude.{
  subst, ℕ, true, false, String, Option, none, some, ◌≡◌, ◌≢◌, refl, arith, ◌==◌, string_eq, eq_iff,
  inl, inr, ◌⊎◌, Bool-cases, Option-cases,
}
use rgraphql.Types.Ast.{AstType, TypeDefinition, Fields, is_primitive}
use rgraphql.Qtree.{Error}
use rgraphql.Qtree.Select.{
  Checked, ok, err, fault, ◌>>=◌, type_name_type, find_field, strip_list, strip_non_null, Selection,
  resolve_type, select_field, select_child, from_lookup,
}

-- The fields of an object by name: the first field of a name is meant.
pub data Declares (name : String) (ty : AstType) : Fields → Type 0 where
  here : {n : String} {fs : Fields} → n ≡ name → Declares name ty (Fields.field (some n) ty fs)
  there :
      {n : String} {u : AstType} {fs : Fields}
      → n ≢ name
      → Declares name ty fs
      → Declares name ty (Fields.field (some n) u fs)

find_field_sound :
    (name : String) (fs : Fields) (ty : AstType)
    → find_field name fs ≡ ok (some ty)
    → Declares name ty fs
unfolding find_field
find_field_sound name Fields.end ty h = absurd (ground arith)
find_field_sound name (Fields.field none u fs) ty h = absurd (ground arith)
find_field_sound name (Fields.field (some n) u fs) ty h = elim (Bool-cases (n == name)) [
  | inl e ↦
      let same : u ≡ ty = ground arith in
      subst (λ v. Declares name v (Fields.field (some n) u fs)) same
        (Declares.here ((eq_iff n name).0 e))
  | inr e ↦
      Declares.there (λ q. ground (arith, eq_iff n name))
        (find_field_sound name fs ty (ground arith))
]

-- The selection of a type: a built-in scalar, or what the schema resolves it to.
abbrev pub Resolved : (AstType → Option TypeDefinition) → AstType → Selection → Type 0
Resolved look ty s =
    ((s.is_primitive ≡ true)
      × (s.ast ≡ none)
      × (ty ≡ AstType.named (some s.primitive_name))
      × (is_primitive s.primitive_name ≡ true))
    ⊎ ((s.is_primitive ≡ false) × (d : TypeDefinition) × (s.ast ≡ some d) × (look ty ≡ some d))

looked_up :
    (look : AstType → Option TypeDefinition) (ty : AstType) (e : Error) (s : Selection)
    → from_lookup e (look ty) ≡ ok s
    → Resolved look ty s
looked_up look ty e s h = elim (Option-cases (look ty)) [
  | inl gone ↦ absurd (ground arith)
  | inr (d, found) ↦ inr (ground arith, d, ground arith, found)
]

resolve_type_sound :
    (look : AstType → Option TypeDefinition) (ty : AstType) (s : Selection)
    → resolve_type look ty ≡ ok s
    → Resolved look ty s
unfolding resolve_type
resolve_type_sound look (AstType.named none) s h = absurd (ground arith)
resolve_type_sound look (AstType.named (some n)) s h = elim (Bool-cases (is_primitive n)) [
  | inl e ↦ inl (ground arith, ground arith, ground arith, ground arith)
  | inr e ↦ elim (Option-cases (look (AstType.named (some n)))) [
    | inl gone ↦ absurd (ground arith)
    | inr (d, found) ↦ inr (ground arith, d, ground arith, found)
  ]
]
resolve_type_sound look AstType.nil s h =
    looked_up look AstType.nil (Error.unresolved_type AstType.nil) s h
resolve_type_sound look (AstType.list u) s h = looked_up look (AstType.list u) _ s h
resolve_type_sound look (AstType.non_null u) s h = looked_up look (AstType.non_null u) _ s h
resolve_type_sound look (AstType.definition d) s h = looked_up look (AstType.definition d) _ s h

-- A computation gives a value, or nothing that goes on from it does.
Checked-cases :
    {A : Type 0} (c : Checked A)
    → ((a : A) × (c ≡ ok a)) ⊎ ((f : A → Checked Selection) (s : Selection) → (c >>= f) ≡ ok s → ⊥)
Checked-cases (ok a) = inl (a, refl)
Checked-cases (err e) = inr (λ f s h. cc h)
Checked-cases fault = inr (λ f s h. cc h)

select_field_sound :
    (name : String) (obj : Option String) (fs : Fields) (ty : AstType)
    → select_field name obj fs ≡ ok ty
    → ((name ≡ "__typename") × (ty ≡ type_name_type)) ⊎ Declares name ty fs
unfolding select_field
select_field_sound name obj fs ty h = elim (Bool-cases (name == "__typename")) [
  | inl e ↦ inl ((eq_iff name "__typename").0 e, ground arith)
  | inr e ↦ inr (find_field_sound name fs ty (ground arith))
]

-- A child that is selected has its name declared by the object that is its parent, or is
-- `__typename`, and what the node keeps is the built-in scalar or the definition that the type of
-- that field resolves to, with one list and one non-null wrapper taken off.
pub select_child_sound :
    (look : AstType → Option TypeDefinition) (id : ℕ) (name : String)
    (parent : Option TypeDefinition) (s : Selection)
    → select_child look id name parent ≡ ok s
    → (obj : Option String) × (fs : Fields) × (ty : AstType) × (parent
        ≡ some (TypeDefinition.object obj fs))
      × (((name ≡ "__typename") × (ty ≡ type_name_type)) ⊎ Declares name ty fs)
      × Resolved look (strip_non_null (strip_list ty)) s
unfolding select_child
select_child_sound look id name none s h = absurd (ground arith)
select_child_sound look id name (some (TypeDefinition.object obj fs)) s h =
    elim (Checked-cases (select_field name obj fs)) [
      | inl (ty, e) ↦ (
        obj,
        fs,
        ty,
        refl,
        select_field_sound name obj fs ty e,
        resolve_type_sound look (strip_non_null (strip_list ty)) s (rw (e, ◌>>=◌) at h),
      )
      | inr no_type ↦ absurd (no_type _ s h)
    ]
select_child_sound look id name (some _) s h = absurd (ground arith)
