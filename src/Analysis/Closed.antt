-- ===== src/Analysis/Closed.antt =====
-- What the builders of methods and fields leave of the builder.
use rgraphql.Prelude.{
  ℕ, ◌<◌, String, some, List, [], ◌∷◌, ◌≡◌, ◌≢◌, refl, ◌∙◌, arith, lookup, lookup-insert, nat_eq,
  string_eq, nat_beq_iff, Option-cases, Bool-cases, inl, inr, ◌==◌, subst,
}
use rgraphql.Analysis.{
  FieldDefinition, Func, Program, Pair, pair_eq, FuncResolver, ObjectResolver, Builder, M, Checked,
  ok, refused, faulted, lift, write, of_object,
}
use rgraphql.Analysis.Args.{
  scan_params, check_results, result_type, find_resolver_func, output_elem,
}
use rgraphql.Analysis.Build.{
  new_func_resolver, build_result, build_func, build_field, build_fields, resolved_name, with_field,
  is_array,
}
use rgraphql.Analysis.Extends.{
  Filled, AllFilled, Allocated, Extends, Extends-refl, Extends-trans, Extends-weaken, write-Extends,
  Gives, Gives-bind, Gives-map,
}

abbrev pub Any : ℕ → Type 0
Any b = Unit

abbrev pub But : ℕ → ℕ → Type 0
But a b = a ≢ b

-- The operation returns the address of a resolver, and extends the builder.
abbrev pub Built : Program → Builder → ℕ → Builder → Type 0
Built p s a s' = Extends p Any s s' × (a < s'.next)

abbrev pub Builds : Program → (Pair → M ℕ) → Type 0
Builds p rec = (pair : Pair) (s : Builder) → Allocated s → Gives (Built p s) (rec pair s)

Gives-lift : {A : Type 0} (c : Checked A) (s : Builder) → Gives (λ a s'. s' ≡ s) (lift c s)
Gives-lift (ok a) s = refl
Gives-lift (refused e) s = tt
Gives-lift faulted s = tt

module _ (p : Program) (rec : Pair → M ℕ) (h : Builds p rec) where
  -- The method's resolver has one for the result.
  abbrev Resulted : Builder → FuncResolver → Builder → Type 0
  Resulted s r s' = Extends p Any s s' × ((b : ℕ) × (r.result_resolver ≡ some b) × (b < s'.next))

  build_result-Resulted :
      (ty : ℕ) (res : FuncResolver) (s : Builder)
      → Allocated s
      → Gives (Resulted s) (build_result p rec ty res s)
  unfolding build_result
  build_result-Resulted ty res s good = elim (Option-cases res.output_type) [
    | inl e ↦ rw (e, build_result) tt
    | inr (output, e) ↦
        rw (e, build_result)
          (Gives-bind (Built p s) (Resulted s)
            (rec (record { ast_type = ty; resolver_type = output_elem p output })) _ s
            (h (record { ast_type = ty; resolver_type = output_elem p output }) s good)
            (λ a s1 (grown, lt). (grown, (a, refl, lt))))
  ]

  build_func-Resulted :
      (f : Func) (field : FieldDefinition) (s : Builder)
      → Allocated s
      → Gives (Resulted s) (build_func p rec f field s)
  unfolding build_func
  build_func-Resulted f field s good =
      Gives-bind (λ r s'. s' ≡ s) (Resulted s)
        (lift (scan_params p field 0 f.params (new_func_resolver p f.name))) _ s
        (Gives-lift (scan_params p field 0 f.params (new_func_resolver p f.name)) s)
        (λ scanned s1 e.
          Gives-bind (λ r s'. s' ≡ s1) (Resulted s) (lift (check_results p f.results scanned)) _ s1
            (Gives-lift (check_results p f.results scanned) s1)
            (λ checked s2 g. rw (g ∙ e) (
              build_result-Resulted (result_type p field.ty checked).0
                (result_type p field.ty checked).1 s good)))

  -- What building a field promises, for the object at `a`.
  abbrev FieldBuilt : ℕ → String → ObjectResolver → Builder → ObjectResolver → Builder → Type 0
  FieldBuilt a name o s o' s' =
      Extends p (But a) s s'
      × (lookup a s'.heap ≡ some (of_object o'))
      × (o'.type_name ≡ o.type_name)
      × Filled s' o' name
      × ((n : String) → Filled s o n → Filled s' o' n)

  build_field-FieldBuilt :
      (ty a : ℕ) (name : String) (field : FieldDefinition) (o : ObjectResolver) (s : Builder)
      → Allocated s
      → a < s.next
      → Gives (FieldBuilt a name o s) (build_field p rec ty a name field o s)
  unfolding build_field
  build_field-FieldBuilt ty a name field o s good lt =
      Gives-bind (λ f s'. s' ≡ s) (FieldBuilt a name o s) (lift (find_resolver_func p ty name)) _ s
        (Gives-lift (find_resolver_func p ty name) s)
        (λ f s1 e. rw e (
          Gives-bind (Resulted s) (FieldBuilt a name o s) (build_func p rec f field) _ s
            (build_func-Resulted f field s good) (λ res s2 k. added res s2 k)))
    where
      added :
          (res : FuncResolver) (s2 : Builder)
          → Resulted s res s2
          → FieldBuilt a name o s
              (with_field p name (is_array p field.ty) res o)
              (write a (of_object (with_field p name (is_array p field.ty) res o)) s2)
      added res s2 (grown, (b, result, below)) = (
        Extends-trans p (But a) s s2
            (write a (of_object (with_field p name (is_array p field.ty) res o)) s2)
            (λ c le e. omega (arith, lt, le, e))
            (Extends-weaken p (But a) Any s s2 (λ c lt ok. tt) grown)
            (write-Extends p (But a) a (of_object (with_field p name (is_array p field.ty) res o))
              s2 (λ c ok. ok) grown.allocated),
        ground (
          arith,
          lookup-insert a a (of_object (with_field p name (is_array p field.ty) res o)) s2.heap,
          nat_beq_iff a a,
        ),
        refl,
        (
          res,
          b,
          ground
              (arith, lookup-insert name name res o.field_resolvers, string_eq.same_iff name name),
          result,
          below,
        ),
        λ n (r, c, at, got, less). elim (Bool-cases (name == n)) [
          | inl e ↦
              (res, b, ground (arith, lookup-insert name n res o.field_resolvers), result, below)
          | inr e ↦ (
            r,
            c,
            ground (arith, lookup-insert name n res o.field_resolvers),
            got,
            let le = grown.longer in omega (arith, less, le),
          )
        ],
      )

  -- What the loop over the fields promises.
  abbrev FieldsBuilt : ℕ → List FieldDefinition → ObjectResolver → Builder → ℕ → Builder → Type 0
  FieldsBuilt a fields o s b s' =
      (b ≡ a)
      × Extends p (But a) s s'
      × ((o' : ObjectResolver) × (lookup a s'.heap ≡ some (of_object o'))
          × (o'.type_name ≡ o.type_name)
          × AllFilled p s' o' fields
          × ((n : String) → Filled s o n → Filled s' o' n))

  pub build_fields-FieldsBuilt :
      (ty a : ℕ) (fields : List FieldDefinition) (o : ObjectResolver) (s : Builder)
      → Allocated s
      → a < s.next
      → lookup a s.heap ≡ some (of_object o)
      → Gives (FieldsBuilt a fields o s) (build_fields p rec ty a fields o s)
  unfolding build_fields
  build_fields-FieldsBuilt ty a [] o s good lt at =
      (refl, Extends-refl p (But a) s good, (o, at, refl, tt, λ n k. k))
  build_fields-FieldsBuilt ty a (field ∷ more) o s good lt at =
      elim (Option-cases (resolved_name p field)) [
        | inl e ↦
            rw (e, build_fields)
              (Gives-map (FieldsBuilt a more o s) (FieldsBuilt a (field ∷ more) o s) _
                (build_fields-FieldsBuilt ty a more o s good lt at)
                (λ b s1 (same, grown, (o', there, ty, all, keep)).
                  (same, grown, (o', there, ty, (λ n g. absurd (ground (arith)), all), keep))))
        | inr (name, e) ↦
            rw (e, build_fields)
              (Gives-bind (FieldBuilt a name o s) (FieldsBuilt a (field ∷ more) o s)
                (build_field p rec ty a name field o) _ s
                (build_field-FieldBuilt ty a name field o s good lt)
                (λ o1 s1 (grown, now, type, new, old).
                  Gives-map (FieldsBuilt a more o1 s1) (FieldsBuilt a (field ∷ more) o s) _
                    (build_fields-FieldsBuilt ty a more o1 s1 grown.allocated
                      (let le = grown.longer in omega (arith, lt, le)) now)
                    (λ b s2 (same, more_grown, (o', there, type', all, keep)). (
                      same,
                      Extends-trans p (But a) s s1 s2 (λ c le e. omega (arith, lt, le, e)) grown
                          more_grown,
                      (
                        o',
                        there,
                        type' ∙ type,
                        (λ n g. subst (Filled s2 o') (ground (arith, e, g)) (keep name new), all),
                        λ n k. keep n (old n k),
                      ),
                    ))))
      ]
