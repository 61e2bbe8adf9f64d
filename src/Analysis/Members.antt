-- ===== src/Analysis/Members.antt =====
-- The builders of objects, lists, methods and primitives, over the recursive calls that they make.
use rgraphql.Prelude.{
  ℕ, ◌+◌, Bool, String, Option, none, some, List, [], ◌∷◌, ◌≡◌, lookup, insert, nat_eq, string_eq,
  Option-cases, Bool-cases, inl, inr,
}
use rgraphql.Types.Ast.{primitives_proto_kinds}
use rgraphql.Analysis.{
  FieldDefinition, ChanDir, Func, Program, Pair, pair_eq, FuncResolver, ObjectResolver, BuildError,
  Builder, Out, done, M, ◌>>=◌, lift, remember, write, of_list,
}
use rgraphql.Analysis.Args.{
  primitives_types, scan_params, check_results, result_type, find_resolver_func, output_elem,
}
use rgraphql.Analysis.Build.{
  list_elem, list_behind, build_slice, build_list, new_func_resolver, build_result, build_func,
  build_field, build_fields, resolved_name,
}
use rgraphql.Analysis.Primitives.{convert_primitive, build_chan_value, follow_type}
use rgraphql.Analysis.Rules.{Grows, Adds, Adds-bind, Adds-lift, Grows-remember, Adds-later}

-- From here on, each recursive call for that node ends.
abbrev pub CallsAt : (Pair → M ℕ) → Builder → ℕ → Type 0
CallsAt rec s node =
    (ty : ℕ) (s1 : Builder)
    → Grows s s1
    → Adds s1 (rec (record { ast_type = node; resolver_type = ty }) s1)

abbrev pub Calls : (Pair → M ℕ) → Builder → Type 0
Calls rec s = (node : ℕ) → CallsAt rec s node

module _ (p : Program) (rec : Pair → M ℕ) where
  build_result-Adds :
      (ty : ℕ) (res : FuncResolver) (s : Builder)
      → Calls rec s
      → Adds s (build_result p rec ty res s)
  unfolding build_result
  build_result-Adds ty res s h = elim (Option-cases res.output_type) [
    | inl e ↦ rw e tt
    | inr (output, e) ↦ rw e (
        Adds-bind s (rec _) _ (h ty _ s (λ q none_left. none_left))
          (λ a s1 g. λ q none_left. none_left))
  ]

  build_func-Adds :
      (f : Func) (field : FieldDefinition) (s : Builder)
      → Calls rec s
      → Adds s (build_func p rec f field s)
  unfolding build_func
  build_func-Adds f field s h =
      Adds-bind s (lift (scan_params p field 0 f.params (new_func_resolver p f.name))) _
        (Adds-lift (scan_params p field 0 f.params (new_func_resolver p f.name)) s)
        (λ scanned s1 g.
          Adds-bind s1 (lift (check_results p f.results scanned)) _
            (Adds-lift (check_results p f.results scanned) s1)
            (λ checked s2 g2.
              build_result-Adds (result_type p field.ty checked).0
                (result_type p field.ty checked).1 s2
                (λ node ty s3 g3. h node ty s3 (λ q e. g q (g2 q (g3 q e))))))

  build_field-Adds :
      (ty a : ℕ) (name : String) (field : FieldDefinition) (o : ObjectResolver) (s : Builder)
      → Calls rec s
      → Adds s (build_field p rec ty a name field o s)
  unfolding build_field
  build_field-Adds ty a name field o s h =
      Adds-bind s (lift (find_resolver_func p ty name)) _
        (Adds-lift (find_resolver_func p ty name) s)
        (λ f s1 g.
          Adds-bind s1 (build_func p rec f field) _
            (build_func-Adds f field s1 (λ node t s3 g3. h node t s3 (λ q e. g q (g3 q e))))
            (λ res s2 g2. λ q e. e))

  pub build_fields-Adds :
      (ty a : ℕ) (fields : List FieldDefinition) (o : ObjectResolver) (s : Builder)
      → Calls rec s
      → Adds s (build_fields p rec ty a fields o s)
  unfolding build_fields
  build_fields-Adds ty a [] o s h = λ q e. e
  build_fields-Adds ty a (field ∷ more) o s h = elim (Option-cases (resolved_name p field)) [
    | inl e ↦ rw (e, build_fields) (build_fields-Adds ty a more o s h)
    | inr (name, e) ↦
        rw (e, build_fields)
          (Adds-bind s (build_field p rec ty a name field o) _
            (build_field-Adds ty a name field o s h)
            (λ o1 s1 g.
              build_fields-Adds ty a more o1 s1
                (λ node t s3 g3. h node t s3 (λ q e. g q (g3 q e)))))
  ]

  build_slice-Adds :
      (pair : Pair) (is_ptr : Bool) (inner elem : ℕ) (s : Builder)
      → CallsAt rec s inner
      → Adds s (build_slice p rec pair is_ptr inner elem s)
  unfolding build_slice
  build_slice-Adds pair is_ptr inner elem s h =
      let s1 : Builder = record s {
        heap = insert s.next (of_list is_ptr none) s.heap;
        next = s.next + 1;
      } in
      let grown = Grows-remember pair s.next s1 in
      Adds-later {A = ℕ} s (remember pair s.next s1)
        ((rec (record { ast_type = inner; resolver_type = output_elem p elem }) >>= λ e s2.
            done s.next (write s.next (of_list is_ptr (some e)) s2))
          (remember pair s.next s1))
        grown
        (Adds-bind {A = ℕ} {B = ℕ} (remember pair s.next s1)
          (rec (record { ast_type = inner; resolver_type = output_elem p elem })) _
          (h (output_elem p elem) (remember pair s.next s1) grown)
          (λ e s2 g. λ q none_left. none_left))

  pub build_list-Adds :
      (pair : Pair) (inner : ℕ) (s : Builder)
      → CallsAt rec s inner
      → Adds s (build_list p rec pair inner s)
  unfolding build_list
  build_list-Adds pair inner s h =
      by_elem (list_behind p pair.resolver_type).0
        (list_elem p (list_behind p pair.resolver_type).1)
    where
      by_elem :
          (is_ptr : Bool) (o : Option (Option ChanDir × ℕ))
          → Adds {A = ℕ} s (elim o [
            | none ↦ Out.failed BuildError.expected_array
            | some (none, elem) ↦ build_slice p rec pair is_ptr inner elem s
            | some (some ChanDir.recv_only, elem) ↦ Out.failed BuildError.list_chan_unimplemented
            | some (some _, elem) ↦ Out.failed BuildError.invalid_list_chan
          ])
      by_elem is_ptr none = tt
      by_elem is_ptr (some (some ChanDir.recv_only, elem)) = tt
      by_elem is_ptr (some (some ChanDir.send_only, elem)) = tt
      by_elem is_ptr (some (some ChanDir.send_recv, elem)) = tt
      by_elem is_ptr (some (none, elem)) = build_slice-Adds pair is_ptr inner elem s h

  pub build_chan_value-Adds :
      (dir : ChanDir) (elem node : ℕ) (s : Builder)
      → Adds s (rec (record { ast_type = node; resolver_type = elem }) s)
      → Adds s (build_chan_value p rec dir elem node s)
  unfolding build_chan_value
  build_chan_value-Adds ChanDir.recv_only elem node s h = Adds-bind s (rec _) _ h (λ a s1 g. tt)
  build_chan_value-Adds ChanDir.send_only elem node s h = tt
  build_chan_value-Adds ChanDir.send_recv elem node s h = tt

  pub convert_primitive-Adds :
      (name : String) (depth ty : ℕ) (s : Builder) → Adds s (convert_primitive p name depth ty s)
  unfolding convert_primitive
  convert_primitive-Adds name depth ty s = elim (Option-cases (lookup name primitives_types)) [
    | inl e ↦ rw (e, convert_primitive) tt
    | inr (expected, e) ↦ elim (Option-cases (lookup name primitives_proto_kinds)) [
      | inl g ↦ rw (e, g, convert_primitive) tt
      | inr (kind, g) ↦ elim (Bool-cases (p.assignable ty (p.universe expected))) [
        | inl k ↦ rw (e, g, k, convert_primitive) (λ q none_left. none_left)
        | inr k ↦ elim (Bool-cases (p.convertible ty (p.universe expected))) [
          | inl j ↦ rw (e, g, k, j, convert_primitive) (λ q none_left. none_left)
          | inr j ↦ rw (e, g, k, j, convert_primitive) tt
        ]
      ]
    ]
  ]

  pub follow_type-Adds :
      (node : ℕ) (name : Option String) (ty : ℕ) (s : Builder)
      → ((next : ℕ) → p.look node ≡ some next → CallsAt rec s next)
      → Adds s (follow_type p rec node name ty s)
  unfolding follow_type
  follow_type-Adds node name ty s h = elim (Option-cases (p.look node)) [
    | inl e ↦ rw (e, follow_type) (by_name name)
    | inr (next, e) ↦ rw (e, follow_type) (h next e ty s (λ q none_left. none_left))
  ]
    where
      by_name :
          (o : Option String)
          → Adds {A = ℕ} s
              (elim o [ none ↦ Out.panicked | some n ↦ Out.failed BuildError.type_not_found ])
      by_name none = tt
      by_name (some n) = tt
