-- ===== src/Analysis/Args.antt =====
-- analysis/resolve-func.go: what `buildFuncResolver` reads off the signature of a method, before it
-- builds the resolver of the result.
use Prim.Native.String.{◌++◌ as append}
use rgraphql.Prelude.{
  ℕ, ◌+◌, not, ◌&&◌, ◌||◌, Bool, true, false, String, Option, none, some, List, [], ◌∷◌, Map,
  lookup, insert, nat_eq, string_eq, ◌==◌, if◌then◌else◌,
}
use rgraphql.Analysis.{
  ArgumentDefinition, FieldDefinition, AstNode, ChanDir, Func, StructField, GoType, Program,
  FuncArgField, FuncResolver, BuildError, Checked, ok, refused, faulted, then_check,
}
use rgraphql.Analysis.Words.{to_pascal_case}

-- `GraphQLPrimitivesKinds`, by the names of the kinds
abbrev primitives_kinds : Map String String
primitives_kinds =
    ("Int", "Int32")
    ∷ ("String", "String")
    ∷ ("Float", "Float32")
    ∷ ("Boolean", "Bool")
    ∷ ("Object", "Invalid")
    ∷ ("ID", "String")
    ∷ []

-- `GraphQLPrimitivesTypes`, by the names in the universe
abbrev pub primitives_types : Map String String
primitives_types =
    ("Int", "int32")
    ∷ ("String", "string")
    ∷ ("Float", "float32")
    ∷ ("Boolean", "bool")
    ∷ ("ID", "string")
    ∷ []

module _ (p : Program) where
  -- `GraphQLPrimitivesKinds[name]`, which is 0 where there is none.
  abbrev kind_of : String → ℕ
  kind_of name = elim (lookup name primitives_kinds) [ none ↦ 0 | some kind ↦ p.basic_kind kind ]

  -- What a field of the struct with the right name has to be converted to. `primType` is nil where
  -- the type has none.
  unfoldable pub check_field : Option String → StructField → Checked (Option ℕ)
  check_field none field = faulted
  check_field (some name) field = elim (p.go (p.underlying field.ty)) [
    | GoType.basic kind ↦
        if kind == kind_of name then ok none else (elim (lookup name primitives_types) [
          | none ↦ faulted
          | some type ↦
              if p.convertible (p.underlying field.ty) (p.universe type)
              then ok (some (p.universe type))
              else refused BuildError.expected_similar_type
        ])
    | _ ↦ refused BuildError.unexpected_field_type
  ]

  -- The loop over the fields of the struct: whether one was found, and the last conversion.
  unfoldable pub match_fields :
      Option String → String → List StructField → Bool → Option ℕ → Checked (Bool × Option ℕ)
  match_fields type exported [] found convert = ok (found, convert)
  match_fields type exported (field ∷ more) found convert = elim (field.name == exported) [
    | false ↦ match_fields type exported more found convert
    | true ↦
        then_check (check_field type field) (λ to.
          match_fields type exported more true (elim to [ none ↦ convert | some t ↦ some t ]))
  ]

  -- One round of the loop over the arguments of the field.
  unfoldable pub match_argument :
      Bool → List StructField → ArgumentDefinition → Checked (String × FuncArgField)
  match_argument is_ptr fields arg = elim arg.name [
    | none ↦ faulted
    | some name ↦
        let exported = to_pascal_case p.to_upper name in
        elim (p.ast arg.ty) [
          | AstNode.named type ↦ then_check (match_fields type exported fields false none) (λ r.
              if r.0
              then ok (name, record { field_name = exported; is_ptr = is_ptr; convert_to = r.1 })
              else refused BuildError.expected_field)
          | AstNode.nil ↦ faulted
          | _ ↦ refused BuildError.unexpected_arg_type
        ]
  ]

  unfoldable pub match_arguments :
      Bool
      → List StructField
      → List ArgumentDefinition
      → Map String FuncArgField
      → Checked (Map String FuncArgField)
  match_arguments is_ptr fields [] m = ok m
  match_arguments is_ptr fields (arg ∷ more) m =
      then_check (match_argument is_ptr fields arg)
        (λ r. match_arguments is_ptr fields more (insert r.0 r.1 m))

  -- Whether a parameter is the first context; the package of a type of the universe is nil.
  unfoldable pub is_context : ℕ → FuncResolver → Checked Bool
  is_context ty res = elim (res.context_arg == 0) [
    | false ↦ ok false
    | true ↦ elim (p.go ty) [
      | GoType.named (some path) name methods ↦ ok ((path == "context") && (name == "Context"))
      | GoType.named none name methods ↦ faulted
      | _ ↦ ok false
    ]
  ]

  -- The struct behind a parameter and whether it is behind a pointer.
  abbrev pub struct_of : GoType → Option (List StructField)
  struct_of (GoType.struct fields) = some fields
  struct_of t = none

  abbrev pub args_struct : ℕ → Bool × Option (List StructField)
  args_struct ty = elim (p.go ty) [
    | GoType.pointer elem ↦ (true, struct_of (p.go (p.underlying elem)))
    | _ ↦ (false, struct_of (p.go (p.underlying ty)))
  ]

  -- A parameter that is neither the context nor the struct of the arguments.
  unfoldable pub scan_channel : ℕ → ℕ → FuncResolver → Checked FuncResolver
  scan_channel i ty res = elim (res.output_chan_arg == 0) [
    | false ↦ refused BuildError.arg_unrecognized
    | true ↦ elim (p.go ty) [
      | GoType.chan ChanDir.send_only elem ↦
          ok (record res { output_type = some elem; output_chan_arg = i + 1 })
      | GoType.chan _ elem ↦ refused BuildError.arg_not_send_only
      | _ ↦ refused BuildError.arg_unrecognized
    ]
  ]

  -- A parameter that is not the context, where the struct of the arguments is still missing.
  unfoldable pub scan_struct : FieldDefinition → ℕ → ℕ → FuncResolver → Checked FuncResolver
  scan_struct field i ty res = elim (args_struct ty).1 [
    | none ↦ scan_channel i ty res
    | some fields ↦ then_check (match_arguments (args_struct ty).0 fields field.arguments []) (λ m.
        ok (record res {
          args_fields = m;
          args_arg = i + 1;
          args_type = some ty;
          args_is_ptr = (args_struct ty).0;
        }))
  ]

  -- One round of the loop over the parameters. `output_type` is the variable of that name.
  unfoldable pub scan_param : FieldDefinition → ℕ → ℕ → FuncResolver → Checked FuncResolver
  scan_param field i ty res = then_check (is_context ty res) (λ context. elim context [
    | true ↦ ok (record res { context_arg = i + 1 })
    | false ↦ if res.args_arg == 0 then scan_struct field i ty res else scan_channel i ty res
  ])

  unfoldable pub scan_params : FieldDefinition → ℕ → List ℕ → FuncResolver → Checked FuncResolver
  scan_params field i [] res = ok res
  scan_params field i (ty ∷ more) res =
      then_check (scan_param field i ty res) (λ r. scan_params field (i + 1) more r)

  -- `isErrorType`
  unfoldable pub is_error_type : ℕ → Bool
  is_error_type ty = p.type_string ty == "error"

  -- The results, with an output channel and without one.
  unfoldable pub check_results : List ℕ → FuncResolver → Checked FuncResolver
  check_results results res = elim (res.output_chan_arg == 0) [
    | false ↦ if res.context_arg == 0 then refused BuildError.expected_context else (elim results [
      | [] ↦ ok (record res { returns_error = false })
      | r ∷ [] ↦
          if is_error_type r
          then ok (record res { returns_error = true })
          else refused BuildError.expected_single_error
      | _ ↦ refused BuildError.expected_single_error
    ])
    | true ↦ elim results [
      | r ∷ [] ↦
          if is_error_type r
          then refused BuildError.expected_results
          else ok (record res { output_type = some r })
      | r ∷ e ∷ [] ↦
          if not (is_error_type e) || is_error_type r
          then refused BuildError.expected_results
          else ok (record res { returns_error = true; output_type = some r })
      | _ ↦ refused BuildError.expected_results
    ]
  ]

  -- The type of the schema that the result resolver is for.
  unfoldable pub result_type : ℕ → FuncResolver → ℕ × FuncResolver
  result_type ty res = elim (p.ast ty) [
    | AstNode.list elem ↦
        (if res.output_chan_arg == 0 then ty else elem, record res { output_is_list = true })
    | _ ↦ (ty, record res { output_is_list = false })
  ]

  -- `outputTypeElem`
  abbrev pub output_elem : ℕ → ℕ
  output_elem ty = elim (p.go ty) [ GoType.pointer elem ↦ elem | _ ↦ ty ]

  -- `findResolverFunc`
  unfoldable pub find_method : String → List Func → Checked Func
  find_method pascal [] = refused BuildError.resolver_not_found
  find_method pascal (f ∷ more) =
      let rest = find_method pascal more in
      if (f.name == pascal) || (f.name == append "Get" pascal) then ok f else rest

  unfoldable pub find_resolver_func : ℕ → String → Checked Func
  find_resolver_func ty field = elim (p.go ty) [
    | GoType.named pkg name methods ↦ find_method (to_pascal_case p.to_upper field) methods
    | _ ↦ refused BuildError.expected_named
  ]
