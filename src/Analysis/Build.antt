-- ===== src/Analysis/Build.antt =====
-- analysis/model-build.go, `BuildModel` of model.go, and the builders of resolve-object.go,
-- resolve-list.go and resolve-func.go. A builder takes the recursive call of `buildResolver` as an
-- argument.
use Prim.Native.String.{◌++◌ as append}
use rgraphql.Prelude.{
  ℕ, zero, suc, ◌||◌, Bool, true, false, String, Option, none, some, List, [], ◌∷◌, map, lookup,
  insert, nat_eq, string_eq, ◌==◌, if◌then◌else◌,
}
use rgraphql.Analysis.{
  FieldDefinition, AstNode, ChanDir, Func, GoType, Program, Pair, pair_eq, FuncResolver,
  ObjectResolver, of_object, of_list, BuildError, Builder, Out, done, failed, panicked, spent, M,
  ◌>>=◌, lift, alloc, remember, write,
}
use rgraphql.Analysis.Args.{
  scan_params, check_results, result_type, output_elem, find_resolver_func,
}
use rgraphql.Analysis.Primitives.{build_follow}

module _ (p : Program) where
  -- The element of a list, and whether the list is a channel.
  abbrev pub list_elem : ℕ → Option (Option ChanDir × ℕ)
  list_elem ty = elim (p.go (p.underlying ty)) [
    | GoType.chan dir elem ↦ some (some dir, elem)
    | GoType.slice elem ↦ some (none, elem)
    | _ ↦ none
  ]

  -- The type behind the pointer to a list, and whether there is one.
  abbrev pub list_behind : ℕ → Bool × ℕ
  list_behind ty = elim (p.go (p.underlying ty)) [
    | GoType.pointer elem ↦ (true, elem)
    | _ ↦ (false, ty)
  ]

  -- The end of `buildListResolver`, for a slice: its resolver is kept before that of the elements.
  unfoldable pub build_slice : (Pair → M ℕ) → Pair → Bool → ℕ → ℕ → M ℕ
  build_slice rec pair is_ptr inner elem s =
      let a = s.next in
      (alloc (of_list is_ptr none) >>= λ b s1.
      (rec (record { ast_type = inner; resolver_type = output_elem p elem }) >>= λ e s2.
      done a (write a (of_list is_ptr (some e)) s2))
        (remember pair a s1))
        s

  -- `buildListResolver`
  unfoldable pub build_list : (Pair → M ℕ) → Pair → ℕ → M ℕ
  build_list rec pair inner s =
      let (is_ptr, ty) = list_behind pair.resolver_type in
      elim (list_elem ty) [
        | none ↦ failed BuildError.expected_array
        | some (none, elem) ↦ build_slice rec pair is_ptr inner elem s
        | some (some ChanDir.recv_only, elem) ↦ failed BuildError.list_chan_unimplemented
        | some (some _, elem) ↦ failed BuildError.invalid_list_chan
      ]

  abbrev pub new_func_resolver : String → FuncResolver
  new_func_resolver name = record {
    result_resolver = none;
    field_name = name;
    context_arg = 0;
    args_arg = 0;
    args_type = none;
    args_is_ptr = false;
    args_fields = [];
    output_chan_arg = 0;
    output_type = none;
    output_is_list = false;
    returns_error = false;
  }

  -- The resolver of the result; one of the checks has set the type of the output.
  unfoldable pub build_result : (Pair → M ℕ) → ℕ → FuncResolver → M FuncResolver
  build_result rec ty res s = elim res.output_type [
    | none ↦ panicked
    | some output ↦
        (rec (record { ast_type = ty; resolver_type = output_elem p output }) >>= λ a s1.
        done (record res { result_resolver = some a }) s1)
          s
  ]

  -- `buildFuncResolver`
  unfoldable pub build_func : (Pair → M ℕ) → Func → FieldDefinition → M FuncResolver
  build_func rec f field s =
      (lift (scan_params p field 0 f.params (new_func_resolver f.name)) >>= λ scanned.
      lift (check_results p f.results scanned) >>= λ checked.
      let (ty, res) = result_type p field.ty checked in build_result rec ty res)
        s

  -- Whether the field is a list, but for a non-null wrapper.
  abbrev pub is_list_node : AstNode → Bool
  is_list_node (AstNode.list inner) = true
  is_list_node node = false

  abbrev pub is_array : ℕ → Bool
  is_array ty = elim (p.ast ty) [
    | AstNode.non_null inner ↦ is_list_node (p.ast inner)
    | node ↦ is_list_node node
  ]

  -- The name of a field that is not skipped.
  abbrev pub resolved_name : FieldDefinition → Option String
  resolved_name field = elim field.name [
    | none ↦ none
    | some name ↦ if (name == "") || (name == "__schema") then none else some name
  ]

  abbrev pub with_field : String → Bool → FuncResolver → ObjectResolver → ObjectResolver
  with_field name array res o = record o {
    field_resolvers = insert name res o.field_resolvers;
    array_fields = if array then insert name true o.array_fields else o.array_fields;
  }

  -- A field that is not skipped: its method, the resolver of it, and the entries of the object.
  unfoldable pub build_field :
      (Pair → M ℕ) → ℕ → ℕ → String → FieldDefinition → ObjectResolver → M ObjectResolver
  build_field rec ty a name field o s =
      (lift (find_resolver_func p ty name) >>= λ f. build_func rec f field >>= λ res s1.
      let now = with_field name (is_array field.ty) res o in done now (write a (of_object now) s1))
        s

  -- The loop over the fields of an object, whose resolver is at `a`.
  unfoldable pub build_fields : (Pair → M ℕ) → ℕ → ℕ → List FieldDefinition → ObjectResolver → M ℕ
  build_fields rec ty a [] o s = done a s
  build_fields rec ty a (field ∷ more) o s = elim (resolved_name field) [
    | none ↦ build_fields rec ty a more o s
    | some name ↦ (build_field rec ty a name field o >>= λ o1. build_fields rec ty a more o1) s
  ]

  -- The named type of an object: the type itself, or the one that it points to.
  abbrev pub named_at : ℕ → Option (ℕ × Option String)
  named_at ty = elim (p.go ty) [ GoType.named pkg name methods ↦ some (ty, pkg) | _ ↦ none ]

  abbrev pub object_type : ℕ → Option (ℕ × Option String)
  object_type ty = elim (p.go ty) [ GoType.pointer elem ↦ named_at elem | _ ↦ named_at ty ]

  abbrev pub new_object_resolver : String → ℕ → ObjectResolver
  new_object_resolver name ty = record {
    type_name = name;
    go_type_name = ty;
    go_gen_resolver_func_name = append "Resolve" name;
    field_resolvers = [];
    array_fields = [];
  }

  -- An object with a name and a named type: it is kept before its fields are built.
  unfoldable pub build_object_at :
      (Pair → M ℕ) → Pair → String → ℕ → Option String → List FieldDefinition → M ℕ
  build_object_at rec pair name ty none fields s = panicked
  build_object_at rec pair name ty (some path) fields s =
      let o = new_object_resolver name ty in
      (alloc (of_object o) >>= λ a s1.
      let s2 = remember pair a s1 in
      build_fields rec pair.resolver_type a fields o
        (record s2 { imports = insert path tt s2.imports }))
        s

  -- `buildObjectResolver`
  unfoldable pub build_object : (Pair → M ℕ) → Pair → Option String → List FieldDefinition → M ℕ
  build_object rec pair name fields s = elim (object_type pair.resolver_type) [
    | none ↦ failed BuildError.expected_named_object
    | some (ty, pkg) ↦ elim name [
      | none ↦ panicked
      | some n ↦ build_object_at rec pair n ty pkg fields s
    ]
  ]

  -- The deferred call, where the pair is kept.
  abbrev pub keep : Pair → M ℕ → M ℕ
  keep pair m = m >>= λ a s. done a (remember pair a s)

  -- The switch of `buildResolver`.
  unfoldable pub build_node : ℕ → (Pair → M ℕ) → Pair → M ℕ
  build_node f rec pair s = elim (p.ast pair.ast_type) [
    | AstNode.named name ↦ build_follow p f rec pair.ast_type name pair.resolver_type s
    | AstNode.non_null inner ↦
        keep pair (rec (record { ast_type = inner; resolver_type = pair.resolver_type })) s
    | AstNode.object name fields ↦ keep pair (build_object rec pair name fields) s
    | AstNode.list inner ↦ keep pair (build_list rec pair inner) s
    | AstNode.nil ↦ panicked
    | AstNode.other ↦ failed BuildError.unsupported_kind
  ]

  -- `buildResolver`
  unfoldable pub build_resolver : ℕ → Pair → M ℕ
  build_resolver zero pair s = spent
  build_resolver (suc f) pair s = elim (lookup pair s.resolvers) [
    | some a ↦ done a s
    | none ↦ build_node f (build_resolver f) pair s
  ]

  abbrev pub new_model_builder : Builder
  new_model_builder = record { resolvers = []; heap = []; next = 0; imports = [] }

  -- `GetName`
  abbrev pub get_name : Builder → ℕ → String
  get_name s a = elim (lookup a s.heap) [
    | some (of_object o) ↦ o.go_gen_resolver_func_name
    | _ ↦ ""
  ]

  -- `Model`
  pub record Model : Type 0 where
    pub root_resolver : ℕ
    pub all_resolvers : List ℕ
    pub root_schema : ℕ
    pub imports : List String

  -- `BuildModel`; a type or a schema may be nil.
  unfoldable pub build_model : ℕ → Option ℕ → Option ℕ → Out Model
  build_model f schema none = failed BuildError.nil_resolver_type
  build_model f none (some ty) = failed BuildError.nil_root_schema
  build_model f (some root) (some ty) =
      (build_resolver f (record { ast_type = root; resolver_type = ty }) >>= λ a s.
      done
        (record {
          root_resolver = a;
          all_resolvers = p.sort_by (get_name s) (map (λ e. e.1) s.resolvers);
          root_schema = root;
          imports = map (λ e. e.0) s.imports;
        })
        s)
        new_model_builder
