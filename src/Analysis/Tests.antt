-- ===== src/Analysis/Tests.antt =====
-- Runs of the model builder, and the theorems about it at concrete inputs. The schema has an object
-- `Root` with the fields `self`, `name` and `all`, a list of roots.
use rgraphql.Prelude.{
  ℕ, zero, suc, ◌<◌, ◌≤◌, Bool, true, false, String, Option, none, some, List, [], ◌∷◌, ◌≡◌, ◌⊎◌,
  refl, arith, lookup, insert, nat_eq, string_eq, ◌==◌,
}
use rgraphql.Analysis.{
  FieldDefinition, AstNode, ChanDir, Func, GoType, Program, Pair, pair_eq, BuildError, Builder, Out,
  FuncResolver, Resolver, of_object, done, failed, panicked, faulted,
}
use rgraphql.Analysis.Words.{to_pascal_case, pascal_loop}
use rgraphql.Types.Ast.{is_primitive}
use rgraphql.Analysis.Args.{
  check_field, scan_params, check_results, result_type, find_resolver_func, find_method,
  is_error_type,
}
use rgraphql.Analysis.Extends.{IsObject}
use rgraphql.Analysis.Build.{
  build_model, Model, object_type, build_resolver, build_node, build_object, build_object_at,
  build_fields, build_field, build_func, build_result, build_list, build_slice, new_func_resolver,
}
use rgraphql.Analysis.Primitives.{
  build_follow, build_primitive, convert_primitive, follow_type, leaf_loop,
}
use rgraphql.Analysis.Rules.{among}
use rgraphql.Analysis.Build.{new_model_builder}
use rgraphql.Analysis.Sized.{Sized}
use rgraphql.Analysis.Model.{WholeModel, build_model-WholeModel}
use rgraphql.Analysis.Pointers.{build_resolver-pointer}

abbrev field : String → ℕ → FieldDefinition
field name ty = record { name = some name; arguments = []; ty = ty }

abbrev root_fields : List FieldDefinition
root_fields = field "self" 1 ∷ field "name" 2 ∷ field "all" 3 ∷ []

abbrev ast : ℕ → AstNode
ast zero = AstNode.object (some "Root") root_fields
ast (suc zero) = AstNode.named (some "Root")
ast (suc (suc zero)) = AstNode.named (some "String")
ast (suc (suc (suc zero))) = AstNode.list 1
ast _ = AstNode.other

abbrev look : ℕ → Option ℕ
look (suc zero) = some 0
look _ = none

abbrev getter : String → ℕ → Func
getter name ty = record { name = name; params = []; results = ty ∷ [] }

abbrev root_methods : List Func
root_methods = getter "self" 1 ∷ getter "Getname" 2 ∷ getter "all" 4 ∷ []

abbrev go : ℕ → GoType
go zero = GoType.named (some "app") "Root" root_methods
go (suc zero) = GoType.pointer 0
go (suc (suc zero)) = GoType.basic 17
go (suc (suc (suc zero))) = GoType.struct []
go (suc (suc (suc (suc zero)))) = GoType.slice 1
go _ = GoType.other

abbrev underlying : ℕ → ℕ
underlying zero = 3
underlying ty = ty

-- Letters are left as they are.
abbrev program : Program
program = record {
  ast = ast;
  look = look;
  go = go;
  underlying = underlying;
  type_string = λ ty. "";
  assignable = λ v t. true;
  convertible = λ v t. true;
  universe = λ name. 2;
  basic_kind = λ name. 17;
  to_upper = λ c. c;
  sort_by = λ by xs. xs;
}

abbrev level : ℕ → ℕ
level (suc zero) = 1
level (suc (suc zero)) = 1
level (suc (suc (suc zero))) = 2
level _ = 0

abbrev rank : ℕ → ℕ
rank zero = 1
rank (suc zero) = 2
rank _ = 0

abbrev pairs : List Pair
pairs = record { ast_type = 0; resolver_type = 0 } ∷ record { ast_type = 0; resolver_type = 1 } ∷ []

program-Sized : Sized program pairs level rank 2 2
program-Sized = record {
  listed =
      λ pair ty pkg name fields e g. listed pair.ast_type pair.resolver_type ty pkg name fields e g;
  below_non_null = below_non_null;
  below_list = below_list;
  below_named = below_named;
  level_le = level_le;
  rank_pointer = rank_pointer;
  rank_chan = rank_chan;
  rank_named = rank_named;
  rank_underlying = rank_underlying;
  rank_le = rank_le;
}
  where
    listed :
        (a g ty : ℕ) (pkg name : Option String) (fields : List FieldDefinition)
        → ast a ≡ AstNode.object name fields
        → object_type program g ≡ some (ty, pkg)
        → among (record { ast_type = a; resolver_type = g }) pairs ≡ true
    listed zero zero ty pkg name fields e k = refl
    listed zero (suc zero) ty pkg name fields e k = refl
    listed zero (suc (suc zero)) ty pkg name fields e k = absurd (ground (arith))
    listed zero (suc (suc (suc zero))) ty pkg name fields e k = absurd (ground (arith))
    listed zero (suc (suc (suc (suc zero)))) ty pkg name fields e k = absurd (ground (arith))
    listed zero _ ty pkg name fields e k = absurd (ground (arith))
    listed (suc zero) g ty pkg name fields e k = absurd (ground (arith))
    listed (suc (suc zero)) g ty pkg name fields e k = absurd (ground (arith))
    listed (suc (suc (suc zero))) g ty pkg name fields e k = absurd (ground (arith))
    listed _ g ty pkg name fields e k = absurd (ground (arith))

    below_non_null : (a b : ℕ) → ast a ≡ AstNode.non_null b → level b < level a
    below_non_null zero b e = absurd (ground (arith))
    below_non_null (suc zero) b e = absurd (ground (arith))
    below_non_null (suc (suc zero)) b e = absurd (ground (arith))
    below_non_null (suc (suc (suc zero))) b e = absurd (ground (arith))
    below_non_null _ b e = absurd (ground (arith))

    below_list : (a b : ℕ) → ast a ≡ AstNode.list b → level b < level a
    below_list zero b e = absurd (ground (arith))
    below_list (suc zero) b e = absurd (ground (arith))
    below_list (suc (suc zero)) b e = absurd (ground (arith))
    below_list (suc (suc (suc zero))) b e = ground (arith)
    below_list _ b e = absurd (ground (arith))

    below_named :
        (a b : ℕ) (name : Option String)
        → ast a ≡ AstNode.named name
        → look a ≡ some b
        → level b < level a
    below_named zero b name e k = absurd (ground (arith))
    below_named (suc zero) b name e k = ground (arith)
    below_named (suc (suc zero)) b name e k = absurd (ground (arith))
    below_named (suc (suc (suc zero))) b name e k = absurd (ground (arith))
    below_named _ b name e k = absurd (ground (arith))

    level_le : (a : ℕ) → level a ≤ 2
    level_le a = ground (arith)

    rank_pointer : (g e : ℕ) → go g ≡ GoType.pointer e → rank e < rank g
    rank_pointer zero e h = absurd (ground (arith))
    rank_pointer (suc zero) e h = ground (arith)
    rank_pointer (suc (suc zero)) e h = absurd (ground (arith))
    rank_pointer (suc (suc (suc zero))) e h = absurd (ground (arith))
    rank_pointer (suc (suc (suc (suc zero)))) e h = absurd (ground (arith))
    rank_pointer _ e h = absurd (ground (arith))

    rank_chan : (g e : ℕ) (dir : ChanDir) → go g ≡ GoType.chan dir e → rank e < rank g
    rank_chan zero e dir h = absurd (ground (arith))
    rank_chan (suc zero) e dir h = absurd (ground (arith))
    rank_chan (suc (suc zero)) e dir h = absurd (ground (arith))
    rank_chan (suc (suc (suc zero))) e dir h = absurd (ground (arith))
    rank_chan (suc (suc (suc (suc zero)))) e dir h = absurd (ground (arith))
    rank_chan _ e dir h = absurd (ground (arith))

    rank_named :
        (g : ℕ) (pkg : Option String) (name : String) (methods : List Func)
        → go g ≡ GoType.named pkg name methods
        → rank (underlying g) < rank g
    rank_named zero pkg name methods h = omega (arith)
    rank_named (suc zero) pkg name methods h = absurd (ground (arith))
    rank_named (suc (suc zero)) pkg name methods h = absurd (ground (arith))
    rank_named (suc (suc (suc zero))) pkg name methods h = absurd (ground (arith))
    rank_named (suc (suc (suc (suc zero)))) pkg name methods h = absurd (ground (arith))
    rank_named _ pkg name methods h = absurd (ground (arith))

    rank_underlying : (g : ℕ) → rank (underlying g) ≤ rank g
    rank_underlying zero = omega (arith)
    rank_underlying (suc zero) = omega (arith)
    rank_underlying _ = ground (arith)

    rank_le : (g : ℕ) → rank g ≤ 2
    rank_le g = ground (arith)

abbrev root_is_object : IsObject program (record { ast_type = 0; resolver_type = 0 })
root_is_object = (some "Root", root_fields, refl)

abbrev func_resolver : String → ℕ → Bool → ℕ → FuncResolver
func_resolver name ty is_list a = record {
  result_resolver = some a;
  field_name = name;
  context_arg = 0;
  args_arg = 0;
  args_type = none;
  args_is_ptr = false;
  args_fields = [];
  output_chan_arg = 0;
  output_type = some ty;
  output_is_list = is_list;
  returns_error = false;
}

-- What a run leaves: the resolver of the root and the builder.
abbrev root_of : Out (Model program) → Option (ℕ × Option Resolver)
root_of (done m s) = some (m.root_resolver, lookup m.root_resolver s.heap)
root_of _ = none

-- The root is recursive: `self` and the elements of `all` go back to its own resolver.
recursive :
    root_of (build_model program 28 (some 0) (some 0))
    ≡ some (
      0,
      some (
          of_object (record {
            type_name = "Root";
            go_type_name = 0;
            go_gen_resolver_func_name = "ResolveRoot";
            field_resolvers =
                ("self", func_resolver "self" 1 false 0)
                ∷ ("name", func_resolver "Getname" 2 false 1)
                ∷ ("all", func_resolver "all" 4 true 2)
                ∷ [];
            array_fields = ("all", true) ∷ [];
          })),
    )
unfolding build_model build_resolver build_node build_object build_object_at build_fields
    build_field build_func build_result build_follow build_list build_slice build_primitive
    convert_primitive follow_type leaf_loop scan_params check_results result_type find_resolver_func
    find_method is_error_type lookup insert is_primitive to_pascal_case pascal_loop
recursive = refl

pascal : to_pascal_case (λ c. c) "the_root name" ≡ "therootname"
unfolding to_pascal_case pascal_loop
pascal = refl

-- An argument of a type that is no built-in scalar, and a field of a basic type: `primType` is nil.
no_scalar : check_field program (some "Color") (record { name = "color"; ty = 2 }) ≡ faulted
unfolding check_field lookup
no_scalar = refl

build_model-WholeModel_example :
    ((e : BuildError) × (build_model program 28 (some 0) (some 0) ≡ failed e))
    ⊎ ((build_model program 28 (some 0) (some 0) ≡ panicked)
        ⊎ ((m : Model program) × (s : Builder) × (build_model program 28 (some 0) (some 0)
              ≡ done m s)
            × WholeModel program (record { ast_type = 0; resolver_type = 0 }) m s))
build_model-WholeModel_example =
    build_model-WholeModel program pairs level rank 2 2 28 0 0 program-Sized (omega arith)
      root_is_object

-- The root has its resolver already, and is met again behind a pointer.
abbrev root_kept : Builder
root_kept = record (new_model_builder program) {
  resolvers = (record { ast_type = 0; resolver_type = 0 }, 0) ∷ [];
}

build_resolver-pointer_example :
    build_resolver program 3 (record { ast_type = 0; resolver_type = 1 }) root_kept
    ≡ failed BuildError.expected_named
unfolding lookup
build_resolver-pointer_example =
    build_resolver-pointer program 2 (record { ast_type = 0; resolver_type = 1 }) 0 "Root" "app"
      "Root" root_methods root_fields root_kept refl refl refl refl refl

-- A method with a parameter for the arguments and one for the output channel, in that order.
abbrev stream_field : FieldDefinition
stream_field = field "stream" 2

abbrev stream_program : Program
stream_program = record program {
  go = λ ty. elim (ty == 5) [ true ↦ GoType.chan ChanDir.send_only 2 | false ↦ go ty ];
}

abbrev scanned : FuncResolver
scanned = record (new_func_resolver stream_program "Stream") {
  args_arg = 1;
  args_type = some 3;
  output_chan_arg = 2;
  output_type = some 2;
}
