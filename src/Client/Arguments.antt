-- ===== src/Client/Arguments.antt =====
-- client/query-tree-args.go on the variable store: how arguments are bound to variables, compared
-- and sent.
use mathlib.Core.Option
use rgraphql.Prelude.{
  ℕ, Bool, true, false, String, Option, none, some, List, [], ◌∷◌, Map, lookup, insert, string_eq,
  nat_eq, ◌==◌,
}
use rgraphql.Types.PrimPack.{AstValue, PackError, Packed, new_ast_primitive}
use rgraphql.Varstore.{
  VariableReference, VariableStore, get_or_put_with_value, get_value, get_var_id,
}
use rgraphql.Qtree.{FieldArgument}
use rgraphql.Client.ArgsMap.{ArgsMap, equals}

-- `argsMap`
abbrev pub Args : Type 0
Args = Map String VariableReference

-- `ast.Argument`
pub record Argument : Type 0 where
  pub name : Option String
  pub value : AstValue

-- The map, or the error; a nil reference would be a fault.
pub data Bound : Type 0 where
  bound : Option Args → VariableStore → Bound
  refused : PackError → VariableStore → Bound
  fault : Bound

-- The loop of `newArgsMapFromAst`. A new primitive is no pointer that the store holds.
unfoldable pub bind_loop : (String → Option ℕ) → List Argument → Args → VariableStore → Bound
bind_loop parse_float [] m vs = bound (some m) vs
bind_loop parse_float (arg ∷ args) m vs = elim arg.name [
  | none ↦ bind_loop parse_float args m vs
  | some name ↦ elim (new_ast_primitive parse_float arg.value) [
    | Packed.err e ↦ refused e vs
    | Packed.ok p ↦
        let (vs', found) = get_or_put_with_value (λ a. false) (some p) vs in
        elim found [ none ↦ fault | some r ↦ bind_loop parse_float args (insert name r m) vs' ]
  ]
]

-- `newArgsMapFromAst`; without arguments the map is nil.
unfoldable pub new_args_map : (String → Option ℕ) → List Argument → VariableStore → Bound
new_args_map parse_float [] vs = bound none vs
new_args_map parse_float (arg ∷ args) vs = bind_loop parse_float (arg ∷ args) [] vs

-- The values that the handles read.
unfoldable pub values_of : VariableStore → Args → ArgsMap
values_of vs [] = []
values_of vs ((name, r) ∷ m) = (name, get_value r vs) ∷ values_of vs m

-- Two handles read one pointer if they are on one variable.
abbrev pub same_variable : Option VariableReference → Option VariableReference → Bool
same_variable (some r) (some s) = r.vb == s.vb
same_variable _ _ = false

-- `Equals`, on handles.
unfoldable pub args_equal : VariableStore → Option Args → Option Args → Bool
args_equal vs none none = true
args_equal vs none (some b) = equals (λ k. false) none (some (values_of vs b))
args_equal vs (some a) none = equals (λ k. false) (some (values_of vs a)) none
args_equal vs (some a) (some b) =
    equals (λ k. same_variable (lookup k a) (lookup k b)) (some (values_of vs a))
      (some (values_of vs b))

-- `BuildProto`; `none` where a handle is on no variable.
unfoldable pub build_proto : VariableStore → Args → Option (List FieldArgument)
build_proto vs [] = some []
build_proto vs ((name, r) ∷ m) = elim (get_var_id r vs) [
  | none ↦ none
  | some id ↦
      Option.map (λ rest. record { name = name; variable_id = id } ∷ rest) (build_proto vs m)
]
