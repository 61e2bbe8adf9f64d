-- ===== src/Resolver/Value.antt =====
-- resolver/value.go, and the message `RGQLValue` of rgraphql.proto.
use rgraphql.Prelude.{ℕ, Bool, String, Option, none, some}
use rgraphql.Types.Primitive.{ℤ, Kind, Primitive, zero_primitive}

-- `RGQLValue`
pub record RgqlValue : Type 0 where
  pub query_node_id : ℕ
  pub array_index : ℕ
  pub pos_identifier : ℕ
  pub value : Option Primitive
  pub error : String

abbrev pub zero_value : RgqlValue
zero_value = record {
  query_node_id = 0;
  array_index = 0;
  pos_identifier = 0;
  value = none;
  error = "";
}

-- `Value`; its context is set when it is written. An error is its message.
pub record Value : Type 0 where
  pub context : Option ℕ
  pub value : Option Primitive
  pub error : Option String

unfoldable pub build_error_value : String → Value
build_error_value err = record { context = none; value = none; error = some err }

abbrev of_primitive : Primitive → Value
of_primitive p = record { context = none; value = some p; error = none }

unfoldable pub build_string_value : String → Value
build_string_value val = of_primitive (record (zero_primitive Kind.string) { string_value = val })

unfoldable pub build_int_value : ℤ → Value
build_int_value val = of_primitive (record (zero_primitive Kind.int) { int_value = val })

unfoldable pub build_float_value : ℕ → Value
build_float_value val = of_primitive (record (zero_primitive Kind.float) { float_value = val })

unfoldable pub build_bool_value : Bool → Value
build_bool_value val = of_primitive (record (zero_primitive Kind.bool) { bool_value = val })

unfoldable pub build_null_value : Value
build_null_value = of_primitive (zero_primitive Kind.null)

-- `GetPrimValueFuncName`
unfoldable pub get_prim_value_func_name : Kind → String
get_prim_value_func_name Kind.int = "BuildIntValue"
get_prim_value_func_name Kind.bool = "BuildBoolValue"
get_prim_value_func_name Kind.string = "BuildStringValue"
get_prim_value_func_name Kind.float = "BuildFloatValue"
get_prim_value_func_name Kind.null = "BuildNullValue"
get_prim_value_func_name _ = ""
