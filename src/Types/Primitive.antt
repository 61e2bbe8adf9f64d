-- ===== src/Types/Primitive.antt =====
-- `RGQLPrimitive` (rgraphql.proto) and the constructors of types/primitive_pack.go. An `int32` is
-- an integer, a `double` its IEEE 754 bit pattern, and a nil pointer to a primitive is `none`.
use rgraphql.Prelude.{ℕ, Bool, false, String}

-- `negsuc n` is -(n + 1).
pub data ℤ : Type 0 where
  pos : ℕ → ℤ
  negsuc : ℕ → ℤ

-- `RGQLPrimitive_Kind`, an open enum: a number that has no name is kept.
pub data Kind : Type 0 where
  null int float string bool object array : Kind
  other : ℕ → Kind

abbrev Float64 : Type 0
Float64 = ℕ

pub record Primitive : Type 0 where
  pub kind : Kind
  pub int_value : ℤ
  pub float_value : ℕ
  pub string_value : String
  pub bool_value : Bool

-- A message whose fields are all unset.
abbrev pub zero_primitive : Kind → Primitive
zero_primitive k = record {
  kind = k;
  int_value = ℤ.pos 0;
  float_value = 0;
  string_value = "";
  bool_value = false;
}

unfoldable pub new_string_primitive : String → Primitive
new_string_primitive val = record (zero_primitive Kind.string) { string_value = val }

unfoldable pub new_int_primitive : ℤ → Primitive
new_int_primitive val = record (zero_primitive Kind.int) { int_value = val }

unfoldable pub new_float_primitive : ℕ → Primitive
new_float_primitive val = record (zero_primitive Kind.float) { float_value = val }

unfoldable pub new_bool_primitive : Bool → Primitive
new_bool_primitive val = record (zero_primitive Kind.bool) { bool_value = val }

unfoldable pub new_null_primitive : Primitive
new_null_primitive = zero_primitive Kind.null
