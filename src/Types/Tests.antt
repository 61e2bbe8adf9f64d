-- ===== src/Types/Tests.antt =====
-- The theorems about types at concrete inputs.
use rgraphql.Prelude.{ℕ, String, Option, none, some, ◌≡◌}
use rgraphql.Types.Primitive.{ℤ, Kind, Primitive, zero_primitive}
use rgraphql.Types.Ast.{AstType}
use rgraphql.Types.PrimPack.{
  AstValue, new_ast_primitive, unpack_packed, literal, unpack_primitive-new_ast_primitive,
}

abbrev seven : Primitive
seven = record (zero_primitive Kind.int) { int_value = ℤ.pos 7 }

-- The double whose bits are a NaN.
abbrev nan : Primitive
nan = record (zero_primitive Kind.float) { float_value = 9221120237041090560 }

abbrev list_of_int : AstType
list_of_int = AstType.non_null (AstType.list (AstType.named (some "Int")))

abbrev no_floats : String → Option ℕ
no_floats s = none

unpack_primitive-new_ast_primitive_example :
    unpack_packed (new_ast_primitive no_floats (AstValue.int_value "-12"))
    ≡ literal no_floats (AstValue.int_value "-12")
unpack_primitive-new_ast_primitive_example =
    unpack_primitive-new_ast_primitive no_floats (AstValue.int_value "-12")
