-- ===== src/Types/PrimPack.antt =====
-- types/primitive_pack.go: `NewASTPrimitive` and `UnpackPrimitive`. `strconv.ParseFloat` is a
-- parameter, which gives the bit pattern of the double or fails.
use Prim.Native.Char.{code}
use Prim.Native.String.{String}
use rgraphql.Prelude.{
  ℕ, suc, zero, ◌+◌, ◌-◌, ◌*◌, ◌<◌, Bool, true, false, Option, none, some, List, [], ◌∷◌, ◌≡◌, refl,
  arith, leb, ltb, ◌&&◌, ◌==◌, nat_eq, if◌then◌else◌,
}
use rgraphql.Types.Primitive.{
  ℤ, Kind, Primitive, new_string_primitive, new_int_primitive, new_float_primitive,
  new_bool_primitive,
}

-- `ast.Value` of graphql-go, by the cases of the type switch.
pub data AstValue : Type 0 where
  string_value : String → AstValue
  int_value : String → AstValue
  float_value : String → AstValue
  boolean_value : Bool → AstValue
  enum_value : AstValue
  variable : AstValue
  other : AstValue

pub data PackError : Type 0 where
  bad_number enum_not_supported variable_not_supported unsupported_type : PackError

pub data Packed : Type 0 where
  ok : Primitive → Packed
  err : PackError → Packed

abbrev codes : String → List ℕ
codes String.[] = []
codes (String.◌∷◌ c s) = code c ∷ codes s

-- The digits of a number, most significant first; `none` at any other character.
parse_digits : ℕ → List ℕ → Option ℕ
parse_digits acc [] = some acc
parse_digits acc (c ∷ cs) =
    let rest = parse_digits (acc * 10 + (c - b'0')) cs in
    if leb b'0' c && leb c b'9' then rest else none

-- At least one digit.
parse_uint : List ℕ → Option ℕ
unfolding parse_digits
parse_uint [] = none
parse_uint (c ∷ cs) = parse_digits 0 (c ∷ cs)

-- The sign applied, within 32 bits.
signed32 : Bool → Option ℕ → Option ℤ
signed32 neg none = none
signed32 false (some n) = if ltb n 2147483648 then some (ℤ.pos n) else none
signed32 true (some zero) = some (ℤ.pos 0)
signed32 true (some (suc n)) = if leb (suc n) 2147483648 then some (ℤ.negsuc n) else none

-- `strconv.ParseInt(s, 10, 32)`
unfoldable pub parse_int32 : List ℕ → Option ℤ
unfolding parse_uint signed32
parse_int32 [] = none
parse_int32 (c ∷ cs) =
    if c == b'-'
    then signed32 true (parse_uint cs)
    else if c == b'+'
    then signed32 false (parse_uint cs)
    else signed32 false (parse_uint (c ∷ cs))

abbrev pack_int : Option ℤ → Packed
pack_int none = Packed.err PackError.bad_number
pack_int (some i) = Packed.ok (new_int_primitive i)

abbrev pack_float : Option ℕ → Packed
pack_float none = Packed.err PackError.bad_number
pack_float (some x) = Packed.ok (new_float_primitive x)

-- `NewASTPrimitive`
unfoldable pub new_ast_primitive : (String → Option ℕ) → AstValue → Packed
unfolding parse_int32 new_string_primitive new_int_primitive new_float_primitive new_bool_primitive
new_ast_primitive parse_float (AstValue.string_value s) = Packed.ok (new_string_primitive s)
new_ast_primitive parse_float (AstValue.int_value s) = pack_int (parse_int32 (codes s))
new_ast_primitive parse_float (AstValue.float_value s) = pack_float (parse_float s)
new_ast_primitive parse_float (AstValue.boolean_value b) = Packed.ok (new_bool_primitive b)
new_ast_primitive parse_float AstValue.enum_value = Packed.err PackError.enum_not_supported
new_ast_primitive parse_float AstValue.variable = Packed.err PackError.variable_not_supported
new_ast_primitive parse_float AstValue.other = Packed.err PackError.unsupported_type

-- A Go value of type `any`, as `UnpackPrimitive` returns it.
pub data Any : Type 0 where
  nil : Any
  bool : Bool → Any
  float64 : ℕ → Any
  int32 : ℤ → Any
  string : String → Any

-- `UnpackPrimitive`, by the kind that `GetKind` gives: null for a nil pointer.
unpack_kind : Kind → Primitive → Any
unpack_kind Kind.array p = Any.string "[]"
unpack_kind Kind.bool p = Any.bool p.bool_value
unpack_kind Kind.float p = Any.float64 p.float_value
unpack_kind Kind.int p = Any.int32 p.int_value
unpack_kind Kind.null p = Any.nil
unpack_kind Kind.object p = Any.string "{}"
unpack_kind Kind.string p = Any.string p.string_value
unpack_kind (Kind.other k) p = Any.string "[unknown]"

unfoldable pub unpack_primitive : Option Primitive → Any
unfolding unpack_kind
unpack_primitive none = Any.nil
unpack_primitive (some p) = unpack_kind p.kind p

-- What a literal stands for, with no primitive in between.
abbrev pub any_int : Option ℤ → Option Any
any_int none = none
any_int (some i) = some (Any.int32 i)

abbrev pub any_float : Option ℕ → Option Any
any_float none = none
any_float (some x) = some (Any.float64 x)

abbrev pub literal : (String → Option ℕ) → AstValue → Option Any
literal parse_float (AstValue.string_value s) = some (Any.string s)
literal parse_float (AstValue.int_value s) = any_int (parse_int32 (codes s))
literal parse_float (AstValue.float_value s) = any_float (parse_float s)
literal parse_float (AstValue.boolean_value b) = some (Any.bool b)
literal parse_float _ = none

abbrev pub unpack_packed : Packed → Option Any
unpack_packed (Packed.ok p) = some (unpack_primitive (some p))
unpack_packed (Packed.err e) = none

-- Packing a literal and unpacking it gives the value of the literal, and packing fails exactly
-- where the literal has none.
pub unpack_primitive-new_ast_primitive :
    (parse_float : String → Option ℕ) (v : AstValue)
    → unpack_packed (new_ast_primitive parse_float v) ≡ literal parse_float v
unfolding new_ast_primitive unpack_primitive
unpack_primitive-new_ast_primitive parse_float (AstValue.int_value s) = ground arith
unpack_primitive-new_ast_primitive parse_float (AstValue.float_value s) = ground arith
unpack_primitive-new_ast_primitive parse_float _ = refl

-- -2^31 ≤ i < 2^31
abbrev pub IsInt32 : ℤ → Type 0
IsInt32 (ℤ.pos n) = n < 2147483648
IsInt32 (ℤ.negsuc n) = n < 2147483648

signed32-IsInt32 : (neg : Bool) (o : Option ℕ) (i : ℤ) → signed32 neg o ≡ some i → IsInt32 i
unfolding signed32
signed32-IsInt32 neg none i h = absurd (ground arith)
signed32-IsInt32 false (some n) i h = ground arith
signed32-IsInt32 true (some zero) i h = ground arith
signed32-IsInt32 true (some (suc n)) i h = ground arith

-- A number that `ParseInt` accepts fits the int32 that it is converted to, so nothing is cut off.
pub parse_int32-IsInt32 : (s : List ℕ) (i : ℤ) → parse_int32 s ≡ some i → IsInt32 i
unfolding parse_int32
parse_int32-IsInt32 [] i h = absurd (ground arith)
parse_int32-IsInt32 (c ∷ cs) i h = ground (
  arith,
  signed32-IsInt32 true (parse_uint cs) i,
  signed32-IsInt32 false (parse_uint cs) i,
  signed32-IsInt32 false (parse_uint (c ∷ cs)) i,
)
