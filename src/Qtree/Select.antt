-- ===== src/Qtree/Select.antt =====
-- The part of `AddChild` that finds the field of a child and its type.
pub mod Sound
use rgraphql.Prelude.{
  ℕ, Bool, true, false, String, Option, none, some, ◌≡◌, ◌≢◌, refl, arith, ◌==◌, string_eq, eq_iff,
  if◌then◌else◌, inl, inr, ◌⊎◌, Bool-cases, Option-cases,
}
use rgraphql.Types.Ast.{AstType, TypeDefinition, Fields, is_primitive}
use rgraphql.Qtree.{Error}

-- What a computation on the schema gives; `fault` is a nil pointer read.
pub data Checked (A : Type 0) : Type 0 where
  ok : A → Checked A
  err : Error → Checked A
  fault : Checked A

infixl 5 ◌>>=◌
abbrev pub ◌>>=◌ : {A B : Type 0} → Checked A → (A → Checked B) → Checked B
ok a >>= f = f a
err e >>= f = err e
fault >>= f = fault

-- The type of `typeNameDef`.
abbrev pub type_name_type : AstType
type_name_type = AstType.named (some "String")

-- The loop over `od.Fields`: the type of the first field of that name, `none` where there is none.
unfoldable pub find_field : String → Fields → Checked (Option AstType)
find_field name Fields.end = ok none
find_field name (Fields.field none ty fs) = fault
find_field name (Fields.field (some n) ty fs) =
    let rest = find_field name fs in if n == name then ok (some ty) else rest

-- One list wrapper, then one non-null wrapper, are taken off.
abbrev pub strip_list : AstType → AstType
strip_list (AstType.list t) = t
strip_list t = t

abbrev pub strip_non_null : AstType → AstType
strip_non_null (AstType.non_null t) = t
strip_non_null t = t

pub record Selection : Type 0 where
  pub ast : Option TypeDefinition
  pub is_primitive : Bool
  pub primitive_name : String

abbrev pub from_lookup : Error → Option TypeDefinition → Checked Selection
from_lookup e none = err e
from_lookup e (some d) = ok (record { ast = some d; is_primitive = false; primitive_name = "" })

-- From the selected type, with its wrappers off, to what the node keeps of it. The schema resolver
-- is the first argument.
unfoldable pub resolve_type : (AstType → Option TypeDefinition) → AstType → Checked Selection
resolve_type look (AstType.named none) = fault
resolve_type look (AstType.named (some name)) =
    if is_primitive name
    then ok (record { ast = none; is_primitive = true; primitive_name = name })
    else from_lookup (Error.unresolved_named name) (look (AstType.named (some name)))
resolve_type look t = from_lookup (Error.unresolved_type t) (look t)

-- The field's type, or the error that names the field and the object.
abbrev pub require_field : String → Option String → Option AstType → Checked AstType
require_field name obj (some ty) = ok ty
require_field name (some o) none = err (Error.invalid_field name o)
require_field name none none = fault

unfoldable pub select_field : String → Option String → Fields → Checked AstType
select_field name obj fs =
    if name == "__typename"
    then ok type_name_type
    else do found ← find_field name fs; require_field name obj found

-- From the AST of the parent to the selection of a child of that name and id.
unfoldable pub select_child :
    (AstType → Option TypeDefinition) → ℕ → String → Option TypeDefinition → Checked Selection
select_child look id name (some (TypeDefinition.object obj fs)) = do
  ty ← select_field name obj fs
  resolve_type look (strip_non_null (strip_list ty))
select_child look id name _ = err (Error.not_selectable id)
