-- ===== src/Analysis.antt =====
-- analysis/: how `BuildModel` binds the types of a schema to Go types. A node of the schema's syntax and
-- a type of go/types are numbers, which stand for the pointers that the code compares.
pub mod Words
pub mod Args
pub mod Primitives
pub mod Build
pub mod Rules
pub mod Members
pub mod Sized
pub mod Total
pub mod Extends
pub mod Closed
pub mod Whole
pub mod Followed
pub mod Model
pub mod Pointers
pub mod Params
pub mod Scanned
pub mod Insertion
mod Tests
use Prim.Native.Char.{Char}
use rgraphql.Prelude.{
  ℕ, ◌+◌, ◌&&◌, Bool, true, false, String, Option, none, some, List, [], ◌∷◌, ◌≡◌, ◌↔◌, arith, Map,
  lookup, insert, Comparable, nat_eq, nat_beq_iff, string_eq, ◌==◌,
}
use rgraphql.Types.Primitive.{Kind}

-- `ast.InputValueDefinition`; a name is `none` where the pointer to it is nil.
pub record ArgumentDefinition : Type 0 where
  pub name : Option String
  pub ty : ℕ

-- `ast.FieldDefinition`
pub record FieldDefinition : Type 0 where
  pub name : Option String
  pub arguments : List ArgumentDefinition
  pub ty : ℕ

-- `ast.Node`, as far as this code distinguishes nodes; `nil` is the interface without a value.
pub data AstNode : Type 0 where
  nil : AstNode
  named : Option String → AstNode
  non_null : ℕ → AstNode
  list : ℕ → AstNode
  object : Option String → List FieldDefinition → AstNode
  other : AstNode

-- The direction of a channel.
pub data ChanDir : Type 0 where
  send_recv send_only recv_only : ChanDir

-- A method, with the types of its parameters and results.
pub record Func : Type 0 where
  pub name : String
  pub params : List ℕ
  pub results : List ℕ

-- A field of a Go struct.
pub record StructField : Type 0 where
  pub name : String
  pub ty : ℕ

-- The types of go/types that this code distinguishes. The package of a named type is `none` for the
-- types of the universe; a basic type has the number of its kind.
pub data GoType : Type 0 where
  named : Option String → String → List Func → GoType
  pointer : ℕ → GoType
  chan : ChanDir → ℕ → GoType
  slice : ℕ → GoType
  struct : List StructField → GoType
  basic : ℕ → GoType
  other : GoType

-- The schema with its `ASTLookup`, what go/types says of the code, `unicode.ToUpper`, and
-- `slices.SortFunc` by the names that it is given.
pub record Program : Type 0 where
  pub ast : ℕ → AstNode
  pub look : ℕ → Option ℕ
  pub go : ℕ → GoType
  pub underlying : ℕ → ℕ
  pub type_string : ℕ → String
  pub assignable : ℕ → ℕ → Bool
  pub convertible : ℕ → ℕ → Bool
  pub universe : String → ℕ
  pub basic_kind : String → ℕ
  pub to_upper : Char → Char
  pub sort_by : (ℕ → String) → List ℕ → List ℕ

-- `typeResolverPair`
pub record Pair : Type 0 where
  pub ast_type : ℕ
  pub resolver_type : ℕ

pub pair_beq_iff :
    (x y : Pair)
    → (((x.ast_type == y.ast_type) && (x.resolver_type == y.resolver_type)) ≡ true) ↔ (x ≡ y)
pair_beq_iff x y =
    ground (arith, nat_beq_iff x.ast_type y.ast_type, nat_beq_iff x.resolver_type y.resolver_type)

instance abbrev pub pair_eq : Comparable Pair
pair_eq = record {
  same = λ x y. (x.ast_type == y.ast_type) && (x.resolver_type == y.resolver_type);
  same_iff = pair_beq_iff;
}

-- `funcArgField`
pub record FuncArgField : Type 0 where
  pub field_name : String
  pub is_ptr : Bool
  pub convert_to : Option ℕ

-- `funcResolver`; an index counts from 1, and 0 is none.
pub record FuncResolver : Type 0 where
  pub result_resolver : Option ℕ
  pub field_name : String
  pub context_arg : ℕ
  pub args_arg : ℕ
  pub args_type : Option ℕ
  pub args_is_ptr : Bool
  pub args_fields : Map String FuncArgField
  pub output_chan_arg : ℕ
  pub output_type : Option ℕ
  pub output_is_list : Bool
  pub returns_error : Bool

-- `objectResolver`
pub record ObjectResolver : Type 0 where
  pub type_name : String
  pub go_type_name : ℕ
  pub go_gen_resolver_func_name : String
  pub field_resolvers : Map String FuncResolver
  pub array_fields : Map String Bool

-- The resolvers that other resolvers and the builder point to.
pub data Resolver : Type 0 where
  of_object : ObjectResolver → Resolver
  of_list : Bool → Option ℕ → Resolver
  of_primitive : ℕ → Option ℕ → Kind → Resolver

pub data BuildError : Type 0 where
  unsupported_kind type_not_found not_a_primitive not_supported cannot_convert : BuildError
  expected_named_object expected_named expected_array invalid_list_chan list_chan_unimplemented :
      BuildError
  expected_recv_chan value_chan_unimplemented unexpected_non_primitive : BuildError
  resolver_not_found unexpected_arg_type unexpected_field_type expected_field : BuildError
  expected_similar_type arg_not_send_only arg_unrecognized : BuildError
  expected_context expected_single_error expected_results : BuildError
  nil_resolver_type nil_root_schema : BuildError

-- `modelBuilder`, with the resolvers on a heap whose next free address is `next`.
pub record Builder : Type 0 where
  pub resolvers : Map Pair ℕ
  pub heap : Map ℕ Resolver
  pub next : ℕ
  pub imports : Map String (Unit {0})

-- An operation returns a value, returns an error, panics, or was given too little fuel. Each caller
-- passes an error on, so that what an error leaves in the builder is never read.
pub data Out (A : Type 0) : Type 0 where
  done : A → Builder → Out A
  failed : BuildError → Out A
  panicked : Out A
  spent : Out A

abbrev pub M : Type 0 → Type 0
M A = Builder → Out A

infixl 5 ◌>>=◌
abbrev pub ◌>>=◌ : {A B : Type 0} → M A → (A → M B) → M B
◌>>=◌ m f s = elim (m s) [
  | done a s' ↦ f a s'
  | failed e ↦ failed e
  | panicked ↦ panicked
  | spent ↦ spent
]

abbrev pub pure : {A : Type 0} → A → M A
pure a s = done a s

-- A check that reads the builder no more than it writes it.
pub data Checked (A : Type 0) : Type 0 where
  ok : A → Checked A
  refused : BuildError → Checked A
  faulted : Checked A

abbrev pub lift : {A : Type 0} → Checked A → M A
lift (ok a) s = done a s
lift (refused e) s = failed e
lift faulted s = panicked

abbrev pub then_check : {A B : Type 0} → Checked A → (A → Checked B) → Checked B
then_check (ok a) f = f a
then_check (refused e) f = refused e
then_check faulted f = faulted

-- A resolver is allocated, for the pair or for none.
abbrev pub alloc : Resolver → M ℕ
alloc r s = done s.next (record s { heap = insert s.next r s.heap; next = s.next + 1 })

abbrev pub remember : Pair → ℕ → Builder → Builder
remember pair a s = record s { resolvers = insert pair a s.resolvers }

abbrev pub write : ℕ → Resolver → Builder → Builder
write a r s = record s { heap = insert a r s.heap }
