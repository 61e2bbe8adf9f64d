-- ===== src/Schema/Lookup.antt =====
-- What `LookupType` of schema/ast.go finds behind wrappers.
use rgraphql.Prelude.{◌≡◌, refl}
use rgraphql.Types.Ast.{AstType, unwrap_ast_type}
use rgraphql.Schema.{AstParts, lookup_type}

-- Looking up a type finds what looking up the type without its list and non-null wrappers finds, so
-- that the server, which looks up types as they are written, and the client, which unwraps them
-- first, find the same definition.
lookup_type-unwrap_ast_type :
    (ps : AstParts) (t : AstType) → lookup_type ps (unwrap_ast_type t) ≡ lookup_type ps t
unfolding lookup_type unwrap_ast_type
lookup_type-unwrap_ast_type ps (AstType.list t) = lookup_type-unwrap_ast_type ps t
lookup_type-unwrap_ast_type ps (AstType.non_null t) = lookup_type-unwrap_ast_type ps t
lookup_type-unwrap_ast_type ps _ = refl
