-- ===== src/Qtree.antt =====
-- qtree/qtree.go, qtree/qtree_sub.go and qtree/schema.go: the server's query tree. A `*QueryTreeNode`
-- is an address into `nodes`; an operation takes the state to a result, or blocks on the error
-- channel, or panics, or is `spent`, where a recursion was given too little fuel.
pub mod Select
pub mod Subscribe
pub mod AddChild
pub mod Dispose
pub mod Mutation
mod Tests
use mathlib.Core.Option
use rgraphql.Prelude.{
  ℕ, ◌+◌, Bool, true, false, String, Option, none, some, List, [], ◌∷◌, ◌++◌, Map, nat_eq, lookup,
  insert,
}
use rgraphql.Types.Ast.{AstType, TypeDefinition}
use rgraphql.Varstore.{VariableReference, VariableStore, new_variable_store}

-- `FieldArgument`
pub record FieldArgument : Type 0 where
  pub name : String
  pub variable_id : ℕ

-- `RGQLQueryTreeNode`, the message
mutual
  pub data QueryNode : Type 0 where
    node : ℕ → String → List FieldArgument → QueryNodes → QueryNode

  pub data QueryNodes : Type 0 where
    end : QueryNodes
    child : QueryNode → QueryNodes → QueryNodes

-- `QTNodeOperation`
pub data QtNodeOperation : Type 0 where
  add_child del_child delete error : QtNodeOperation

-- `QTNodeUpdate`
pub record QtNodeUpdate : Type 0 where
  pub operation : QtNodeOperation
  pub child : Option ℕ

-- The messages of the errors that `AddChild` returns.
pub data Error : Type 0 where
  already_exists : ℕ → Error
  not_selectable : ℕ → Error
  invalid_field : String → String → Error
  unresolved_named : String → Error
  unresolved_type : AstType → Error
  variable_not_found : ℕ → String → Error

-- `RGQLQueryError`
pub record QueryError : Type 0 where
  pub error : Error
  pub query_node_id : ℕ

-- `QueryTreeNode`. `children` is the array behind the slice and `child_len` the length of the
-- slice; a nil map is `none`; `subscribers` holds the channels of each subscription, and a channel
-- is the list of the updates that wait in it; `disposed` is set when
-- the function of `disposeOnce` is called and `dispose_ended` when it has returned.
pub record QueryTreeNode : Type 0 where
  pub id : ℕ
  pub root : ℕ
  pub parent : Option ℕ
  pub children : List (Option ℕ)
  pub child_len : ℕ
  pub root_node_map : Option (Map ℕ ℕ)
  pub field_name : String
  pub ast : Option TypeDefinition
  pub is_primitive : Bool
  pub primitive_name : String
  pub arguments : Option (Map String VariableReference)
  pub sub_ctr : ℕ
  pub subscribers : Map ℕ (List (List QtNodeUpdate))
  pub err : Option Error
  pub disposed : Bool
  pub dispose_ended : Bool

-- The nodes and the next free address, the variable store that the nodes share, and the error channel: what waits in it, and its
-- capacity. Nothing receives from it between two operations.
pub record Tree : Type 0 where
  pub nodes : Map ℕ QueryTreeNode
  pub next : ℕ
  pub store : VariableStore
  pub errors : List QueryError
  pub error_cap : ℕ

pub data Out (A : Type 0) : Type 0 where
  done : A → Tree → Out A
  blocked : Tree → Out A
  panicked : Tree → Out A
  spent : Out A

infixl 5 ◌>>=◌
abbrev pub ◌>>=◌ : {A B : Type 0} → Out A → (A → Tree → Out B) → Out B
done a t >>= f = f a t
blocked t >>= f = blocked t
panicked t >>= f = panicked t
spent >>= f = spent

-- A read through a pointer; a pointer that is not on the heap panics.
abbrev pub with_node : {A : Type 0} → ℕ → Tree → (QueryTreeNode → Out A) → Out A
with_node a t f = elim (lookup a t.nodes) [ none ↦ panicked t | some n ↦ f n ]

abbrev pub write_node : ℕ → QueryTreeNode → Tree → Tree
write_node a n t = record t { nodes = insert a n t.nodes }

-- `NewQueryTree`, with the capacity of the error channel that it is given.
unfoldable pub new_query_tree : TypeDefinition → ℕ → Tree
unfolding new_variable_store
new_query_tree root_query cap = record {
  nodes =
      (
        0,
        record {
          id = 0;
          root = 0;
          parent = none;
          children = [];
          child_len = 0;
          root_node_map = some ((0, 0) ∷ []);
          field_name = "";
          ast = some root_query;
          is_primitive = false;
          primitive_name = "";
          arguments = none;
          sub_ctr = 0;
          subscribers = [];
          err = none;
          disposed = false;
          dispose_ended = false;
        },
      )
      ∷ [];
  next = 1;
  store = new_variable_store none;
  errors = [];
  error_cap = cap;
}
