-- ===== src/Ast.antt =====
-- include/trsc/AST/AST.h: the nodes of the tree. A pointer that may be null is a node or
-- the constructor for null. Source ranges are left out, and so is `CurrentScope`, which nothing reads.
pub mod Allocator
use trsc.Types.QualType.{QualType, null}
use trsc.Common.{Bytes, ℕ, Bool, true, false, Option, none, List, [], ◌∷◌}
use trsc.Lex.Token.{TokenKind, IdentifierInfo}

pub data TypeNode : Type 0 where
  null_type : TypeNode
  type_name : Option IdentifierInfo → TypeNode
  pointer_type_name : TypeNode → Bool → TypeNode
  reference_type_name : TypeNode → Bool → TypeNode
  array_type_name : TypeNode → ℕ → TypeNode

-- An expression is null or a node with its `ExprType`. `float_node` keeps the text of the literal,
-- whose value is a `double`; `var_node` has the address of its `ResolvedSym`. A pointer that the source declares as
-- one class of expression (`VarExpr *`, `IntExpr *`, `RangeExpr *`) is an `Expr` too.
mutual
  pub data Expr : Type 0 where
    null_expr : Expr
    expr : QualType → ExprNode → Expr

  pub data ExprNode : Type 0 where
    int_node : ℕ → ExprNode
    float_node : Bytes → ExprNode
    bool_node : Bool → ExprNode
    string_node : Bytes → ExprNode
    var_node : Option IdentifierInfo → Option ℕ → ExprNode
    refr_node : Expr → Bool → ExprNode
    bin_node : TokenKind → Expr → Expr → ExprNode
    unary_node : TokenKind → Expr → ExprNode
    as_node : Expr → TypeNode → ExprNode
    array_node : Exprs → Expr → List ℕ → ExprNode
    array_access_node : Expr → Exprs → ExprNode
    range_node : Bool → Expr → Expr → ExprNode
    fun_call_node : Expr → Exprs → ExprNode
    macro_call_node : Bytes → Bytes → Bool → Exprs → ExprNode

  pub data Exprs : Type 0 where
    no_exprs : Exprs
    add_expr : Expr → Exprs → Exprs

-- The constructors: a new node has the null type, and a new `VarExpr` no symbol.
abbrev pub new_expr : ExprNode → Expr
new_expr = expr null

abbrev pub int_expr : ℕ → Expr
int_expr n = new_expr (int_node n)

abbrev pub float_expr : Bytes → Expr
float_expr s = new_expr (float_node s)

abbrev pub bool_expr : Bool → Expr
bool_expr b = new_expr (bool_node b)

abbrev pub string_expr : Bytes → Expr
string_expr s = new_expr (string_node s)

abbrev pub var_expr : Option IdentifierInfo → Expr
var_expr id = new_expr (var_node id none)

abbrev pub refr_expr : Expr → Bool → Expr
refr_expr e m = new_expr (refr_node e m)

abbrev pub bin_expr : TokenKind → Expr → Expr → Expr
bin_expr op l r = new_expr (bin_node op l r)

abbrev pub unary_expr : TokenKind → Expr → Expr
unary_expr op e = new_expr (unary_node op e)

abbrev pub as_expr : Expr → TypeNode → Expr
as_expr e t = new_expr (as_node e t)

abbrev pub array_expr : Exprs → Expr → List ℕ → Expr
array_expr es n shape = new_expr (array_node es n shape)

abbrev pub array_access_expr : Expr → Exprs → Expr
array_access_expr name es = new_expr (array_access_node name es)

abbrev pub range_expr : Bool → Expr → Expr → Expr
range_expr inclusive from to = new_expr (range_node inclusive from to)

abbrev pub fun_call : Expr → Exprs → Expr
fun_call name es = new_expr (fun_call_node name es)

abbrev pub macro_call : Bytes → Bytes → Bool → Exprs → Expr
macro_call name format has_format es = new_expr (macro_call_node name format has_format es)

-- `getType` and `setType`, of an expression that is not null.
unfoldable pub get_type : Expr → QualType
get_type null_expr = null
get_type (expr t e) = t

unfoldable pub set_type : Expr → QualType → Expr
set_type null_expr t = null_expr
set_type (expr _ e) t = expr t e

abbrev pub Param : Type 0
Param = Expr × TypeNode

mutual
  pub data Stmt : Type 0 where
    null_stmt : Stmt
    let_stmt : Bool → Expr → TypeNode → Expr → Stmt
    block_stmt : Stmts → Stmt
    if_stmt : Expr → Stmt → Stmt → Stmt
    expr_stmt : Expr → Stmt
    for_stmt : Expr → Expr → Stmt → Stmt
    while_stmt : Expr → Stmt → Stmt
    func_decl : Expr → TypeNode → List Param → Stmt → Stmt
    return_stmt : Expr → Stmt

  pub data Stmts : Type 0 where
    no_stmts : Stmts
    add_stmt : Stmt → Stmts → Stmts

-- `ArrayRef` copies of the vectors.
unfoldable pub exprs : List Expr → Exprs
exprs [] = no_exprs
exprs (e ∷ es) = add_expr e (exprs es)

unfoldable pub stmts : List Stmt → Stmts
stmts [] = no_stmts
stmts (s ∷ ss) = add_stmt s (stmts ss)

-- The tests `!E`, `!S` and `!T` of a pointer.
unfoldable pub is_null_expr : Expr → Bool
is_null_expr null_expr = true
is_null_expr _ = false

unfoldable pub is_null_stmt : Stmt → Bool
is_null_stmt null_stmt = true
is_null_stmt _ = false

unfoldable pub is_null_type : TypeNode → Bool
is_null_type null_type = true
is_null_type _ = false

-- `isMut` of a type node.
unfoldable pub is_mut : TypeNode → Bool
is_mut (pointer_type_name _ m) = m
is_mut (reference_type_name _ m) = m
is_mut _ = false
