-- ===== src/Sema/NameResolver/Named.antt =====
-- The trees that DeclarationCollector and NameResolver follow no null pointer in.
use trsc.Common.{List, [], ◌∷◌, some}
use trsc.Ast.{
  Expr, Exprs, Param, Stmt, Stmts, null_expr, expr, var_node, refr_node, bin_node, unary_node,
  as_node, array_node, array_access_node, range_node, fun_call_node, macro_call_node, no_exprs,
  add_expr, null_stmt, let_stmt, block_stmt, if_stmt, expr_stmt, for_stmt, while_stmt, func_decl,
  return_stmt, no_stmts, add_stmt,
}

-- A `VarExpr` that has the `IdentifierInfo` of its token.
unfoldable pub IsVar : Expr → Type 0
IsVar (expr t (var_node (some id) s)) = Unit
IsVar _ = ⊥

-- Every name that is used is a `VarExpr` with its identifier.
unfoldable mutual
  unfolding IsVar

  pub Named : Expr → Type 0
  Named null_expr = Unit
  Named (expr t (var_node id s)) = IsVar (expr t (var_node id s))
  Named (expr t (refr_node e m)) = Named e
  Named (expr t (bin_node op l r)) = Named l × Named r
  Named (expr t (unary_node op e)) = Named e
  Named (expr t (as_node e to)) = Named e
  Named (expr t (array_node es n shape)) = AllNamed es × Named n
  Named (expr t (array_access_node name es)) = IsVar name × AllNamed es
  Named (expr t (range_node i from to)) = Named from × Named to
  Named (expr t (fun_call_node name es)) = IsVar name × AllNamed es
  Named (expr t (macro_call_node name f h es)) = AllNamed es
  Named (expr t _) = Unit

  pub AllNamed : Exprs → Type 0
  AllNamed no_exprs = Unit
  AllNamed (add_expr e es) = Named e × AllNamed es

unfoldable pub NamedParams : List Param → Type 0
NamedParams [] = Unit
NamedParams ((name, t) ∷ ps) = IsVar name × NamedParams ps

-- Every name that is declared or used in the statement is one too, except that of a function.
unfoldable mutual
  pub NamedStmt : Stmt → Type 0
  NamedStmt null_stmt = Unit
  NamedStmt (let_stmt m var t init) = IsVar var × Named init
  NamedStmt (block_stmt ss) = NamedStmts ss
  NamedStmt (if_stmt c a b) = Named c × NamedStmt a × NamedStmt b
  NamedStmt (expr_stmt e) = Named e
  NamedStmt (for_stmt init range body) = IsVar init × Named range × NamedStmt body
  NamedStmt (while_stmt c body) = Named c × NamedStmt body
  NamedStmt (func_decl name t ps body) = NamedParams ps × NamedStmt body
  NamedStmt (return_stmt e) = Named e

  pub NamedStmts : Stmts → Type 0
  NamedStmts no_stmts = Unit
  NamedStmts (add_stmt s ss) = NamedStmt s × NamedStmts ss

-- A statement of a program: not null, and where it is a function its name is a `VarExpr` with its identifier.
unfoldable pub IsItem : Stmt → Type 0
IsItem null_stmt = ⊥
IsItem (func_decl name t ps body) = IsVar name
IsItem _ = Unit

unfoldable pub AllItems : Stmts → Type 0
AllItems no_stmts = Unit
AllItems (add_stmt s ss) = IsItem s × AllItems ss
